-- ===== src/Protocol/BufferObject/Canonical.antt =====
-- What is accepted is canonical: buffer messages.
use bionic_vulkan_bridge.Prelude.{ℕ, ◌≡◌, refl, ok, arith}
use mathlib.Core.Path.{subst}
use bionic_vulkan_bridge.Wire.{Buffer, put_u32, put_i32, put_u64, get_u32, get_i32, get_u64}
use bionic_vulkan_bridge.Wire.RoundTrip.{IsBytes}
use bionic_vulkan_bridge.Wire.Canonical.{
  agree_none, put_u32_agree, put_u64_agree, put_i32_agree, zero_u32_agree, AgreeTo,
}
use bionic_vulkan_bridge.Protocol.{
  zeroed, object_create_response_size, buffer_requirements_size, buffer_requirements_2_request_size,
}
use bionic_vulkan_bridge.Protocol.BufferObject.{
  BufferBindRequest, BufferRequirements, BufferRequirements2Request, ObjectCreateResponse,
  decode_buffer_bind_request, decode_buffer_requirements, decode_buffer_requirements_2_request,
  decode_object_create_response, encode_buffer_bind_request, encode_buffer_requirements,
  encode_buffer_requirements_2_request, encode_object_create_response, get_buffer_bind_request,
  get_buffer_requirements, get_buffer_requirements_2_request, get_object_create_response,
  put_buffer_bind_request, put_buffer_requirements, put_buffer_requirements_2_request,
  put_object_create_response,
}

object_create_response_bytes :
    (input out : Buffer)
    → IsBytes input
    → get_u32 input 4 ≡ 0
    → AgreeTo 16 (put_object_create_response out (get_object_create_response input)) input
unfolding put_object_create_response get_object_create_response put_i32 put_u32 put_u64
object_create_response_bytes input out h z0 =
    let o0 = zeroed out object_create_response_size in
    let o1 = put_i32 o0 0 (get_i32 input 0) in
    let a1 = put_i32_agree o0 input 0 h (agree_none o0 input) in
    let a2 = zero_u32_agree o1 input 4 h z0 (refl, refl, refl, refl) a1 in
    let o3 = put_u64 o1 8 (get_u64 input 8) in let a3 = put_u64_agree o1 input 8 h a2 in a3

object_create_response_decoded :
    (input out : Buffer) (x : ObjectCreateResponse) (expected_type : ℕ)
    → decode_object_create_response input expected_type ≡ ok x
    → (get_object_create_response input ≡ x)
      × (encode_object_create_response out x expected_type ≡ ok (put_object_create_response out x))
      × (get_u32 input 4 ≡ 0)
unfolding encode_object_create_response decode_object_create_response
object_create_response_decoded input out x expected_type e = ground (arith, e)

-- Where decode_object_create_response accepts bytes, encode_object_create_response accepts the
-- message and writes the same bytes.
pub encode_object_create_response-decode_object_create_response :
    (input out : Buffer) (x : ObjectCreateResponse) (expected_type : ℕ)
    → IsBytes input
    → decode_object_create_response input expected_type ≡ ok x
    → (encode_object_create_response out x expected_type ≡ ok (put_object_create_response out x))
      × AgreeTo 16 (put_object_create_response out x) input
encode_object_create_response-decode_object_create_response input out x expected_type h e =
    let (g, enc, z0) = object_create_response_decoded input out x expected_type e in
    (
      enc,
      subst (λ y. AgreeTo 16 (put_object_create_response out y) input) g
          (object_create_response_bytes input out h z0),
    )

buffer_requirements_bytes :
    (input out : Buffer)
    → IsBytes input
    → get_u32 input 20 ≡ 0
    → AgreeTo 24 (put_buffer_requirements out (get_buffer_requirements input)) input
unfolding put_buffer_requirements get_buffer_requirements put_u32 put_u64
buffer_requirements_bytes input out h z0 =
    let o0 = zeroed out buffer_requirements_size in
    let o1 = put_u64 o0 0 (get_u64 input 0) in
    let a1 = put_u64_agree o0 input 0 h (agree_none o0 input) in
    let o2 = put_u64 o1 8 (get_u64 input 8) in
    let a2 = put_u64_agree o1 input 8 h a1 in
    let o3 = put_u32 o2 16 (get_u32 input 16) in
    let a3 = put_u32_agree o2 input 16 h a2 in
    let a4 = zero_u32_agree o3 input 20 h z0 (refl, refl, refl, refl) a3 in a4

buffer_requirements_decoded :
    (input out : Buffer) (x : BufferRequirements)
    → decode_buffer_requirements input ≡ ok x
    → (get_buffer_requirements input ≡ x)
      × (encode_buffer_requirements out x ≡ ok (put_buffer_requirements out x))
      × (get_u32 input 20 ≡ 0)
unfolding encode_buffer_requirements decode_buffer_requirements
buffer_requirements_decoded input out x e = ground (arith, e)

-- Where decode_buffer_requirements accepts bytes, encode_buffer_requirements accepts the message
-- and writes the same bytes.
pub encode_buffer_requirements-decode_buffer_requirements :
    (input out : Buffer) (x : BufferRequirements)
    → IsBytes input
    → decode_buffer_requirements input ≡ ok x
    → (encode_buffer_requirements out x ≡ ok (put_buffer_requirements out x))
      × AgreeTo 24 (put_buffer_requirements out x) input
encode_buffer_requirements-decode_buffer_requirements input out x h e =
    let (g, enc, z0) = buffer_requirements_decoded input out x e in
    (
      enc,
      subst (λ y. AgreeTo 24 (put_buffer_requirements out y) input) g
          (buffer_requirements_bytes input out h z0),
    )

buffer_requirements_2_request_bytes :
    (input out : Buffer)
    → IsBytes input
    → get_u32 input 12 ≡ 0
    → AgreeTo 16
        (put_buffer_requirements_2_request out (get_buffer_requirements_2_request input))
        input
unfolding put_buffer_requirements_2_request get_buffer_requirements_2_request put_u32 put_u64
buffer_requirements_2_request_bytes input out h z0 =
    let o0 = zeroed out buffer_requirements_2_request_size in
    let o1 = put_u64 o0 0 (get_u64 input 0) in
    let a1 = put_u64_agree o0 input 0 h (agree_none o0 input) in
    let o2 = put_u32 o1 8 (get_u32 input 8) in
    let a2 = put_u32_agree o1 input 8 h a1 in
    let a3 = zero_u32_agree o2 input 12 h z0 (refl, refl, refl, refl) a2 in a3

buffer_requirements_2_request_decoded :
    (input out : Buffer) (x : BufferRequirements2Request)
    → decode_buffer_requirements_2_request input ≡ ok x
    → (get_buffer_requirements_2_request input ≡ x)
      × (encode_buffer_requirements_2_request out x ≡ ok (put_buffer_requirements_2_request out x))
      × (get_u32 input 12 ≡ 0)
unfolding encode_buffer_requirements_2_request decode_buffer_requirements_2_request
buffer_requirements_2_request_decoded input out x e = ground (arith, e)

-- Where decode_buffer_requirements_2_request accepts bytes, encode_buffer_requirements_2_request
-- accepts the message and writes the same bytes.
pub encode_buffer_requirements_2_request-decode_buffer_requirements_2_request :
    (input out : Buffer) (x : BufferRequirements2Request)
    → IsBytes input
    → decode_buffer_requirements_2_request input ≡ ok x
    → (encode_buffer_requirements_2_request out x ≡ ok (put_buffer_requirements_2_request out x))
      × AgreeTo 16 (put_buffer_requirements_2_request out x) input
encode_buffer_requirements_2_request-decode_buffer_requirements_2_request input out x h e =
    let (g, enc, z0) = buffer_requirements_2_request_decoded input out x e in
    (
      enc,
      subst (λ y. AgreeTo 16 (put_buffer_requirements_2_request out y) input) g
          (buffer_requirements_2_request_bytes input out h z0),
    )

buffer_bind_request_bytes :
    (input out : Buffer)
    → IsBytes input
    → AgreeTo 24 (put_buffer_bind_request out (get_buffer_bind_request input)) input
unfolding put_buffer_bind_request get_buffer_bind_request
buffer_bind_request_bytes input out h =
    let o0 = out in
    let o1 = put_u64 o0 0 (get_u64 input 0) in
    let a1 = put_u64_agree o0 input 0 h (agree_none o0 input) in
    let o2 = put_u64 o1 8 (get_u64 input 8) in
    let a2 = put_u64_agree o1 input 8 h a1 in
    let o3 = put_u64 o2 16 (get_u64 input 16) in let a3 = put_u64_agree o2 input 16 h a2 in a3

buffer_bind_request_decoded :
    (input out : Buffer) (x : BufferBindRequest)
    → decode_buffer_bind_request input ≡ ok x
    → (get_buffer_bind_request input ≡ x)
      × (encode_buffer_bind_request out x ≡ ok (put_buffer_bind_request out x))
unfolding encode_buffer_bind_request decode_buffer_bind_request
buffer_bind_request_decoded input out x e = ground (arith, e)

-- Where decode_buffer_bind_request accepts bytes, encode_buffer_bind_request accepts the message
-- and writes the same bytes.
pub encode_buffer_bind_request-decode_buffer_bind_request :
    (input out : Buffer) (x : BufferBindRequest)
    → IsBytes input
    → decode_buffer_bind_request input ≡ ok x
    → (encode_buffer_bind_request out x ≡ ok (put_buffer_bind_request out x))
      × AgreeTo 24 (put_buffer_bind_request out x) input
encode_buffer_bind_request-decode_buffer_bind_request input out x h e =
    let (g, enc) = buffer_bind_request_decoded input out x e in
    (
      enc,
      subst (λ y. AgreeTo 24 (put_buffer_bind_request out y) input) g
          (buffer_bind_request_bytes input out h),
    )
