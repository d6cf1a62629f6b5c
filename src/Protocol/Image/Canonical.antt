-- ===== src/Protocol/Image/Canonical.antt =====
-- What is accepted is canonical: image messages.
use bionic_vulkan_bridge.Prelude.{◌≡◌, refl, ok, arith}
use mathlib.Core.Path.{subst}
use bionic_vulkan_bridge.Wire.{Buffer, put_u32, put_u64, get_u32, get_u64}
use bionic_vulkan_bridge.Wire.RoundTrip.{IsBytes}
use bionic_vulkan_bridge.Wire.Canonical.{
  agree_none, put_u32_agree, put_u64_agree, zero_u32_agree, AgreeTo,
}
use bionic_vulkan_bridge.Protocol.{
  zeroed, image_requirements_size, image_requirements_2_request_size,
}
use bionic_vulkan_bridge.Protocol.Image.{
  ImageBindRequest, ImageRequirements, ImageRequirements2Request, decode_image_bind_request,
  decode_image_requirements, decode_image_requirements_2_request, encode_image_bind_request,
  encode_image_requirements, encode_image_requirements_2_request, get_image_bind_request,
  get_image_requirements, get_image_requirements_2_request, put_image_bind_request,
  put_image_requirements, put_image_requirements_2_request,
}

image_requirements_bytes :
    (input out : Buffer)
    → IsBytes input
    → get_u32 input 20 ≡ 0
    → AgreeTo 24 (put_image_requirements out (get_image_requirements input)) input
unfolding put_image_requirements get_image_requirements put_u32 put_u64
image_requirements_bytes input out h z0 =
    let o0 = zeroed out image_requirements_size in
    let o1 = put_u64 o0 0 (get_u64 input 0) in
    let a1 = put_u64_agree o0 input 0 h (agree_none o0 input) in
    let o2 = put_u64 o1 8 (get_u64 input 8) in
    let a2 = put_u64_agree o1 input 8 h a1 in
    let o3 = put_u32 o2 16 (get_u32 input 16) in
    let a3 = put_u32_agree o2 input 16 h a2 in
    let a4 = zero_u32_agree o3 input 20 h z0 (refl, refl, refl, refl) a3 in a4

image_requirements_decoded :
    (input out : Buffer) (x : ImageRequirements)
    → decode_image_requirements input ≡ ok x
    → (get_image_requirements input ≡ x)
      × (encode_image_requirements out x ≡ ok (put_image_requirements out x))
      × (get_u32 input 20 ≡ 0)
unfolding encode_image_requirements decode_image_requirements
image_requirements_decoded input out x e = ground (arith, e)

-- Where decode_image_requirements accepts bytes, encode_image_requirements accepts the message and
-- writes the same bytes.
pub encode_image_requirements-decode_image_requirements :
    (input out : Buffer) (x : ImageRequirements)
    → IsBytes input
    → decode_image_requirements input ≡ ok x
    → (encode_image_requirements out x ≡ ok (put_image_requirements out x))
      × AgreeTo 24 (put_image_requirements out x) input
encode_image_requirements-decode_image_requirements input out x h e =
    let (g, enc, z0) = image_requirements_decoded input out x e in
    (
      enc,
      subst (λ y. AgreeTo 24 (put_image_requirements out y) input) g
          (image_requirements_bytes input out h z0),
    )

image_requirements_2_request_bytes :
    (input out : Buffer)
    → IsBytes input
    → get_u32 input 12 ≡ 0
    → AgreeTo 16
        (put_image_requirements_2_request out (get_image_requirements_2_request input))
        input
unfolding put_image_requirements_2_request get_image_requirements_2_request put_u32 put_u64
image_requirements_2_request_bytes input out h z0 =
    let o0 = zeroed out image_requirements_2_request_size in
    let o1 = put_u64 o0 0 (get_u64 input 0) in
    let a1 = put_u64_agree o0 input 0 h (agree_none o0 input) in
    let o2 = put_u32 o1 8 (get_u32 input 8) in
    let a2 = put_u32_agree o1 input 8 h a1 in
    let a3 = zero_u32_agree o2 input 12 h z0 (refl, refl, refl, refl) a2 in a3

image_requirements_2_request_decoded :
    (input out : Buffer) (x : ImageRequirements2Request)
    → decode_image_requirements_2_request input ≡ ok x
    → (get_image_requirements_2_request input ≡ x)
      × (encode_image_requirements_2_request out x ≡ ok (put_image_requirements_2_request out x))
      × (get_u32 input 12 ≡ 0)
unfolding encode_image_requirements_2_request decode_image_requirements_2_request
image_requirements_2_request_decoded input out x e = ground (arith, e)

-- Where decode_image_requirements_2_request accepts bytes, encode_image_requirements_2_request
-- accepts the message and writes the same bytes.
pub encode_image_requirements_2_request-decode_image_requirements_2_request :
    (input out : Buffer) (x : ImageRequirements2Request)
    → IsBytes input
    → decode_image_requirements_2_request input ≡ ok x
    → (encode_image_requirements_2_request out x ≡ ok (put_image_requirements_2_request out x))
      × AgreeTo 16 (put_image_requirements_2_request out x) input
encode_image_requirements_2_request-decode_image_requirements_2_request input out x h e =
    let (g, enc, z0) = image_requirements_2_request_decoded input out x e in
    (
      enc,
      subst (λ y. AgreeTo 16 (put_image_requirements_2_request out y) input) g
          (image_requirements_2_request_bytes input out h z0),
    )

image_bind_request_bytes :
    (input out : Buffer)
    → IsBytes input
    → AgreeTo 24 (put_image_bind_request out (get_image_bind_request input)) input
unfolding put_image_bind_request get_image_bind_request
image_bind_request_bytes input out h =
    let o0 = out in
    let o1 = put_u64 o0 0 (get_u64 input 0) in
    let a1 = put_u64_agree o0 input 0 h (agree_none o0 input) in
    let o2 = put_u64 o1 8 (get_u64 input 8) in
    let a2 = put_u64_agree o1 input 8 h a1 in
    let o3 = put_u64 o2 16 (get_u64 input 16) in let a3 = put_u64_agree o2 input 16 h a2 in a3

image_bind_request_decoded :
    (input out : Buffer) (x : ImageBindRequest)
    → decode_image_bind_request input ≡ ok x
    → (get_image_bind_request input ≡ x)
      × (encode_image_bind_request out x ≡ ok (put_image_bind_request out x))
unfolding encode_image_bind_request decode_image_bind_request
image_bind_request_decoded input out x e = ground (arith, e)

-- Where decode_image_bind_request accepts bytes, encode_image_bind_request accepts the message and
-- writes the same bytes.
pub encode_image_bind_request-decode_image_bind_request :
    (input out : Buffer) (x : ImageBindRequest)
    → IsBytes input
    → decode_image_bind_request input ≡ ok x
    → (encode_image_bind_request out x ≡ ok (put_image_bind_request out x))
      × AgreeTo 24 (put_image_bind_request out x) input
encode_image_bind_request-decode_image_bind_request input out x h e =
    let (g, enc) = image_bind_request_decoded input out x e in
    (
      enc,
      subst (λ y. AgreeTo 24 (put_image_bind_request out y) input) g
          (image_bind_request_bytes input out h),
    )
