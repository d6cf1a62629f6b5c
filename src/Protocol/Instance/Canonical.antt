-- ===== src/Protocol/Instance/Canonical.antt =====
-- What is accepted is canonical: instance and physical device messages.
use bionic_vulkan_bridge.Prelude.{ℕ, ◌≡◌, refl, ok, arith}
use mathlib.Core.Path.{subst}
use bionic_vulkan_bridge.Wire.{Buffer, put_u32, put_i32, put_u64, get_u32, get_i32, get_u64}
use bionic_vulkan_bridge.Wire.RoundTrip.{IsBytes}
use bionic_vulkan_bridge.Wire.Canonical.{
  agree_none, put_u32_agree, put_u64_agree, put_i32_agree, zero_u32_agree, AgreeTo,
}
use bionic_vulkan_bridge.Protocol.{zeroed, global_info_size, instance_create_response_size}
use bionic_vulkan_bridge.Protocol.Instance.{
  GlobalInfo, InstanceCreateRequest, InstanceCreateResponse, decode_global_info,
  decode_instance_create_request, decode_instance_create_response, decode_instance_id,
  decode_physical_device_id, encode_global_info, encode_instance_create_request,
  encode_instance_create_response, encode_instance_id, encode_physical_device_id, get_global_info,
  get_instance_create_request, get_instance_create_response, get_instance_id,
  get_physical_device_id, put_global_info, put_instance_create_request,
  put_instance_create_response, put_instance_id, put_physical_device_id,
}

global_info_bytes :
    (input out : Buffer)
    → IsBytes input
    → get_u32 input 20 ≡ 0
    → AgreeTo 24 (put_global_info out (get_global_info input)) input
unfolding put_global_info get_global_info put_u32
global_info_bytes input out h z0 =
    let o0 = zeroed out global_info_size in
    let o1 = put_u32 o0 0 (get_u32 input 0) in
    let a1 = put_u32_agree o0 input 0 h (agree_none o0 input) in
    let o2 = put_u32 o1 4 (get_u32 input 4) in
    let a2 = put_u32_agree o1 input 4 h a1 in
    let o3 = put_u32 o2 8 (get_u32 input 8) in
    let a3 = put_u32_agree o2 input 8 h a2 in
    let o4 = put_u32 o3 12 (get_u32 input 12) in
    let a4 = put_u32_agree o3 input 12 h a3 in
    let o5 = put_u32 o4 16 (get_u32 input 16) in
    let a5 = put_u32_agree o4 input 16 h a4 in
    let a6 = zero_u32_agree o5 input 20 h z0 (refl, refl, refl, refl) a5 in a6

global_info_decoded :
    (input out : Buffer) (x : GlobalInfo)
    → decode_global_info input ≡ ok x
    → (get_global_info input ≡ x)
      × (encode_global_info out x ≡ ok (put_global_info out x))
      × (get_u32 input 20 ≡ 0)
unfolding encode_global_info decode_global_info
global_info_decoded input out x e = ground (arith, e)

-- Where decode_global_info accepts bytes, encode_global_info accepts the message and writes the
-- same bytes.
pub encode_global_info-decode_global_info :
    (input out : Buffer) (x : GlobalInfo)
    → IsBytes input
    → decode_global_info input ≡ ok x
    → (encode_global_info out x ≡ ok (put_global_info out x))
      × AgreeTo 24 (put_global_info out x) input
encode_global_info-decode_global_info input out x h e =
    let (g, enc, z0) = global_info_decoded input out x e in
    (
      enc,
      subst (λ y. AgreeTo 24 (put_global_info out y) input) g (global_info_bytes input out h z0),
    )

instance_create_request_bytes :
    (input out : Buffer)
    → IsBytes input
    → AgreeTo 16 (put_instance_create_request out (get_instance_create_request input)) input
unfolding put_instance_create_request get_instance_create_request
instance_create_request_bytes input out h =
    let o0 = out in
    let o1 = put_u32 o0 0 (get_u32 input 0) in
    let a1 = put_u32_agree o0 input 0 h (agree_none o0 input) in
    let o2 = put_u32 o1 4 (get_u32 input 4) in
    let a2 = put_u32_agree o1 input 4 h a1 in
    let o3 = put_u32 o2 8 (get_u32 input 8) in
    let a3 = put_u32_agree o2 input 8 h a2 in
    let o4 = put_u32 o3 12 (get_u32 input 12) in let a4 = put_u32_agree o3 input 12 h a3 in a4

instance_create_request_decoded :
    (input out : Buffer) (x : InstanceCreateRequest)
    → decode_instance_create_request input ≡ ok x
    → (get_instance_create_request input ≡ x)
      × (encode_instance_create_request out x ≡ ok (put_instance_create_request out x))
unfolding encode_instance_create_request decode_instance_create_request
instance_create_request_decoded input out x e = ground (arith, e)

-- Where decode_instance_create_request accepts bytes, encode_instance_create_request accepts the
-- message and writes the same bytes.
pub encode_instance_create_request-decode_instance_create_request :
    (input out : Buffer) (x : InstanceCreateRequest)
    → IsBytes input
    → decode_instance_create_request input ≡ ok x
    → (encode_instance_create_request out x ≡ ok (put_instance_create_request out x))
      × AgreeTo 16 (put_instance_create_request out x) input
encode_instance_create_request-decode_instance_create_request input out x h e =
    let (g, enc) = instance_create_request_decoded input out x e in
    (
      enc,
      subst (λ y. AgreeTo 16 (put_instance_create_request out y) input) g
          (instance_create_request_bytes input out h),
    )

instance_create_response_bytes :
    (input out : Buffer)
    → IsBytes input
    → get_u32 input 4 ≡ 0
    → AgreeTo 16 (put_instance_create_response out (get_instance_create_response input)) input
unfolding put_instance_create_response get_instance_create_response put_i32 put_u32 put_u64
instance_create_response_bytes input out h z0 =
    let o0 = zeroed out instance_create_response_size in
    let o1 = put_i32 o0 0 (get_i32 input 0) in
    let a1 = put_i32_agree o0 input 0 h (agree_none o0 input) in
    let a2 = zero_u32_agree o1 input 4 h z0 (refl, refl, refl, refl) a1 in
    let o3 = put_u64 o1 8 (get_u64 input 8) in let a3 = put_u64_agree o1 input 8 h a2 in a3

instance_create_response_decoded :
    (input out : Buffer) (x : InstanceCreateResponse)
    → decode_instance_create_response input ≡ ok x
    → (get_instance_create_response input ≡ x)
      × (encode_instance_create_response out x ≡ ok (put_instance_create_response out x))
      × (get_u32 input 4 ≡ 0)
unfolding encode_instance_create_response decode_instance_create_response
instance_create_response_decoded input out x e = ground (arith, e)

-- Where decode_instance_create_response accepts bytes, encode_instance_create_response accepts the
-- message and writes the same bytes.
pub encode_instance_create_response-decode_instance_create_response :
    (input out : Buffer) (x : InstanceCreateResponse)
    → IsBytes input
    → decode_instance_create_response input ≡ ok x
    → (encode_instance_create_response out x ≡ ok (put_instance_create_response out x))
      × AgreeTo 16 (put_instance_create_response out x) input
encode_instance_create_response-decode_instance_create_response input out x h e =
    let (g, enc, z0) = instance_create_response_decoded input out x e in
    (
      enc,
      subst (λ y. AgreeTo 16 (put_instance_create_response out y) input) g
          (instance_create_response_bytes input out h z0),
    )

instance_id_bytes :
    (input out : Buffer)
    → IsBytes input
    → AgreeTo 8 (put_instance_id out (get_instance_id input)) input
unfolding put_instance_id get_instance_id
instance_id_bytes input out h =
    let o0 = out in
    let o1 = put_u64 o0 0 (get_u64 input 0) in
    let a1 = put_u64_agree o0 input 0 h (agree_none o0 input) in a1

instance_id_decoded :
    (input out : Buffer) (x : ℕ)
    → decode_instance_id input ≡ ok x
    → (get_instance_id input ≡ x) × (encode_instance_id out x ≡ ok (put_instance_id out x))
unfolding encode_instance_id decode_instance_id
instance_id_decoded input out x e = ground (arith, e)

-- Where decode_instance_id accepts bytes, encode_instance_id accepts the message and writes the
-- same bytes.
pub encode_instance_id-decode_instance_id :
    (input out : Buffer) (x : ℕ)
    → IsBytes input
    → decode_instance_id input ≡ ok x
    → (encode_instance_id out x ≡ ok (put_instance_id out x))
      × AgreeTo 8 (put_instance_id out x) input
encode_instance_id-decode_instance_id input out x h e =
    let (g, enc) = instance_id_decoded input out x e in
    (enc, subst (λ y. AgreeTo 8 (put_instance_id out y) input) g (instance_id_bytes input out h))

physical_device_id_bytes :
    (input out : Buffer)
    → IsBytes input
    → AgreeTo 8 (put_physical_device_id out (get_physical_device_id input)) input
unfolding put_physical_device_id get_physical_device_id
physical_device_id_bytes input out h =
    let o0 = out in
    let o1 = put_u64 o0 0 (get_u64 input 0) in
    let a1 = put_u64_agree o0 input 0 h (agree_none o0 input) in a1

physical_device_id_decoded :
    (input out : Buffer) (x : ℕ)
    → decode_physical_device_id input ≡ ok x
    → (get_physical_device_id input ≡ x)
      × (encode_physical_device_id out x ≡ ok (put_physical_device_id out x))
unfolding encode_physical_device_id decode_physical_device_id
physical_device_id_decoded input out x e = ground (arith, e)

-- Where decode_physical_device_id accepts bytes, encode_physical_device_id accepts the message and
-- writes the same bytes.
pub encode_physical_device_id-decode_physical_device_id :
    (input out : Buffer) (x : ℕ)
    → IsBytes input
    → decode_physical_device_id input ≡ ok x
    → (encode_physical_device_id out x ≡ ok (put_physical_device_id out x))
      × AgreeTo 8 (put_physical_device_id out x) input
encode_physical_device_id-decode_physical_device_id input out x h e =
    let (g, enc) = physical_device_id_decoded input out x e in
    (
      enc,
      subst (λ y. AgreeTo 8 (put_physical_device_id out y) input) g
          (physical_device_id_bytes input out h),
    )
