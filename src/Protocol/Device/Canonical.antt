-- ===== src/Protocol/Device/Canonical.antt =====
-- What is accepted is canonical: device and queue messages.
use bionic_vulkan_bridge.Prelude.{ℕ, ◌≡◌, ok, arith, ℤ}
use mathlib.Core.Path.{subst}
use bionic_vulkan_bridge.Wire.{Buffer, put_u32, put_i32, put_u64, get_u32, get_i32, get_u64}
use bionic_vulkan_bridge.Wire.RoundTrip.{IsBytes}
use bionic_vulkan_bridge.Wire.Canonical.{
  agree_none, put_u32_agree, put_u64_agree, put_i32_agree, AgreeTo,
}
use bionic_vulkan_bridge.Protocol.{
  zeroed, device_extension_query_size, device_create_request_size, device_queue_request_size,
}
use bionic_vulkan_bridge.Protocol.Device.{
  DeviceCreateRequest, DeviceExtensionQuery, DeviceQueueRequest, decode_device_create_request,
  decode_device_extension_query, decode_device_id, decode_device_queue_request, decode_queue_id,
  decode_result, encode_device_create_request, encode_device_extension_query, encode_device_id,
  encode_device_queue_request, encode_queue_id, encode_result, get_device_create_request,
  get_device_extension_query, get_device_id, get_device_queue_request, get_queue_id, get_result,
  put_device_create_request, put_device_extension_query, put_device_id, put_device_queue_request,
  put_queue_id, put_result,
}

device_extension_query_bytes :
    (input out : Buffer)
    → IsBytes input
    → AgreeTo 16 (put_device_extension_query out (get_device_extension_query input)) input
unfolding put_device_extension_query get_device_extension_query
device_extension_query_bytes input out h =
    let o0 = zeroed out device_extension_query_size in
    let o1 = put_u64 o0 0 (get_u64 input 0) in
    let a1 = put_u64_agree o0 input 0 h (agree_none o0 input) in
    let o2 = put_u32 o1 8 (get_u32 input 8) in
    let a2 = put_u32_agree o1 input 8 h a1 in
    let o3 = put_u32 o2 12 (get_u32 input 12) in let a3 = put_u32_agree o2 input 12 h a2 in a3

device_extension_query_decoded :
    (input out : Buffer) (x : DeviceExtensionQuery)
    → decode_device_extension_query input ≡ ok x
    → (get_device_extension_query input ≡ x)
      × (encode_device_extension_query out x ≡ ok (put_device_extension_query out x))
unfolding encode_device_extension_query decode_device_extension_query
device_extension_query_decoded input out x e = ground (arith, e)

-- Where decode_device_extension_query accepts bytes, encode_device_extension_query accepts the
-- message and writes the same bytes.
pub encode_device_extension_query-decode_device_extension_query :
    (input out : Buffer) (x : DeviceExtensionQuery)
    → IsBytes input
    → decode_device_extension_query input ≡ ok x
    → (encode_device_extension_query out x ≡ ok (put_device_extension_query out x))
      × AgreeTo 16 (put_device_extension_query out x) input
encode_device_extension_query-decode_device_extension_query input out x h e =
    let (g, enc) = device_extension_query_decoded input out x e in
    (
      enc,
      subst (λ y. AgreeTo 16 (put_device_extension_query out y) input) g
          (device_extension_query_bytes input out h),
    )

device_create_request_bytes :
    (input out : Buffer)
    → IsBytes input
    → AgreeTo 32 (put_device_create_request out (get_device_create_request input)) input
unfolding put_device_create_request get_device_create_request
device_create_request_bytes input out h =
    let o0 = zeroed out device_create_request_size in
    let o1 = put_u64 o0 0 (get_u64 input 0) in
    let a1 = put_u64_agree o0 input 0 h (agree_none o0 input) in
    let o2 = put_u32 o1 8 (get_u32 input 8) in
    let a2 = put_u32_agree o1 input 8 h a1 in
    let o3 = put_u32 o2 12 (get_u32 input 12) in
    let a3 = put_u32_agree o2 input 12 h a2 in
    let o4 = put_u32 o3 16 (get_u32 input 16) in
    let a4 = put_u32_agree o3 input 16 h a3 in
    let o5 = put_u32 o4 20 (get_u32 input 20) in
    let a5 = put_u32_agree o4 input 20 h a4 in
    let o6 = put_u32 o5 24 (get_u32 input 24) in
    let a6 = put_u32_agree o5 input 24 h a5 in
    let o7 = put_u32 o6 28 (get_u32 input 28) in let a7 = put_u32_agree o6 input 28 h a6 in a7

device_create_request_decoded :
    (input out : Buffer) (x : DeviceCreateRequest)
    → decode_device_create_request input ≡ ok x
    → (get_device_create_request input ≡ x)
      × (encode_device_create_request out x ≡ ok (put_device_create_request out x))
unfolding encode_device_create_request decode_device_create_request
device_create_request_decoded input out x e = ground (arith, e)

-- Where decode_device_create_request accepts bytes, encode_device_create_request accepts the
-- message and writes the same bytes.
pub encode_device_create_request-decode_device_create_request :
    (input out : Buffer) (x : DeviceCreateRequest)
    → IsBytes input
    → decode_device_create_request input ≡ ok x
    → (encode_device_create_request out x ≡ ok (put_device_create_request out x))
      × AgreeTo 32 (put_device_create_request out x) input
encode_device_create_request-decode_device_create_request input out x h e =
    let (g, enc) = device_create_request_decoded input out x e in
    (
      enc,
      subst (λ y. AgreeTo 32 (put_device_create_request out y) input) g
          (device_create_request_bytes input out h),
    )

device_id_bytes :
    (input out : Buffer) → IsBytes input → AgreeTo 8 (put_device_id out (get_device_id input)) input
unfolding put_device_id get_device_id
device_id_bytes input out h =
    let o0 = out in
    let o1 = put_u64 o0 0 (get_u64 input 0) in
    let a1 = put_u64_agree o0 input 0 h (agree_none o0 input) in a1

device_id_decoded :
    (input out : Buffer) (x : ℕ)
    → decode_device_id input ≡ ok x
    → (get_device_id input ≡ x) × (encode_device_id out x ≡ ok (put_device_id out x))
unfolding encode_device_id decode_device_id
device_id_decoded input out x e = ground (arith, e)

-- Where decode_device_id accepts bytes, encode_device_id accepts the message and writes the same
-- bytes.
pub encode_device_id-decode_device_id :
    (input out : Buffer) (x : ℕ)
    → IsBytes input
    → decode_device_id input ≡ ok x
    → (encode_device_id out x ≡ ok (put_device_id out x)) × AgreeTo 8 (put_device_id out x) input
encode_device_id-decode_device_id input out x h e =
    let (g, enc) = device_id_decoded input out x e in
    (enc, subst (λ y. AgreeTo 8 (put_device_id out y) input) g (device_id_bytes input out h))

device_queue_request_bytes :
    (input out : Buffer)
    → IsBytes input
    → AgreeTo 16 (put_device_queue_request out (get_device_queue_request input)) input
unfolding put_device_queue_request get_device_queue_request
device_queue_request_bytes input out h =
    let o0 = zeroed out device_queue_request_size in
    let o1 = put_u64 o0 0 (get_u64 input 0) in
    let a1 = put_u64_agree o0 input 0 h (agree_none o0 input) in
    let o2 = put_u32 o1 8 (get_u32 input 8) in
    let a2 = put_u32_agree o1 input 8 h a1 in
    let o3 = put_u32 o2 12 (get_u32 input 12) in let a3 = put_u32_agree o2 input 12 h a2 in a3

device_queue_request_decoded :
    (input out : Buffer) (x : DeviceQueueRequest)
    → decode_device_queue_request input ≡ ok x
    → (get_device_queue_request input ≡ x)
      × (encode_device_queue_request out x ≡ ok (put_device_queue_request out x))
unfolding encode_device_queue_request decode_device_queue_request
device_queue_request_decoded input out x e = ground (arith, e)

-- Where decode_device_queue_request accepts bytes, encode_device_queue_request accepts the message
-- and writes the same bytes.
pub encode_device_queue_request-decode_device_queue_request :
    (input out : Buffer) (x : DeviceQueueRequest)
    → IsBytes input
    → decode_device_queue_request input ≡ ok x
    → (encode_device_queue_request out x ≡ ok (put_device_queue_request out x))
      × AgreeTo 16 (put_device_queue_request out x) input
encode_device_queue_request-decode_device_queue_request input out x h e =
    let (g, enc) = device_queue_request_decoded input out x e in
    (
      enc,
      subst (λ y. AgreeTo 16 (put_device_queue_request out y) input) g
          (device_queue_request_bytes input out h),
    )

queue_id_bytes :
    (input out : Buffer) → IsBytes input → AgreeTo 8 (put_queue_id out (get_queue_id input)) input
unfolding put_queue_id get_queue_id
queue_id_bytes input out h =
    let o0 = out in
    let o1 = put_u64 o0 0 (get_u64 input 0) in
    let a1 = put_u64_agree o0 input 0 h (agree_none o0 input) in a1

queue_id_decoded :
    (input out : Buffer) (x : ℕ)
    → decode_queue_id input ≡ ok x
    → (get_queue_id input ≡ x) × (encode_queue_id out x ≡ ok (put_queue_id out x))
unfolding encode_queue_id decode_queue_id
queue_id_decoded input out x e = ground (arith, e)

-- Where decode_queue_id accepts bytes, encode_queue_id accepts the message and writes the same
-- bytes.
pub encode_queue_id-decode_queue_id :
    (input out : Buffer) (x : ℕ)
    → IsBytes input
    → decode_queue_id input ≡ ok x
    → (encode_queue_id out x ≡ ok (put_queue_id out x)) × AgreeTo 8 (put_queue_id out x) input
encode_queue_id-decode_queue_id input out x h e =
    let (g, enc) = queue_id_decoded input out x e in
    (enc, subst (λ y. AgreeTo 8 (put_queue_id out y) input) g (queue_id_bytes input out h))

result_bytes :
    (input out : Buffer) → IsBytes input → AgreeTo 4 (put_result out (get_result input)) input
unfolding put_result get_result
result_bytes input out h =
    let o0 = out in
    let o1 = put_i32 o0 0 (get_i32 input 0) in
    let a1 = put_i32_agree o0 input 0 h (agree_none o0 input) in a1

result_decoded :
    (input out : Buffer) (x : ℤ)
    → decode_result input ≡ ok x
    → (get_result input ≡ x) × (encode_result out x ≡ ok (put_result out x))
unfolding encode_result decode_result
result_decoded input out x e = ground (arith, e)

-- Where decode_result accepts bytes, encode_result accepts the message and writes the same bytes.
pub encode_result-decode_result :
    (input out : Buffer) (x : ℤ)
    → IsBytes input
    → decode_result input ≡ ok x
    → (encode_result out x ≡ ok (put_result out x)) × AgreeTo 4 (put_result out x) input
encode_result-decode_result input out x h e =
    let (g, enc) = result_decoded input out x e in
    (enc, subst (λ y. AgreeTo 4 (put_result out y) input) g (result_bytes input out h))
