-- ===== src/Protocol/DeviceAddress/Canonical.antt =====
-- What is accepted is canonical: buffer address messages.
use bionic_vulkan_bridge.Prelude.{◌≡◌, ok, arith}
use mathlib.Core.Path.{subst}
use bionic_vulkan_bridge.Wire.{Buffer, put_u64, get_u64}
use bionic_vulkan_bridge.Wire.RoundTrip.{IsBytes}
use bionic_vulkan_bridge.Wire.Canonical.{agree_none, put_u64_agree, AgreeTo}
use bionic_vulkan_bridge.Protocol.DeviceAddress.{
  BufferDeviceAddressRequest, BufferDeviceAddressResponse, decode_buffer_device_address_request,
  decode_buffer_device_address_response, encode_buffer_device_address_request,
  encode_buffer_device_address_response, get_buffer_device_address_request,
  get_buffer_device_address_response, put_buffer_device_address_request,
  put_buffer_device_address_response,
}

buffer_device_address_request_bytes :
    (input out : Buffer)
    → IsBytes input
    → AgreeTo 8
        (put_buffer_device_address_request out (get_buffer_device_address_request input))
        input
unfolding put_buffer_device_address_request get_buffer_device_address_request
buffer_device_address_request_bytes input out h =
    let o0 = out in
    let o1 = put_u64 o0 0 (get_u64 input 0) in
    let a1 = put_u64_agree o0 input 0 h (agree_none o0 input) in a1

buffer_device_address_request_decoded :
    (input out : Buffer) (x : BufferDeviceAddressRequest)
    → decode_buffer_device_address_request input ≡ ok x
    → (get_buffer_device_address_request input ≡ x)
      × (encode_buffer_device_address_request out x ≡ ok (put_buffer_device_address_request out x))
unfolding encode_buffer_device_address_request decode_buffer_device_address_request
buffer_device_address_request_decoded input out x e = ground (arith, e)

-- Where decode_buffer_device_address_request accepts bytes, encode_buffer_device_address_request
-- accepts the message and writes the same bytes.
pub encode_buffer_device_address_request-decode_buffer_device_address_request :
    (input out : Buffer) (x : BufferDeviceAddressRequest)
    → IsBytes input
    → decode_buffer_device_address_request input ≡ ok x
    → (encode_buffer_device_address_request out x ≡ ok (put_buffer_device_address_request out x))
      × AgreeTo 8 (put_buffer_device_address_request out x) input
encode_buffer_device_address_request-decode_buffer_device_address_request input out x h e =
    let (g, enc) = buffer_device_address_request_decoded input out x e in
    (
      enc,
      subst (λ y. AgreeTo 8 (put_buffer_device_address_request out y) input) g
          (buffer_device_address_request_bytes input out h),
    )

buffer_device_address_response_bytes :
    (input out : Buffer)
    → IsBytes input
    → AgreeTo 8
        (put_buffer_device_address_response out (get_buffer_device_address_response input))
        input
unfolding put_buffer_device_address_response get_buffer_device_address_response
buffer_device_address_response_bytes input out h =
    let o0 = out in
    let o1 = put_u64 o0 0 (get_u64 input 0) in
    let a1 = put_u64_agree o0 input 0 h (agree_none o0 input) in a1

buffer_device_address_response_decoded :
    (input out : Buffer) (x : BufferDeviceAddressResponse)
    → decode_buffer_device_address_response input ≡ ok x
    → (get_buffer_device_address_response input ≡ x)
      × (encode_buffer_device_address_response out x
          ≡ ok (put_buffer_device_address_response out x))
unfolding encode_buffer_device_address_response decode_buffer_device_address_response
buffer_device_address_response_decoded input out x e = ground (arith, e)

-- Where decode_buffer_device_address_response accepts bytes, encode_buffer_device_address_response
-- accepts the message and writes the same bytes.
pub encode_buffer_device_address_response-decode_buffer_device_address_response :
    (input out : Buffer) (x : BufferDeviceAddressResponse)
    → IsBytes input
    → decode_buffer_device_address_response input ≡ ok x
    → (encode_buffer_device_address_response out x ≡ ok (put_buffer_device_address_response out x))
      × AgreeTo 8 (put_buffer_device_address_response out x) input
encode_buffer_device_address_response-decode_buffer_device_address_response input out x h e =
    let (g, enc) = buffer_device_address_response_decoded input out x e in
    (
      enc,
      subst (λ y. AgreeTo 8 (put_buffer_device_address_response out y) input) g
          (buffer_device_address_response_bytes input out h),
    )
