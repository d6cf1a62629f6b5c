-- ===== src/Protocol/DeviceAddress/RoundTrip.antt =====
-- What is encoded is read back: buffer address messages.
use bionic_vulkan_bridge.Prelude.{◌^◌, ◌<◌, ◌≡◌, ok, arith}
use bionic_vulkan_bridge.Wire.{Buffer, put_u32, put_u64, get_u32, get_u64}
use bionic_vulkan_bridge.Wire.RoundTrip.{joined_u64_lem}
use bionic_vulkan_bridge.Protocol.DeviceAddress.{
  BufferDeviceAddressRequest, BufferDeviceAddressResponse, decode_buffer_device_address_request,
  decode_buffer_device_address_response, encode_buffer_device_address_request,
  encode_buffer_device_address_response, get_buffer_device_address_request,
  get_buffer_device_address_response, put_buffer_device_address_request,
  put_buffer_device_address_response,
}

abbrev pub IsBufferDeviceAddressRequest : BufferDeviceAddressRequest → Type 0
IsBufferDeviceAddressRequest x = (x.buffer_id < 2 ^ 64)

get_buffer_device_address_request-put_buffer_device_address_request :
    (out : Buffer) (x : BufferDeviceAddressRequest)
    → IsBufferDeviceAddressRequest x
    → get_buffer_device_address_request (put_buffer_device_address_request out x) ≡ x
unfolding get_buffer_device_address_request put_buffer_device_address_request get_u32 get_u64
    put_u32 put_u64
get_buffer_device_address_request-put_buffer_device_address_request out x h =
    ground (arith, h, joined_u64_lem x.buffer_id)

-- What encode_buffer_device_address_request writes for a message whose fields fit their types,
-- decode_buffer_device_address_request reads back.
pub decode_buffer_device_address_request-encode_buffer_device_address_request :
    (out b : Buffer) (x : BufferDeviceAddressRequest)
    → IsBufferDeviceAddressRequest x
    → encode_buffer_device_address_request out x ≡ ok b
    → decode_buffer_device_address_request b ≡ ok x
unfolding encode_buffer_device_address_request decode_buffer_device_address_request
decode_buffer_device_address_request-encode_buffer_device_address_request out b x h e =
    ground (arith, e, get_buffer_device_address_request-put_buffer_device_address_request out x h)

abbrev pub IsBufferDeviceAddressResponse : BufferDeviceAddressResponse → Type 0
IsBufferDeviceAddressResponse x = (x.device_address < 2 ^ 64)

get_buffer_device_address_response-put_buffer_device_address_response :
    (out : Buffer) (x : BufferDeviceAddressResponse)
    → IsBufferDeviceAddressResponse x
    → get_buffer_device_address_response (put_buffer_device_address_response out x) ≡ x
unfolding get_buffer_device_address_response put_buffer_device_address_response get_u32 get_u64
    put_u32 put_u64
get_buffer_device_address_response-put_buffer_device_address_response out x h =
    ground (arith, h, joined_u64_lem x.device_address)

-- What encode_buffer_device_address_response writes for a message whose fields fit their types,
-- decode_buffer_device_address_response reads back.
pub decode_buffer_device_address_response-encode_buffer_device_address_response :
    (out b : Buffer) (x : BufferDeviceAddressResponse)
    → IsBufferDeviceAddressResponse x
    → encode_buffer_device_address_response out x ≡ ok b
    → decode_buffer_device_address_response b ≡ ok x
unfolding encode_buffer_device_address_response decode_buffer_device_address_response
decode_buffer_device_address_response-encode_buffer_device_address_response out b x h e =
    ground (arith, e, get_buffer_device_address_response-put_buffer_device_address_response out x h)
