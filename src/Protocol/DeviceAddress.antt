-- ===== src/Protocol/DeviceAddress.antt =====
-- The buffer address messages of src/protocol.c: what encode stores (put), what decode reads
-- (get), and the two with their checks. Reading needs no output; a rejected input has no value.
pub mod RoundTrip
pub mod Canonical
use bionic_vulkan_bridge.Prelude.{ℕ, not, ◌==◌, if◌then◌else◌, Result, ok, err, einval, eproto}
use bionic_vulkan_bridge.Wire.{Buffer, put_u64, get_u64}
use bionic_vulkan_bridge.Protocol.{wire_id_is_type, object_buffer}

pub record BufferDeviceAddressRequest : Type 0 where
  pub buffer_id : ℕ

pub put_buffer_device_address_request : Buffer → BufferDeviceAddressRequest → Buffer
put_buffer_device_address_request output request = put_u64 output 0 request.buffer_id

pub encode_buffer_device_address_request : Buffer → BufferDeviceAddressRequest → Result Buffer
encode_buffer_device_address_request output request =
    if not (wire_id_is_type request.buffer_id object_buffer)
    then err einval
    else ok (put_buffer_device_address_request output request)

pub get_buffer_device_address_request : Buffer → BufferDeviceAddressRequest
get_buffer_device_address_request input = record { buffer_id = get_u64 input 0 }

pub decode_buffer_device_address_request : Buffer → Result BufferDeviceAddressRequest
decode_buffer_device_address_request input =
    let request = get_buffer_device_address_request input in
    if not (wire_id_is_type request.buffer_id object_buffer) then err eproto else ok request

pub record BufferDeviceAddressResponse : Type 0 where
  pub device_address : ℕ

pub put_buffer_device_address_response : Buffer → BufferDeviceAddressResponse → Buffer
put_buffer_device_address_response output response = put_u64 output 0 response.device_address

pub encode_buffer_device_address_response : Buffer → BufferDeviceAddressResponse → Result Buffer
encode_buffer_device_address_response output response =
    if response.device_address == 0
    then err einval
    else ok (put_buffer_device_address_response output response)

pub get_buffer_device_address_response : Buffer → BufferDeviceAddressResponse
get_buffer_device_address_response input = record { device_address = get_u64 input 0 }

pub decode_buffer_device_address_response : Buffer → Result BufferDeviceAddressResponse
decode_buffer_device_address_response input =
    let response = get_buffer_device_address_response input in
    if response.device_address == 0 then err eproto else ok response
