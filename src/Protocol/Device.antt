-- ===== src/Protocol/Device.antt =====
-- The device and queue messages of src/protocol.c: what encode stores (put), what decode reads
-- (get), and the two with their checks. Reading needs no output; a rejected input has no value.
pub mod RoundTrip
pub mod Canonical
use bionic_vulkan_bridge.Prelude.{ℕ, not, if◌then◌else◌, Result, ok, err, einval, eproto, ℤ}
use bionic_vulkan_bridge.Wire.{Buffer, put_u32, put_i32, put_u64, get_u32, get_i32, get_u64}
use bionic_vulkan_bridge.Protocol.{
  wire_id_is_type, zeroed, device_extension_query_size, device_create_request_size,
  device_queue_request_size,
}

pub record DeviceExtensionQuery : Type 0 where
  pub physical_device_id : ℕ
  pub first : ℕ
  pub max_count : ℕ

pub put_device_extension_query : Buffer → DeviceExtensionQuery → Buffer
put_device_extension_query output query =
    let output = zeroed output device_extension_query_size in
    let output = put_u64 output 0 query.physical_device_id in
    let output = put_u32 output 8 query.first in put_u32 output 12 query.max_count

pub encode_device_extension_query : Buffer → DeviceExtensionQuery → Result Buffer
encode_device_extension_query output query =
    if not (wire_id_is_type query.physical_device_id 2)
    then err einval
    else ok (put_device_extension_query output query)

pub get_device_extension_query : Buffer → DeviceExtensionQuery
get_device_extension_query input = record {
  physical_device_id = get_u64 input 0;
  first = get_u32 input 8;
  max_count = get_u32 input 12;
}

pub decode_device_extension_query : Buffer → Result DeviceExtensionQuery
decode_device_extension_query input =
    let query = get_device_extension_query input in
    if not (wire_id_is_type query.physical_device_id 2) then err eproto else ok query

pub record DeviceCreateRequest : Type 0 where
  pub physical_device_id : ℕ
  pub flags : ℕ
  pub queue_family_index : ℕ
  pub queue_count : ℕ
  pub queue_priority_bits : ℕ
  pub enabled_layer_count : ℕ
  pub enabled_extension_count : ℕ

pub put_device_create_request : Buffer → DeviceCreateRequest → Buffer
put_device_create_request output request =
    let output = zeroed output device_create_request_size in
    let output = put_u64 output 0 request.physical_device_id in
    let output = put_u32 output 8 request.flags in
    let output = put_u32 output 12 request.queue_family_index in
    let output = put_u32 output 16 request.queue_count in
    let output = put_u32 output 20 request.queue_priority_bits in
    let output = put_u32 output 24 request.enabled_layer_count in
    put_u32 output 28 request.enabled_extension_count

pub encode_device_create_request : Buffer → DeviceCreateRequest → Result Buffer
encode_device_create_request output request =
    if not (wire_id_is_type request.physical_device_id 2)
    then err einval
    else ok (put_device_create_request output request)

pub get_device_create_request : Buffer → DeviceCreateRequest
get_device_create_request input = record {
  physical_device_id = get_u64 input 0;
  flags = get_u32 input 8;
  queue_family_index = get_u32 input 12;
  queue_count = get_u32 input 16;
  queue_priority_bits = get_u32 input 20;
  enabled_layer_count = get_u32 input 24;
  enabled_extension_count = get_u32 input 28;
}

pub decode_device_create_request : Buffer → Result DeviceCreateRequest
decode_device_create_request input =
    let request = get_device_create_request input in
    if not (wire_id_is_type request.physical_device_id 2) then err eproto else ok request

pub put_device_id : Buffer → ℕ → Buffer
put_device_id output device_id = put_u64 output 0 device_id

pub encode_device_id : Buffer → ℕ → Result Buffer
encode_device_id output device_id =
    if not (wire_id_is_type device_id 3) then err einval else ok (put_device_id output device_id)

pub get_device_id : Buffer → ℕ
get_device_id input = get_u64 input 0

pub decode_device_id : Buffer → Result ℕ
decode_device_id input =
    let device_id = get_device_id input in
    if not (wire_id_is_type device_id 3) then err eproto else ok device_id

pub record DeviceQueueRequest : Type 0 where
  pub device_id : ℕ
  pub queue_family_index : ℕ
  pub queue_index : ℕ

pub put_device_queue_request : Buffer → DeviceQueueRequest → Buffer
put_device_queue_request output request =
    let output = zeroed output device_queue_request_size in
    let output = put_u64 output 0 request.device_id in
    let output = put_u32 output 8 request.queue_family_index in
    put_u32 output 12 request.queue_index

pub encode_device_queue_request : Buffer → DeviceQueueRequest → Result Buffer
encode_device_queue_request output request =
    if not (wire_id_is_type request.device_id 3)
    then err einval
    else ok (put_device_queue_request output request)

pub get_device_queue_request : Buffer → DeviceQueueRequest
get_device_queue_request input = record {
  device_id = get_u64 input 0;
  queue_family_index = get_u32 input 8;
  queue_index = get_u32 input 12;
}

pub decode_device_queue_request : Buffer → Result DeviceQueueRequest
decode_device_queue_request input =
    let request = get_device_queue_request input in
    if not (wire_id_is_type request.device_id 3) then err eproto else ok request

pub put_queue_id : Buffer → ℕ → Buffer
put_queue_id output queue_id = put_u64 output 0 queue_id

pub encode_queue_id : Buffer → ℕ → Result Buffer
encode_queue_id output queue_id =
    if not (wire_id_is_type queue_id 4) then err einval else ok (put_queue_id output queue_id)

pub get_queue_id : Buffer → ℕ
get_queue_id input = get_u64 input 0

pub decode_queue_id : Buffer → Result ℕ
decode_queue_id input =
    let queue_id = get_queue_id input in
    if not (wire_id_is_type queue_id 4) then err eproto else ok queue_id

pub put_result : Buffer → ℤ → Buffer
put_result output vulkan_result = put_i32 output 0 vulkan_result

pub encode_result : Buffer → ℤ → Result Buffer
encode_result output vulkan_result = ok (put_result output vulkan_result)

pub get_result : Buffer → ℤ
get_result input = get_i32 input 0

pub decode_result : Buffer → Result ℤ
decode_result input = let vulkan_result = get_result input in ok vulkan_result
