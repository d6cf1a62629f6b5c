-- ===== src/Protocol/CommandPool.antt =====
-- The command pool messages of src/protocol.c: what encode stores (put), what decode reads (get),
-- and the two with their checks. Reading needs no output; a rejected input has no value.
pub mod RoundTrip
pub mod Canonical
use bionic_vulkan_bridge.Prelude.{
  ℕ, not, ◌&&◌, ◌||◌, ◌!=◌, if◌then◌else◌, Result, ok, err, einval, eproto, ℤ,
}
use bionic_vulkan_bridge.Wire.{Buffer, put_u32, put_i32, put_u64, get_u32, get_i32, get_u64}
use bionic_vulkan_bridge.Protocol.{
  wire_id_is_type, zeroed, is_zero, is_nonzero, command_pool_create_response_size,
  command_pool_reset_request_size,
}

pub record CommandPoolCreateRequest : Type 0 where
  pub device_id : ℕ
  pub flags : ℕ
  pub queue_family_index : ℕ

pub put_command_pool_create_request : Buffer → CommandPoolCreateRequest → Buffer
put_command_pool_create_request output request =
    let output = put_u64 output 0 request.device_id in
    let output = put_u32 output 8 request.flags in put_u32 output 12 request.queue_family_index

pub encode_command_pool_create_request : Buffer → CommandPoolCreateRequest → Result Buffer
encode_command_pool_create_request output request =
    if not (wire_id_is_type request.device_id 3)
    then err einval
    else ok (put_command_pool_create_request output request)

pub get_command_pool_create_request : Buffer → CommandPoolCreateRequest
get_command_pool_create_request input = record {
  device_id = get_u64 input 0;
  flags = get_u32 input 8;
  queue_family_index = get_u32 input 12;
}

pub decode_command_pool_create_request : Buffer → Result CommandPoolCreateRequest
decode_command_pool_create_request input =
    let request = get_command_pool_create_request input in
    if not (wire_id_is_type request.device_id 3) then err eproto else ok request

pub record CommandPoolCreateResponse : Type 0 where
  pub vulkan_result : ℤ
  pub command_pool_id : ℕ

pub put_command_pool_create_response : Buffer → CommandPoolCreateResponse → Buffer
put_command_pool_create_response output response =
    let output = zeroed output command_pool_create_response_size in
    let output = put_i32 output 0 response.vulkan_result in
    put_u64 output 8 response.command_pool_id

pub encode_command_pool_create_response : Buffer → CommandPoolCreateResponse → Result Buffer
encode_command_pool_create_response output response =
    if is_zero response.vulkan_result && not (wire_id_is_type response.command_pool_id 10)
      || is_nonzero response.vulkan_result && response.command_pool_id != 0
    then err einval
    else ok (put_command_pool_create_response output response)

pub get_command_pool_create_response : Buffer → CommandPoolCreateResponse
get_command_pool_create_response input = record {
  vulkan_result = get_i32 input 0;
  command_pool_id = get_u64 input 8;
}

pub decode_command_pool_create_response : Buffer → Result CommandPoolCreateResponse
decode_command_pool_create_response input =
    let response = get_command_pool_create_response input in
    if get_u32 input 4 != 0
      || is_zero response.vulkan_result && not (wire_id_is_type response.command_pool_id 10)
      || is_nonzero response.vulkan_result && response.command_pool_id != 0
    then err eproto
    else ok response

pub put_command_pool_id : Buffer → ℕ → Buffer
put_command_pool_id output command_pool_id = put_u64 output 0 command_pool_id

pub encode_command_pool_id : Buffer → ℕ → Result Buffer
encode_command_pool_id output command_pool_id =
    if not (wire_id_is_type command_pool_id 10)
    then err einval
    else ok (put_command_pool_id output command_pool_id)

pub get_command_pool_id : Buffer → ℕ
get_command_pool_id input = get_u64 input 0

pub decode_command_pool_id : Buffer → Result ℕ
decode_command_pool_id input =
    let command_pool_id = get_command_pool_id input in
    if not (wire_id_is_type command_pool_id 10) then err eproto else ok command_pool_id

pub record CommandPoolResetRequest : Type 0 where
  pub command_pool_id : ℕ
  pub flags : ℕ

pub put_command_pool_reset_request : Buffer → CommandPoolResetRequest → Buffer
put_command_pool_reset_request output request =
    let output = zeroed output command_pool_reset_request_size in
    let output = put_u64 output 0 request.command_pool_id in put_u32 output 8 request.flags

pub encode_command_pool_reset_request : Buffer → CommandPoolResetRequest → Result Buffer
encode_command_pool_reset_request output request =
    if not (wire_id_is_type request.command_pool_id 10)
    then err einval
    else ok (put_command_pool_reset_request output request)

pub get_command_pool_reset_request : Buffer → CommandPoolResetRequest
get_command_pool_reset_request input = record {
  command_pool_id = get_u64 input 0;
  flags = get_u32 input 8;
}

pub decode_command_pool_reset_request : Buffer → Result CommandPoolResetRequest
decode_command_pool_reset_request input =
    let request = get_command_pool_reset_request input in
    if not (wire_id_is_type request.command_pool_id 10) || get_u32 input 12 != 0
    then err eproto
    else ok request
