-- ===== src/Protocol/CommandBuffer.antt =====
-- The command buffer messages of src/protocol.c: what encode stores (put), what decode reads
-- (get), and the two with their checks. Reading needs no output; a rejected input has no value.
pub mod RoundTrip
pub mod Canonical
use bionic_vulkan_bridge.Prelude.{
  ℕ, not, ◌&&◌, ◌||◌, ◌!=◌, if◌then◌else◌, Result, ok, err, einval, eproto, ℤ,
}
use bionic_vulkan_bridge.Wire.{Buffer, put_u32, put_i32, put_u64, get_u32, get_i32, get_u64}
use bionic_vulkan_bridge.Protocol.{
  wire_id_is_type, zeroed, is_zero, is_nonzero, command_buffer_allocate_response_size,
  command_buffer_begin_request_size,
}

pub record CommandBufferAllocateRequest : Type 0 where
  pub command_pool_id : ℕ
  pub level : ℕ
  pub count : ℕ

pub put_command_buffer_allocate_request : Buffer → CommandBufferAllocateRequest → Buffer
put_command_buffer_allocate_request output request =
    let output = put_u64 output 0 request.command_pool_id in
    let output = put_u32 output 8 request.level in put_u32 output 12 request.count

pub encode_command_buffer_allocate_request : Buffer → CommandBufferAllocateRequest → Result Buffer
encode_command_buffer_allocate_request output request =
    if not (wire_id_is_type request.command_pool_id 10)
    then err einval
    else ok (put_command_buffer_allocate_request output request)

pub get_command_buffer_allocate_request : Buffer → CommandBufferAllocateRequest
get_command_buffer_allocate_request input = record {
  command_pool_id = get_u64 input 0;
  level = get_u32 input 8;
  count = get_u32 input 12;
}

pub decode_command_buffer_allocate_request : Buffer → Result CommandBufferAllocateRequest
decode_command_buffer_allocate_request input =
    let request = get_command_buffer_allocate_request input in
    if not (wire_id_is_type request.command_pool_id 10) then err eproto else ok request

pub record CommandBufferAllocateResponse : Type 0 where
  pub vulkan_result : ℤ
  pub command_buffer_id : ℕ

pub put_command_buffer_allocate_response : Buffer → CommandBufferAllocateResponse → Buffer
put_command_buffer_allocate_response output response =
    let output = zeroed output command_buffer_allocate_response_size in
    let output = put_i32 output 0 response.vulkan_result in
    put_u64 output 8 response.command_buffer_id

pub encode_command_buffer_allocate_response : Buffer → CommandBufferAllocateResponse → Result Buffer
encode_command_buffer_allocate_response output response =
    if is_zero response.vulkan_result && not (wire_id_is_type response.command_buffer_id 11)
      || is_nonzero response.vulkan_result && response.command_buffer_id != 0
    then err einval
    else ok (put_command_buffer_allocate_response output response)

pub get_command_buffer_allocate_response : Buffer → CommandBufferAllocateResponse
get_command_buffer_allocate_response input = record {
  vulkan_result = get_i32 input 0;
  command_buffer_id = get_u64 input 8;
}

pub decode_command_buffer_allocate_response : Buffer → Result CommandBufferAllocateResponse
decode_command_buffer_allocate_response input =
    let response = get_command_buffer_allocate_response input in
    if get_u32 input 4 != 0
      || is_zero response.vulkan_result && not (wire_id_is_type response.command_buffer_id 11)
      || is_nonzero response.vulkan_result && response.command_buffer_id != 0
    then err eproto
    else ok response

pub record CommandBufferFreeRequest : Type 0 where
  pub command_pool_id : ℕ
  pub command_buffer_id : ℕ

pub put_command_buffer_free_request : Buffer → CommandBufferFreeRequest → Buffer
put_command_buffer_free_request output request =
    let output = put_u64 output 0 request.command_pool_id in
    put_u64 output 8 request.command_buffer_id

pub encode_command_buffer_free_request : Buffer → CommandBufferFreeRequest → Result Buffer
encode_command_buffer_free_request output request =
    if not (wire_id_is_type request.command_pool_id 10)
      || not (wire_id_is_type request.command_buffer_id 11)
    then err einval
    else ok (put_command_buffer_free_request output request)

pub get_command_buffer_free_request : Buffer → CommandBufferFreeRequest
get_command_buffer_free_request input = record {
  command_pool_id = get_u64 input 0;
  command_buffer_id = get_u64 input 8;
}

pub decode_command_buffer_free_request : Buffer → Result CommandBufferFreeRequest
decode_command_buffer_free_request input =
    let request = get_command_buffer_free_request input in
    if not (wire_id_is_type request.command_pool_id 10)
      || not (wire_id_is_type request.command_buffer_id 11)
    then err eproto
    else ok request

pub record CommandBufferBeginRequest : Type 0 where
  pub command_buffer_id : ℕ
  pub flags : ℕ

pub put_command_buffer_begin_request : Buffer → CommandBufferBeginRequest → Buffer
put_command_buffer_begin_request output request =
    let output = zeroed output command_buffer_begin_request_size in
    let output = put_u64 output 0 request.command_buffer_id in put_u32 output 8 request.flags

pub encode_command_buffer_begin_request : Buffer → CommandBufferBeginRequest → Result Buffer
encode_command_buffer_begin_request output request =
    if not (wire_id_is_type request.command_buffer_id 11)
    then err einval
    else ok (put_command_buffer_begin_request output request)

pub get_command_buffer_begin_request : Buffer → CommandBufferBeginRequest
get_command_buffer_begin_request input = record {
  command_buffer_id = get_u64 input 0;
  flags = get_u32 input 8;
}

pub decode_command_buffer_begin_request : Buffer → Result CommandBufferBeginRequest
decode_command_buffer_begin_request input =
    let request = get_command_buffer_begin_request input in
    if not (wire_id_is_type request.command_buffer_id 11) || get_u32 input 12 != 0
    then err eproto
    else ok request

pub put_command_buffer_id : Buffer → ℕ → Buffer
put_command_buffer_id output command_buffer_id = put_u64 output 0 command_buffer_id

pub encode_command_buffer_id : Buffer → ℕ → Result Buffer
encode_command_buffer_id output command_buffer_id =
    if not (wire_id_is_type command_buffer_id 11)
    then err einval
    else ok (put_command_buffer_id output command_buffer_id)

pub get_command_buffer_id : Buffer → ℕ
get_command_buffer_id input = get_u64 input 0

pub decode_command_buffer_id : Buffer → Result ℕ
decode_command_buffer_id input =
    let command_buffer_id = get_command_buffer_id input in
    if not (wire_id_is_type command_buffer_id 11) then err eproto else ok command_buffer_id

pub record QueueSubmitCommandRequest : Type 0 where
  pub queue_id : ℕ
  pub command_buffer_id : ℕ

pub put_queue_submit_command_request : Buffer → QueueSubmitCommandRequest → Buffer
put_queue_submit_command_request output request =
    let output = put_u64 output 0 request.queue_id in put_u64 output 8 request.command_buffer_id

pub encode_queue_submit_command_request : Buffer → QueueSubmitCommandRequest → Result Buffer
encode_queue_submit_command_request output request =
    if not (wire_id_is_type request.queue_id 4)
      || not (wire_id_is_type request.command_buffer_id 11)
    then err einval
    else ok (put_queue_submit_command_request output request)

pub get_queue_submit_command_request : Buffer → QueueSubmitCommandRequest
get_queue_submit_command_request input = record {
  queue_id = get_u64 input 0;
  command_buffer_id = get_u64 input 8;
}

pub decode_queue_submit_command_request : Buffer → Result QueueSubmitCommandRequest
decode_queue_submit_command_request input =
    let request = get_queue_submit_command_request input in
    if not (wire_id_is_type request.queue_id 4)
      || not (wire_id_is_type request.command_buffer_id 11)
    then err eproto
    else ok request
