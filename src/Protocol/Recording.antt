-- ===== src/Protocol/Recording.antt =====
-- The commands recorded by messages of their own, and the check of a fill of src/protocol.c: what
-- encode stores (put), what decode reads (get), and the two with their checks. Reading needs no
-- output; a rejected input has no value.
pub mod RoundTrip
pub mod Canonical
use bionic_vulkan_bridge.Prelude.{
  ℕ, not, ◌&&◌, ◌||◌, ◌==◌, ◌!=◌, if◌then◌else◌, Result, ok, err, einval, eproto, ℤ,
}
use bionic_vulkan_bridge.Wire.{Buffer, put_u32, put_i32, put_u64, get_u32, get_i32, get_u64}
use bionic_vulkan_bridge.Protocol.{
  wire_id_is_type, zeroed, command_buffer_fill_request_size, object_image,
  memory_verify_fill_request_size,
}

pub record CommandBufferFillRequest : Type 0 where
  pub command_buffer_id : ℕ
  pub buffer_id : ℕ
  pub offset : ℕ
  pub size : ℕ
  pub data_word : ℕ

pub put_command_buffer_fill_request : Buffer → CommandBufferFillRequest → Buffer
put_command_buffer_fill_request output request =
    let output = zeroed output command_buffer_fill_request_size in
    let output = put_u64 output 0 request.command_buffer_id in
    let output = put_u64 output 8 request.buffer_id in
    let output = put_u64 output 16 request.offset in
    let output = put_u64 output 24 request.size in put_u32 output 32 request.data_word

pub encode_command_buffer_fill_request : Buffer → CommandBufferFillRequest → Result Buffer
encode_command_buffer_fill_request output request =
    if request.size == 0
      || not (wire_id_is_type request.command_buffer_id 11)
      || not (wire_id_is_type request.buffer_id 19)
    then err einval
    else ok (put_command_buffer_fill_request output request)

pub get_command_buffer_fill_request : Buffer → CommandBufferFillRequest
get_command_buffer_fill_request input = record {
  command_buffer_id = get_u64 input 0;
  buffer_id = get_u64 input 8;
  offset = get_u64 input 16;
  size = get_u64 input 24;
  data_word = get_u32 input 32;
}

pub decode_command_buffer_fill_request : Buffer → Result CommandBufferFillRequest
decode_command_buffer_fill_request input =
    let request = get_command_buffer_fill_request input in
    if not (
      wire_id_is_type request.command_buffer_id 11
      && wire_id_is_type request.buffer_id 19
      && request.size != 0
      && get_u32 input 36 == 0)
    then err eproto
    else ok request

pub record CommandBufferClearColorImageRequest : Type 0 where
  pub command_buffer_id : ℕ
  pub image_id : ℕ

pub put_command_buffer_clear_color_image_request :
    Buffer → CommandBufferClearColorImageRequest → Buffer
put_command_buffer_clear_color_image_request output request =
    let output = put_u64 output 0 request.command_buffer_id in put_u64 output 8 request.image_id

pub encode_command_buffer_clear_color_image_request :
    Buffer → CommandBufferClearColorImageRequest → Result Buffer
encode_command_buffer_clear_color_image_request output request =
    if not (wire_id_is_type request.command_buffer_id 11)
      || not (wire_id_is_type request.image_id object_image)
    then err einval
    else ok (put_command_buffer_clear_color_image_request output request)

pub get_command_buffer_clear_color_image_request : Buffer → CommandBufferClearColorImageRequest
get_command_buffer_clear_color_image_request input = record {
  command_buffer_id = get_u64 input 0;
  image_id = get_u64 input 8;
}

pub decode_command_buffer_clear_color_image_request :
    Buffer → Result CommandBufferClearColorImageRequest
decode_command_buffer_clear_color_image_request input =
    let request = get_command_buffer_clear_color_image_request input in
    if not (
      wire_id_is_type request.command_buffer_id 11 && wire_id_is_type request.image_id object_image)
    then err eproto
    else ok request

pub record MemoryVerifyFillRequest : Type 0 where
  pub memory_id : ℕ
  pub offset : ℕ
  pub size : ℕ
  pub expected_word : ℕ

pub put_memory_verify_fill_request : Buffer → MemoryVerifyFillRequest → Buffer
put_memory_verify_fill_request output request =
    let output = zeroed output memory_verify_fill_request_size in
    let output = put_u64 output 0 request.memory_id in
    let output = put_u64 output 8 request.offset in
    let output = put_u64 output 16 request.size in put_u32 output 24 request.expected_word

pub encode_memory_verify_fill_request : Buffer → MemoryVerifyFillRequest → Result Buffer
encode_memory_verify_fill_request output request =
    if request.size == 0 || not (wire_id_is_type request.memory_id 9)
    then err einval
    else ok (put_memory_verify_fill_request output request)

pub get_memory_verify_fill_request : Buffer → MemoryVerifyFillRequest
get_memory_verify_fill_request input = record {
  memory_id = get_u64 input 0;
  offset = get_u64 input 8;
  size = get_u64 input 16;
  expected_word = get_u32 input 24;
}

pub decode_memory_verify_fill_request : Buffer → Result MemoryVerifyFillRequest
decode_memory_verify_fill_request input =
    let request = get_memory_verify_fill_request input in
    if not (wire_id_is_type request.memory_id 9 && request.size != 0 && get_u32 input 28 == 0)
    then err eproto
    else ok request

pub record MemoryVerifyFillResponse : Type 0 where
  pub vulkan_result : ℤ
  pub mismatched_words : ℕ

pub put_memory_verify_fill_response : Buffer → MemoryVerifyFillResponse → Buffer
put_memory_verify_fill_response output response =
    let output = put_i32 output 0 response.vulkan_result in
    put_u32 output 4 response.mismatched_words

pub encode_memory_verify_fill_response : Buffer → MemoryVerifyFillResponse → Result Buffer
encode_memory_verify_fill_response output response =
    ok (put_memory_verify_fill_response output response)

pub get_memory_verify_fill_response : Buffer → MemoryVerifyFillResponse
get_memory_verify_fill_response input = record {
  vulkan_result = get_i32 input 0;
  mismatched_words = get_u32 input 4;
}

pub decode_memory_verify_fill_response : Buffer → Result MemoryVerifyFillResponse
decode_memory_verify_fill_response input =
    let response = get_memory_verify_fill_response input in ok response
