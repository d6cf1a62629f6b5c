-- ===== src/Protocol/BufferObject.antt =====
-- The buffer messages of src/protocol.c: what encode stores (put), what decode reads (get), and
-- the two with their checks. Reading needs no output; a rejected input has no value.
pub mod RoundTrip
pub mod Canonical
use bionic_vulkan_bridge.Prelude.{
  ℕ, ◌-◌, ◌^◌, bit_and, Bool, not, ◌&&◌, ◌||◌, ◌==◌, ◌!=◌, if◌then◌else◌, Result, ok, err, einval,
  eproto, ℤ,
}
use bionic_vulkan_bridge.Wire.{Buffer, put_u32, put_i32, put_u64, get_u32, get_i32, get_u64}
use bionic_vulkan_bridge.Protocol.{
  wire_id_is_type, zeroed, is_zero, is_nonzero, object_create_response_size,
  buffer_requirements_size, buffer_requirements_2_request_size, object_buffer,
  buffer_requirements_2_pnext_mask,
}

pub buffer_requirements_2_pnext_valid : ℕ → Bool
buffer_requirements_2_pnext_valid pnext_flags =
    bit_and pnext_flags (2 ^ 32 - 1 - buffer_requirements_2_pnext_mask) == 0

pub record BufferCreateRequest : Type 0 where
  pub device_id : ℕ
  pub size : ℕ
  pub usage : ℕ
  pub flags : ℕ

pub put_buffer_create_request : Buffer → BufferCreateRequest → Buffer
put_buffer_create_request output request =
    let output = put_u64 output 0 request.device_id in
    let output = put_u64 output 8 request.size in
    let output = put_u32 output 16 request.usage in put_u32 output 20 request.flags

pub encode_buffer_create_request : Buffer → BufferCreateRequest → Result Buffer
encode_buffer_create_request output request =
    if request.size == 0 || request.usage == 0 || not (wire_id_is_type request.device_id 3)
    then err einval
    else ok (put_buffer_create_request output request)

pub get_buffer_create_request : Buffer → BufferCreateRequest
get_buffer_create_request input = record {
  device_id = get_u64 input 0;
  size = get_u64 input 8;
  usage = get_u32 input 16;
  flags = get_u32 input 20;
}

pub decode_buffer_create_request : Buffer → Result BufferCreateRequest
decode_buffer_create_request input =
    let request = get_buffer_create_request input in
    if not (wire_id_is_type request.device_id 3 && request.size != 0)
    then err eproto
    else ok request

pub record ObjectCreateResponse : Type 0 where
  pub vulkan_result : ℤ
  pub object_id : ℕ

pub put_object_create_response : Buffer → ObjectCreateResponse → Buffer
put_object_create_response output response =
    let output = zeroed output object_create_response_size in
    let output = put_i32 output 0 response.vulkan_result in put_u64 output 8 response.object_id

pub encode_object_create_response : Buffer → ObjectCreateResponse → ℕ → Result Buffer
encode_object_create_response output response expected_type =
    if is_zero response.vulkan_result && not (wire_id_is_type response.object_id expected_type)
      || is_nonzero response.vulkan_result && response.object_id != 0
    then err einval
    else ok (put_object_create_response output response)

pub get_object_create_response : Buffer → ObjectCreateResponse
get_object_create_response input = record {
  vulkan_result = get_i32 input 0;
  object_id = get_u64 input 8;
}

pub decode_object_create_response : Buffer → ℕ → Result ObjectCreateResponse
decode_object_create_response input expected_type =
    let response = get_object_create_response input in
    if get_u32 input 4 != 0
      || is_zero response.vulkan_result && not (wire_id_is_type response.object_id expected_type)
      || is_nonzero response.vulkan_result && response.object_id != 0
    then err eproto
    else ok response

pub record BufferRequirements : Type 0 where
  pub size : ℕ
  pub alignment : ℕ
  pub memory_type_bits : ℕ

pub put_buffer_requirements : Buffer → BufferRequirements → Buffer
put_buffer_requirements output requirements =
    let output = zeroed output buffer_requirements_size in
    let output = put_u64 output 0 requirements.size in
    let output = put_u64 output 8 requirements.alignment in
    put_u32 output 16 requirements.memory_type_bits

pub encode_buffer_requirements : Buffer → BufferRequirements → Result Buffer
encode_buffer_requirements output requirements =
    if requirements.size == 0 || requirements.alignment == 0 || requirements.memory_type_bits == 0
    then err einval
    else ok (put_buffer_requirements output requirements)

pub get_buffer_requirements : Buffer → BufferRequirements
get_buffer_requirements input = record {
  size = get_u64 input 0;
  alignment = get_u64 input 8;
  memory_type_bits = get_u32 input 16;
}

pub decode_buffer_requirements : Buffer → Result BufferRequirements
decode_buffer_requirements input =
    let requirements = get_buffer_requirements input in
    if not (
      requirements.size != 0
      && requirements.alignment != 0
      && requirements.memory_type_bits != 0
      && get_u32 input 20 == 0)
    then err eproto
    else ok requirements

pub record BufferRequirements2Request : Type 0 where
  pub buffer_id : ℕ
  pub pnext_flags : ℕ

pub put_buffer_requirements_2_request : Buffer → BufferRequirements2Request → Buffer
put_buffer_requirements_2_request output request =
    let output = zeroed output buffer_requirements_2_request_size in
    let output = put_u64 output 0 request.buffer_id in put_u32 output 8 request.pnext_flags

pub encode_buffer_requirements_2_request : Buffer → BufferRequirements2Request → Result Buffer
encode_buffer_requirements_2_request output request =
    if not (wire_id_is_type request.buffer_id object_buffer)
      || not (buffer_requirements_2_pnext_valid request.pnext_flags)
    then err einval
    else ok (put_buffer_requirements_2_request output request)

pub get_buffer_requirements_2_request : Buffer → BufferRequirements2Request
get_buffer_requirements_2_request input = record {
  buffer_id = get_u64 input 0;
  pnext_flags = get_u32 input 8;
}

pub decode_buffer_requirements_2_request : Buffer → Result BufferRequirements2Request
decode_buffer_requirements_2_request input =
    let request = get_buffer_requirements_2_request input in
    if not (wire_id_is_type request.buffer_id object_buffer)
      || not (buffer_requirements_2_pnext_valid request.pnext_flags)
      || get_u32 input 12 != 0
    then err eproto
    else ok request

pub record BufferBindRequest : Type 0 where
  pub buffer_id : ℕ
  pub memory_id : ℕ
  pub offset : ℕ

pub put_buffer_bind_request : Buffer → BufferBindRequest → Buffer
put_buffer_bind_request output request =
    let output = put_u64 output 0 request.buffer_id in
    let output = put_u64 output 8 request.memory_id in put_u64 output 16 request.offset

pub encode_buffer_bind_request : Buffer → BufferBindRequest → Result Buffer
encode_buffer_bind_request output request =
    if not (wire_id_is_type request.buffer_id 19) || not (wire_id_is_type request.memory_id 9)
    then err einval
    else ok (put_buffer_bind_request output request)

pub get_buffer_bind_request : Buffer → BufferBindRequest
get_buffer_bind_request input = record {
  buffer_id = get_u64 input 0;
  memory_id = get_u64 input 8;
  offset = get_u64 input 16;
}

pub decode_buffer_bind_request : Buffer → Result BufferBindRequest
decode_buffer_bind_request input =
    let request = get_buffer_bind_request input in
    if not (wire_id_is_type request.buffer_id 19 && wire_id_is_type request.memory_id 9)
    then err eproto
    else ok request
