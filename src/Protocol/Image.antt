-- ===== src/Protocol/Image.antt =====
-- The image messages of src/protocol.c: what encode stores (put), what decode reads (get), and the
-- two with their checks. Reading needs no output; a rejected input has no value.
pub mod RoundTrip
pub mod Canonical
use bionic_vulkan_bridge.Prelude.{
  ℕ, ◌-◌, ◌^◌, bit_and, Bool, not, ◌||◌, ◌==◌, ◌!=◌, if◌then◌else◌, Result, ok, err, einval, eproto,
}
use bionic_vulkan_bridge.Wire.{Buffer, put_u32, put_u64, get_u32, get_u64}
use bionic_vulkan_bridge.Protocol.{
  wire_id_is_type, zeroed, object_image, image_requirements_size, image_requirements_2_request_size,
  object_device_memory, image_requirements_2_pnext_mask,
}

pub image_requirements_2_pnext_valid : ℕ → Bool
image_requirements_2_pnext_valid pnext_flags =
    bit_and pnext_flags (2 ^ 32 - 1 - image_requirements_2_pnext_mask) == 0

pub record ImageRequirements : Type 0 where
  pub size : ℕ
  pub alignment : ℕ
  pub memory_type_bits : ℕ

pub put_image_requirements : Buffer → ImageRequirements → Buffer
put_image_requirements output requirements =
    let output = zeroed output image_requirements_size in
    let output = put_u64 output 0 requirements.size in
    let output = put_u64 output 8 requirements.alignment in
    put_u32 output 16 requirements.memory_type_bits

pub encode_image_requirements : Buffer → ImageRequirements → Result Buffer
encode_image_requirements output requirements =
    if requirements.size == 0 || requirements.alignment == 0 || requirements.memory_type_bits == 0
    then err einval
    else ok (put_image_requirements output requirements)

pub get_image_requirements : Buffer → ImageRequirements
get_image_requirements input = record {
  size = get_u64 input 0;
  alignment = get_u64 input 8;
  memory_type_bits = get_u32 input 16;
}

pub decode_image_requirements : Buffer → Result ImageRequirements
decode_image_requirements input =
    let requirements = get_image_requirements input in
    if requirements.size == 0
      || requirements.alignment == 0
      || requirements.memory_type_bits == 0
      || get_u32 input 20 != 0
    then err eproto
    else ok requirements

pub record ImageRequirements2Request : Type 0 where
  pub image_id : ℕ
  pub pnext_flags : ℕ

pub put_image_requirements_2_request : Buffer → ImageRequirements2Request → Buffer
put_image_requirements_2_request output request =
    let output = zeroed output image_requirements_2_request_size in
    let output = put_u64 output 0 request.image_id in put_u32 output 8 request.pnext_flags

pub encode_image_requirements_2_request : Buffer → ImageRequirements2Request → Result Buffer
encode_image_requirements_2_request output request =
    if not (wire_id_is_type request.image_id object_image)
      || not (image_requirements_2_pnext_valid request.pnext_flags)
    then err einval
    else ok (put_image_requirements_2_request output request)

pub get_image_requirements_2_request : Buffer → ImageRequirements2Request
get_image_requirements_2_request input = record {
  image_id = get_u64 input 0;
  pnext_flags = get_u32 input 8;
}

pub decode_image_requirements_2_request : Buffer → Result ImageRequirements2Request
decode_image_requirements_2_request input =
    let request = get_image_requirements_2_request input in
    if not (wire_id_is_type request.image_id object_image)
      || not (image_requirements_2_pnext_valid request.pnext_flags)
      || get_u32 input 12 != 0
    then err eproto
    else ok request

pub record ImageBindRequest : Type 0 where
  pub image_id : ℕ
  pub memory_id : ℕ
  pub offset : ℕ

pub put_image_bind_request : Buffer → ImageBindRequest → Buffer
put_image_bind_request output request =
    let output = put_u64 output 0 request.image_id in
    let output = put_u64 output 8 request.memory_id in put_u64 output 16 request.offset

pub encode_image_bind_request : Buffer → ImageBindRequest → Result Buffer
encode_image_bind_request output request =
    if not (wire_id_is_type request.image_id object_image)
      || not (wire_id_is_type request.memory_id object_device_memory)
    then err einval
    else ok (put_image_bind_request output request)

pub get_image_bind_request : Buffer → ImageBindRequest
get_image_bind_request input = record {
  image_id = get_u64 input 0;
  memory_id = get_u64 input 8;
  offset = get_u64 input 16;
}

pub decode_image_bind_request : Buffer → Result ImageBindRequest
decode_image_bind_request input =
    let request = get_image_bind_request input in
    if not (wire_id_is_type request.image_id object_image)
      || not (wire_id_is_type request.memory_id object_device_memory)
    then err eproto
    else ok request
