-- ===== src/Protocol/Instance.antt =====
-- The instance and physical device messages of src/protocol.c: what encode stores (put), what
-- decode reads (get), and the two with their checks. Reading needs no output; a rejected input has
-- no value.
pub mod RoundTrip
pub mod Canonical
use bionic_vulkan_bridge.Prelude.{
  ℕ, not, ◌&&◌, ◌||◌, ltb, ◌==◌, ◌!=◌, if◌then◌else◌, Result, ok, err, einval, eproto, ℤ,
}
use bionic_vulkan_bridge.Wire.{Buffer, put_u32, put_i32, put_u64, get_u32, get_i32, get_u64}
use bionic_vulkan_bridge.Protocol.{
  wire_id_is_type, zeroed, is_zero, is_nonzero, global_info_size, instance_create_response_size,
}

pub record GlobalInfo : Type 0 where
  pub loader_api_version : ℕ
  pub native_extension_count : ℕ
  pub native_layer_count : ℕ
  pub exposed_extension_count : ℕ
  pub exposed_layer_count : ℕ

pub put_global_info : Buffer → GlobalInfo → Buffer
put_global_info output info =
    let output = zeroed output global_info_size in
    let output = put_u32 output 0 info.loader_api_version in
    let output = put_u32 output 4 info.native_extension_count in
    let output = put_u32 output 8 info.native_layer_count in
    let output = put_u32 output 12 info.exposed_extension_count in
    put_u32 output 16 info.exposed_layer_count

pub encode_global_info : Buffer → GlobalInfo → Result Buffer
encode_global_info output info =
    if info.loader_api_version == 0
      || ltb info.native_extension_count info.exposed_extension_count
      || ltb info.native_layer_count info.exposed_layer_count
    then err einval
    else ok (put_global_info output info)

pub get_global_info : Buffer → GlobalInfo
get_global_info input = record {
  loader_api_version = get_u32 input 0;
  native_extension_count = get_u32 input 4;
  native_layer_count = get_u32 input 8;
  exposed_extension_count = get_u32 input 12;
  exposed_layer_count = get_u32 input 16;
}

pub decode_global_info : Buffer → Result GlobalInfo
decode_global_info input =
    let info = get_global_info input in
    if info.loader_api_version == 0
      || ltb info.native_extension_count info.exposed_extension_count
      || ltb info.native_layer_count info.exposed_layer_count
      || get_u32 input 20 != 0
    then err eproto
    else ok info

pub record InstanceCreateRequest : Type 0 where
  pub api_version : ℕ
  pub flags : ℕ
  pub enabled_layer_count : ℕ
  pub enabled_extension_count : ℕ

pub put_instance_create_request : Buffer → InstanceCreateRequest → Buffer
put_instance_create_request output request =
    let output = put_u32 output 0 request.api_version in
    let output = put_u32 output 4 request.flags in
    let output = put_u32 output 8 request.enabled_layer_count in
    put_u32 output 12 request.enabled_extension_count

pub encode_instance_create_request : Buffer → InstanceCreateRequest → Result Buffer
encode_instance_create_request output request = ok (put_instance_create_request output request)

pub get_instance_create_request : Buffer → InstanceCreateRequest
get_instance_create_request input = record {
  api_version = get_u32 input 0;
  flags = get_u32 input 4;
  enabled_layer_count = get_u32 input 8;
  enabled_extension_count = get_u32 input 12;
}

pub decode_instance_create_request : Buffer → Result InstanceCreateRequest
decode_instance_create_request input = let request = get_instance_create_request input in ok request

pub record InstanceCreateResponse : Type 0 where
  pub vulkan_result : ℤ
  pub instance_id : ℕ

pub put_instance_create_response : Buffer → InstanceCreateResponse → Buffer
put_instance_create_response output response =
    let output = zeroed output instance_create_response_size in
    let output = put_i32 output 0 response.vulkan_result in put_u64 output 8 response.instance_id

pub encode_instance_create_response : Buffer → InstanceCreateResponse → Result Buffer
encode_instance_create_response output response =
    if is_zero response.vulkan_result && response.instance_id == 0
      || is_nonzero response.vulkan_result && response.instance_id != 0
    then err einval
    else ok (put_instance_create_response output response)

pub get_instance_create_response : Buffer → InstanceCreateResponse
get_instance_create_response input = record {
  vulkan_result = get_i32 input 0;
  instance_id = get_u64 input 8;
}

pub decode_instance_create_response : Buffer → Result InstanceCreateResponse
decode_instance_create_response input =
    let response = get_instance_create_response input in
    if get_u32 input 4 != 0
      || is_zero response.vulkan_result && response.instance_id == 0
      || is_nonzero response.vulkan_result && response.instance_id != 0
    then err eproto
    else ok response

pub put_instance_id : Buffer → ℕ → Buffer
put_instance_id output instance_id = put_u64 output 0 instance_id

pub encode_instance_id : Buffer → ℕ → Result Buffer
encode_instance_id output instance_id =
    if not (wire_id_is_type instance_id 1)
    then err einval
    else ok (put_instance_id output instance_id)

pub get_instance_id : Buffer → ℕ
get_instance_id input = get_u64 input 0

pub decode_instance_id : Buffer → Result ℕ
decode_instance_id input =
    let instance_id = get_instance_id input in
    if not (wire_id_is_type instance_id 1) then err eproto else ok instance_id

pub put_physical_device_id : Buffer → ℕ → Buffer
put_physical_device_id output physical_device_id = put_u64 output 0 physical_device_id

pub encode_physical_device_id : Buffer → ℕ → Result Buffer
encode_physical_device_id output physical_device_id =
    if not (wire_id_is_type physical_device_id 2)
    then err einval
    else ok (put_physical_device_id output physical_device_id)

pub get_physical_device_id : Buffer → ℕ
get_physical_device_id input = get_u64 input 0

pub decode_physical_device_id : Buffer → Result ℕ
decode_physical_device_id input =
    let physical_device_id = get_physical_device_id input in
    if not (wire_id_is_type physical_device_id 2) then err eproto else ok physical_device_id
