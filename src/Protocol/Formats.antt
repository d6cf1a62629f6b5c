-- ===== src/Protocol/Formats.antt =====
-- The format queries and their answers of src/protocol.c: what encode stores (put), what decode
-- reads (get), and the two with their checks. Reading needs no output; a rejected input has no
-- value.
pub mod RoundTrip
pub mod Canonical
use bionic_vulkan_bridge.Prelude.{
  ℕ, not, ◌||◌, ◌!=◌, if◌then◌else◌, Result, ok, err, einval, eproto, ℤ,
}
use bionic_vulkan_bridge.Wire.{Buffer, put_u32, put_i32, put_u64, get_u32, get_i32, get_u64}
use bionic_vulkan_bridge.Protocol.{
  wire_id_is_type, zeroed, format_query_size, image_format_query_size, image_format_properties_size,
}

pub record FormatQuery : Type 0 where
  pub physical_device_id : ℕ
  pub format : ℕ

pub put_format_query : Buffer → FormatQuery → Buffer
put_format_query output query =
    let output = zeroed output format_query_size in
    let output = put_u64 output 0 query.physical_device_id in put_u32 output 8 query.format

pub encode_format_query : Buffer → FormatQuery → Result Buffer
encode_format_query output query =
    if not (wire_id_is_type query.physical_device_id 2)
    then err einval
    else ok (put_format_query output query)

pub get_format_query : Buffer → FormatQuery
get_format_query input = record { physical_device_id = get_u64 input 0; format = get_u32 input 8 }

pub decode_format_query : Buffer → Result FormatQuery
decode_format_query input =
    let query = get_format_query input in
    if not (wire_id_is_type query.physical_device_id 2) || get_u32 input 12 != 0
    then err eproto
    else ok query

pub record FormatProperties : Type 0 where
  pub linear_tiling_features : ℕ
  pub optimal_tiling_features : ℕ
  pub buffer_features : ℕ

pub put_format_properties : Buffer → FormatProperties → Buffer
put_format_properties output properties =
    let output = put_u32 output 0 properties.linear_tiling_features in
    let output = put_u32 output 4 properties.optimal_tiling_features in
    put_u32 output 8 properties.buffer_features

pub encode_format_properties : Buffer → FormatProperties → Result Buffer
encode_format_properties output properties = ok (put_format_properties output properties)

pub get_format_properties : Buffer → FormatProperties
get_format_properties input = record {
  linear_tiling_features = get_u32 input 0;
  optimal_tiling_features = get_u32 input 4;
  buffer_features = get_u32 input 8;
}

pub decode_format_properties : Buffer → Result FormatProperties
decode_format_properties input = let properties = get_format_properties input in ok properties

pub record FormatProperties3 : Type 0 where
  pub linear_tiling_features : ℕ
  pub optimal_tiling_features : ℕ
  pub buffer_features : ℕ

pub put_format_properties_3 : Buffer → FormatProperties3 → Buffer
put_format_properties_3 output properties =
    let output = put_u64 output 0 properties.linear_tiling_features in
    let output = put_u64 output 8 properties.optimal_tiling_features in
    put_u64 output 16 properties.buffer_features

pub encode_format_properties_3 : Buffer → FormatProperties3 → Result Buffer
encode_format_properties_3 output properties = ok (put_format_properties_3 output properties)

pub get_format_properties_3 : Buffer → FormatProperties3
get_format_properties_3 input = record {
  linear_tiling_features = get_u64 input 0;
  optimal_tiling_features = get_u64 input 8;
  buffer_features = get_u64 input 16;
}

pub decode_format_properties_3 : Buffer → Result FormatProperties3
decode_format_properties_3 input = let properties = get_format_properties_3 input in ok properties

pub record ImageFormatQuery : Type 0 where
  pub physical_device_id : ℕ
  pub format : ℕ
  pub type : ℕ
  pub tiling : ℕ
  pub usage : ℕ
  pub flags : ℕ

pub put_image_format_query : Buffer → ImageFormatQuery → Buffer
put_image_format_query output query =
    let output = zeroed output image_format_query_size in
    let output = put_u64 output 0 query.physical_device_id in
    let output = put_u32 output 8 query.format in
    let output = put_u32 output 12 query.type in
    let output = put_u32 output 16 query.tiling in
    let output = put_u32 output 20 query.usage in put_u32 output 24 query.flags

pub encode_image_format_query : Buffer → ImageFormatQuery → Result Buffer
encode_image_format_query output query =
    if not (wire_id_is_type query.physical_device_id 2)
    then err einval
    else ok (put_image_format_query output query)

pub get_image_format_query : Buffer → ImageFormatQuery
get_image_format_query input = record {
  physical_device_id = get_u64 input 0;
  format = get_u32 input 8;
  type = get_u32 input 12;
  tiling = get_u32 input 16;
  usage = get_u32 input 20;
  flags = get_u32 input 24;
}

pub decode_image_format_query : Buffer → Result ImageFormatQuery
decode_image_format_query input =
    let query = get_image_format_query input in
    if not (wire_id_is_type query.physical_device_id 2) || get_u32 input 28 != 0
    then err eproto
    else ok query

pub record ImageFormatProperties : Type 0 where
  pub vulkan_result : ℤ
  pub max_extent_width : ℕ
  pub max_extent_height : ℕ
  pub max_extent_depth : ℕ
  pub max_mip_levels : ℕ
  pub max_array_layers : ℕ
  pub sample_counts : ℕ
  pub max_resource_size : ℕ

pub put_image_format_properties : Buffer → ImageFormatProperties → Buffer
put_image_format_properties output properties =
    let output = zeroed output image_format_properties_size in
    let output = put_i32 output 0 properties.vulkan_result in
    let output = put_u32 output 8 properties.max_extent_width in
    let output = put_u32 output 12 properties.max_extent_height in
    let output = put_u32 output 16 properties.max_extent_depth in
    let output = put_u32 output 20 properties.max_mip_levels in
    let output = put_u32 output 24 properties.max_array_layers in
    let output = put_u32 output 28 properties.sample_counts in
    put_u64 output 32 properties.max_resource_size

pub encode_image_format_properties : Buffer → ImageFormatProperties → Result Buffer
encode_image_format_properties output properties =
    ok (put_image_format_properties output properties)

pub get_image_format_properties : Buffer → ImageFormatProperties
get_image_format_properties input = record {
  vulkan_result = get_i32 input 0;
  max_extent_width = get_u32 input 8;
  max_extent_height = get_u32 input 12;
  max_extent_depth = get_u32 input 16;
  max_mip_levels = get_u32 input 20;
  max_array_layers = get_u32 input 24;
  sample_counts = get_u32 input 28;
  max_resource_size = get_u64 input 32;
}

pub decode_image_format_properties : Buffer → Result ImageFormatProperties
decode_image_format_properties input =
    let properties = get_image_format_properties input in
    if get_u32 input 4 != 0 then err eproto else ok properties
