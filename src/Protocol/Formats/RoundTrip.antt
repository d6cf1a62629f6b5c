-- ===== src/Protocol/Formats/RoundTrip.antt =====
-- What is encoded is read back: format queries and their answers.
use bionic_vulkan_bridge.Prelude.{◌^◌, ◌<◌, ◌≡◌, refl, ok, arith}
use bionic_vulkan_bridge.Wire.{Buffer, put_u32, put_i32, put_u64, get_u32, get_i32, get_u64}
use bionic_vulkan_bridge.Wire.RoundTrip.{IsI32, joined_u32_lem, joined_u64_lem, joined_i32_lem}
use bionic_vulkan_bridge.Protocol.Formats.{
  FormatProperties, FormatProperties3, FormatQuery, ImageFormatProperties, ImageFormatQuery,
  decode_format_properties, decode_format_properties_3, decode_format_query,
  decode_image_format_properties, decode_image_format_query, encode_format_properties,
  encode_format_properties_3, encode_format_query, encode_image_format_properties,
  encode_image_format_query, get_format_properties, get_format_properties_3, get_format_query,
  get_image_format_properties, get_image_format_query, put_format_properties,
  put_format_properties_3, put_format_query, put_image_format_properties, put_image_format_query,
}

abbrev pub IsFormatQuery : FormatQuery → Type 0
IsFormatQuery x = (x.physical_device_id < 2 ^ 64) × (x.format < 2 ^ 32)

get_format_query-put_format_query :
    (out : Buffer) (x : FormatQuery)
    → IsFormatQuery x
    → get_format_query (put_format_query out x) ≡ x
unfolding get_format_query put_format_query get_u32 get_u64 put_u32 put_u64
get_format_query-put_format_query out x h =
    ground (arith, h, joined_u64_lem x.physical_device_id, joined_u32_lem x.format)

format_query_padding : (out : Buffer) (x : FormatQuery) → get_u32 (put_format_query out x) 12 ≡ 0
unfolding put_format_query get_u32 get_u64 put_u32 put_u64
format_query_padding out x = refl

-- What encode_format_query writes for a message whose fields fit their types, decode_format_query
-- reads back.
pub decode_format_query-encode_format_query :
    (out b : Buffer) (x : FormatQuery)
    → IsFormatQuery x
    → encode_format_query out x ≡ ok b
    → decode_format_query b ≡ ok x
unfolding encode_format_query decode_format_query
decode_format_query-encode_format_query out b x h e =
    ground (arith, e, get_format_query-put_format_query out x h, format_query_padding out x)

abbrev pub IsFormatProperties : FormatProperties → Type 0
IsFormatProperties x =
    (x.linear_tiling_features < 2 ^ 32)
    × (x.optimal_tiling_features < 2 ^ 32)
    × (x.buffer_features < 2 ^ 32)

get_format_properties-put_format_properties :
    (out : Buffer) (x : FormatProperties)
    → IsFormatProperties x
    → get_format_properties (put_format_properties out x) ≡ x
unfolding get_format_properties put_format_properties get_u32 put_u32
get_format_properties-put_format_properties out x h = ground (
  arith,
  h,
  joined_u32_lem x.linear_tiling_features,
  joined_u32_lem x.optimal_tiling_features,
  joined_u32_lem x.buffer_features,
)

-- What encode_format_properties writes for a message whose fields fit their types,
-- decode_format_properties reads back.
pub decode_format_properties-encode_format_properties :
    (out b : Buffer) (x : FormatProperties)
    → IsFormatProperties x
    → encode_format_properties out x ≡ ok b
    → decode_format_properties b ≡ ok x
unfolding encode_format_properties decode_format_properties
decode_format_properties-encode_format_properties out b x h e =
    ground (arith, e, get_format_properties-put_format_properties out x h)

abbrev pub IsFormatProperties3 : FormatProperties3 → Type 0
IsFormatProperties3 x =
    (x.linear_tiling_features < 2 ^ 64)
    × (x.optimal_tiling_features < 2 ^ 64)
    × (x.buffer_features < 2 ^ 64)

get_format_properties_3-put_format_properties_3 :
    (out : Buffer) (x : FormatProperties3)
    → IsFormatProperties3 x
    → get_format_properties_3 (put_format_properties_3 out x) ≡ x
unfolding get_format_properties_3 put_format_properties_3 get_u32 get_u64 put_u32 put_u64
get_format_properties_3-put_format_properties_3 out x h = ground (
  arith,
  h,
  joined_u64_lem x.linear_tiling_features,
  joined_u64_lem x.optimal_tiling_features,
  joined_u64_lem x.buffer_features,
)

-- What encode_format_properties_3 writes for a message whose fields fit their types,
-- decode_format_properties_3 reads back.
pub decode_format_properties_3-encode_format_properties_3 :
    (out b : Buffer) (x : FormatProperties3)
    → IsFormatProperties3 x
    → encode_format_properties_3 out x ≡ ok b
    → decode_format_properties_3 b ≡ ok x
unfolding encode_format_properties_3 decode_format_properties_3
decode_format_properties_3-encode_format_properties_3 out b x h e =
    ground (arith, e, get_format_properties_3-put_format_properties_3 out x h)

abbrev pub IsImageFormatQuery : ImageFormatQuery → Type 0
IsImageFormatQuery x =
    (x.physical_device_id < 2 ^ 64)
    × (x.format < 2 ^ 32)
    × (x.type < 2 ^ 32)
    × (x.tiling < 2 ^ 32)
    × (x.usage < 2 ^ 32)
    × (x.flags < 2 ^ 32)

get_image_format_query-put_image_format_query :
    (out : Buffer) (x : ImageFormatQuery)
    → IsImageFormatQuery x
    → get_image_format_query (put_image_format_query out x) ≡ x
unfolding get_image_format_query put_image_format_query get_u32 get_u64 put_u32 put_u64
get_image_format_query-put_image_format_query out x h = ground (
  arith,
  h,
  joined_u64_lem x.physical_device_id,
  joined_u32_lem x.format,
  joined_u32_lem x.type,
  joined_u32_lem x.tiling,
  joined_u32_lem x.usage,
  joined_u32_lem x.flags,
)

image_format_query_padding :
    (out : Buffer) (x : ImageFormatQuery) → get_u32 (put_image_format_query out x) 28 ≡ 0
unfolding put_image_format_query get_u32 get_u64 put_u32 put_u64
image_format_query_padding out x = refl

-- What encode_image_format_query writes for a message whose fields fit their types,
-- decode_image_format_query reads back.
pub decode_image_format_query-encode_image_format_query :
    (out b : Buffer) (x : ImageFormatQuery)
    → IsImageFormatQuery x
    → encode_image_format_query out x ≡ ok b
    → decode_image_format_query b ≡ ok x
unfolding encode_image_format_query decode_image_format_query
decode_image_format_query-encode_image_format_query out b x h e = ground (
  arith,
  e,
  get_image_format_query-put_image_format_query out x h,
  image_format_query_padding out x,
)

abbrev pub IsImageFormatProperties : ImageFormatProperties → Type 0
IsImageFormatProperties x =
    (IsI32 x.vulkan_result)
    × (x.max_extent_width < 2 ^ 32)
    × (x.max_extent_height < 2 ^ 32)
    × (x.max_extent_depth < 2 ^ 32)
    × (x.max_mip_levels < 2 ^ 32)
    × (x.max_array_layers < 2 ^ 32)
    × (x.sample_counts < 2 ^ 32)
    × (x.max_resource_size < 2 ^ 64)

get_image_format_properties-put_image_format_properties :
    (out : Buffer) (x : ImageFormatProperties)
    → IsImageFormatProperties x
    → get_image_format_properties (put_image_format_properties out x) ≡ x
unfolding get_image_format_properties put_image_format_properties get_i32 get_u32 get_u64 put_i32
    put_u32 put_u64
get_image_format_properties-put_image_format_properties out x h = ground (
  arith,
  h,
  joined_i32_lem x.vulkan_result,
  joined_u32_lem x.max_extent_width,
  joined_u32_lem x.max_extent_height,
  joined_u32_lem x.max_extent_depth,
  joined_u32_lem x.max_mip_levels,
  joined_u32_lem x.max_array_layers,
  joined_u32_lem x.sample_counts,
  joined_u64_lem x.max_resource_size,
)

image_format_properties_padding :
    (out : Buffer) (x : ImageFormatProperties) → get_u32 (put_image_format_properties out x) 4 ≡ 0
unfolding put_image_format_properties get_i32 get_u32 get_u64 put_i32 put_u32 put_u64
image_format_properties_padding out x = refl

-- What encode_image_format_properties writes for a message whose fields fit their types,
-- decode_image_format_properties reads back.
pub decode_image_format_properties-encode_image_format_properties :
    (out b : Buffer) (x : ImageFormatProperties)
    → IsImageFormatProperties x
    → encode_image_format_properties out x ≡ ok b
    → decode_image_format_properties b ≡ ok x
unfolding encode_image_format_properties decode_image_format_properties
decode_image_format_properties-encode_image_format_properties out b x h e = ground (
  arith,
  e,
  get_image_format_properties-put_image_format_properties out x h,
  image_format_properties_padding out x,
)
