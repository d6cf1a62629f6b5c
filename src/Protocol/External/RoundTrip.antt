-- ===== src/Protocol/External/RoundTrip.antt =====
-- What is encoded is read back: external buffer and semaphore queries.
use bionic_vulkan_bridge.Prelude.{◌^◌, ◌<◌, ◌≡◌, refl, ok, arith}
use bionic_vulkan_bridge.Wire.{Buffer, put_u32, put_u64, get_u32, get_u64}
use bionic_vulkan_bridge.Wire.RoundTrip.{joined_u32_lem, joined_u64_lem}
use bionic_vulkan_bridge.Protocol.External.{
  ExternalBufferProperties, ExternalBufferQuery, ExternalSemaphoreProperties,
  ExternalSemaphoreQuery, decode_external_buffer_properties, decode_external_buffer_query,
  decode_external_semaphore_properties, decode_external_semaphore_query,
  encode_external_buffer_properties, encode_external_buffer_query,
  encode_external_semaphore_properties, encode_external_semaphore_query,
  get_external_buffer_properties, get_external_buffer_query, get_external_semaphore_properties,
  get_external_semaphore_query, put_external_buffer_properties, put_external_buffer_query,
  put_external_semaphore_properties, put_external_semaphore_query,
}

abbrev pub IsExternalBufferQuery : ExternalBufferQuery → Type 0
IsExternalBufferQuery x =
    (x.physical_device_id < 2 ^ 64)
    × (x.flags < 2 ^ 32)
    × (x.usage < 2 ^ 32)
    × (x.handle_type < 2 ^ 32)

get_external_buffer_query-put_external_buffer_query :
    (out : Buffer) (x : ExternalBufferQuery)
    → IsExternalBufferQuery x
    → get_external_buffer_query (put_external_buffer_query out x) ≡ x
unfolding get_external_buffer_query put_external_buffer_query get_u32 get_u64 put_u32 put_u64
get_external_buffer_query-put_external_buffer_query out x h = ground (
  arith,
  h,
  joined_u64_lem x.physical_device_id,
  joined_u32_lem x.flags,
  joined_u32_lem x.usage,
  joined_u32_lem x.handle_type,
)

external_buffer_query_padding :
    (out : Buffer) (x : ExternalBufferQuery) → get_u32 (put_external_buffer_query out x) 20 ≡ 0
unfolding put_external_buffer_query get_u32 get_u64 put_u32 put_u64
external_buffer_query_padding out x = refl

-- What encode_external_buffer_query writes for a message whose fields fit their types,
-- decode_external_buffer_query reads back.
pub decode_external_buffer_query-encode_external_buffer_query :
    (out b : Buffer) (x : ExternalBufferQuery)
    → IsExternalBufferQuery x
    → encode_external_buffer_query out x ≡ ok b
    → decode_external_buffer_query b ≡ ok x
unfolding encode_external_buffer_query decode_external_buffer_query
decode_external_buffer_query-encode_external_buffer_query out b x h e = ground (
  arith,
  e,
  get_external_buffer_query-put_external_buffer_query out x h,
  external_buffer_query_padding out x,
)

abbrev pub IsExternalBufferProperties : ExternalBufferProperties → Type 0
IsExternalBufferProperties x =
    (x.external_memory_features < 2 ^ 32)
    × (x.export_from_imported_handle_types < 2 ^ 32)
    × (x.compatible_handle_types < 2 ^ 32)

get_external_buffer_properties-put_external_buffer_properties :
    (out : Buffer) (x : ExternalBufferProperties)
    → IsExternalBufferProperties x
    → get_external_buffer_properties (put_external_buffer_properties out x) ≡ x
unfolding get_external_buffer_properties put_external_buffer_properties get_u32 put_u32
get_external_buffer_properties-put_external_buffer_properties out x h = ground (
  arith,
  h,
  joined_u32_lem x.external_memory_features,
  joined_u32_lem x.export_from_imported_handle_types,
  joined_u32_lem x.compatible_handle_types,
)

-- What encode_external_buffer_properties writes for a message whose fields fit their types,
-- decode_external_buffer_properties reads back.
pub decode_external_buffer_properties-encode_external_buffer_properties :
    (out b : Buffer) (x : ExternalBufferProperties)
    → IsExternalBufferProperties x
    → encode_external_buffer_properties out x ≡ ok b
    → decode_external_buffer_properties b ≡ ok x
unfolding encode_external_buffer_properties decode_external_buffer_properties
decode_external_buffer_properties-encode_external_buffer_properties out b x h e =
    ground (arith, e, get_external_buffer_properties-put_external_buffer_properties out x h)

abbrev pub IsExternalSemaphoreQuery : ExternalSemaphoreQuery → Type 0
IsExternalSemaphoreQuery x = (x.physical_device_id < 2 ^ 64) × (x.handle_type < 2 ^ 32)

get_external_semaphore_query-put_external_semaphore_query :
    (out : Buffer) (x : ExternalSemaphoreQuery)
    → IsExternalSemaphoreQuery x
    → get_external_semaphore_query (put_external_semaphore_query out x) ≡ x
unfolding get_external_semaphore_query put_external_semaphore_query get_u32 get_u64 put_u32 put_u64
get_external_semaphore_query-put_external_semaphore_query out x h =
    ground (arith, h, joined_u64_lem x.physical_device_id, joined_u32_lem x.handle_type)

external_semaphore_query_padding :
    (out : Buffer) (x : ExternalSemaphoreQuery)
    → get_u32 (put_external_semaphore_query out x) 12 ≡ 0
unfolding put_external_semaphore_query get_u32 get_u64 put_u32 put_u64
external_semaphore_query_padding out x = refl

-- What encode_external_semaphore_query writes for a message whose fields fit their types,
-- decode_external_semaphore_query reads back.
pub decode_external_semaphore_query-encode_external_semaphore_query :
    (out b : Buffer) (x : ExternalSemaphoreQuery)
    → IsExternalSemaphoreQuery x
    → encode_external_semaphore_query out x ≡ ok b
    → decode_external_semaphore_query b ≡ ok x
unfolding encode_external_semaphore_query decode_external_semaphore_query
decode_external_semaphore_query-encode_external_semaphore_query out b x h e = ground (
  arith,
  e,
  get_external_semaphore_query-put_external_semaphore_query out x h,
  external_semaphore_query_padding out x,
)

abbrev pub IsExternalSemaphoreProperties : ExternalSemaphoreProperties → Type 0
IsExternalSemaphoreProperties x =
    (x.export_from_imported_handle_types < 2 ^ 32)
    × (x.compatible_handle_types < 2 ^ 32)
    × (x.external_semaphore_features < 2 ^ 32)

get_external_semaphore_properties-put_external_semaphore_properties :
    (out : Buffer) (x : ExternalSemaphoreProperties)
    → IsExternalSemaphoreProperties x
    → get_external_semaphore_properties (put_external_semaphore_properties out x) ≡ x
unfolding get_external_semaphore_properties put_external_semaphore_properties get_u32 put_u32
get_external_semaphore_properties-put_external_semaphore_properties out x h = ground (
  arith,
  h,
  joined_u32_lem x.export_from_imported_handle_types,
  joined_u32_lem x.compatible_handle_types,
  joined_u32_lem x.external_semaphore_features,
)

-- What encode_external_semaphore_properties writes for a message whose fields fit their types,
-- decode_external_semaphore_properties reads back.
pub decode_external_semaphore_properties-encode_external_semaphore_properties :
    (out b : Buffer) (x : ExternalSemaphoreProperties)
    → IsExternalSemaphoreProperties x
    → encode_external_semaphore_properties out x ≡ ok b
    → decode_external_semaphore_properties b ≡ ok x
unfolding encode_external_semaphore_properties decode_external_semaphore_properties
decode_external_semaphore_properties-encode_external_semaphore_properties out b x h e =
    ground (arith, e, get_external_semaphore_properties-put_external_semaphore_properties out x h)
