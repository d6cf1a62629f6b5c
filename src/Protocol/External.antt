-- ===== src/Protocol/External.antt =====
-- The external buffer and semaphore queries of src/protocol.c: what encode stores (put), what
-- decode reads (get), and the two with their checks. Reading needs no output; a rejected input has
-- no value.
pub mod RoundTrip
pub mod Canonical
use bionic_vulkan_bridge.Prelude.{
  ℕ, not, ◌||◌, ◌!=◌, if◌then◌else◌, Result, ok, err, einval, eproto,
}
use bionic_vulkan_bridge.Wire.{Buffer, put_u32, put_u64, get_u32, get_u64}
use bionic_vulkan_bridge.Protocol.{
  wire_id_is_type, zeroed, external_buffer_query_size, external_semaphore_query_size,
}

pub record ExternalBufferQuery : Type 0 where
  pub physical_device_id : ℕ
  pub flags : ℕ
  pub usage : ℕ
  pub handle_type : ℕ

pub put_external_buffer_query : Buffer → ExternalBufferQuery → Buffer
put_external_buffer_query output query =
    let output = zeroed output external_buffer_query_size in
    let output = put_u64 output 0 query.physical_device_id in
    let output = put_u32 output 8 query.flags in
    let output = put_u32 output 12 query.usage in put_u32 output 16 query.handle_type

pub encode_external_buffer_query : Buffer → ExternalBufferQuery → Result Buffer
encode_external_buffer_query output query =
    if not (wire_id_is_type query.physical_device_id 2)
    then err einval
    else ok (put_external_buffer_query output query)

pub get_external_buffer_query : Buffer → ExternalBufferQuery
get_external_buffer_query input = record {
  physical_device_id = get_u64 input 0;
  flags = get_u32 input 8;
  usage = get_u32 input 12;
  handle_type = get_u32 input 16;
}

pub decode_external_buffer_query : Buffer → Result ExternalBufferQuery
decode_external_buffer_query input =
    let query = get_external_buffer_query input in
    if not (wire_id_is_type query.physical_device_id 2) || get_u32 input 20 != 0
    then err eproto
    else ok query

pub record ExternalBufferProperties : Type 0 where
  pub external_memory_features : ℕ
  pub export_from_imported_handle_types : ℕ
  pub compatible_handle_types : ℕ

pub put_external_buffer_properties : Buffer → ExternalBufferProperties → Buffer
put_external_buffer_properties output properties =
    let output = put_u32 output 0 properties.external_memory_features in
    let output = put_u32 output 4 properties.export_from_imported_handle_types in
    put_u32 output 8 properties.compatible_handle_types

pub encode_external_buffer_properties : Buffer → ExternalBufferProperties → Result Buffer
encode_external_buffer_properties output properties =
    ok (put_external_buffer_properties output properties)

pub get_external_buffer_properties : Buffer → ExternalBufferProperties
get_external_buffer_properties input = record {
  external_memory_features = get_u32 input 0;
  export_from_imported_handle_types = get_u32 input 4;
  compatible_handle_types = get_u32 input 8;
}

pub decode_external_buffer_properties : Buffer → Result ExternalBufferProperties
decode_external_buffer_properties input =
    let properties = get_external_buffer_properties input in ok properties

pub record ExternalSemaphoreQuery : Type 0 where
  pub physical_device_id : ℕ
  pub handle_type : ℕ

pub put_external_semaphore_query : Buffer → ExternalSemaphoreQuery → Buffer
put_external_semaphore_query output query =
    let output = zeroed output external_semaphore_query_size in
    let output = put_u64 output 0 query.physical_device_id in put_u32 output 8 query.handle_type

pub encode_external_semaphore_query : Buffer → ExternalSemaphoreQuery → Result Buffer
encode_external_semaphore_query output query =
    if not (wire_id_is_type query.physical_device_id 2)
    then err einval
    else ok (put_external_semaphore_query output query)

pub get_external_semaphore_query : Buffer → ExternalSemaphoreQuery
get_external_semaphore_query input = record {
  physical_device_id = get_u64 input 0;
  handle_type = get_u32 input 8;
}

pub decode_external_semaphore_query : Buffer → Result ExternalSemaphoreQuery
decode_external_semaphore_query input =
    let query = get_external_semaphore_query input in
    if not (wire_id_is_type query.physical_device_id 2) || get_u32 input 12 != 0
    then err eproto
    else ok query

pub record ExternalSemaphoreProperties : Type 0 where
  pub export_from_imported_handle_types : ℕ
  pub compatible_handle_types : ℕ
  pub external_semaphore_features : ℕ

pub put_external_semaphore_properties : Buffer → ExternalSemaphoreProperties → Buffer
put_external_semaphore_properties output properties =
    let output = put_u32 output 0 properties.export_from_imported_handle_types in
    let output = put_u32 output 4 properties.compatible_handle_types in
    put_u32 output 8 properties.external_semaphore_features

pub encode_external_semaphore_properties : Buffer → ExternalSemaphoreProperties → Result Buffer
encode_external_semaphore_properties output properties =
    ok (put_external_semaphore_properties output properties)

pub get_external_semaphore_properties : Buffer → ExternalSemaphoreProperties
get_external_semaphore_properties input = record {
  export_from_imported_handle_types = get_u32 input 0;
  compatible_handle_types = get_u32 input 4;
  external_semaphore_features = get_u32 input 8;
}

pub decode_external_semaphore_properties : Buffer → Result ExternalSemaphoreProperties
decode_external_semaphore_properties input =
    let properties = get_external_semaphore_properties input in ok properties
