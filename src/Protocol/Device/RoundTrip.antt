-- ===== src/Protocol/Device/RoundTrip.antt =====
-- What is encoded is read back: device and queue messages.
use bionic_vulkan_bridge.Prelude.{ℕ, ◌^◌, ◌<◌, ◌≡◌, ok, arith, ℤ}
use bionic_vulkan_bridge.Wire.{Buffer, put_u32, put_i32, put_u64, get_u32, get_i32, get_u64}
use bionic_vulkan_bridge.Wire.RoundTrip.{IsI32, joined_u32_lem, joined_u64_lem, joined_i32_lem}
use bionic_vulkan_bridge.Protocol.Device.{
  DeviceCreateRequest, DeviceExtensionQuery, DeviceQueueRequest, decode_device_create_request,
  decode_device_extension_query, decode_device_id, decode_device_queue_request, decode_queue_id,
  decode_result, encode_device_create_request, encode_device_extension_query, encode_device_id,
  encode_device_queue_request, encode_queue_id, encode_result, get_device_create_request,
  get_device_extension_query, get_device_id, get_device_queue_request, get_queue_id, get_result,
  put_device_create_request, put_device_extension_query, put_device_id, put_device_queue_request,
  put_queue_id, put_result,
}

abbrev pub IsDeviceExtensionQuery : DeviceExtensionQuery → Type 0
IsDeviceExtensionQuery x =
    (x.physical_device_id < 2 ^ 64) × (x.first < 2 ^ 32) × (x.max_count < 2 ^ 32)

get_device_extension_query-put_device_extension_query :
    (out : Buffer) (x : DeviceExtensionQuery)
    → IsDeviceExtensionQuery x
    → get_device_extension_query (put_device_extension_query out x) ≡ x
unfolding get_device_extension_query put_device_extension_query get_u32 get_u64 put_u32 put_u64
get_device_extension_query-put_device_extension_query out x h = ground (
  arith,
  h,
  joined_u64_lem x.physical_device_id,
  joined_u32_lem x.first,
  joined_u32_lem x.max_count,
)

-- What encode_device_extension_query writes for a message whose fields fit their types,
-- decode_device_extension_query reads back.
pub decode_device_extension_query-encode_device_extension_query :
    (out b : Buffer) (x : DeviceExtensionQuery)
    → IsDeviceExtensionQuery x
    → encode_device_extension_query out x ≡ ok b
    → decode_device_extension_query b ≡ ok x
unfolding encode_device_extension_query decode_device_extension_query
decode_device_extension_query-encode_device_extension_query out b x h e =
    ground (arith, e, get_device_extension_query-put_device_extension_query out x h)

abbrev pub IsDeviceCreateRequest : DeviceCreateRequest → Type 0
IsDeviceCreateRequest x =
    (x.physical_device_id < 2 ^ 64)
    × (x.flags < 2 ^ 32)
    × (x.queue_family_index < 2 ^ 32)
    × (x.queue_count < 2 ^ 32)
    × (x.queue_priority_bits < 2 ^ 32)
    × (x.enabled_layer_count < 2 ^ 32)
    × (x.enabled_extension_count < 2 ^ 32)

get_device_create_request-put_device_create_request :
    (out : Buffer) (x : DeviceCreateRequest)
    → IsDeviceCreateRequest x
    → get_device_create_request (put_device_create_request out x) ≡ x
unfolding get_device_create_request put_device_create_request get_u32 get_u64 put_u32 put_u64
get_device_create_request-put_device_create_request out x h = ground (
  arith,
  h,
  joined_u64_lem x.physical_device_id,
  joined_u32_lem x.flags,
  joined_u32_lem x.queue_family_index,
  joined_u32_lem x.queue_count,
  joined_u32_lem x.queue_priority_bits,
  joined_u32_lem x.enabled_layer_count,
  joined_u32_lem x.enabled_extension_count,
)

-- What encode_device_create_request writes for a message whose fields fit their types,
-- decode_device_create_request reads back.
pub decode_device_create_request-encode_device_create_request :
    (out b : Buffer) (x : DeviceCreateRequest)
    → IsDeviceCreateRequest x
    → encode_device_create_request out x ≡ ok b
    → decode_device_create_request b ≡ ok x
unfolding encode_device_create_request decode_device_create_request
decode_device_create_request-encode_device_create_request out b x h e =
    ground (arith, e, get_device_create_request-put_device_create_request out x h)

get_device_id-put_device_id :
    (out : Buffer) (x : ℕ) → x < 2 ^ 64 → get_device_id (put_device_id out x) ≡ x
unfolding get_device_id put_device_id get_u32 get_u64 put_u32 put_u64
get_device_id-put_device_id out x h = ground (arith, h, joined_u64_lem x h)

-- What encode_device_id writes for a message whose fields fit their types, decode_device_id reads
-- back.
pub decode_device_id-encode_device_id :
    (out b : Buffer) (x : ℕ)
    → x < 2 ^ 64
    → encode_device_id out x ≡ ok b
    → decode_device_id b ≡ ok x
unfolding encode_device_id decode_device_id
decode_device_id-encode_device_id out b x h e =
    ground (arith, e, get_device_id-put_device_id out x h)

abbrev pub IsDeviceQueueRequest : DeviceQueueRequest → Type 0
IsDeviceQueueRequest x =
    (x.device_id < 2 ^ 64) × (x.queue_family_index < 2 ^ 32) × (x.queue_index < 2 ^ 32)

get_device_queue_request-put_device_queue_request :
    (out : Buffer) (x : DeviceQueueRequest)
    → IsDeviceQueueRequest x
    → get_device_queue_request (put_device_queue_request out x) ≡ x
unfolding get_device_queue_request put_device_queue_request get_u32 get_u64 put_u32 put_u64
get_device_queue_request-put_device_queue_request out x h = ground (
  arith,
  h,
  joined_u64_lem x.device_id,
  joined_u32_lem x.queue_family_index,
  joined_u32_lem x.queue_index,
)

-- What encode_device_queue_request writes for a message whose fields fit their types,
-- decode_device_queue_request reads back.
pub decode_device_queue_request-encode_device_queue_request :
    (out b : Buffer) (x : DeviceQueueRequest)
    → IsDeviceQueueRequest x
    → encode_device_queue_request out x ≡ ok b
    → decode_device_queue_request b ≡ ok x
unfolding encode_device_queue_request decode_device_queue_request
decode_device_queue_request-encode_device_queue_request out b x h e =
    ground (arith, e, get_device_queue_request-put_device_queue_request out x h)

get_queue_id-put_queue_id :
    (out : Buffer) (x : ℕ) → x < 2 ^ 64 → get_queue_id (put_queue_id out x) ≡ x
unfolding get_queue_id put_queue_id get_u32 get_u64 put_u32 put_u64
get_queue_id-put_queue_id out x h = ground (arith, h, joined_u64_lem x h)

-- What encode_queue_id writes for a message whose fields fit their types, decode_queue_id reads
-- back.
pub decode_queue_id-encode_queue_id :
    (out b : Buffer) (x : ℕ) → x < 2 ^ 64 → encode_queue_id out x ≡ ok b → decode_queue_id b ≡ ok x
unfolding encode_queue_id decode_queue_id
decode_queue_id-encode_queue_id out b x h e = ground (arith, e, get_queue_id-put_queue_id out x h)

get_result-put_result : (out : Buffer) (x : ℤ) → IsI32 x → get_result (put_result out x) ≡ x
unfolding get_result put_result get_i32 get_u32 put_i32 put_u32
get_result-put_result out x h = ground (arith, h, joined_i32_lem x h)

-- What encode_result writes for a message whose fields fit their types, decode_result reads back.
pub decode_result-encode_result :
    (out b : Buffer) (x : ℤ) → IsI32 x → encode_result out x ≡ ok b → decode_result b ≡ ok x
unfolding encode_result decode_result
decode_result-encode_result out b x h e = ground (arith, e, get_result-put_result out x h)
