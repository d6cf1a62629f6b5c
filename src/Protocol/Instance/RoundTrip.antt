-- ===== src/Protocol/Instance/RoundTrip.antt =====
-- What is encoded is read back: instance and physical device messages.
use bionic_vulkan_bridge.Prelude.{ℕ, ◌^◌, ◌<◌, ◌≡◌, refl, ok, arith}
use bionic_vulkan_bridge.Wire.{Buffer, put_u32, put_i32, put_u64, get_u32, get_i32, get_u64}
use bionic_vulkan_bridge.Wire.RoundTrip.{IsI32, joined_u32_lem, joined_u64_lem, joined_i32_lem}
use bionic_vulkan_bridge.Protocol.Instance.{
  GlobalInfo, InstanceCreateRequest, InstanceCreateResponse, decode_global_info,
  decode_instance_create_request, decode_instance_create_response, decode_instance_id,
  decode_physical_device_id, encode_global_info, encode_instance_create_request,
  encode_instance_create_response, encode_instance_id, encode_physical_device_id, get_global_info,
  get_instance_create_request, get_instance_create_response, get_instance_id,
  get_physical_device_id, put_global_info, put_instance_create_request,
  put_instance_create_response, put_instance_id, put_physical_device_id,
}

abbrev pub IsGlobalInfo : GlobalInfo → Type 0
IsGlobalInfo x =
    (x.loader_api_version < 2 ^ 32)
    × (x.native_extension_count < 2 ^ 32)
    × (x.native_layer_count < 2 ^ 32)
    × (x.exposed_extension_count < 2 ^ 32)
    × (x.exposed_layer_count < 2 ^ 32)

get_global_info-put_global_info :
    (out : Buffer) (x : GlobalInfo) → IsGlobalInfo x → get_global_info (put_global_info out x) ≡ x
unfolding get_global_info put_global_info get_u32 put_u32
get_global_info-put_global_info out x h = ground (
  arith,
  h,
  joined_u32_lem x.loader_api_version,
  joined_u32_lem x.native_extension_count,
  joined_u32_lem x.native_layer_count,
  joined_u32_lem x.exposed_extension_count,
  joined_u32_lem x.exposed_layer_count,
)

global_info_padding : (out : Buffer) (x : GlobalInfo) → get_u32 (put_global_info out x) 20 ≡ 0
unfolding put_global_info get_u32 put_u32
global_info_padding out x = refl

-- What encode_global_info writes for a message whose fields fit their types, decode_global_info
-- reads back.
pub decode_global_info-encode_global_info :
    (out b : Buffer) (x : GlobalInfo)
    → IsGlobalInfo x
    → encode_global_info out x ≡ ok b
    → decode_global_info b ≡ ok x
unfolding encode_global_info decode_global_info
decode_global_info-encode_global_info out b x h e =
    ground (arith, e, get_global_info-put_global_info out x h, global_info_padding out x)

abbrev pub IsInstanceCreateRequest : InstanceCreateRequest → Type 0
IsInstanceCreateRequest x =
    (x.api_version < 2 ^ 32)
    × (x.flags < 2 ^ 32)
    × (x.enabled_layer_count < 2 ^ 32)
    × (x.enabled_extension_count < 2 ^ 32)

get_instance_create_request-put_instance_create_request :
    (out : Buffer) (x : InstanceCreateRequest)
    → IsInstanceCreateRequest x
    → get_instance_create_request (put_instance_create_request out x) ≡ x
unfolding get_instance_create_request put_instance_create_request get_u32 put_u32
get_instance_create_request-put_instance_create_request out x h = ground (
  arith,
  h,
  joined_u32_lem x.api_version,
  joined_u32_lem x.flags,
  joined_u32_lem x.enabled_layer_count,
  joined_u32_lem x.enabled_extension_count,
)

-- What encode_instance_create_request writes for a message whose fields fit their types,
-- decode_instance_create_request reads back.
pub decode_instance_create_request-encode_instance_create_request :
    (out b : Buffer) (x : InstanceCreateRequest)
    → IsInstanceCreateRequest x
    → encode_instance_create_request out x ≡ ok b
    → decode_instance_create_request b ≡ ok x
unfolding encode_instance_create_request decode_instance_create_request
decode_instance_create_request-encode_instance_create_request out b x h e =
    ground (arith, e, get_instance_create_request-put_instance_create_request out x h)

abbrev pub IsInstanceCreateResponse : InstanceCreateResponse → Type 0
IsInstanceCreateResponse x = (IsI32 x.vulkan_result) × (x.instance_id < 2 ^ 64)

get_instance_create_response-put_instance_create_response :
    (out : Buffer) (x : InstanceCreateResponse)
    → IsInstanceCreateResponse x
    → get_instance_create_response (put_instance_create_response out x) ≡ x
unfolding get_instance_create_response put_instance_create_response get_i32 get_u32 get_u64 put_i32
    put_u32 put_u64
get_instance_create_response-put_instance_create_response out x h =
    ground (arith, h, joined_i32_lem x.vulkan_result, joined_u64_lem x.instance_id)

instance_create_response_padding :
    (out : Buffer) (x : InstanceCreateResponse) → get_u32 (put_instance_create_response out x) 4 ≡ 0
unfolding put_instance_create_response get_i32 get_u32 get_u64 put_i32 put_u32 put_u64
instance_create_response_padding out x = refl

-- What encode_instance_create_response writes for a message whose fields fit their types,
-- decode_instance_create_response reads back.
pub decode_instance_create_response-encode_instance_create_response :
    (out b : Buffer) (x : InstanceCreateResponse)
    → IsInstanceCreateResponse x
    → encode_instance_create_response out x ≡ ok b
    → decode_instance_create_response b ≡ ok x
unfolding encode_instance_create_response decode_instance_create_response
decode_instance_create_response-encode_instance_create_response out b x h e = ground (
  arith,
  e,
  get_instance_create_response-put_instance_create_response out x h,
  instance_create_response_padding out x,
)

get_instance_id-put_instance_id :
    (out : Buffer) (x : ℕ) → x < 2 ^ 64 → get_instance_id (put_instance_id out x) ≡ x
unfolding get_instance_id put_instance_id get_u32 get_u64 put_u32 put_u64
get_instance_id-put_instance_id out x h = ground (arith, h, joined_u64_lem x h)

-- What encode_instance_id writes for a message whose fields fit their types, decode_instance_id
-- reads back.
pub decode_instance_id-encode_instance_id :
    (out b : Buffer) (x : ℕ)
    → x < 2 ^ 64
    → encode_instance_id out x ≡ ok b
    → decode_instance_id b ≡ ok x
unfolding encode_instance_id decode_instance_id
decode_instance_id-encode_instance_id out b x h e =
    ground (arith, e, get_instance_id-put_instance_id out x h)

get_physical_device_id-put_physical_device_id :
    (out : Buffer) (x : ℕ) → x < 2 ^ 64 → get_physical_device_id (put_physical_device_id out x) ≡ x
unfolding get_physical_device_id put_physical_device_id get_u32 get_u64 put_u32 put_u64
get_physical_device_id-put_physical_device_id out x h = ground (arith, h, joined_u64_lem x h)

-- What encode_physical_device_id writes for a message whose fields fit their types,
-- decode_physical_device_id reads back.
pub decode_physical_device_id-encode_physical_device_id :
    (out b : Buffer) (x : ℕ)
    → x < 2 ^ 64
    → encode_physical_device_id out x ≡ ok b
    → decode_physical_device_id b ≡ ok x
unfolding encode_physical_device_id decode_physical_device_id
decode_physical_device_id-encode_physical_device_id out b x h e =
    ground (arith, e, get_physical_device_id-put_physical_device_id out x h)
