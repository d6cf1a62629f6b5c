-- ===== src/Protocol/CommandPool/RoundTrip.antt =====
-- What is encoded is read back: command pool messages.
use bionic_vulkan_bridge.Prelude.{ℕ, ◌^◌, ◌<◌, ◌≡◌, refl, ok, arith}
use bionic_vulkan_bridge.Wire.{Buffer, put_u32, put_i32, put_u64, get_u32, get_i32, get_u64}
use bionic_vulkan_bridge.Wire.RoundTrip.{IsI32, joined_u32_lem, joined_u64_lem, joined_i32_lem}
use bionic_vulkan_bridge.Protocol.CommandPool.{
  CommandPoolCreateRequest, CommandPoolCreateResponse, CommandPoolResetRequest,
  decode_command_pool_create_request, decode_command_pool_create_response, decode_command_pool_id,
  decode_command_pool_reset_request, encode_command_pool_create_request,
  encode_command_pool_create_response, encode_command_pool_id, encode_command_pool_reset_request,
  get_command_pool_create_request, get_command_pool_create_response, get_command_pool_id,
  get_command_pool_reset_request, put_command_pool_create_request, put_command_pool_create_response,
  put_command_pool_id, put_command_pool_reset_request,
}

abbrev pub IsCommandPoolCreateRequest : CommandPoolCreateRequest → Type 0
IsCommandPoolCreateRequest x =
    (x.device_id < 2 ^ 64) × (x.flags < 2 ^ 32) × (x.queue_family_index < 2 ^ 32)

get_command_pool_create_request-put_command_pool_create_request :
    (out : Buffer) (x : CommandPoolCreateRequest)
    → IsCommandPoolCreateRequest x
    → get_command_pool_create_request (put_command_pool_create_request out x) ≡ x
unfolding get_command_pool_create_request put_command_pool_create_request get_u32 get_u64 put_u32
    put_u64
get_command_pool_create_request-put_command_pool_create_request out x h = ground (
  arith,
  h,
  joined_u64_lem x.device_id,
  joined_u32_lem x.flags,
  joined_u32_lem x.queue_family_index,
)

-- What encode_command_pool_create_request writes for a message whose fields fit their types,
-- decode_command_pool_create_request reads back.
pub decode_command_pool_create_request-encode_command_pool_create_request :
    (out b : Buffer) (x : CommandPoolCreateRequest)
    → IsCommandPoolCreateRequest x
    → encode_command_pool_create_request out x ≡ ok b
    → decode_command_pool_create_request b ≡ ok x
unfolding encode_command_pool_create_request decode_command_pool_create_request
decode_command_pool_create_request-encode_command_pool_create_request out b x h e =
    ground (arith, e, get_command_pool_create_request-put_command_pool_create_request out x h)

abbrev pub IsCommandPoolCreateResponse : CommandPoolCreateResponse → Type 0
IsCommandPoolCreateResponse x = (IsI32 x.vulkan_result) × (x.command_pool_id < 2 ^ 64)

get_command_pool_create_response-put_command_pool_create_response :
    (out : Buffer) (x : CommandPoolCreateResponse)
    → IsCommandPoolCreateResponse x
    → get_command_pool_create_response (put_command_pool_create_response out x) ≡ x
unfolding get_command_pool_create_response put_command_pool_create_response get_i32 get_u32 get_u64
    put_i32 put_u32 put_u64
get_command_pool_create_response-put_command_pool_create_response out x h =
    ground (arith, h, joined_i32_lem x.vulkan_result, joined_u64_lem x.command_pool_id)

command_pool_create_response_padding :
    (out : Buffer) (x : CommandPoolCreateResponse)
    → get_u32 (put_command_pool_create_response out x) 4 ≡ 0
unfolding put_command_pool_create_response get_i32 get_u32 get_u64 put_i32 put_u32 put_u64
command_pool_create_response_padding out x = refl

-- What encode_command_pool_create_response writes for a message whose fields fit their types,
-- decode_command_pool_create_response reads back.
pub decode_command_pool_create_response-encode_command_pool_create_response :
    (out b : Buffer) (x : CommandPoolCreateResponse)
    → IsCommandPoolCreateResponse x
    → encode_command_pool_create_response out x ≡ ok b
    → decode_command_pool_create_response b ≡ ok x
unfolding encode_command_pool_create_response decode_command_pool_create_response
decode_command_pool_create_response-encode_command_pool_create_response out b x h e = ground (
  arith,
  e,
  get_command_pool_create_response-put_command_pool_create_response out x h,
  command_pool_create_response_padding out x,
)

get_command_pool_id-put_command_pool_id :
    (out : Buffer) (x : ℕ) → x < 2 ^ 64 → get_command_pool_id (put_command_pool_id out x) ≡ x
unfolding get_command_pool_id put_command_pool_id get_u32 get_u64 put_u32 put_u64
get_command_pool_id-put_command_pool_id out x h = ground (arith, h, joined_u64_lem x h)

-- What encode_command_pool_id writes for a message whose fields fit their types,
-- decode_command_pool_id reads back.
pub decode_command_pool_id-encode_command_pool_id :
    (out b : Buffer) (x : ℕ)
    → x < 2 ^ 64
    → encode_command_pool_id out x ≡ ok b
    → decode_command_pool_id b ≡ ok x
unfolding encode_command_pool_id decode_command_pool_id
decode_command_pool_id-encode_command_pool_id out b x h e =
    ground (arith, e, get_command_pool_id-put_command_pool_id out x h)

abbrev pub IsCommandPoolResetRequest : CommandPoolResetRequest → Type 0
IsCommandPoolResetRequest x = (x.command_pool_id < 2 ^ 64) × (x.flags < 2 ^ 32)

get_command_pool_reset_request-put_command_pool_reset_request :
    (out : Buffer) (x : CommandPoolResetRequest)
    → IsCommandPoolResetRequest x
    → get_command_pool_reset_request (put_command_pool_reset_request out x) ≡ x
unfolding get_command_pool_reset_request put_command_pool_reset_request get_u32 get_u64 put_u32
    put_u64
get_command_pool_reset_request-put_command_pool_reset_request out x h =
    ground (arith, h, joined_u64_lem x.command_pool_id, joined_u32_lem x.flags)

command_pool_reset_request_padding :
    (out : Buffer) (x : CommandPoolResetRequest)
    → get_u32 (put_command_pool_reset_request out x) 12 ≡ 0
unfolding put_command_pool_reset_request get_u32 get_u64 put_u32 put_u64
command_pool_reset_request_padding out x = refl

-- What encode_command_pool_reset_request writes for a message whose fields fit their types,
-- decode_command_pool_reset_request reads back.
pub decode_command_pool_reset_request-encode_command_pool_reset_request :
    (out b : Buffer) (x : CommandPoolResetRequest)
    → IsCommandPoolResetRequest x
    → encode_command_pool_reset_request out x ≡ ok b
    → decode_command_pool_reset_request b ≡ ok x
unfolding encode_command_pool_reset_request decode_command_pool_reset_request
decode_command_pool_reset_request-encode_command_pool_reset_request out b x h e = ground (
  arith,
  e,
  get_command_pool_reset_request-put_command_pool_reset_request out x h,
  command_pool_reset_request_padding out x,
)
