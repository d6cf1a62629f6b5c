-- ===== src/Protocol/Recording/RoundTrip.antt =====
-- What is encoded is read back: commands recorded by messages of their own, and the check of a fill.
use bionic_vulkan_bridge.Prelude.{◌^◌, ◌<◌, ◌≡◌, refl, ok, arith}
use bionic_vulkan_bridge.Wire.{Buffer, put_u32, put_i32, put_u64, get_u32, get_i32, get_u64}
use bionic_vulkan_bridge.Wire.RoundTrip.{IsI32, joined_u32_lem, joined_u64_lem, joined_i32_lem}
use bionic_vulkan_bridge.Protocol.Recording.{
  CommandBufferClearColorImageRequest, CommandBufferFillRequest, MemoryVerifyFillRequest,
  MemoryVerifyFillResponse, decode_command_buffer_clear_color_image_request,
  decode_command_buffer_fill_request, decode_memory_verify_fill_request,
  decode_memory_verify_fill_response, encode_command_buffer_clear_color_image_request,
  encode_command_buffer_fill_request, encode_memory_verify_fill_request,
  encode_memory_verify_fill_response, get_command_buffer_clear_color_image_request,
  get_command_buffer_fill_request, get_memory_verify_fill_request, get_memory_verify_fill_response,
  put_command_buffer_clear_color_image_request, put_command_buffer_fill_request,
  put_memory_verify_fill_request, put_memory_verify_fill_response,
}

abbrev pub IsCommandBufferFillRequest : CommandBufferFillRequest → Type 0
IsCommandBufferFillRequest x =
    (x.command_buffer_id < 2 ^ 64)
    × (x.buffer_id < 2 ^ 64)
    × (x.offset < 2 ^ 64)
    × (x.size < 2 ^ 64)
    × (x.data_word < 2 ^ 32)

get_command_buffer_fill_request-put_command_buffer_fill_request :
    (out : Buffer) (x : CommandBufferFillRequest)
    → IsCommandBufferFillRequest x
    → get_command_buffer_fill_request (put_command_buffer_fill_request out x) ≡ x
unfolding get_command_buffer_fill_request put_command_buffer_fill_request get_u32 get_u64 put_u32
    put_u64
get_command_buffer_fill_request-put_command_buffer_fill_request out x h = ground (
  arith,
  h,
  joined_u64_lem x.command_buffer_id,
  joined_u64_lem x.buffer_id,
  joined_u64_lem x.offset,
  joined_u64_lem x.size,
  joined_u32_lem x.data_word,
)

command_buffer_fill_request_padding :
    (out : Buffer) (x : CommandBufferFillRequest)
    → get_u32 (put_command_buffer_fill_request out x) 36 ≡ 0
unfolding put_command_buffer_fill_request get_u32 get_u64 put_u32 put_u64
command_buffer_fill_request_padding out x = refl

-- What encode_command_buffer_fill_request writes for a message whose fields fit their types,
-- decode_command_buffer_fill_request reads back.
pub decode_command_buffer_fill_request-encode_command_buffer_fill_request :
    (out b : Buffer) (x : CommandBufferFillRequest)
    → IsCommandBufferFillRequest x
    → encode_command_buffer_fill_request out x ≡ ok b
    → decode_command_buffer_fill_request b ≡ ok x
unfolding encode_command_buffer_fill_request decode_command_buffer_fill_request
decode_command_buffer_fill_request-encode_command_buffer_fill_request out b x h e = ground (
  arith,
  e,
  get_command_buffer_fill_request-put_command_buffer_fill_request out x h,
  command_buffer_fill_request_padding out x,
)

abbrev pub IsCommandBufferClearColorImageRequest : CommandBufferClearColorImageRequest → Type 0
IsCommandBufferClearColorImageRequest x = (x.command_buffer_id < 2 ^ 64) × (x.image_id < 2 ^ 64)

get_command_buffer_clear_color_image_request-put_command_buffer_clear_color_image_request :
    (out : Buffer) (x : CommandBufferClearColorImageRequest)
    → IsCommandBufferClearColorImageRequest x
    → get_command_buffer_clear_color_image_request
        (put_command_buffer_clear_color_image_request out x)
      ≡ x
unfolding get_command_buffer_clear_color_image_request put_command_buffer_clear_color_image_request
    get_u32 get_u64 put_u32 put_u64
get_command_buffer_clear_color_image_request-put_command_buffer_clear_color_image_request out x h =
    ground (arith, h, joined_u64_lem x.command_buffer_id, joined_u64_lem x.image_id)

-- What encode_command_buffer_clear_color_image_request writes for a message whose fields fit their
-- types, decode_command_buffer_clear_color_image_request reads back.
pub decode_command_buffer_clear_color_image_request-encode_command_buffer_clear_color_image_request :
    (out b : Buffer) (x : CommandBufferClearColorImageRequest)
    → IsCommandBufferClearColorImageRequest x
    → encode_command_buffer_clear_color_image_request out x ≡ ok b
    → decode_command_buffer_clear_color_image_request b ≡ ok x
unfolding encode_command_buffer_clear_color_image_request
    decode_command_buffer_clear_color_image_request
decode_command_buffer_clear_color_image_request-encode_command_buffer_clear_color_image_request out
      b x h e =
    ground (
      arith,
      e,
      get_command_buffer_clear_color_image_request-put_command_buffer_clear_color_image_request out
          x h,
    )

abbrev pub IsMemoryVerifyFillRequest : MemoryVerifyFillRequest → Type 0
IsMemoryVerifyFillRequest x =
    (x.memory_id < 2 ^ 64) × (x.offset < 2 ^ 64) × (x.size < 2 ^ 64) × (x.expected_word < 2 ^ 32)

get_memory_verify_fill_request-put_memory_verify_fill_request :
    (out : Buffer) (x : MemoryVerifyFillRequest)
    → IsMemoryVerifyFillRequest x
    → get_memory_verify_fill_request (put_memory_verify_fill_request out x) ≡ x
unfolding get_memory_verify_fill_request put_memory_verify_fill_request get_u32 get_u64 put_u32
    put_u64
get_memory_verify_fill_request-put_memory_verify_fill_request out x h = ground (
  arith,
  h,
  joined_u64_lem x.memory_id,
  joined_u64_lem x.offset,
  joined_u64_lem x.size,
  joined_u32_lem x.expected_word,
)

memory_verify_fill_request_padding :
    (out : Buffer) (x : MemoryVerifyFillRequest)
    → get_u32 (put_memory_verify_fill_request out x) 28 ≡ 0
unfolding put_memory_verify_fill_request get_u32 get_u64 put_u32 put_u64
memory_verify_fill_request_padding out x = refl

-- What encode_memory_verify_fill_request writes for a message whose fields fit their types,
-- decode_memory_verify_fill_request reads back.
pub decode_memory_verify_fill_request-encode_memory_verify_fill_request :
    (out b : Buffer) (x : MemoryVerifyFillRequest)
    → IsMemoryVerifyFillRequest x
    → encode_memory_verify_fill_request out x ≡ ok b
    → decode_memory_verify_fill_request b ≡ ok x
unfolding encode_memory_verify_fill_request decode_memory_verify_fill_request
decode_memory_verify_fill_request-encode_memory_verify_fill_request out b x h e = ground (
  arith,
  e,
  get_memory_verify_fill_request-put_memory_verify_fill_request out x h,
  memory_verify_fill_request_padding out x,
)

abbrev pub IsMemoryVerifyFillResponse : MemoryVerifyFillResponse → Type 0
IsMemoryVerifyFillResponse x = (IsI32 x.vulkan_result) × (x.mismatched_words < 2 ^ 32)

get_memory_verify_fill_response-put_memory_verify_fill_response :
    (out : Buffer) (x : MemoryVerifyFillResponse)
    → IsMemoryVerifyFillResponse x
    → get_memory_verify_fill_response (put_memory_verify_fill_response out x) ≡ x
unfolding get_memory_verify_fill_response put_memory_verify_fill_response get_i32 get_u32 put_i32
    put_u32
get_memory_verify_fill_response-put_memory_verify_fill_response out x h =
    ground (arith, h, joined_i32_lem x.vulkan_result, joined_u32_lem x.mismatched_words)

-- What encode_memory_verify_fill_response writes for a message whose fields fit their types,
-- decode_memory_verify_fill_response reads back.
pub decode_memory_verify_fill_response-encode_memory_verify_fill_response :
    (out b : Buffer) (x : MemoryVerifyFillResponse)
    → IsMemoryVerifyFillResponse x
    → encode_memory_verify_fill_response out x ≡ ok b
    → decode_memory_verify_fill_response b ≡ ok x
unfolding encode_memory_verify_fill_response decode_memory_verify_fill_response
decode_memory_verify_fill_response-encode_memory_verify_fill_response out b x h e =
    ground (arith, e, get_memory_verify_fill_response-put_memory_verify_fill_response out x h)
