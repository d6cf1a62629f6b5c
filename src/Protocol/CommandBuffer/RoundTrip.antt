-- ===== src/Protocol/CommandBuffer/RoundTrip.antt =====
-- What is encoded is read back: command buffer messages.
use bionic_vulkan_bridge.Prelude.{ℕ, ◌^◌, ◌<◌, ◌≡◌, refl, ok, arith}
use bionic_vulkan_bridge.Wire.{Buffer, put_u32, put_i32, put_u64, get_u32, get_i32, get_u64}
use bionic_vulkan_bridge.Wire.RoundTrip.{IsI32, joined_u32_lem, joined_u64_lem, joined_i32_lem}
use bionic_vulkan_bridge.Protocol.CommandBuffer.{
  CommandBufferAllocateRequest, CommandBufferAllocateResponse, CommandBufferBeginRequest,
  CommandBufferFreeRequest, QueueSubmitCommandRequest, decode_command_buffer_allocate_request,
  decode_command_buffer_allocate_response, decode_command_buffer_begin_request,
  decode_command_buffer_free_request, decode_command_buffer_id, decode_queue_submit_command_request,
  encode_command_buffer_allocate_request, encode_command_buffer_allocate_response,
  encode_command_buffer_begin_request, encode_command_buffer_free_request, encode_command_buffer_id,
  encode_queue_submit_command_request, get_command_buffer_allocate_request,
  get_command_buffer_allocate_response, get_command_buffer_begin_request,
  get_command_buffer_free_request, get_command_buffer_id, get_queue_submit_command_request,
  put_command_buffer_allocate_request, put_command_buffer_allocate_response,
  put_command_buffer_begin_request, put_command_buffer_free_request, put_command_buffer_id,
  put_queue_submit_command_request,
}

abbrev pub IsCommandBufferAllocateRequest : CommandBufferAllocateRequest → Type 0
IsCommandBufferAllocateRequest x =
    (x.command_pool_id < 2 ^ 64) × (x.level < 2 ^ 32) × (x.count < 2 ^ 32)

get_command_buffer_allocate_request-put_command_buffer_allocate_request :
    (out : Buffer) (x : CommandBufferAllocateRequest)
    → IsCommandBufferAllocateRequest x
    → get_command_buffer_allocate_request (put_command_buffer_allocate_request out x) ≡ x
unfolding get_command_buffer_allocate_request put_command_buffer_allocate_request get_u32 get_u64
    put_u32 put_u64
get_command_buffer_allocate_request-put_command_buffer_allocate_request out x h =
    ground
      (arith, h, joined_u64_lem x.command_pool_id, joined_u32_lem x.level, joined_u32_lem x.count)

-- What encode_command_buffer_allocate_request writes for a message whose fields fit their types,
-- decode_command_buffer_allocate_request reads back.
pub decode_command_buffer_allocate_request-encode_command_buffer_allocate_request :
    (out b : Buffer) (x : CommandBufferAllocateRequest)
    → IsCommandBufferAllocateRequest x
    → encode_command_buffer_allocate_request out x ≡ ok b
    → decode_command_buffer_allocate_request b ≡ ok x
unfolding encode_command_buffer_allocate_request decode_command_buffer_allocate_request
decode_command_buffer_allocate_request-encode_command_buffer_allocate_request out b x h e =
    ground
      (arith, e, get_command_buffer_allocate_request-put_command_buffer_allocate_request out x h)

abbrev pub IsCommandBufferAllocateResponse : CommandBufferAllocateResponse → Type 0
IsCommandBufferAllocateResponse x = (IsI32 x.vulkan_result) × (x.command_buffer_id < 2 ^ 64)

get_command_buffer_allocate_response-put_command_buffer_allocate_response :
    (out : Buffer) (x : CommandBufferAllocateResponse)
    → IsCommandBufferAllocateResponse x
    → get_command_buffer_allocate_response (put_command_buffer_allocate_response out x) ≡ x
unfolding get_command_buffer_allocate_response put_command_buffer_allocate_response get_i32 get_u32
    get_u64 put_i32 put_u32 put_u64
get_command_buffer_allocate_response-put_command_buffer_allocate_response out x h =
    ground (arith, h, joined_i32_lem x.vulkan_result, joined_u64_lem x.command_buffer_id)

command_buffer_allocate_response_padding :
    (out : Buffer) (x : CommandBufferAllocateResponse)
    → get_u32 (put_command_buffer_allocate_response out x) 4 ≡ 0
unfolding put_command_buffer_allocate_response get_i32 get_u32 get_u64 put_i32 put_u32 put_u64
command_buffer_allocate_response_padding out x = refl

-- What encode_command_buffer_allocate_response writes for a message whose fields fit their types,
-- decode_command_buffer_allocate_response reads back.
pub decode_command_buffer_allocate_response-encode_command_buffer_allocate_response :
    (out b : Buffer) (x : CommandBufferAllocateResponse)
    → IsCommandBufferAllocateResponse x
    → encode_command_buffer_allocate_response out x ≡ ok b
    → decode_command_buffer_allocate_response b ≡ ok x
unfolding encode_command_buffer_allocate_response decode_command_buffer_allocate_response
decode_command_buffer_allocate_response-encode_command_buffer_allocate_response out b x h e =
    ground (
      arith,
      e,
      get_command_buffer_allocate_response-put_command_buffer_allocate_response out x h,
      command_buffer_allocate_response_padding out x,
    )

abbrev pub IsCommandBufferFreeRequest : CommandBufferFreeRequest → Type 0
IsCommandBufferFreeRequest x = (x.command_pool_id < 2 ^ 64) × (x.command_buffer_id < 2 ^ 64)

get_command_buffer_free_request-put_command_buffer_free_request :
    (out : Buffer) (x : CommandBufferFreeRequest)
    → IsCommandBufferFreeRequest x
    → get_command_buffer_free_request (put_command_buffer_free_request out x) ≡ x
unfolding get_command_buffer_free_request put_command_buffer_free_request get_u32 get_u64 put_u32
    put_u64
get_command_buffer_free_request-put_command_buffer_free_request out x h =
    ground (arith, h, joined_u64_lem x.command_pool_id, joined_u64_lem x.command_buffer_id)

-- What encode_command_buffer_free_request writes for a message whose fields fit their types,
-- decode_command_buffer_free_request reads back.
pub decode_command_buffer_free_request-encode_command_buffer_free_request :
    (out b : Buffer) (x : CommandBufferFreeRequest)
    → IsCommandBufferFreeRequest x
    → encode_command_buffer_free_request out x ≡ ok b
    → decode_command_buffer_free_request b ≡ ok x
unfolding encode_command_buffer_free_request decode_command_buffer_free_request
decode_command_buffer_free_request-encode_command_buffer_free_request out b x h e =
    ground (arith, e, get_command_buffer_free_request-put_command_buffer_free_request out x h)

abbrev pub IsCommandBufferBeginRequest : CommandBufferBeginRequest → Type 0
IsCommandBufferBeginRequest x = (x.command_buffer_id < 2 ^ 64) × (x.flags < 2 ^ 32)

get_command_buffer_begin_request-put_command_buffer_begin_request :
    (out : Buffer) (x : CommandBufferBeginRequest)
    → IsCommandBufferBeginRequest x
    → get_command_buffer_begin_request (put_command_buffer_begin_request out x) ≡ x
unfolding get_command_buffer_begin_request put_command_buffer_begin_request get_u32 get_u64 put_u32
    put_u64
get_command_buffer_begin_request-put_command_buffer_begin_request out x h =
    ground (arith, h, joined_u64_lem x.command_buffer_id, joined_u32_lem x.flags)

command_buffer_begin_request_padding :
    (out : Buffer) (x : CommandBufferBeginRequest)
    → get_u32 (put_command_buffer_begin_request out x) 12 ≡ 0
unfolding put_command_buffer_begin_request get_u32 get_u64 put_u32 put_u64
command_buffer_begin_request_padding out x = refl

-- What encode_command_buffer_begin_request writes for a message whose fields fit their types,
-- decode_command_buffer_begin_request reads back.
pub decode_command_buffer_begin_request-encode_command_buffer_begin_request :
    (out b : Buffer) (x : CommandBufferBeginRequest)
    → IsCommandBufferBeginRequest x
    → encode_command_buffer_begin_request out x ≡ ok b
    → decode_command_buffer_begin_request b ≡ ok x
unfolding encode_command_buffer_begin_request decode_command_buffer_begin_request
decode_command_buffer_begin_request-encode_command_buffer_begin_request out b x h e = ground (
  arith,
  e,
  get_command_buffer_begin_request-put_command_buffer_begin_request out x h,
  command_buffer_begin_request_padding out x,
)

get_command_buffer_id-put_command_buffer_id :
    (out : Buffer) (x : ℕ) → x < 2 ^ 64 → get_command_buffer_id (put_command_buffer_id out x) ≡ x
unfolding get_command_buffer_id put_command_buffer_id get_u32 get_u64 put_u32 put_u64
get_command_buffer_id-put_command_buffer_id out x h = ground (arith, h, joined_u64_lem x h)

-- What encode_command_buffer_id writes for a message whose fields fit their types,
-- decode_command_buffer_id reads back.
pub decode_command_buffer_id-encode_command_buffer_id :
    (out b : Buffer) (x : ℕ)
    → x < 2 ^ 64
    → encode_command_buffer_id out x ≡ ok b
    → decode_command_buffer_id b ≡ ok x
unfolding encode_command_buffer_id decode_command_buffer_id
decode_command_buffer_id-encode_command_buffer_id out b x h e =
    ground (arith, e, get_command_buffer_id-put_command_buffer_id out x h)

abbrev pub IsQueueSubmitCommandRequest : QueueSubmitCommandRequest → Type 0
IsQueueSubmitCommandRequest x = (x.queue_id < 2 ^ 64) × (x.command_buffer_id < 2 ^ 64)

get_queue_submit_command_request-put_queue_submit_command_request :
    (out : Buffer) (x : QueueSubmitCommandRequest)
    → IsQueueSubmitCommandRequest x
    → get_queue_submit_command_request (put_queue_submit_command_request out x) ≡ x
unfolding get_queue_submit_command_request put_queue_submit_command_request get_u32 get_u64 put_u32
    put_u64
get_queue_submit_command_request-put_queue_submit_command_request out x h =
    ground (arith, h, joined_u64_lem x.queue_id, joined_u64_lem x.command_buffer_id)

-- What encode_queue_submit_command_request writes for a message whose fields fit their types,
-- decode_queue_submit_command_request reads back.
pub decode_queue_submit_command_request-encode_queue_submit_command_request :
    (out b : Buffer) (x : QueueSubmitCommandRequest)
    → IsQueueSubmitCommandRequest x
    → encode_queue_submit_command_request out x ≡ ok b
    → decode_queue_submit_command_request b ≡ ok x
unfolding encode_queue_submit_command_request decode_queue_submit_command_request
decode_queue_submit_command_request-encode_queue_submit_command_request out b x h e =
    ground (arith, e, get_queue_submit_command_request-put_queue_submit_command_request out x h)
