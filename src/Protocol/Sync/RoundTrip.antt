-- ===== src/Protocol/Sync/RoundTrip.antt =====
-- What is encoded is read back: fence and semaphore messages.
use bionic_vulkan_bridge.Prelude.{◌^◌, ◌<◌, ◌≡◌, refl, ok, arith}
use bionic_vulkan_bridge.Wire.{Buffer, put_u32, put_i32, put_u64, get_u32, get_i32, get_u64}
use bionic_vulkan_bridge.Wire.RoundTrip.{IsI32, joined_u32_lem, joined_u64_lem, joined_i32_lem}
use bionic_vulkan_bridge.Protocol.Sync.{
  FenceCreateRequest, FenceWaitRequest, QueueSubmitCommandFenceRequest, SemaphoreCounterResponse,
  SemaphoreCreateRequest, SemaphoreSignalRequest, decode_fence_create_request,
  decode_fence_wait_request, decode_queue_submit_command_fence_request,
  decode_semaphore_counter_response, decode_semaphore_create_request,
  decode_semaphore_signal_request, encode_fence_create_request, encode_fence_wait_request,
  encode_queue_submit_command_fence_request, encode_semaphore_counter_response,
  encode_semaphore_create_request, encode_semaphore_signal_request, get_fence_create_request,
  get_fence_wait_request, get_queue_submit_command_fence_request, get_semaphore_counter_response,
  get_semaphore_create_request, get_semaphore_signal_request, put_fence_create_request,
  put_fence_wait_request, put_queue_submit_command_fence_request, put_semaphore_counter_response,
  put_semaphore_create_request, put_semaphore_signal_request,
}

abbrev pub IsFenceCreateRequest : FenceCreateRequest → Type 0
IsFenceCreateRequest x = (x.device_id < 2 ^ 64) × (x.flags < 2 ^ 32)

get_fence_create_request-put_fence_create_request :
    (out : Buffer) (x : FenceCreateRequest)
    → IsFenceCreateRequest x
    → get_fence_create_request (put_fence_create_request out x) ≡ x
unfolding get_fence_create_request put_fence_create_request get_u32 get_u64 put_u32 put_u64
get_fence_create_request-put_fence_create_request out x h =
    ground (arith, h, joined_u64_lem x.device_id, joined_u32_lem x.flags)

fence_create_request_padding :
    (out : Buffer) (x : FenceCreateRequest) → get_u32 (put_fence_create_request out x) 12 ≡ 0
unfolding put_fence_create_request get_u32 get_u64 put_u32 put_u64
fence_create_request_padding out x = refl

-- What encode_fence_create_request writes for a message whose fields fit their types,
-- decode_fence_create_request reads back.
pub decode_fence_create_request-encode_fence_create_request :
    (out b : Buffer) (x : FenceCreateRequest)
    → IsFenceCreateRequest x
    → encode_fence_create_request out x ≡ ok b
    → decode_fence_create_request b ≡ ok x
unfolding encode_fence_create_request decode_fence_create_request
decode_fence_create_request-encode_fence_create_request out b x h e = ground (
  arith,
  e,
  get_fence_create_request-put_fence_create_request out x h,
  fence_create_request_padding out x,
)

abbrev pub IsFenceWaitRequest : FenceWaitRequest → Type 0
IsFenceWaitRequest x = (x.fence_id < 2 ^ 64) × (x.timeout < 2 ^ 64) × (x.wait_all < 2 ^ 32)

get_fence_wait_request-put_fence_wait_request :
    (out : Buffer) (x : FenceWaitRequest)
    → IsFenceWaitRequest x
    → get_fence_wait_request (put_fence_wait_request out x) ≡ x
unfolding get_fence_wait_request put_fence_wait_request get_u32 get_u64 put_u32 put_u64
get_fence_wait_request-put_fence_wait_request out x h =
    ground
      (arith, h, joined_u64_lem x.fence_id, joined_u64_lem x.timeout, joined_u32_lem x.wait_all)

fence_wait_request_padding :
    (out : Buffer) (x : FenceWaitRequest) → get_u32 (put_fence_wait_request out x) 20 ≡ 0
unfolding put_fence_wait_request get_u32 get_u64 put_u32 put_u64
fence_wait_request_padding out x = refl

-- What encode_fence_wait_request writes for a message whose fields fit their types,
-- decode_fence_wait_request reads back.
pub decode_fence_wait_request-encode_fence_wait_request :
    (out b : Buffer) (x : FenceWaitRequest)
    → IsFenceWaitRequest x
    → encode_fence_wait_request out x ≡ ok b
    → decode_fence_wait_request b ≡ ok x
unfolding encode_fence_wait_request decode_fence_wait_request
decode_fence_wait_request-encode_fence_wait_request out b x h e = ground (
  arith,
  e,
  get_fence_wait_request-put_fence_wait_request out x h,
  fence_wait_request_padding out x,
)

abbrev pub IsQueueSubmitCommandFenceRequest : QueueSubmitCommandFenceRequest → Type 0
IsQueueSubmitCommandFenceRequest x =
    (x.queue_id < 2 ^ 64) × (x.command_buffer_id < 2 ^ 64) × (x.fence_id < 2 ^ 64)

get_queue_submit_command_fence_request-put_queue_submit_command_fence_request :
    (out : Buffer) (x : QueueSubmitCommandFenceRequest)
    → IsQueueSubmitCommandFenceRequest x
    → get_queue_submit_command_fence_request (put_queue_submit_command_fence_request out x) ≡ x
unfolding get_queue_submit_command_fence_request put_queue_submit_command_fence_request get_u32
    get_u64 put_u32 put_u64
get_queue_submit_command_fence_request-put_queue_submit_command_fence_request out x h = ground (
  arith,
  h,
  joined_u64_lem x.queue_id,
  joined_u64_lem x.command_buffer_id,
  joined_u64_lem x.fence_id,
)

-- What encode_queue_submit_command_fence_request writes for a message whose fields fit their
-- types, decode_queue_submit_command_fence_request reads back.
pub decode_queue_submit_command_fence_request-encode_queue_submit_command_fence_request :
    (out b : Buffer) (x : QueueSubmitCommandFenceRequest)
    → IsQueueSubmitCommandFenceRequest x
    → encode_queue_submit_command_fence_request out x ≡ ok b
    → decode_queue_submit_command_fence_request b ≡ ok x
unfolding encode_queue_submit_command_fence_request decode_queue_submit_command_fence_request
decode_queue_submit_command_fence_request-encode_queue_submit_command_fence_request out b x h e =
    ground (
      arith,
      e,
      get_queue_submit_command_fence_request-put_queue_submit_command_fence_request out x h,
    )

abbrev pub IsSemaphoreCreateRequest : SemaphoreCreateRequest → Type 0
IsSemaphoreCreateRequest x =
    (x.device_id < 2 ^ 64)
    × (x.initial_value < 2 ^ 64)
    × (x.semaphore_type < 2 ^ 32)
    × (x.flags < 2 ^ 32)

get_semaphore_create_request-put_semaphore_create_request :
    (out : Buffer) (x : SemaphoreCreateRequest)
    → IsSemaphoreCreateRequest x
    → get_semaphore_create_request (put_semaphore_create_request out x) ≡ x
unfolding get_semaphore_create_request put_semaphore_create_request get_u32 get_u64 put_u32 put_u64
get_semaphore_create_request-put_semaphore_create_request out x h = ground (
  arith,
  h,
  joined_u64_lem x.device_id,
  joined_u64_lem x.initial_value,
  joined_u32_lem x.semaphore_type,
  joined_u32_lem x.flags,
)

-- What encode_semaphore_create_request writes for a message whose fields fit their types,
-- decode_semaphore_create_request reads back.
pub decode_semaphore_create_request-encode_semaphore_create_request :
    (out b : Buffer) (x : SemaphoreCreateRequest)
    → IsSemaphoreCreateRequest x
    → encode_semaphore_create_request out x ≡ ok b
    → decode_semaphore_create_request b ≡ ok x
unfolding encode_semaphore_create_request decode_semaphore_create_request
decode_semaphore_create_request-encode_semaphore_create_request out b x h e =
    ground (arith, e, get_semaphore_create_request-put_semaphore_create_request out x h)

abbrev pub IsSemaphoreCounterResponse : SemaphoreCounterResponse → Type 0
IsSemaphoreCounterResponse x = (IsI32 x.vulkan_result) × (x.value < 2 ^ 64)

get_semaphore_counter_response-put_semaphore_counter_response :
    (out : Buffer) (x : SemaphoreCounterResponse)
    → IsSemaphoreCounterResponse x
    → get_semaphore_counter_response (put_semaphore_counter_response out x) ≡ x
unfolding get_semaphore_counter_response put_semaphore_counter_response get_i32 get_u32 get_u64
    put_i32 put_u32 put_u64
get_semaphore_counter_response-put_semaphore_counter_response out x h =
    ground (arith, h, joined_i32_lem x.vulkan_result, joined_u64_lem x.value)

semaphore_counter_response_padding :
    (out : Buffer) (x : SemaphoreCounterResponse)
    → get_u32 (put_semaphore_counter_response out x) 4 ≡ 0
unfolding put_semaphore_counter_response get_i32 get_u32 get_u64 put_i32 put_u32 put_u64
semaphore_counter_response_padding out x = refl

-- What encode_semaphore_counter_response writes for a message whose fields fit their types,
-- decode_semaphore_counter_response reads back.
pub decode_semaphore_counter_response-encode_semaphore_counter_response :
    (out b : Buffer) (x : SemaphoreCounterResponse)
    → IsSemaphoreCounterResponse x
    → encode_semaphore_counter_response out x ≡ ok b
    → decode_semaphore_counter_response b ≡ ok x
unfolding encode_semaphore_counter_response decode_semaphore_counter_response
decode_semaphore_counter_response-encode_semaphore_counter_response out b x h e = ground (
  arith,
  e,
  get_semaphore_counter_response-put_semaphore_counter_response out x h,
  semaphore_counter_response_padding out x,
)

abbrev pub IsSemaphoreSignalRequest : SemaphoreSignalRequest → Type 0
IsSemaphoreSignalRequest x = (x.device_id < 2 ^ 64) × (x.semaphore_id < 2 ^ 64) × (x.value < 2 ^ 64)

get_semaphore_signal_request-put_semaphore_signal_request :
    (out : Buffer) (x : SemaphoreSignalRequest)
    → IsSemaphoreSignalRequest x
    → get_semaphore_signal_request (put_semaphore_signal_request out x) ≡ x
unfolding get_semaphore_signal_request put_semaphore_signal_request get_u32 get_u64 put_u32 put_u64
get_semaphore_signal_request-put_semaphore_signal_request out x h =
    ground
      (arith, h, joined_u64_lem x.device_id, joined_u64_lem x.semaphore_id, joined_u64_lem x.value)

-- What encode_semaphore_signal_request writes for a message whose fields fit their types,
-- decode_semaphore_signal_request reads back.
pub decode_semaphore_signal_request-encode_semaphore_signal_request :
    (out b : Buffer) (x : SemaphoreSignalRequest)
    → IsSemaphoreSignalRequest x
    → encode_semaphore_signal_request out x ≡ ok b
    → decode_semaphore_signal_request b ≡ ok x
unfolding encode_semaphore_signal_request decode_semaphore_signal_request
decode_semaphore_signal_request-encode_semaphore_signal_request out b x h e =
    ground (arith, e, get_semaphore_signal_request-put_semaphore_signal_request out x h)
