-- ===== src/Protocol/Sync/Canonical.antt =====
-- What is accepted is canonical: fence and semaphore messages.
use bionic_vulkan_bridge.Prelude.{◌≡◌, refl, ok, arith}
use mathlib.Core.Path.{subst}
use bionic_vulkan_bridge.Wire.{Buffer, put_u32, put_i32, put_u64, get_u32, get_i32, get_u64}
use bionic_vulkan_bridge.Wire.RoundTrip.{IsBytes}
use bionic_vulkan_bridge.Wire.Canonical.{
  agree_none, put_u32_agree, put_u64_agree, put_i32_agree, zero_u32_agree, AgreeTo,
}
use bionic_vulkan_bridge.Protocol.{
  zeroed, fence_create_request_size, fence_wait_request_size, semaphore_create_request_size,
  semaphore_counter_response_size,
}
use bionic_vulkan_bridge.Protocol.Sync.{
  FenceCreateRequest, FenceWaitRequest, QueueSubmitCommandFenceRequest, SemaphoreCounterResponse,
  SemaphoreCreateRequest, SemaphoreSignalRequest, decode_fence_create_request,
  decode_fence_wait_request, decode_queue_submit_command_fence_request,
  decode_semaphore_counter_response, decode_semaphore_create_request,
  decode_semaphore_signal_request, encode_fence_create_request, encode_fence_wait_request,
  encode_queue_submit_command_fence_request, encode_semaphore_counter_response,
  encode_semaphore_create_request, encode_semaphore_signal_request, get_fence_create_request,
  get_fence_wait_request, get_queue_submit_command_fence_request, get_semaphore_counter_response,
  get_semaphore_create_request, get_semaphore_signal_request, put_fence_create_request,
  put_fence_wait_request, put_queue_submit_command_fence_request, put_semaphore_counter_response,
  put_semaphore_create_request, put_semaphore_signal_request,
}

fence_create_request_bytes :
    (input out : Buffer)
    → IsBytes input
    → get_u32 input 12 ≡ 0
    → AgreeTo 16 (put_fence_create_request out (get_fence_create_request input)) input
unfolding put_fence_create_request get_fence_create_request put_u32 put_u64
fence_create_request_bytes input out h z0 =
    let o0 = zeroed out fence_create_request_size in
    let o1 = put_u64 o0 0 (get_u64 input 0) in
    let a1 = put_u64_agree o0 input 0 h (agree_none o0 input) in
    let o2 = put_u32 o1 8 (get_u32 input 8) in
    let a2 = put_u32_agree o1 input 8 h a1 in
    let a3 = zero_u32_agree o2 input 12 h z0 (refl, refl, refl, refl) a2 in a3

fence_create_request_decoded :
    (input out : Buffer) (x : FenceCreateRequest)
    → decode_fence_create_request input ≡ ok x
    → (get_fence_create_request input ≡ x)
      × (encode_fence_create_request out x ≡ ok (put_fence_create_request out x))
      × (get_u32 input 12 ≡ 0)
unfolding encode_fence_create_request decode_fence_create_request
fence_create_request_decoded input out x e = ground (arith, e)

-- Where decode_fence_create_request accepts bytes, encode_fence_create_request accepts the message
-- and writes the same bytes.
pub encode_fence_create_request-decode_fence_create_request :
    (input out : Buffer) (x : FenceCreateRequest)
    → IsBytes input
    → decode_fence_create_request input ≡ ok x
    → (encode_fence_create_request out x ≡ ok (put_fence_create_request out x))
      × AgreeTo 16 (put_fence_create_request out x) input
encode_fence_create_request-decode_fence_create_request input out x h e =
    let (g, enc, z0) = fence_create_request_decoded input out x e in
    (
      enc,
      subst (λ y. AgreeTo 16 (put_fence_create_request out y) input) g
          (fence_create_request_bytes input out h z0),
    )

fence_wait_request_bytes :
    (input out : Buffer)
    → IsBytes input
    → get_u32 input 20 ≡ 0
    → AgreeTo 24 (put_fence_wait_request out (get_fence_wait_request input)) input
unfolding put_fence_wait_request get_fence_wait_request put_u32 put_u64
fence_wait_request_bytes input out h z0 =
    let o0 = zeroed out fence_wait_request_size in
    let o1 = put_u64 o0 0 (get_u64 input 0) in
    let a1 = put_u64_agree o0 input 0 h (agree_none o0 input) in
    let o2 = put_u64 o1 8 (get_u64 input 8) in
    let a2 = put_u64_agree o1 input 8 h a1 in
    let o3 = put_u32 o2 16 (get_u32 input 16) in
    let a3 = put_u32_agree o2 input 16 h a2 in
    let a4 = zero_u32_agree o3 input 20 h z0 (refl, refl, refl, refl) a3 in a4

fence_wait_request_decoded :
    (input out : Buffer) (x : FenceWaitRequest)
    → decode_fence_wait_request input ≡ ok x
    → (get_fence_wait_request input ≡ x)
      × (encode_fence_wait_request out x ≡ ok (put_fence_wait_request out x))
      × (get_u32 input 20 ≡ 0)
unfolding encode_fence_wait_request decode_fence_wait_request
fence_wait_request_decoded input out x e = ground (arith, e)

-- Where decode_fence_wait_request accepts bytes, encode_fence_wait_request accepts the message and
-- writes the same bytes.
pub encode_fence_wait_request-decode_fence_wait_request :
    (input out : Buffer) (x : FenceWaitRequest)
    → IsBytes input
    → decode_fence_wait_request input ≡ ok x
    → (encode_fence_wait_request out x ≡ ok (put_fence_wait_request out x))
      × AgreeTo 24 (put_fence_wait_request out x) input
encode_fence_wait_request-decode_fence_wait_request input out x h e =
    let (g, enc, z0) = fence_wait_request_decoded input out x e in
    (
      enc,
      subst (λ y. AgreeTo 24 (put_fence_wait_request out y) input) g
          (fence_wait_request_bytes input out h z0),
    )

queue_submit_command_fence_request_bytes :
    (input out : Buffer)
    → IsBytes input
    → AgreeTo 24
        (put_queue_submit_command_fence_request out (get_queue_submit_command_fence_request input))
        input
unfolding put_queue_submit_command_fence_request get_queue_submit_command_fence_request
queue_submit_command_fence_request_bytes input out h =
    let o0 = out in
    let o1 = put_u64 o0 0 (get_u64 input 0) in
    let a1 = put_u64_agree o0 input 0 h (agree_none o0 input) in
    let o2 = put_u64 o1 8 (get_u64 input 8) in
    let a2 = put_u64_agree o1 input 8 h a1 in
    let o3 = put_u64 o2 16 (get_u64 input 16) in let a3 = put_u64_agree o2 input 16 h a2 in a3

queue_submit_command_fence_request_decoded :
    (input out : Buffer) (x : QueueSubmitCommandFenceRequest)
    → decode_queue_submit_command_fence_request input ≡ ok x
    → (get_queue_submit_command_fence_request input ≡ x)
      × (encode_queue_submit_command_fence_request out x
          ≡ ok (put_queue_submit_command_fence_request out x))
unfolding encode_queue_submit_command_fence_request decode_queue_submit_command_fence_request
queue_submit_command_fence_request_decoded input out x e = ground (arith, e)

-- Where decode_queue_submit_command_fence_request accepts bytes,
-- encode_queue_submit_command_fence_request accepts the message and writes the same bytes.
pub encode_queue_submit_command_fence_request-decode_queue_submit_command_fence_request :
    (input out : Buffer) (x : QueueSubmitCommandFenceRequest)
    → IsBytes input
    → decode_queue_submit_command_fence_request input ≡ ok x
    → (encode_queue_submit_command_fence_request out x
        ≡ ok (put_queue_submit_command_fence_request out x))
      × AgreeTo 24 (put_queue_submit_command_fence_request out x) input
encode_queue_submit_command_fence_request-decode_queue_submit_command_fence_request input out x h
      e =
    let (g, enc) = queue_submit_command_fence_request_decoded input out x e in
    (
      enc,
      subst (λ y. AgreeTo 24 (put_queue_submit_command_fence_request out y) input) g
          (queue_submit_command_fence_request_bytes input out h),
    )

semaphore_create_request_bytes :
    (input out : Buffer)
    → IsBytes input
    → AgreeTo 24 (put_semaphore_create_request out (get_semaphore_create_request input)) input
unfolding put_semaphore_create_request get_semaphore_create_request
semaphore_create_request_bytes input out h =
    let o0 = zeroed out semaphore_create_request_size in
    let o1 = put_u64 o0 0 (get_u64 input 0) in
    let a1 = put_u64_agree o0 input 0 h (agree_none o0 input) in
    let o2 = put_u64 o1 8 (get_u64 input 8) in
    let a2 = put_u64_agree o1 input 8 h a1 in
    let o3 = put_u32 o2 16 (get_u32 input 16) in
    let a3 = put_u32_agree o2 input 16 h a2 in
    let o4 = put_u32 o3 20 (get_u32 input 20) in let a4 = put_u32_agree o3 input 20 h a3 in a4

semaphore_create_request_decoded :
    (input out : Buffer) (x : SemaphoreCreateRequest)
    → decode_semaphore_create_request input ≡ ok x
    → (get_semaphore_create_request input ≡ x)
      × (encode_semaphore_create_request out x ≡ ok (put_semaphore_create_request out x))
unfolding encode_semaphore_create_request decode_semaphore_create_request
semaphore_create_request_decoded input out x e = ground (arith, e)

-- Where decode_semaphore_create_request accepts bytes, encode_semaphore_create_request accepts the
-- message and writes the same bytes.
pub encode_semaphore_create_request-decode_semaphore_create_request :
    (input out : Buffer) (x : SemaphoreCreateRequest)
    → IsBytes input
    → decode_semaphore_create_request input ≡ ok x
    → (encode_semaphore_create_request out x ≡ ok (put_semaphore_create_request out x))
      × AgreeTo 24 (put_semaphore_create_request out x) input
encode_semaphore_create_request-decode_semaphore_create_request input out x h e =
    let (g, enc) = semaphore_create_request_decoded input out x e in
    (
      enc,
      subst (λ y. AgreeTo 24 (put_semaphore_create_request out y) input) g
          (semaphore_create_request_bytes input out h),
    )

semaphore_counter_response_bytes :
    (input out : Buffer)
    → IsBytes input
    → get_u32 input 4 ≡ 0
    → AgreeTo 16 (put_semaphore_counter_response out (get_semaphore_counter_response input)) input
unfolding put_semaphore_counter_response get_semaphore_counter_response put_i32 put_u32 put_u64
semaphore_counter_response_bytes input out h z0 =
    let o0 = zeroed out semaphore_counter_response_size in
    let o1 = put_i32 o0 0 (get_i32 input 0) in
    let a1 = put_i32_agree o0 input 0 h (agree_none o0 input) in
    let a2 = zero_u32_agree o1 input 4 h z0 (refl, refl, refl, refl) a1 in
    let o3 = put_u64 o1 8 (get_u64 input 8) in let a3 = put_u64_agree o1 input 8 h a2 in a3

semaphore_counter_response_decoded :
    (input out : Buffer) (x : SemaphoreCounterResponse)
    → decode_semaphore_counter_response input ≡ ok x
    → (get_semaphore_counter_response input ≡ x)
      × (encode_semaphore_counter_response out x ≡ ok (put_semaphore_counter_response out x))
      × (get_u32 input 4 ≡ 0)
unfolding encode_semaphore_counter_response decode_semaphore_counter_response
semaphore_counter_response_decoded input out x e = ground (arith, e)

-- Where decode_semaphore_counter_response accepts bytes, encode_semaphore_counter_response accepts
-- the message and writes the same bytes.
pub encode_semaphore_counter_response-decode_semaphore_counter_response :
    (input out : Buffer) (x : SemaphoreCounterResponse)
    → IsBytes input
    → decode_semaphore_counter_response input ≡ ok x
    → (encode_semaphore_counter_response out x ≡ ok (put_semaphore_counter_response out x))
      × AgreeTo 16 (put_semaphore_counter_response out x) input
encode_semaphore_counter_response-decode_semaphore_counter_response input out x h e =
    let (g, enc, z0) = semaphore_counter_response_decoded input out x e in
    (
      enc,
      subst (λ y. AgreeTo 16 (put_semaphore_counter_response out y) input) g
          (semaphore_counter_response_bytes input out h z0),
    )

semaphore_signal_request_bytes :
    (input out : Buffer)
    → IsBytes input
    → AgreeTo 24 (put_semaphore_signal_request out (get_semaphore_signal_request input)) input
unfolding put_semaphore_signal_request get_semaphore_signal_request
semaphore_signal_request_bytes input out h =
    let o0 = out in
    let o1 = put_u64 o0 0 (get_u64 input 0) in
    let a1 = put_u64_agree o0 input 0 h (agree_none o0 input) in
    let o2 = put_u64 o1 8 (get_u64 input 8) in
    let a2 = put_u64_agree o1 input 8 h a1 in
    let o3 = put_u64 o2 16 (get_u64 input 16) in let a3 = put_u64_agree o2 input 16 h a2 in a3

semaphore_signal_request_decoded :
    (input out : Buffer) (x : SemaphoreSignalRequest)
    → decode_semaphore_signal_request input ≡ ok x
    → (get_semaphore_signal_request input ≡ x)
      × (encode_semaphore_signal_request out x ≡ ok (put_semaphore_signal_request out x))
unfolding encode_semaphore_signal_request decode_semaphore_signal_request
semaphore_signal_request_decoded input out x e = ground (arith, e)

-- Where decode_semaphore_signal_request accepts bytes, encode_semaphore_signal_request accepts the
-- message and writes the same bytes.
pub encode_semaphore_signal_request-decode_semaphore_signal_request :
    (input out : Buffer) (x : SemaphoreSignalRequest)
    → IsBytes input
    → decode_semaphore_signal_request input ≡ ok x
    → (encode_semaphore_signal_request out x ≡ ok (put_semaphore_signal_request out x))
      × AgreeTo 24 (put_semaphore_signal_request out x) input
encode_semaphore_signal_request-decode_semaphore_signal_request input out x h e =
    let (g, enc) = semaphore_signal_request_decoded input out x e in
    (
      enc,
      subst (λ y. AgreeTo 24 (put_semaphore_signal_request out y) input) g
          (semaphore_signal_request_bytes input out h),
    )
