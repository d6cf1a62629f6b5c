-- ===== src/Protocol/Sync.antt =====
-- The fence and semaphore messages of src/protocol.c: what encode stores (put), what decode reads
-- (get), and the two with their checks. Reading needs no output; a rejected input has no value.
pub mod RoundTrip
pub mod Canonical
use bionic_vulkan_bridge.Prelude.{
  ℕ, not, ◌&&◌, ◌||◌, ltb, leb, ◌==◌, if◌then◌else◌, Result, ok, err, einval, eproto, ℤ,
}
use bionic_vulkan_bridge.Wire.{Buffer, put_u32, put_i32, put_u64, get_u32, get_i32, get_u64}
use bionic_vulkan_bridge.Protocol.{
  wire_id_is_type, zeroed, fence_create_request_size, fence_wait_request_size,
  semaphore_create_request_size, semaphore_counter_response_size,
}

pub record FenceCreateRequest : Type 0 where
  pub device_id : ℕ
  pub flags : ℕ

pub put_fence_create_request : Buffer → FenceCreateRequest → Buffer
put_fence_create_request output request =
    let output = zeroed output fence_create_request_size in
    let output = put_u64 output 0 request.device_id in put_u32 output 8 request.flags

pub encode_fence_create_request : Buffer → FenceCreateRequest → Result Buffer
encode_fence_create_request output request =
    if not (wire_id_is_type request.device_id 3)
    then err einval
    else ok (put_fence_create_request output request)

pub get_fence_create_request : Buffer → FenceCreateRequest
get_fence_create_request input = record { device_id = get_u64 input 0; flags = get_u32 input 8 }

pub decode_fence_create_request : Buffer → Result FenceCreateRequest
decode_fence_create_request input =
    let request = get_fence_create_request input in
    if not (wire_id_is_type request.device_id 3 && get_u32 input 12 == 0)
    then err eproto
    else ok request

pub record FenceWaitRequest : Type 0 where
  pub fence_id : ℕ
  pub timeout : ℕ
  pub wait_all : ℕ

pub put_fence_wait_request : Buffer → FenceWaitRequest → Buffer
put_fence_wait_request output request =
    let output = zeroed output fence_wait_request_size in
    let output = put_u64 output 0 request.fence_id in
    let output = put_u64 output 8 request.timeout in put_u32 output 16 request.wait_all

pub encode_fence_wait_request : Buffer → FenceWaitRequest → Result Buffer
encode_fence_wait_request output request =
    if ltb 1 request.wait_all || not (wire_id_is_type request.fence_id 18)
    then err einval
    else ok (put_fence_wait_request output request)

pub get_fence_wait_request : Buffer → FenceWaitRequest
get_fence_wait_request input = record {
  fence_id = get_u64 input 0;
  timeout = get_u64 input 8;
  wait_all = get_u32 input 16;
}

pub decode_fence_wait_request : Buffer → Result FenceWaitRequest
decode_fence_wait_request input =
    let request = get_fence_wait_request input in
    if not (wire_id_is_type request.fence_id 18 && leb request.wait_all 1 && get_u32 input 20 == 0)
    then err eproto
    else ok request

pub record QueueSubmitCommandFenceRequest : Type 0 where
  pub queue_id : ℕ
  pub command_buffer_id : ℕ
  pub fence_id : ℕ

pub put_queue_submit_command_fence_request : Buffer → QueueSubmitCommandFenceRequest → Buffer
put_queue_submit_command_fence_request output request =
    let output = put_u64 output 0 request.queue_id in
    let output = put_u64 output 8 request.command_buffer_id in put_u64 output 16 request.fence_id

pub encode_queue_submit_command_fence_request :
    Buffer → QueueSubmitCommandFenceRequest → Result Buffer
encode_queue_submit_command_fence_request output request =
    if not (wire_id_is_type request.queue_id 4)
      || not (wire_id_is_type request.command_buffer_id 11)
      || not (wire_id_is_type request.fence_id 18)
    then err einval
    else ok (put_queue_submit_command_fence_request output request)

pub get_queue_submit_command_fence_request : Buffer → QueueSubmitCommandFenceRequest
get_queue_submit_command_fence_request input = record {
  queue_id = get_u64 input 0;
  command_buffer_id = get_u64 input 8;
  fence_id = get_u64 input 16;
}

pub decode_queue_submit_command_fence_request : Buffer → Result QueueSubmitCommandFenceRequest
decode_queue_submit_command_fence_request input =
    let request = get_queue_submit_command_fence_request input in
    if not (
      wire_id_is_type request.queue_id 4
      && wire_id_is_type request.command_buffer_id 11
      && wire_id_is_type request.fence_id 18)
    then err eproto
    else ok request

pub record SemaphoreCreateRequest : Type 0 where
  pub device_id : ℕ
  pub initial_value : ℕ
  pub semaphore_type : ℕ
  pub flags : ℕ

pub put_semaphore_create_request : Buffer → SemaphoreCreateRequest → Buffer
put_semaphore_create_request output request =
    let output = zeroed output semaphore_create_request_size in
    let output = put_u64 output 0 request.device_id in
    let output = put_u64 output 8 request.initial_value in
    let output = put_u32 output 16 request.semaphore_type in put_u32 output 20 request.flags

pub encode_semaphore_create_request : Buffer → SemaphoreCreateRequest → Result Buffer
encode_semaphore_create_request output request =
    if not (wire_id_is_type request.device_id 3)
    then err einval
    else ok (put_semaphore_create_request output request)

pub get_semaphore_create_request : Buffer → SemaphoreCreateRequest
get_semaphore_create_request input = record {
  device_id = get_u64 input 0;
  initial_value = get_u64 input 8;
  semaphore_type = get_u32 input 16;
  flags = get_u32 input 20;
}

pub decode_semaphore_create_request : Buffer → Result SemaphoreCreateRequest
decode_semaphore_create_request input =
    let request = get_semaphore_create_request input in
    if not (wire_id_is_type request.device_id 3) then err eproto else ok request

pub record SemaphoreCounterResponse : Type 0 where
  pub vulkan_result : ℤ
  pub value : ℕ

pub put_semaphore_counter_response : Buffer → SemaphoreCounterResponse → Buffer
put_semaphore_counter_response output response =
    let output = zeroed output semaphore_counter_response_size in
    let output = put_i32 output 0 response.vulkan_result in put_u64 output 8 response.value

pub encode_semaphore_counter_response : Buffer → SemaphoreCounterResponse → Result Buffer
encode_semaphore_counter_response output response =
    ok (put_semaphore_counter_response output response)

pub get_semaphore_counter_response : Buffer → SemaphoreCounterResponse
get_semaphore_counter_response input = record {
  vulkan_result = get_i32 input 0;
  value = get_u64 input 8;
}

pub decode_semaphore_counter_response : Buffer → Result SemaphoreCounterResponse
decode_semaphore_counter_response input =
    let response = get_semaphore_counter_response input in
    if not (get_u32 input 4 == 0) then err eproto else ok response

pub record SemaphoreSignalRequest : Type 0 where
  pub device_id : ℕ
  pub semaphore_id : ℕ
  pub value : ℕ

pub put_semaphore_signal_request : Buffer → SemaphoreSignalRequest → Buffer
put_semaphore_signal_request output request =
    let output = put_u64 output 0 request.device_id in
    let output = put_u64 output 8 request.semaphore_id in put_u64 output 16 request.value

pub encode_semaphore_signal_request : Buffer → SemaphoreSignalRequest → Result Buffer
encode_semaphore_signal_request output request =
    if not (wire_id_is_type request.device_id 3) || not (wire_id_is_type request.semaphore_id 17)
    then err einval
    else ok (put_semaphore_signal_request output request)

pub get_semaphore_signal_request : Buffer → SemaphoreSignalRequest
get_semaphore_signal_request input = record {
  device_id = get_u64 input 0;
  semaphore_id = get_u64 input 8;
  value = get_u64 input 16;
}

pub decode_semaphore_signal_request : Buffer → Result SemaphoreSignalRequest
decode_semaphore_signal_request input =
    let request = get_semaphore_signal_request input in
    if not (wire_id_is_type request.device_id 3 && wire_id_is_type request.semaphore_id 17)
    then err eproto
    else ok request
