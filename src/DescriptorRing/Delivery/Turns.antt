-- ===== src/DescriptorRing/Delivery/Turns.antt =====
-- Waits of call and of wait_request that are short: the word is there already, or it comes in the first turn
-- of the spin loop.
use bionic_vulkan_bridge.Prelude.{
  ℕ, ◌+◌, ◌-◌, ◌^◌, ◌≤◌, ◌<◌, ◌≡◌, ◌≢◌, arith, refl, List, [], ◌∷◌, false, ◌==◌, ◌||◌, none, some,
  ok, success,
}
use bionic_vulkan_bridge.Wire.{Buffer}
use bionic_vulkan_bridge.Futex.{Clock, Wait, deadline_from_timeout}
use bionic_vulkan_bridge.DescriptorRing.{
  Ring, validate_header, peer_status, wait_idle, wait_spinning, wait_sleeping, header_is_bad,
}
use bionic_vulkan_bridge.DescriptorRing.Waiting.{
  Word, request_word, completion_word, word_of, with_state, poll, Spin, returned, spin_deadline,
  spin, after_spin, wait_for_sequence, wake_if_sleeping,
}
use bionic_vulkan_bridge.DescriptorRing.Transactions.{
  call_check, post, receive, take_request, call, wait_request,
}
use bionic_vulkan_bridge.DescriptorRing.Delivery.{header_same, call_check_lem}

pub call_check-peer :
    (r : Ring) (length generation sequence request_length timeout_ms : ℕ)
    → call_check r length generation sequence request_length timeout_ms ≡ success
    → (peer_status r ≡ success) × (timeout_ms ≢ 0)
unfolding call_check
call_check-peer r length generation sequence request_length timeout_ms e = ground (arith, e)

poll-reached :
    (word : Word) (r : Ring) (expected : ℕ)
    → peer_status r ≡ success
    → expected ≤ word_of word r
    → poll word r expected ≡ some success
unfolding poll
poll-reached word r expected well reached = ground (arith, well, reached)

poll-ahead :
    (word : Word) (r : Ring) (expected : ℕ)
    → peer_status r ≡ success
    → word_of word r < expected
    → poll word r expected ≡ none
unfolding poll
poll-ahead word r expected well behind = ground (arith, well, behind)

-- A wait for a word that is there already returns at once and stores nothing.
wait-reached :
    (word : Word) (expected deadline : ℕ) (started : Clock) (spins : List Spin)
    (waits : List (Wait Ring)) (r : Ring)
    → poll word r expected ≡ some success
    → wait_for_sequence word expected deadline started spins waits r ≡ some (r, success)
unfolding wait_for_sequence
wait-reached word expected deadline started spins waits r there = rw (wait_for_sequence, there) refl

spin-reached :
    (word : Word) (expected deadline iterations : ℕ) (r : Ring) (spins : List Spin)
    → poll word r expected ≡ some success
    → spin word expected deadline iterations r spins ≡ some (returned (r, success))
unfolding spin
spin-reached word expected deadline iterations r [] there = rw (spin, there) refl
spin-reached word expected deadline iterations r (s ∷ ss) there = rw (spin, there) refl

-- A wait returns if the word is reached after the first turn of its spin loop.
wait-turned :
    (word : Word) (expected deadline started : ℕ) (now : Clock) (after : Ring) (spins : List Spin)
    (waits : List (Wait Ring)) (r : Ring)
    → poll word r expected ≡ none
    → poll word (with_state word r wait_spinning) expected ≡ none
    → poll word after expected ≡ some success
    → wait_for_sequence word expected deadline
        (some started)
        (record { now = now; memory = after } ∷ spins)
        waits
        r
      ≡ some (with_state word after wait_idle, success)
unfolding wait_for_sequence after_spin spin
wait-turned word expected deadline started now after spins waits r first second there =
    let spun = spin-reached word expected (spin_deadline deadline started) 1 after spins there in
    rw (wait_for_sequence, first, spin, second, spun) refl

header_state :
    (r : Ring) (length generation state : ℕ)
    → validate_header r length generation ≡ success
    → state ≤ wait_sleeping
    → validate_header (with_state completion_word r state) length generation ≡ success
unfolding validate_header header_is_bad
header_state r length generation state e small = ground (arith, e, small)

pub call_check-state :
    (r : Ring) (length generation sequence request_length timeout_ms state : ℕ)
    → call_check r length generation sequence request_length timeout_ms ≡ success
    → state ≤ wait_sleeping
    → call_check
        (with_state completion_word r state)
        length
        generation
        sequence
        request_length
        timeout_ms
      ≡ success
unfolding call_check peer_status
call_check-state r length generation sequence request_length timeout_ms state e small =
    let (_, _, _, _, header) =
      call_check_lem r length generation sequence request_length timeout_ms e in
    rw (header_state r length generation state header small) (ground (arith, e))

deadline-nonzero :
    (timeout_ms deadline : ℕ) (started : Clock)
    → deadline_from_timeout timeout_ms started ≡ ok deadline
    → timeout_ms ≢ 0
unfolding deadline_from_timeout
deadline-nonzero timeout_ms deadline started e = ground (arith, e)

-- A service that waits for the request that stands there takes it at once.
pub wait_request-post :
    (r : Ring) (length generation sequence client_timeout_ms : ℕ) (request : Buffer)
    (request_length request_capacity timeout_ms deadline : ℕ) (started spin_started : Clock)
    (spins : List Spin) (waits : List (Wait Ring))
    → call_check r length generation sequence request_length client_timeout_ms ≡ success
    → sequence < 2 ^ 32
    → deadline_from_timeout timeout_ms started ≡ ok deadline
    → wait_request
        (post r sequence request request_length)
        length
        generation
        (sequence - 1)
        request_capacity
        timeout_ms
        started
        spin_started
        spins
        waits
      ≡ some (
        post r sequence request request_length,
        take_request (post r sequence request request_length) sequence request_capacity,
      )
unfolding wait_request
wait_request-post r length generation sequence client_timeout_ms request request_length
      request_capacity timeout_ms deadline started spin_started spins waits e word timed =
    let posted = post r sequence request request_length in
    let (nonzero, _, _, _, header) =
      call_check_lem r length generation sequence request_length client_timeout_ms e in
    let (well, _) =
      call_check-peer r length generation sequence request_length client_timeout_ms e in
    let next : sequence - 1 + 1 ≡ sequence = omega (arith, nonzero) in
    let accepted : validate_header posted length generation ≡ success =
      rw (header_same r length generation sequence request request_length) header in
    let there = wait-reached request_word sequence deadline spin_started spins waits posted (
      poll-reached request_word posted sequence (unfold post peer_status in well)
        (unfold post in omega arith)) in
    let asked : ((sequence - 1 == 2 ^ 32 - 1) || (timeout_ms == 0)) ≡ false =
      ground (arith, nonzero, word, deadline-nonzero timeout_ms deadline started timed) in
    rw (wait_request, accepted, asked, timed, next, there) refl

-- A call whose completion comes in the first turn of its spin loop goes on to receive.
pub call-turned :
    (r after : Ring) (length generation sequence : ℕ) (request : Buffer)
    (request_length response_capacity timeout_ms deadline spin_started : ℕ) (started now : Clock)
    (spins : List Spin) (waits : List (Wait Ring))
    → call_check r length generation sequence request_length timeout_ms ≡ success
    → r.completion_sequence < sequence
    → deadline_from_timeout timeout_ms started ≡ ok deadline
    → peer_status after ≡ success
    → after.completion_sequence ≡ sequence
    → call r length generation sequence request request_length response_capacity timeout_ms success
        started
        (some spin_started)
        (record { now = now; memory = after } ∷ spins)
        waits
      ≡ some (receive (with_state completion_word after wait_idle) sequence response_capacity)
unfolding call
call-turned r after length generation sequence request request_length response_capacity timeout_ms
      deadline spin_started started now spins waits e fresh_word timed well reached =
    let posted = post r sequence request request_length in
    let (posted_well, _) =
      call_check-peer r length generation sequence request_length timeout_ms e in
    let waited =
      wait-turned completion_word sequence deadline spin_started now after spins waits posted
        (poll-ahead completion_word posted sequence (unfold post peer_status in posted_well)
          (unfold post in fresh_word))
        (poll-ahead completion_word (with_state completion_word posted wait_spinning) sequence
          (unfold post peer_status in posted_well) (unfold post in fresh_word))
        (poll-reached completion_word after sequence well (omega (arith, reached))) in
    let woken : wake_if_sleeping r.request_wait_state success ≡ success =
      unfold wake_if_sleeping in ground arith in
    rw (call, e, woken, timed, waited) refl
