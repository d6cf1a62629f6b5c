-- ===== src/DescriptorRing/Delivery/Whole.antt =====
-- One transaction from end to end, with the waits of both sides: call on the client's side, wait_request
-- and complete on the service's.
use bionic_vulkan_bridge.Prelude.{
  ℕ, ◌-◌, ◌^◌, ◌≤◌, ◌<◌, ◌≡◌, arith, refl, List, ◌∷◌, some, ok, success, pos, Status,
}
use bionic_vulkan_bridge.Wire.{Buffer}
use bionic_vulkan_bridge.Wire.Canonical.{AgreeTo}
use bionic_vulkan_bridge.Futex.{Clock, Wait, deadline_from_timeout}
use bionic_vulkan_bridge.DescriptorRing.{
  Ring, peer_status, available, wait_idle, wait_spinning, response_bytes,
}
use bionic_vulkan_bridge.DescriptorRing.Waiting.{completion_word, with_state, Spin}
use bionic_vulkan_bridge.DescriptorRing.Transactions.{
  slot_index, call_check, post, response_of, Request, fulfil, complete, call, wait_request,
}
use bionic_vulkan_bridge.DescriptorRing.Delivery.{
  take_request-post, receive-fulfil, complete-post, complete_stores,
}
use bionic_vulkan_bridge.DescriptorRing.Delivery.Turns.{
  call_check-peer, call_check-state, wait_request-post, call-turned,
}

-- The region that the service sees while the client spins for the completion of its request.
abbrev pub awaiting : Ring → ℕ → Buffer → ℕ → Ring
awaiting r sequence request request_length =
    with_state completion_word (post r sequence request request_length) wait_spinning

-- A transaction from end to end. Where call may post its request, and its completion has not come before, a
-- service that waits for the request gets at once its bytes, and a slot and a sequence for which it may
-- complete it; if it does so in the first turn of the client's spin loop, call returns the bytes of the
-- service's response and frees the slot. The deadlines of both sides can be computed, their buffers have
-- room for what comes, and the sequence is a uint32_t.
pub transaction_delivers :
    (r : Ring)
    (length generation sequence timeout_ms deadline service_timeout_ms service_deadline : ℕ)
    (request response : Buffer)
    (request_length request_capacity response_length response_capacity spin_started : ℕ)
    (started now service_started service_spin_started : Clock) (spins service_spins : List Spin)
    (waits service_waits : List (Wait Ring)) (wake : Status)
    → call_check r length generation sequence request_length timeout_ms ≡ success
    → sequence < 2 ^ 32
    → r.completion_sequence < sequence
    → deadline_from_timeout timeout_ms started ≡ ok deadline
    → deadline_from_timeout service_timeout_ms service_started ≡ ok service_deadline
    → request_length ≤ request_capacity
    → response_length ≤ response_bytes
    → response_length ≤ response_capacity
    → (taken : Request) × (freed : Ring) × (bytes : Buffer) × (wait_request
          (awaiting r sequence request request_length)
          length
          generation
          (sequence - 1)
          request_capacity
          service_timeout_ms
          service_started
          service_spin_started
          service_spins
          service_waits
        ≡ some (awaiting r sequence request request_length, ok taken))
      × (taken.length ≡ request_length)
      × AgreeTo request_length taken.bytes request
      × (call r length generation sequence request request_length response_capacity timeout_ms
            success started
            (some spin_started)
            (record {
              now = now;
              memory =
                  (complete
                    (awaiting r sequence request request_length)
                    length
                    generation
                    taken.slot
                    taken.sequence
                    (pos 0)
                    response
                    response_length
                    wake).0;
            }
              ∷ spins)
            waits
          ≡ some (freed, response_of bytes response_length))
      × AgreeTo response_length bytes response
      × ((freed.slots taken.slot).state ≡ available)
unfolding post
transaction_delivers r length generation sequence timeout_ms deadline service_timeout_ms
      service_deadline request response request_length request_capacity response_length
      response_capacity spin_started started now service_started service_spin_started spins
      service_spins waits service_waits wake e fits_word fresh_word timed service_timed room small
      fits =
    let spinning = with_state completion_word r wait_spinning in
    let idle = with_state completion_word r wait_idle in
    let posted = awaiting r sequence request request_length in
    let index = slot_index r sequence in
    let e_spinning =
      call_check-state r length generation sequence request_length timeout_ms wait_spinning e
        (omega arith) in
    let e_idle =
      call_check-state r length generation sequence request_length timeout_ms wait_idle e
        (omega arith) in
    let (taken, read, length_same, bytes_same, slot_same, sequence_same) =
      take_request-post spinning length generation sequence request_capacity timeout_ms request
        request_length e_spinning room in
    let waited =
      wait_request-post spinning length generation sequence timeout_ms request request_length
        request_capacity service_timeout_ms service_deadline service_started service_spin_started
        service_spins service_waits e_spinning fits_word service_timed in
    let checked =
      complete-post spinning length generation sequence timeout_ms request request_length
        response_length e_spinning small in
    let stored =
      complete_stores posted length generation index sequence (pos 0) response response_length wake
        checked in
    let done = fulfil posted index sequence (pos 0) response response_length in
    let (freed, bytes, received, agree, free, _) =
      receive-fulfil (post idle sequence request request_length) length generation sequence
        response_capacity response response_length
        (complete-post idle length generation sequence timeout_ms request request_length
          response_length e_idle small)
        fits in
    let (well, _) = call_check-peer r length generation sequence request_length timeout_ms e in
    let called =
      call-turned r done length generation sequence request request_length response_capacity
        timeout_ms deadline spin_started started now spins waits e fresh_word timed
        (unfold fulfil peer_status in well) (unfold fulfil in refl) in
    (
      taken,
      freed,
      bytes,
      rw read at waited,
      length_same,
      bytes_same,
      rw (slot_same, sequence_same, stored) (unfold fulfil in rw received at called),
      agree,
      rw slot_same free,
    )
