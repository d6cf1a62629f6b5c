-- ===== src/DescriptorRing/Delivery.antt =====
-- The parts of a transaction, and what a slot refuses.
pub mod Turns
pub mod Whole
use bionic_vulkan_bridge.Prelude.{
  ℕ, ◌+◌, ◌-◌, ◌%◌, ◌≤◌, ◌<◌, ◌≡◌, ◌≢◌, arith, refl, ok, err, success, ℤ, pos, estale, Status,
  update, update_self,
}
use native.Mathlib.Nat.{mod-lt}
use bionic_vulkan_bridge.Wire.{Buffer}
use bionic_vulkan_bridge.Wire.Canonical.{AgreeTo}
use bionic_vulkan_bridge.DescriptorRing.{
  Ring, validate_header, header_is_bad, blank_slot, available, requested, request_bytes,
  response_bytes,
}
use bionic_vulkan_bridge.DescriptorRing.Transactions.{
  slot_index, call_check, request_slot, post, receive, completion_is_bad, response_of, Request,
  take_request, complete_check, completed_slot, fulfil, complete,
}

pub header_same :
    (r : Ring) (length generation sequence : ℕ) (request : Buffer) (request_length : ℕ)
    → validate_header (post r sequence request request_length) length generation
      ≡ validate_header r length generation
unfolding validate_header header_is_bad post
header_same r length generation sequence request request_length = refl

pub some_slot :
    (r : Ring) (length generation : ℕ)
    → validate_header r length generation ≡ success
    → 0 < r.slot_count
unfolding validate_header header_is_bad
some_slot r length generation e = ground (arith, e)

pub call_check_lem :
    (r : Ring) (length generation sequence request_length timeout_ms : ℕ)
    → call_check r length generation sequence request_length timeout_ms ≡ success
    → (sequence ≢ 0)
      × (request_length ≢ 0)
      × (request_length ≤ request_bytes)
      × ((r.slots (slot_index r sequence)).state ≡ available)
      × (validate_header r length generation ≡ success)
unfolding call_check
call_check_lem r length generation sequence request_length timeout_ms e = ground (arith, e)

pub complete_check_lem :
    (r : Ring) (length generation index sequence : ℕ) (status : ℤ) (response_length : ℕ)
    → complete_check r length generation index sequence status response_length ≡ success
    → (response_length ≤ response_bytes)
      × ((r.slots index).sequence ≡ sequence)
      × ((r.slots index).state ≡ requested)
      × (index < r.slot_count)
unfolding complete_check
complete_check_lem r length generation index sequence status response_length e = ground (arith, e)

complete_lem :
    (r after : Ring) (length generation index sequence : ℕ) (status : ℤ) (response : Buffer)
    (response_length : ℕ) (wake : Status)
    → complete r length generation index sequence status response response_length wake
      ≡ (after, success)
    → (complete_check r length generation index sequence status response_length ≡ success)
      × (after ≡ fulfil r index sequence status response response_length)
unfolding complete
complete_lem r after length generation index sequence status response response_length wake e =
    ground (arith, e)

-- The request that call posts is what wait_request reads: its bytes, its length, its slot and its sequence,
-- where the reader's buffer has room for it.
pub take_request-post :
    (r : Ring) (length generation sequence capacity timeout_ms : ℕ) (request : Buffer)
    (request_length : ℕ)
    → call_check r length generation sequence request_length timeout_ms ≡ success
    → request_length ≤ capacity
    → (taken : Request) × (take_request (post r sequence request request_length) sequence capacity
        ≡ ok taken)
      × (taken.length ≡ request_length)
      × AgreeTo request_length taken.bytes request
      × (taken.slot ≡ slot_index r sequence)
      × (taken.sequence ≡ sequence)
unfolding take_request post call_check
take_request-post r length generation sequence capacity timeout_ms request request_length e fits =
    let (_, nonzero, _, _, _) =
      call_check_lem r length generation sequence request_length timeout_ms e in
    (
      record {
        bytes = (request_slot sequence request request_length).request;
        length = request_length;
        slot = slot_index r sequence;
        sequence = sequence;
      },
      rw
          (update_self r.slots (slot_index r sequence)
            (request_slot sequence request request_length))
          (ground (arith, fits, nonzero)),
      refl,
      λ i l. ground (arith, l),
      refl,
      refl,
    )

-- A completion without an error that the service may give is what call returns.
pub receive-fulfil :
    (r : Ring) (length generation sequence capacity : ℕ) (response : Buffer) (response_length : ℕ)
    → complete_check r length generation (slot_index r sequence) sequence (pos 0) response_length
      ≡ success
    → response_length ≤ capacity
    → (freed : Ring) × (bytes : Buffer) × (receive
          (fulfil r (slot_index r sequence) sequence (pos 0) response response_length)
          sequence
          capacity
        ≡ (freed, response_of bytes response_length))
      × AgreeTo response_length bytes response
      × ((freed.slots (slot_index r sequence)).state ≡ available)
      × (freed.next_slot ≡ (slot_index r sequence + 1) % r.slot_count)
unfolding receive completion_is_bad fulfil
receive-fulfil r length generation sequence capacity response response_length checked fits =
    let index = slot_index r sequence in
    let (_, sequence_same, _, _) =
      complete_check_lem r length generation index sequence (pos 0) response_length checked in
    let finished = fulfil r index sequence (pos 0) response response_length in
    let slot = completed_slot (r.slots index) (pos 0) response response_length in
    (
      record finished {
        slots = update finished.slots index blank_slot;
        next_slot = (index + 1) % r.slot_count;
      },
      slot.response,
      rw (update_self r.slots index slot, sequence_same) (ground (arith, fits)),
      λ i l. ground (arith, l),
      rw (update_self finished.slots index blank_slot) refl,
      refl,
    )

pub complete-post :
    (r : Ring) (length generation sequence timeout_ms : ℕ) (request : Buffer)
    (request_length response_length : ℕ)
    → call_check r length generation sequence request_length timeout_ms ≡ success
    → response_length ≤ response_bytes
    → complete_check
        (post r sequence request request_length)
        length
        generation
        (slot_index r sequence)
        sequence
        (pos 0)
        response_length
      ≡ success
unfolding complete_check post
complete-post r length generation sequence timeout_ms request request_length response_length e
      fits =
    let (nonzero, _, _, _, header) =
      call_check_lem r length generation sequence request_length timeout_ms e in
    let inside : slot_index r sequence < r.slot_count =
      mod-lt (sequence - 1) (some_slot r length generation header) in
    rw
      (
        update_self r.slots (slot_index r sequence) (request_slot sequence request request_length),
        header_same r length generation sequence request request_length,
        header,
      )
      (ground (arith, nonzero, inside, fits))

pub complete_stores :
    (r : Ring) (length generation index sequence : ℕ) (status : ℤ) (response : Buffer)
    (response_length : ℕ) (wake : Status)
    → complete_check r length generation index sequence status response_length ≡ success
    → (complete r length generation index sequence status response response_length wake).0
      ≡ fulfil r index sequence status response response_length
unfolding complete
complete_stores r length generation index sequence status response response_length wake e =
    rw (complete, e) refl

-- A completion is given once: where complete has stored one, a second of the same status and length for
-- the same slot and sequence is
-- refused with ESTALE and changes nothing.
pub complete_once :
    (r after : Ring) (length generation index sequence : ℕ) (status : ℤ) (response other : Buffer)
    (response_length : ℕ) (wake again : Status)
    → complete r length generation index sequence status response response_length wake
      ≡ (after, success)
    → complete after length generation index sequence status other response_length again
      ≡ (after, err estale)
unfolding complete complete_check validate_header header_is_bad fulfil
complete_once r after length generation index sequence status response other response_length wake
      again e =
    let (checked, same) =
      complete_lem r after length generation index sequence status response response_length wake
        e in
    let slot = completed_slot (r.slots index) status response response_length in
    rw same (ground (arith, checked, update_self r.slots index slot))
