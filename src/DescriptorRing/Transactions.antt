-- ===== src/DescriptorRing/Transactions.antt =====
-- The request and completion of one transaction: call on the client's side, wait_request and complete on
-- the service's.
use bionic_vulkan_bridge.Prelude.{
  ℕ, zero, suc, Error, ◌+◌, ◌-◌, ◌%◌, ◌^◌, Bool, false, not, ◌&&◌, ◌||◌, ltb, leb, ◌==◌, ◌!=◌,
  if◌then◌else◌, Option, none, some, List, Result, Status, ok, err, einval, eproto, ebusy, estale,
  ℤ, pos, negsuc, ◌>>◌, fail_if, update,
}
use bionic_vulkan_bridge.Wire.{Buffer, copied}
use bionic_vulkan_bridge.Futex.{Clock, Wait, deadline_from_timeout}
use bionic_vulkan_bridge.DescriptorRing.{
  Ring, Slot, validate_header, peer_status, blank_slot, available, requested, completed,
  request_bytes, response_bytes, region_bytes,
}
use bionic_vulkan_bridge.DescriptorRing.Waiting.{
  request_word, completion_word, Spin, wait_for_sequence, wake_if_sleeping,
}

abbrev pub slot_index : Ring → ℕ → ℕ
slot_index r sequence = (sequence - 1) % r.slot_count

-- What call checks before it writes.
unfoldable pub call_check : Ring → ℕ → ℕ → ℕ → ℕ → ℕ → Status
call_check r length generation sequence request_length timeout_ms = do
  validate_header r length generation
  fail_if
      (sequence == 0 || request_length == 0 || ltb request_bytes request_length || timeout_ms == 0)
      einval
  peer_status r
  fail_if ((r.slots (slot_index r sequence)).state != available) ebusy

-- The slot with the request in it.
abbrev pub request_slot : ℕ → Buffer → ℕ → Slot
request_slot sequence request request_length = record blank_slot {
  request = copied blank_slot.request 0 request request_length;
  request_length = request_length;
  sequence = sequence;
  state = requested;
}

unfoldable pub post : Ring → ℕ → Buffer → ℕ → Ring
post r sequence request request_length = record r {
  slots = update r.slots (slot_index r sequence) (request_slot sequence request request_length);
  request_sequence = sequence;
}

-- What call returns: the response and its length, the status that the service gave, or an error of its
-- own.
pub data Reply : Type 0 where
  response_of : Buffer → ℕ → Reply
  status_of : ℤ → Reply
  failed_with : Error → Reply

unfoldable pub completion_is_bad : Slot → ℕ → ℕ → Bool
completion_is_bad slot sequence response_capacity =
    slot.sequence != sequence
    || slot.state != completed
    || ltb response_capacity slot.response_length

abbrev pub freed : Ring → ℕ → Ring
freed r index = record r {
  slots = update r.slots index blank_slot;
  next_slot = (index + 1) % r.slot_count;
}

-- A status other than 0 leaves the slot as it is.
abbrev pub settled : ℤ → Ring → ℕ → Ring × Reply
settled (pos zero) r index =
    (freed r index, response_of (r.slots index).response (r.slots index).response_length)
settled (pos (suc n)) r index = (r, status_of (pos (suc n)))
settled (negsuc n) r index = (r, status_of (negsuc n))

-- What call does when the completion has come.
unfoldable pub receive : Ring → ℕ → ℕ → Ring × Reply
unfolding completion_is_bad
receive r sequence response_capacity =
    let index = slot_index r sequence in
    if completion_is_bad (r.slots index) sequence response_capacity
    then (r, failed_with eproto)
    else settled (r.slots index).status r index

-- What wait_request reads when the request has come: its bytes and length, the slot and the sequence.
pub record Request : Type 0 where
  pub bytes : Buffer
  pub length : ℕ
  pub slot : ℕ
  pub sequence : ℕ

unfoldable pub take_request : Ring → ℕ → ℕ → Result Request
take_request r expected request_capacity =
    let index = slot_index r expected in
    let slot = r.slots index in
    if slot.sequence != expected
      || slot.state != requested
      || slot.request_length == 0
      || ltb request_capacity slot.request_length
    then err eproto
    else ok (record {
      bytes = slot.request;
      length = slot.request_length;
      slot = index;
      sequence = expected;
    })

-- The rest of call once the wait is over.
abbrev pub receive_after : ℕ → ℕ → Option (Ring × Status) → Option (Ring × Reply)
receive_after sequence response_capacity none = none
receive_after sequence response_capacity (some (r, err e)) = some (r, failed_with e)
receive_after sequence response_capacity (some (r, ok _)) =
    some (receive r sequence response_capacity)

-- `none` means that the call still waits when the listed turns and waits are over.
unfoldable pub call :
    Ring
    → ℕ
    → ℕ
    → ℕ
    → Buffer
    → ℕ
    → ℕ
    → ℕ
    → Status
    → Clock
    → Clock
    → List Spin
    → List (Wait Ring)
    → Option (Ring × Reply)
unfolding call_check
call r length generation sequence request request_length response_capacity timeout_ms wake started
      spin_started spins waits =
    let posted = post r sequence request request_length in
    elim (call_check r length generation sequence request_length timeout_ms) [
      | err e ↦ some (r, failed_with e)
      | ok _ ↦ elim (wake_if_sleeping r.request_wait_state wake) [
        | err e ↦ some (posted, failed_with e)
        | ok _ ↦ elim (deadline_from_timeout timeout_ms started) [
          | err e ↦ some (posted, failed_with e)
          | ok deadline_ns ↦ receive_after sequence response_capacity (
              wait_for_sequence completion_word sequence deadline_ns spin_started spins waits
                posted)
        ]
      ]
    ]

abbrev pub take_after : ℕ → ℕ → Option (Ring × Status) → Option (Ring × Result Request)
take_after expected request_capacity none = none
take_after expected request_capacity (some (r, err e)) = some (r, err e)
take_after expected request_capacity (some (r, ok _)) =
    some (r, take_request r expected request_capacity)

unfoldable pub wait_request :
    Ring
    → ℕ
    → ℕ
    → ℕ
    → ℕ
    → ℕ
    → Clock
    → Clock
    → List Spin
    → List (Wait Ring)
    → Option (Ring × Result Request)
wait_request r length generation after_sequence request_capacity timeout_ms started spin_started
      spins waits =
    elim (validate_header r length generation) [
      | err e ↦ some (r, err e)
      | ok _ ↦
          if after_sequence == 2 ^ 32 - 1 || timeout_ms == 0
          then some (r, err einval)
          else elim (deadline_from_timeout timeout_ms started) [
            | err e ↦ some (r, err e)
            | ok deadline_ns ↦ take_after (after_sequence + 1) request_capacity (
                wait_for_sequence request_word (after_sequence + 1) deadline_ns spin_started spins
                  waits r)
          ]
    ]

abbrev pub status_is_positive : ℤ → Bool
status_is_positive (pos n) = n != 0
status_is_positive (negsuc n) = false

abbrev pub is_zero_status : ℤ → Bool
is_zero_status (pos n) = n == 0
is_zero_status (negsuc n) = false

-- What complete checks before it writes.
unfoldable pub complete_check : Ring → ℕ → ℕ → ℕ → ℕ → ℤ → ℕ → Status
complete_check r length generation index sequence status response_length = do
  validate_header r length generation
  fail_if
      (leb r.slot_count index
        || sequence == 0
        || status_is_positive status
        || ltb response_bytes response_length
        || (not (is_zero_status status) && response_length != 0))
      einval
  fail_if ((r.slots index).sequence != sequence || (r.slots index).state != requested) estale

abbrev pub completed_slot : Slot → ℤ → Buffer → ℕ → Slot
completed_slot slot status response response_length = record slot {
  status = status;
  response_length = response_length;
  response = copied slot.response 0 response response_length;
  state = completed;
}

unfoldable pub fulfil : Ring → ℕ → ℕ → ℤ → Buffer → ℕ → Ring
fulfil r index sequence status response response_length = record r {
  slots = update r.slots index (completed_slot (r.slots index) status response response_length);
  completion_sequence = sequence;
}

unfoldable pub complete : Ring → ℕ → ℕ → ℕ → ℕ → ℤ → Buffer → ℕ → Status → Ring × Status
unfolding complete_check
complete r length generation index sequence status response response_length wake =
    elim (complete_check r length generation index sequence status response_length) [
      | err e ↦ (r, err e)
      | ok _ ↦ (
        fulfil r index sequence status response response_length,
        wake_if_sleeping r.completion_wait_state wake,
      )
    ]

-- `fail_peer`'s checks; `first` and `second` are what the two calls of futex_wake answer.
unfoldable pub fail_check : Ring → ℤ → Status
fail_check r (pos n) = validate_header r region_bytes 0 >> err einval
fail_check r (negsuc n) = validate_header r region_bytes 0

unfoldable pub fail_client : Ring → ℤ → Status → Status → Ring × Status
fail_client r status first second = elim (fail_check r status) [
  | err e ↦ (r, err e)
  | ok _ ↦ (record r { client_status = status }, first >> second)
]

unfoldable pub fail_service : Ring → ℤ → Status → Status → Ring × Status
fail_service r status first second = elim (fail_check r status) [
  | err e ↦ (r, err e)
  | ok _ ↦ (record r { service_status = status }, first >> second)
]
