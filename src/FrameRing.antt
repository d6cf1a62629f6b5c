-- ===== src/FrameRing.antt =====
-- The ring of images between the game and the Activity: src/wsi_frame_ring.c. A function that updates
-- the shared page returns the new page beside its result; each runs as one step, but for the waits,
-- between which the page changes as the listed rounds say.
pub mod Scan
pub mod Invariant
pub mod Operations
pub mod Delivery
pub mod Order
mod Tests
use bionic_vulkan_bridge.Prelude.{
  ℕ, zero, suc, ◌+◌, ◌-◌, ◌%◌, ◌^◌, Bool, ◌&&◌, ◌||◌, ltb, leb, ◌==◌, ◌!=◌, if◌then◌else◌, Option,
  none, some, List, [], ◌∷◌, Result, Status, ok, err, success, einval, eproto, eagain, ebusy,
  estale, eoverflow, ℤ, pos, negsuc, ◌>>◌, ◌>>=◌, fail_if, update,
}
use bionic_vulkan_bridge.Futex.{
  Clock, Wait, WaitResult, futex_wait_until, deadline_from_timeout, published,
}

abbrev pub magic : ℕ
magic = 0x3152_5742

abbrev pub version : ℕ
version = 1

abbrev pub control_bytes : ℕ
control_bytes = 128

abbrev pub region_bytes : ℕ
region_bytes = 4096

abbrev pub max_slots : ℕ
max_slots = 4

-- The states of a slot are words of the shared page, so any number may stand there.
abbrev pub available : ℕ
available = 0

abbrev pub acquired : ℕ
acquired = 1

abbrev pub presented : ℕ
presented = 2

-- `struct bvb_wsi_frame_ring`, without its reserved words.
pub record Ring : Type 0 where
  pub magic_word : ℕ
  pub version_word : ℕ
  pub control_size : ℕ
  pub slot_count : ℕ
  pub flags : ℕ
  pub generation : ℕ
  pub next_acquire : ℕ
  pub producer_sequence : ℕ
  pub consumer_sequence : ℕ
  pub producer_status : ℤ
  pub consumer_status : ℤ
  pub slot_state : ℕ → ℕ
  pub slot_sequence : ℕ → ℕ

abbrev pub fresh : ℕ → ℕ → Ring
fresh slot_count generation = record {
  magic_word = magic;
  version_word = version;
  control_size = control_bytes;
  slot_count = slot_count;
  flags = 0;
  generation = generation;
  next_acquire = 0;
  producer_sequence = 0;
  consumer_sequence = 0;
  producer_status = pos 0;
  consumer_status = pos 0;
  slot_state = λ _. 0;
  slot_sequence = λ _. 0;
}

-- The address is 0 for a null pointer.
pub initialize : ℕ → ℕ → ℕ → ℕ → Result Ring
initialize address length slot_count generation =
    if address == 0
      || address % 4 != 0
      || ltb length region_bytes
      || ltb slot_count 2
      || ltb max_slots slot_count
      || generation == 0
    then err einval
    else ok (fresh slot_count generation)

pub header_is_bad : Ring → ℕ → Bool
header_is_bad r generation =
    r.magic_word != magic
    || r.version_word != version
    || r.control_size != control_bytes
    || ltb r.slot_count 2
    || ltb max_slots r.slot_count
    || r.flags != 0
    || r.generation == 0
    || (generation != 0 && r.generation != generation)

-- The loop over the slots, with the number of slots left and the next slot.
pub check_states : (ℕ → ℕ) → ℕ → ℕ → Status
check_states states zero slot = success
check_states states (suc left) slot =
    let rest = check_states states left (slot + 1) in
    if ltb presented (states slot) then err eproto else rest

pub validate : Ring → ℕ → Status
unfolding header_is_bad
validate r generation =
    fail_if (header_is_bad r generation) einval >> check_states r.slot_state r.slot_count 0

pub peer_failure : Ring → Status
peer_failure r = published r.producer_status >> published r.consumer_status

-- The loop over the offsets: the first candidate whose compare-exchange succeeds.
pub scan : (ℕ → ℕ) → ℕ → ℕ → ℕ → ℕ → Option ℕ
scan states slot_count start zero offset = none
scan states slot_count start (suc left) offset =
    let candidate = (start + offset) % slot_count in
    let rest = scan states slot_count start left (offset + 1) in
    if states candidate == available then some candidate else rest

pub find_available : Ring → Option ℕ
find_available r = scan r.slot_state r.slot_count (r.next_acquire % r.slot_count) r.slot_count 0

pub claim : Ring → ℕ → Ring
claim r candidate = record r {
  slot_state = update r.slot_state candidate acquired;
  next_acquire = (candidate + 1) % r.slot_count;
}

-- One pass of the `for (;;)` of acquire up to its futex wait: `none` goes on to wait.
pub acquire_pass : Ring → ℕ → Option (Ring × Result ℕ)
unfolding peer_failure
acquire_pass r timeout_ms = elim (peer_failure r) [
  | err e ↦ some (r, err e)
  | ok _ ↦ elim (find_available r) [
    | some candidate ↦ some (claim r candidate, ok candidate)
    | none ↦ if timeout_ms == 0 then some (r, err eagain) else none
  ]
]

-- `none` means that the call still waits when the listed waits are over.
pub acquire_loop : Ring → ℕ → ℕ → List (Wait Ring) → Option (Ring × Result ℕ)
acquire_loop r timeout_ms deadline_ns [] = acquire_pass r timeout_ms
acquire_loop r timeout_ms deadline_ns (w ∷ ws) =
    let rest = acquire_loop w.memory timeout_ms deadline_ns ws in
    elim (acquire_pass r timeout_ms) [
      | some done ↦ some done
      | none ↦ elim (futex_wait_until w deadline_ns) [
        | err e ↦ some (w.memory, err e)
        | ok _ ↦ rest
      ]
    ]

pub acquire : Ring → ℕ → Clock → List (Wait Ring) → Option (Ring × Result ℕ)
acquire r timeout_ms started waits = elim (validate r 0) [
  | err e ↦ some (r, err e)
  | ok _ ↦
      if timeout_ms == 0
      then acquire_loop r timeout_ms 0 waits
      else elim (deadline_from_timeout timeout_ms started) [
        | err e ↦ some (r, err e)
        | ok deadline_ns ↦ acquire_loop r timeout_ms deadline_ns waits
      ]
]

-- What present checks, its compare-exchange included.
pub present_check : Ring → ℕ → Status
present_check r slot = do
  validate r 0
  fail_if (leb r.slot_count slot) einval
  peer_failure r
  fail_if (r.producer_sequence == 2 ^ 32 - 1) eoverflow
  fail_if (r.slot_state slot == presented) ebusy
  fail_if (r.slot_state slot != acquired) eproto

-- The slot carries the next sequence. `current + 1U` does not wrap: present refuses UINT32_MAX.
pub mark_presented : Ring → ℕ → Ring
mark_presented r slot = record r {
  slot_state = update r.slot_state slot presented;
  slot_sequence = update r.slot_sequence slot (r.producer_sequence + 1);
  producer_sequence = r.producer_sequence + 1;
}

pub present : Ring → ℕ → Status → Ring × Result ℕ
unfolding present_check mark_presented
present r slot wake = elim (present_check r slot) [
  | err e ↦ (r, err e)
  | ok _ ↦ (mark_presented r slot, wake >> ok (r.producer_sequence + 1))
]

-- The loop of find_presented, with the number of slots left and the next slot.
pub find_from : Ring → ℕ → ℕ → ℕ → Option ℕ
find_from r expected zero candidate = none
find_from r expected (suc left) candidate =
    let rest = find_from r expected left (candidate + 1) in
    if r.slot_state candidate == presented && r.slot_sequence candidate == expected
    then some candidate
    else rest

pub find_presented : Ring → ℕ → Option ℕ
find_presented r expected = find_from r expected r.slot_count 0

-- One round of wait_present: the page at the first scan, the page at the load of producer_sequence and
-- the second scan, and the futex wait.
pub record Round : Type 0 where
  pub seen : Ring
  pub later : Ring
  pub now : Clock
  pub result : WaitResult

-- `none` means that the call still waits when the listed rounds are over.
pub wait_rounds : ℕ → ℕ → List Round → Option (Result (ℕ × ℕ))
wait_rounds expected deadline_ns [] = none
wait_rounds expected deadline_ns (w ∷ ws) =
    let rest = wait_rounds expected deadline_ns ws in
    let wait : Wait Ring = record { now = w.now; result = w.result; memory = w.later } in
    elim (peer_failure w.seen) [
      | err e ↦ some (err e)
      | ok _ ↦ elim (find_presented w.seen expected) [
        | some slot ↦ some (ok (slot, expected))
        | none ↦
            if leb expected w.later.producer_sequence
            then (elim (find_presented w.later expected) [
              | some slot ↦ some (ok (slot, expected))
              | none ↦ some (err eproto)
            ])
            else elim (futex_wait_until wait deadline_ns) [ err e ↦ some (err e) | ok _ ↦ rest ]
      ]
    ]

pub wait_present : Ring → ℕ → ℕ → Clock → List Round → Option (Result (ℕ × ℕ))
wait_present r after_sequence timeout_ms started rounds = elim (validate r 0) [
  | err e ↦ some (err e)
  | ok _ ↦
      if after_sequence == 2 ^ 32 - 1 || timeout_ms == 0
      then some (err einval)
      else elim (deadline_from_timeout timeout_ms started) [
        | err e ↦ some (err e)
        | ok deadline_ns ↦ wait_rounds (after_sequence + 1) deadline_ns rounds
      ]
]

-- What release checks before it writes.
pub release_check : Ring → ℕ → ℕ → Status
release_check r slot sequence = do
  validate r 0
  fail_if (leb r.slot_count slot || sequence == 0) einval
  peer_failure r
  fail_if (r.slot_sequence slot != sequence || (r.consumer_sequence + 1) % 2 ^ 32 != sequence)
      estale

-- The sequence is cleared before the compare-exchange, so also where that fails.
pub clear_sequence : Ring → ℕ → Ring
clear_sequence r slot = record r { slot_sequence = update r.slot_sequence slot 0 }

pub mark_available : Ring → ℕ → ℕ → Ring
mark_available r slot sequence = record r {
  slot_state = update r.slot_state slot available;
  consumer_sequence = sequence;
}

pub release : Ring → ℕ → ℕ → Status → Ring × Status
unfolding release_check clear_sequence mark_available
release r slot sequence wake = elim (release_check r slot sequence) [
  | err e ↦ (r, err e)
  | ok _ ↦
      if r.slot_state slot != presented
      then (clear_sequence r slot, err eproto)
      else (mark_available (clear_sequence r slot) slot sequence, wake)
]

-- `publish_failure`'s checks.
pub failure_check : Ring → ℤ → Status
failure_check r (pos n) = validate r 0 >> err einval
failure_check r (negsuc n) = validate r 0

pub fail_producer : Ring → ℤ → Status → Status → Ring × Status
unfolding failure_check
fail_producer r status first second = elim (failure_check r status) [
  | err e ↦ (r, err e)
  | ok _ ↦ (record r { producer_status = status }, first >> second)
]

pub fail_consumer : Ring → ℤ → Status → Status → Ring × Status
unfolding failure_check
fail_consumer r status first second = elim (failure_check r status) [
  | err e ↦ (r, err e)
  | ok _ ↦ (record r { consumer_status = status }, first >> second)
]
