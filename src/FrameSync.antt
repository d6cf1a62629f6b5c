-- ===== src/FrameSync.antt =====
-- The producer and consumer handshake of src/frame_sync.c over one shared page. A function that
-- updates the page returns the new page beside its status; `wake` is what futex_wake answers.
pub mod Order
pub mod Waiting
mod Tests
use bionic_vulkan_bridge.Prelude.{
  ℕ, ◌+◌, ◌-◌, ◌%◌, ◌^◌, Bool, ◌&&◌, ◌||◌, ltb, ◌==◌, ◌!=◌, if◌then◌else◌, Option, none, some, List,
  [], ◌∷◌, Result, Status, ok, err, success, einval, erange, ebusy, eproto, ℤ, pos, negsuc, ◌>>◌,
  ◌>>=◌, fail_if,
}
use bionic_vulkan_bridge.Futex.{Clock, Wait, futex_wait_until, deadline_from_timeout, published}

abbrev pub magic : ℕ
magic = 0x3146_5342

abbrev pub version : ℕ
version = 1

abbrev pub control_bytes : ℕ
control_bytes = 64

abbrev pub region_bytes : ℕ
region_bytes = 4096

abbrev pub max_frames : ℕ
max_frames = 1048576

-- `struct bvb_frame_sync_control`, without its reserved words.
pub record Control : Type 0 where
  pub magic_word : ℕ
  pub version_word : ℕ
  pub control_size : ℕ
  pub frame_count : ℕ
  pub producer_sequence : ℕ
  pub consumer_sequence : ℕ
  pub producer_status : ℤ
  pub consumer_status : ℤ

abbrev pub fresh : ℕ → Control
fresh frame_count = record {
  magic_word = magic;
  version_word = version;
  control_size = control_bytes;
  frame_count = frame_count;
  producer_sequence = 0;
  consumer_sequence = 0;
  producer_status = pos 0;
  consumer_status = pos 0;
}

-- The address is 0 for a null pointer.
pub initialize : ℕ → ℕ → ℕ → Result Control
initialize address length frame_count =
    if address == 0
      || address % 4 != 0
      || ltb length region_bytes
      || frame_count == 0
      || ltb max_frames frame_count
    then err einval
    else ok (fresh frame_count)

pub validate : Control → Status
validate c =
    fail_if
      (c.magic_word != magic
        || c.version_word != version
        || c.control_size != control_bytes
        || c.frame_count == 0
        || ltb max_frames c.frame_count)
      einval

pub peer_failure : Control → Status
peer_failure c = published c.producer_status >> published c.consumer_status

-- `current == UINT32_MAX || sequence != current + 1U`, with the bounds on the sequence.
pub out_of_turn : Control → ℕ → ℕ → Bool
out_of_turn c sequence current =
    sequence == 0
    || ltb c.frame_count sequence
    || current == 2 ^ 32 - 1
    || sequence != (current + 1) % 2 ^ 32

pub producer_check : Control → ℕ → Status
unfolding validate peer_failure out_of_turn
producer_check c sequence = do
  validate c
  peer_failure c
  fail_if (out_of_turn c sequence c.producer_sequence) erange
  fail_if (c.consumer_sequence != c.producer_sequence) ebusy

pub publish_producer : Control → ℕ → Status → Control × Status
unfolding producer_check
publish_producer c sequence wake = elim (producer_check c sequence) [
  | err e ↦ (c, err e)
  | ok _ ↦ (record c { producer_sequence = sequence }, wake)
]

pub consumer_check : Control → ℕ → Status
unfolding validate peer_failure out_of_turn
consumer_check c sequence = do
  validate c
  peer_failure c
  fail_if (out_of_turn c sequence c.consumer_sequence) erange
  fail_if (c.producer_sequence != sequence) ebusy

pub publish_consumer : Control → ℕ → Status → Control × Status
unfolding consumer_check
publish_consumer c sequence wake = elim (consumer_check c sequence) [
  | err e ↦ (c, err e)
  | ok _ ↦ (record c { consumer_sequence = sequence }, wake)
]

-- The `for (;;)` of wait_sequence; `none` means that it still waits when the listed waits are over.
pub wait_loop : (Control → ℕ) → ℕ → ℕ → Control → List (Wait Control) → Option (Result ℕ)
wait_loop word after_sequence deadline_ns c [] = elim (peer_failure c) [
  | err e ↦ some (err e)
  | ok _ ↦
      if ltb after_sequence (word c)
      then some (ok (word c))
      else if ltb (word c) after_sequence
      then some (err eproto)
      else none
]
wait_loop word after_sequence deadline_ns c (w ∷ ws) =
    let rest = wait_loop word after_sequence deadline_ns w.memory ws in
    elim (peer_failure c) [
      | err e ↦ some (err e)
      | ok _ ↦
          if ltb after_sequence (word c)
          then some (ok (word c))
          else if ltb (word c) after_sequence
          then some (err eproto)
          else elim (futex_wait_until w deadline_ns) [ err e ↦ some (err e) | ok _ ↦ rest ]
    ]

pub wait_sequence :
    (Control → ℕ) → Control → ℕ → ℕ → Clock → List (Wait Control) → Option (Result ℕ)
wait_sequence word c after_sequence timeout_ms started waits =
    if timeout_ms == 0 || ltb c.frame_count after_sequence
    then some (err einval)
    else elim (deadline_from_timeout timeout_ms started) [
      | err e ↦ some (err e)
      | ok deadline_ns ↦ wait_loop word after_sequence deadline_ns c waits
    ]

pub wait_producer : Control → ℕ → ℕ → Clock → List (Wait Control) → Option (Result ℕ)
wait_producer c after_sequence timeout_ms started waits = elim (validate c) [
  | err e ↦ some (err e)
  | ok _ ↦ wait_sequence (λ c. c.producer_sequence) c after_sequence timeout_ms started waits
]

pub wait_consumer : Control → ℕ → ℕ → Clock → List (Wait Control) → Option (Result ℕ)
wait_consumer c after_sequence timeout_ms started waits = elim (validate c) [
  | err e ↦ some (err e)
  | ok _ ↦ wait_sequence (λ c. c.consumer_sequence) c after_sequence timeout_ms started waits
]

-- The first wake's error goes before the second's.
abbrev pub joined_wakes : Status → Status → Status
joined_wakes first second = first >> second

-- `publish_failure`'s checks.
pub failure_check : Control → ℤ → Status
unfolding validate
failure_check c (pos n) = validate c >> err einval
failure_check c (negsuc n) = validate c

pub fail_producer : Control → ℤ → Status → Status → Control × Status
unfolding failure_check
fail_producer c status first second = elim (failure_check c status) [
  | err e ↦ (c, err e)
  | ok _ ↦ (record c { producer_status = status }, joined_wakes first second)
]

pub fail_consumer : Control → ℤ → Status → Status → Control × Status
unfolding failure_check
fail_consumer c status first second = elim (failure_check c status) [
  | err e ↦ (c, err e)
  | ok _ ↦ (record c { consumer_status = status }, joined_wakes first second)
]
