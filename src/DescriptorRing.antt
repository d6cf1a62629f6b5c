-- ===== src/DescriptorRing.antt =====
-- The shared region of src/descriptor_transaction_ring.c: a header, slots for requests and their
-- completions, and banks of leased descriptor sets. A function that updates the region returns the new
-- one beside its result; each runs as one step, but for the waits.
pub mod Waiting
pub mod Transactions
pub mod Leases
pub mod Delivery
pub mod Disjoint
pub mod Validity
pub mod Invariant
mod Tests
use bionic_vulkan_bridge.Prelude.{
  ℕ, ◌+◌, ◌%◌, ◌^◌, Bool, not, ◌&&◌, ◌||◌, ltb, leb, ◌==◌, ◌!=◌, if◌then◌else◌, Result, Status, ok,
  err, success, einval, eproto, ℤ, pos, negsuc, ◌>>◌, ◌>>=◌, fail_if, all_below,
}
use bionic_vulkan_bridge.Wire.{Buffer}
use bionic_vulkan_bridge.Futex.{published}

abbrev pub magic : ℕ
magic = 0x3152_4442

abbrev pub version : ℕ
version = 4

abbrev pub control_bytes : ℕ
control_bytes = 128

abbrev pub region_bytes : ℕ
region_bytes = 131072

abbrev pub max_slots : ℕ
max_slots = 16

abbrev pub request_bytes : ℕ
request_bytes = 176

abbrev pub response_bytes : ℕ
response_bytes = 136

-- The states of a slot and of a waiter are words of the shared region, so any number may stand there.
abbrev pub available : ℕ
available = 0

abbrev pub requested : ℕ
requested = 1

abbrev pub completed : ℕ
completed = 2

abbrev pub wait_idle : ℕ
wait_idle = 0

abbrev pub wait_spinning : ℕ
wait_spinning = 1

abbrev pub wait_sleeping : ℕ
wait_sleeping = 2

abbrev pub bank_count : ℕ
bank_count = 64

abbrev pub bank_capacity : ℕ
bank_capacity = 64

abbrev pub max_claim : ℕ
max_claim = 16

abbrev pub bank_ready : ℕ
bank_ready = 1

pub record Slot : Type 0 where
  pub state : ℕ
  pub sequence : ℕ
  pub status : ℤ
  pub request_length : ℕ
  pub response_length : ℕ
  pub flags : ℕ
  pub request : Buffer
  pub response : Buffer

pub record LeaseRecord : Type 0 where
  pub layout_id : ℕ
  pub descriptor_set_id : ℕ

pub record Bank : Type 0 where
  pub pool_id : ℕ
  pub epoch : ℕ
  pub count : ℕ
  pub cursor : ℕ
  pub ready : ℕ
  pub reserved : ℕ
  pub records : ℕ → LeaseRecord

-- `struct bvb_descriptor_transaction_ring` with what slot_at and lease_bank_at find behind it.
pub record Ring : Type 0 where
  pub magic_word : ℕ
  pub version_word : ℕ
  pub control_size : ℕ
  pub slot_count : ℕ
  pub flags : ℕ
  pub generation : ℕ
  pub request_sequence : ℕ
  pub completion_sequence : ℕ
  pub client_status : ℤ
  pub service_status : ℤ
  pub next_slot : ℕ
  pub request_wait_state : ℕ
  pub completion_wait_state : ℕ
  pub slots : ℕ → Slot
  pub banks : ℕ → Bank

-- What memset leaves of a slot and of a bank.
abbrev pub blank_slot : Slot
blank_slot = record {
  state = 0;
  sequence = 0;
  status = pos 0;
  request_length = 0;
  response_length = 0;
  flags = 0;
  request = λ _. 0;
  response = λ _. 0;
}

abbrev pub blank_bank : Bank
blank_bank = record {
  pool_id = 0;
  epoch = 0;
  count = 0;
  cursor = 0;
  ready = 0;
  reserved = 0;
  records = λ _. record { layout_id = 0; descriptor_set_id = 0 };
}

abbrev pub fresh : ℕ → ℕ → Ring
fresh slot_count generation = record {
  magic_word = magic;
  version_word = version;
  control_size = control_bytes;
  slot_count = slot_count;
  flags = 0;
  generation = generation;
  request_sequence = 0;
  completion_sequence = 0;
  client_status = pos 0;
  service_status = pos 0;
  next_slot = 0;
  request_wait_state = 0;
  completion_wait_state = 0;
  slots = λ _. blank_slot;
  banks = λ _. blank_bank;
}

-- The address is 0 for a null pointer.
unfoldable pub initialize : ℕ → ℕ → ℕ → ℕ → Result Ring
initialize address length slot_count generation =
    if address == 0
      || address % 8 != 0
      || length != region_bytes
      || slot_count == 0
      || ltb max_slots slot_count
      || generation == 0
    then err einval
    else ok (fresh slot_count generation)

unfoldable pub header_is_bad : Ring → ℕ → ℕ → Bool
header_is_bad r length generation =
    length != region_bytes
    || r.magic_word != magic
    || r.version_word != version
    || r.control_size != control_bytes
    || r.slot_count == 0
    || ltb max_slots r.slot_count
    || r.flags != 0
    || r.generation == 0
    || ltb wait_sleeping r.request_wait_state
    || ltb wait_sleeping r.completion_wait_state
    || (generation != 0 && r.generation != generation)

unfoldable pub validate_header : Ring → ℕ → ℕ → Status
unfolding header_is_bad
validate_header r length generation = fail_if (header_is_bad r length generation) einval

-- What validate asks of each slot and of each bank.
unfoldable pub slot_is_valid : Slot → Bool
slot_is_valid slot =
    leb slot.state completed
    && slot.flags == 0
    && leb slot.request_length request_bytes
    && leb slot.response_length response_bytes

unfoldable pub bank_is_valid : Bank → Bool
bank_is_valid bank =
    leb bank.ready bank_ready
    && leb bank.count bank_capacity
    && leb bank.cursor bank.count
    && bank.reserved == 0
    && (bank.ready != bank_ready || bank.pool_id != 0 && bank.epoch != 0 && bank.count != 0)

unfoldable pub validate : Ring → ℕ → ℕ → Status
unfolding validate_header
validate r length generation = do
  validate_header r length generation
  fail_if (leb r.slot_count r.next_slot) einval
  fail_if (not (all_below r.slot_count (λ index. slot_is_valid (r.slots index)))) eproto
  fail_if (not (all_below bank_count (λ index. bank_is_valid (r.banks index)))) eproto

unfoldable pub peer_status : Ring → Status
peer_status r = published r.client_status >> published r.service_status
