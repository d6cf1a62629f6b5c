-- ===== src/DescriptorRing/Leases.antt =====
-- The lease banks: descriptor sets that the service hands out in advance, claimed by the client in the
-- order in which they stand.
use bionic_vulkan_bridge.Prelude.{
  ℕ, zero, suc, ◌+◌, ◌-◌, Bool, not, ◌&&◌, ◌||◌, ltb, leb, ◌==◌, ◌!=◌, if◌then◌else◌, Option, none,
  some, Result, Status, ok, err, einval, eproto, enoent, success, ◌>>◌, fail_if, update, all_below,
}
use bionic_vulkan_bridge.DescriptorRing.{
  Ring, Bank, LeaseRecord, validate_header, blank_bank, bank_count, bank_capacity, bank_ready,
  max_claim,
}

unfoldable pub disable_check : Ring → ℕ → ℕ → Status
disable_check r length bank_index = do
  validate_header r length 0
  fail_if (leb bank_count bank_index) einval

unfoldable pub disable : Ring → ℕ → ℕ → Ring × Status
unfolding disable_check
disable r length bank_index = elim (disable_check r length bank_index) [
  | err e ↦ (r, err e)
  | ok _ ↦ (record r { banks = update r.banks bank_index blank_bank }, success)
]

abbrev pub record_is_complete : LeaseRecord → Bool
record_is_complete record_given = record_given.layout_id != 0 && record_given.descriptor_set_id != 0

unfoldable pub publish_check : Ring → ℕ → ℕ → ℕ → ℕ → (ℕ → LeaseRecord) → ℕ → Status
publish_check r length bank_index pool_id epoch records count = do
  validate_header r length 0
  fail_if
      (leb bank_count bank_index
        || pool_id == 0
        || epoch == 0
        || count == 0
        || ltb bank_capacity count)
      einval
  fail_if (not (all_below count (λ index. record_is_complete (records index)))) einval

abbrev pub published_bank : ℕ → ℕ → (ℕ → LeaseRecord) → ℕ → Bank
published_bank pool_id epoch records count = record blank_bank {
  pool_id = pool_id;
  epoch = epoch;
  count = count;
  records = λ index. if ltb index count then records index else blank_bank.records index;
  ready = bank_ready;
}

unfoldable pub publish : Ring → ℕ → ℕ → ℕ → ℕ → (ℕ → LeaseRecord) → ℕ → Ring × Status
unfolding publish_check
publish r length bank_index pool_id epoch records count =
    elim (publish_check r length bank_index pool_id epoch records count) [
      | err e ↦ (r, err e)
      | ok _ ↦ (
        record r { banks = update r.banks bank_index (published_bank pool_id epoch records count) },
        success,
      )
    ]

-- The tests of claim on a record and on a bank.
unfoldable pub record_serves : Bank → (ℕ → ℕ) → ℕ → Bool
record_serves bank layout_ids index =
    (bank.records (bank.cursor + index)).layout_id == layout_ids index
    && (bank.records (bank.cursor + index)).descriptor_set_id != 0

unfoldable pub bank_serves : Bank → ℕ → (ℕ → ℕ) → ℕ → Bool
bank_serves bank pool_id layout_ids count =
    bank.ready == bank_ready
    && bank.pool_id == pool_id
    && leb bank.cursor bank.count
    && leb count (bank.count - bank.cursor)
    && all_below count (record_serves bank layout_ids)

-- The loop over the banks, with the number of banks left and the next bank.
unfoldable pub find_bank : (ℕ → Bank) → ℕ → (ℕ → ℕ) → ℕ → ℕ → ℕ → Option ℕ
find_bank banks pool_id layout_ids count zero bank_index = none
find_bank banks pool_id layout_ids count (suc left) bank_index =
    let rest = find_bank banks pool_id layout_ids count left (bank_index + 1) in
    if bank_serves (banks bank_index) pool_id layout_ids count then some bank_index else rest

-- A claim: the records of a bank from the first on, and what the client gets of them.
pub record Lease : Type 0 where
  pub bank : ℕ
  pub first : ℕ
  pub count : ℕ
  pub descriptor_set_ids : ℕ → ℕ
  pub epoch : ℕ

abbrev pub lease_of : Ring → ℕ → ℕ → Lease
lease_of r bank_index count =
    let bank = r.banks bank_index in
    record {
      bank = bank_index;
      first = bank.cursor;
      count = count;
      descriptor_set_ids = λ index. (bank.records (bank.cursor + index)).descriptor_set_id;
      epoch = bank.epoch;
    }

abbrev pub advanced_cursor : Ring → ℕ → ℕ → Ring
advanced_cursor r bank_index count = record r {
  banks =
      update r.banks bank_index
        (record (r.banks bank_index) { cursor = (r.banks bank_index).cursor + count });
}

unfoldable pub claim_check : Ring → ℕ → ℕ → ℕ → Status
claim_check r length pool_id count = do
  validate_header r length 0
  fail_if (pool_id == 0 || count == 0 || ltb max_claim count) einval

unfoldable pub claim : Ring → ℕ → ℕ → (ℕ → ℕ) → ℕ → Ring × Result Lease
unfolding claim_check
claim r length pool_id layout_ids count = elim (claim_check r length pool_id count) [
  | err e ↦ (r, err e)
  | ok _ ↦ elim (find_bank r.banks pool_id layout_ids count bank_count 0) [
    | none ↦ (r, err enoent)
    | some bank_index ↦ (advanced_cursor r bank_index count, ok (lease_of r bank_index count))
  ]
]

-- On EPROTO the two numbers have been stored all the same.
unfoldable pub bank_cursor : Ring → ℕ → ℕ → Result (ℕ × ℕ)
bank_cursor r length bank_index = do
  validate_header r length 0
  fail_if (leb bank_count bank_index) einval
  let bank = r.banks bank_index
  fail_if (bank.ready != bank_ready) enoent
  fail_if (ltb bank.count bank.cursor) eproto
  ok (bank.cursor, bank.count)
