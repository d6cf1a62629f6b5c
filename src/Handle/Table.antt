-- ===== src/Handle/Table.antt =====
-- The proxy table: the second half of src/handle.c, open addressing with tombstones in an array
-- that the caller provides. The array is the family of its entries; out parameters are results.
pub mod Indices
pub mod Probe
pub mod Coverage
pub mod Invariant
pub mod Insert
pub mod Remove
pub mod Map
mod Tests
use bionic_vulkan_bridge.Prelude.{
  ℕ, zero, suc, ◌+◌, ◌-◌, ◌*◌, ◌/◌, ◌%◌, ◌^◌, bit_and, bit_xor, Bool, true, false, not, ◌&&◌, ◌||◌,
  ltb, leb, ◌==◌, ◌!=◌, if◌then◌else◌, Option, none, some, Result, ok, err, einval, enoent, enospc,
  eexist, success, update, ◌>>=◌, ◌>>◌, fail_if,
}
use bionic_vulkan_bridge.Handle.{
  object_invalid, object_type_is_valid, handle_type, handle_serial, handle_expect,
}

pub data EntryState : Type 0 where
  empty occupied tombstone : EntryState

pub record Entry : Type 0 where
  pub wire_id : ℕ
  pub parent_id : ℕ
  pub native_bits : ℕ
  pub state : EntryState

pub record HandleTable : Type 0 where
  pub entries : ℕ → Entry
  pub capacity : ℕ
  pub count : ℕ

abbrev pub is_empty : Entry → Bool
is_empty e = elim e.state [ empty ↦ true | _ ↦ false ]

abbrev pub is_occupied : Entry → Bool
is_occupied e = elim e.state [ occupied ↦ true | _ ↦ false ]

abbrev pub is_tombstone : Entry → Bool
is_tombstone e = elim e.state [ tombstone ↦ true | _ ↦ false ]

-- `memset(entries, 0, ...)` leaves this in each entry.
abbrev pub zero_entry : Entry
zero_entry = record { wire_id = 0; parent_id = 0; native_bits = 0; state = empty }

abbrev pub removed_entry : Entry
removed_entry = record { wire_id = 0; parent_id = 0; native_bits = 0; state = tombstone }

-- uint64_t arithmetic: the products wrap.
pub hash_wire_id : ℕ → ℕ → ℕ
hash_wire_id value capacity =
    let value = bit_xor value (value / 2 ^ 30) in
    let value = value * 0xbf58_476d_1ce4_e5b9 % 2 ^ 64 in
    let value = bit_xor value (value / 2 ^ 27) in
    let value = value * 0x94d0_49bb_1331_11eb % 2 ^ 64 in
    let value = bit_xor value (value / 2 ^ 31) in bit_and value (capacity - 1)

pub capacity_is_valid : ℕ → Bool
capacity_is_valid capacity = leb 8 capacity && bit_and capacity (capacity - 1) == 0

pub table_is_valid : HandleTable → Bool
unfolding capacity_is_valid
table_is_valid t = capacity_is_valid t.capacity && leb t.count t.capacity

-- `memset` over the caller's array: what lies beyond it is untouched.
pub cleared : (ℕ → Entry) → ℕ → HandleTable
cleared entries capacity = record {
  entries = λ i. if ltb i capacity then zero_entry else entries i;
  capacity = capacity;
  count = 0;
}

pub init : (ℕ → Entry) → ℕ → Result HandleTable
init entries capacity =
    if ltb capacity 8 || bit_and capacity (capacity - 1) != 0
    then err einval
    else ok (cleared entries capacity)

-- `(index + 1U) & (capacity - 1U)`
abbrev pub next_index : ℕ → ℕ → ℕ
next_index capacity index = bit_and (index + 1) (capacity - 1)

-- What the probing loop of insert comes to: a slot to write, the id found, or nothing free.
pub data Placement : Type 0 where
  place : ℕ → Placement
  exists full : Placement

-- The number is that of the probes left; `tomb` is the first tombstone met, `capacity` if none.
pub insert_loop : (ℕ → Entry) → ℕ → ℕ → ℕ → ℕ → ℕ → Placement
insert_loop entries capacity wire_id zero index tomb = if tomb != capacity then place tomb else full
insert_loop entries capacity wire_id (suc probes) index tomb =
    let entry = entries index in
    let tomb' = if is_tombstone entry && tomb == capacity then index else tomb in
    let rest = insert_loop entries capacity wire_id probes (next_index capacity index) tomb' in
    if is_occupied entry && entry.wire_id == wire_id
    then exists
    else if is_empty entry
    then place (if tomb' != capacity then tomb' else index)
    else rest

abbrev pub new_entry : ℕ → ℕ → ℕ → Entry
new_entry wire_id parent_id native_bits = record {
  wire_id = wire_id;
  parent_id = parent_id;
  native_bits = native_bits;
  state = occupied;
}

-- The slot is written and the count goes up; it is below the capacity, so it cannot wrap.
pub store : HandleTable → ℕ → ℕ → ℕ → ℕ → HandleTable
store t index wire_id parent_id native_bits = record t {
  entries = update t.entries index (new_entry wire_id parent_id native_bits);
  count = t.count + 1;
}

pub is_typed : ℕ → Bool
is_typed id = not (handle_type id == object_invalid || handle_serial id == 0)

-- From the probe on.
pub insert_at : HandleTable → ℕ → ℕ → ℕ → Result HandleTable
unfolding store
insert_at t wire_id parent_id native_bits =
    elim (insert_loop t.entries t.capacity wire_id t.capacity (hash_wire_id wire_id t.capacity)
      t.capacity) [
        | place index ↦ ok (store t index wire_id parent_id native_bits)
        | exists ↦ err eexist
        | full ↦ err enospc
      ]

pub insert : HandleTable → ℕ → ℕ → ℕ → Result HandleTable
unfolding table_is_valid is_typed
insert t wire_id parent_id native_bits = do
  fail_if (not (table_is_valid t) || not (is_typed wire_id) || native_bits == 0) einval
  fail_if (parent_id != 0 && not (is_typed parent_id)) einval
  fail_if (t.count == t.capacity) enospc
  insert_at t wire_id parent_id native_bits

-- `find_entry`, which returns the index of the entry.
pub find_loop : (ℕ → Entry) → ℕ → ℕ → ℕ → ℕ → Option ℕ
find_loop entries capacity wire_id zero index = none
find_loop entries capacity wire_id (suc probes) index =
    let entry = entries index in
    let rest = find_loop entries capacity wire_id probes (next_index capacity index) in
    if is_empty entry
    then none
    else if is_occupied entry && entry.wire_id == wire_id
    then some index
    else rest

pub find_entry : HandleTable → ℕ → Option ℕ
find_entry t wire_id =
    find_loop t.entries t.capacity wire_id t.capacity (hash_wire_id wire_id t.capacity)

-- The parent and the native bits.
pub lookup : HandleTable → ℕ → ℕ → Result (ℕ × ℕ)
unfolding table_is_valid
lookup t wire_id expected_type = do
  fail_if (not (table_is_valid t)) einval
  handle_expect wire_id expected_type
  elim (find_entry t wire_id) [
    | none ↦ err enoent
    | some index ↦ ok ((t.entries index).parent_id, (t.entries index).native_bits)
  ]

-- The slot becomes a tombstone and the count goes down: `--count` on a size_t.
pub release : HandleTable → ℕ → HandleTable
release t index = record t {
  entries = update t.entries index removed_entry;
  count = (t.count + 2 ^ 64 - 1) % 2 ^ 64;
}

-- The loop of remove, with the write in it.
pub remove_loop : HandleTable → ℕ → ℕ → ℕ → Result (HandleTable × ℕ)
remove_loop t wire_id zero index = err enoent
remove_loop t wire_id (suc probes) index =
    let entry = t.entries index in
    let rest = remove_loop t wire_id probes (next_index t.capacity index) in
    if is_empty entry
    then err enoent
    else if is_occupied entry && entry.wire_id == wire_id
    then ok (release t index, entry.native_bits)
    else rest

pub remove : HandleTable → ℕ → ℕ → Result (HandleTable × ℕ)
unfolding table_is_valid
remove t wire_id expected_type = do
  fail_if (not (table_is_valid t)) einval
  handle_expect wire_id expected_type
  remove_loop t wire_id t.capacity (hash_wire_id wire_id t.capacity)
