-- ===== src/Handle/Table/Invariant.antt =====
-- The well-formed tables, and that every operation keeps them so.
use bionic_vulkan_bridge.Prelude.{
  ℕ, ◌^◌, ◌<◌, ◌≡◌, arith, true, none, some, ok, count_below, count_below-none, sym,
}
use bionic_vulkan_bridge.Handle.Table.{
  Entry, HandleTable, is_occupied, capacity_is_valid, hash_wire_id, init, cleared, find_entry,
}
use bionic_vulkan_bridge.Handle.Table.Indices.{hash_wire_id-lt}
use bionic_vulkan_bridge.Handle.Table.Probe.{find_loop-holds, find_loop-empty, find_loop-lt}

-- The capacity is a power of two, `count` counts the occupied slots, and each occupied slot is the
-- one that a find of its id ends at. So no id is held twice.
pub record IsWellFormed (t : HandleTable) : Type 0 where
  pub sized : capacity_is_valid t.capacity ≡ true
  pub small : t.capacity < 2 ^ 64
  pub counted : t.count ≡ count_below is_occupied t.capacity t.entries
  pub found :
      (i : ℕ)
      → i < t.capacity
      → is_occupied (t.entries i) ≡ true
      → find_entry t (t.entries i).wire_id ≡ some i

-- A find returns an occupied slot of the array that holds the id.
pub find_entry-holds :
    (t : HandleTable) (w i : ℕ)
    → find_entry t w ≡ some i
    → (is_occupied (t.entries i) ≡ true) × ((t.entries i).wire_id ≡ w)
unfolding find_entry
find_entry-holds t w i f =
    find_loop-holds t.entries t.capacity w t.capacity (hash_wire_id w t.capacity) i f

pub find_entry-lt :
    (t : HandleTable) (w i : ℕ)
    → capacity_is_valid t.capacity ≡ true
    → find_entry t w ≡ some i
    → i < t.capacity
unfolding find_entry
find_entry-lt t w i sized f =
    find_loop-lt t.capacity sized w t.entries t.capacity (hash_wire_id w t.capacity) i
      (hash_wire_id-lt t.capacity sized w) f

find_entry-cleared :
    (entries : ℕ → Entry) (capacity w : ℕ)
    → capacity_is_valid capacity ≡ true
    → find_entry (cleared entries capacity) w ≡ none
unfolding find_entry cleared
find_entry-cleared entries capacity w valid =
    find_loop-empty (cleared entries capacity).entries capacity w capacity (hash_wire_id w capacity)
      (ground (arith, hash_wire_id-lt capacity valid w))

cleared-IsWellFormed :
    (entries : ℕ → Entry) (capacity : ℕ)
    → capacity < 2 ^ 64
    → capacity_is_valid capacity ≡ true
    → IsWellFormed (cleared entries capacity)
unfolding cleared
cleared-IsWellFormed entries capacity small valid = record {
  sized = valid;
  small = small;
  counted = sym (
      count_below-none is_occupied capacity (cleared entries capacity).entries
        (λ i lt. ground arith));
  found = λ i lt held. absurd (ground arith);
}

-- What init accepts is well formed and holds nothing.
pub init-IsWellFormed :
    (entries : ℕ → Entry) (capacity : ℕ) (t : HandleTable)
    → capacity < 2 ^ 64
    → init entries capacity ≡ ok t
    → IsWellFormed t × ((w : ℕ) → find_entry t w ≡ none)
unfolding init
init-IsWellFormed entries capacity t small e =
    let valid : capacity_is_valid capacity ≡ true = unfold capacity_is_valid in ground arith in
    let same : cleared entries capacity ≡ t = ground arith in
    rw (← same) (
      cleared-IsWellFormed entries capacity small valid,
      λ w. find_entry-cleared entries capacity w valid,
    )
