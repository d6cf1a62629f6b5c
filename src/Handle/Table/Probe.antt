-- ===== src/Handle/Table/Probe.antt =====
-- The three probing loops, slot by slot: what a find returns, and what a write does to other finds.
use bionic_vulkan_bridge.Prelude.{
  ℕ, zero, suc, ◌<◌, ◌≡◌, ◌≢◌, refl, ◌⊎◌, arith, true, false, none, some, ok, err, enoent, update,
}
use bionic_vulkan_bridge.Handle.Table.Indices.{next_index-lt}
use bionic_vulkan_bridge.Handle.Table.{
  capacity_is_valid, Entry, HandleTable, is_empty, is_occupied, next_index, find_loop, insert_loop,
  place, exists, remove_loop, release,
}

-- A find returns a slot that holds the id.
pub find_loop-holds :
    (entries : ℕ → Entry) (capacity w n index i : ℕ)
    → find_loop entries capacity w n index ≡ some i
    → (is_occupied (entries i) ≡ true) × ((entries i).wire_id ≡ w)
unfolding find_loop
find_loop-holds entries capacity w zero index i e = absurd (cc)
find_loop-holds entries capacity w (suc n) index i e =
    ground (arith, find_loop-holds entries capacity w n (next_index capacity index) i)

pub find_loop-empty :
    (entries : ℕ → Entry) (capacity w n index : ℕ)
    → is_empty (entries index) ≡ true
    → find_loop entries capacity w n index ≡ none
unfolding find_loop
find_loop-empty entries capacity w zero index h = refl
find_loop-empty entries capacity w (suc n) index h = rw h

-- The removing loop finds the same slot.
pub remove_loop-find_loop :
    (t : HandleTable) (w n index : ℕ)
    → remove_loop t w n index ≡ elim (find_loop t.entries t.capacity w n index) [
      | none ↦ err enoent
      | some i ↦ ok (release t i, (t.entries i).native_bits)
    ]
unfolding remove_loop find_loop
remove_loop-find_loop t w zero index = refl
remove_loop-find_loop t w (suc n) index =
    ground (arith, remove_loop-find_loop t w n (next_index t.capacity index))

-- A find of another id is not disturbed by a write to a slot that did not hold that id and is not
-- made empty.
pub find_loop-update :
    (entries : ℕ → Entry) (capacity w n index j : ℕ) (a : Entry) (i : ℕ)
    → is_empty a ≡ false
    → (is_occupied a ≡ false) ⊎ (a.wire_id ≢ w)
    → j ≢ i
    → find_loop entries capacity w n index ≡ some i
    → find_loop (update entries j a) capacity w n index ≡ some i
unfolding find_loop
find_loop-update entries capacity w zero index j a i filled other ne e = absurd (cc)
find_loop-update entries capacity w (suc n) index j a i filled other ne e =
    ground (
      arith,
      find_loop-update entries capacity w n (next_index capacity index) j a i filled other ne,
    )

-- Where the slots passed so far gave a tombstone, that is the slot that is written.
insert_loop-keeps :
    (entries : ℕ → Entry) (capacity w n index tomb j : ℕ)
    → tomb ≢ capacity
    → insert_loop entries capacity w n index tomb ≡ place j
    → j ≡ tomb
unfolding insert_loop
insert_loop-keeps entries capacity w zero index tomb j known e = ground arith
insert_loop-keeps entries capacity w (suc n) index tomb j known e =
    ground (arith, insert_loop-keeps entries capacity w n (next_index capacity index) tomb j known)

-- The slot that an insert chooses lies in the array and is free, and once the id is written there a
-- find of the id along the same probes ends at it.
module _ (capacity : ℕ) (valid : capacity_is_valid capacity ≡ true) (w : ℕ) where
  pub insert_loop-free :
      (entries : ℕ → Entry) (n index j : ℕ)
      → index < capacity
      → insert_loop entries capacity w n index capacity ≡ place j
      → (is_occupied (entries j) ≡ false) × (j < capacity)
  unfolding insert_loop
  insert_loop-free entries zero index j lt e = absurd (ground arith)
  insert_loop-free entries (suc n) index j lt e =
      let next = next_index capacity index in
      ground (
        arith,
        next_index-lt capacity valid index,
        insert_loop-keeps entries capacity w n next index j,
        insert_loop-free entries n next j,
      )

  pub find_loop-lt :
      (entries : ℕ → Entry) (n index i : ℕ)
      → index < capacity
      → find_loop entries capacity w n index ≡ some i
      → i < capacity
  unfolding find_loop
  find_loop-lt entries zero index i lt e = absurd (cc)
  find_loop-lt entries (suc n) index i lt e =
      let next = next_index capacity index in
      ground (arith, next_index-lt capacity valid index, find_loop-lt entries n next i)

  pub insert_loop-finds :
      (entries : ℕ → Entry) (a : Entry) (n index j : ℕ)
      → index < capacity
      → is_occupied a ≡ true
      → a.wire_id ≡ w
      → insert_loop entries capacity w n index capacity ≡ place j
      → find_loop (update entries j a) capacity w n index ≡ some j
  unfolding insert_loop find_loop
  insert_loop-finds entries a zero index j lt held named e = absurd (ground arith)
  insert_loop-finds entries a (suc n) index j lt held named e =
      let next = next_index capacity index in
      ground (
        arith,
        next_index-lt capacity valid index,
        insert_loop-keeps entries capacity w n next index j,
        insert_loop-finds entries a n next j,
      )

-- An insert meets the id exactly where a find along the same probes does.
pub insert_loop-exists :
    (entries : ℕ → Entry) (capacity w n index tomb : ℕ)
    → insert_loop entries capacity w n index tomb ≡ exists
    → find_loop entries capacity w n index ≢ none
unfolding insert_loop find_loop
insert_loop-exists entries capacity w zero index tomb e = ground arith
insert_loop-exists entries capacity w (suc n) index tomb e =
    let next = next_index capacity index in
    ground (
      arith,
      insert_loop-exists entries capacity w n next tomb,
      insert_loop-exists entries capacity w n next index,
    )

pub insert_loop_of_find :
    (entries : ℕ → Entry) (capacity w n index tomb i : ℕ)
    → find_loop entries capacity w n index ≡ some i
    → insert_loop entries capacity w n index tomb ≡ exists
unfolding insert_loop find_loop
insert_loop_of_find entries capacity w zero index tomb i e = absurd (cc)
insert_loop_of_find entries capacity w (suc n) index tomb i e =
    let next = next_index capacity index in
    ground (
      arith,
      insert_loop_of_find entries capacity w n next tomb i,
      insert_loop_of_find entries capacity w n next index i,
    )
