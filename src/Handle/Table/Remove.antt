-- ===== src/Handle/Table/Remove.antt =====
-- Removal: the id is gone, every other id is found where it was, and the table stays well formed.
use bionic_vulkan_bridge.Prelude.{
  ℕ, ◌+◌, ◌<◌, ◌≡◌, ◌≢◌, refl, inl, inr, arith, true, none, some, update_ne, count_below,
  count_below-update, count_below-le, Option-cases, sym, ℕ_discrete,
}
use bionic_vulkan_bridge.Handle.Table.{
  HandleTable, is_occupied, hash_wire_id, find_entry, release, removed_entry,
}
use bionic_vulkan_bridge.Handle.Table.Invariant.{IsWellFormed, find_entry-holds, find_entry-lt}
use bionic_vulkan_bridge.Handle.Table.Probe.{find_loop-update}

module _ (t : HandleTable) (w j : ℕ) (v : IsWellFormed t) (e : find_entry t w ≡ some j) where
  held_there : (is_occupied (t.entries j) ≡ true) × ((t.entries j).wire_id ≡ w) × (j < t.capacity)
  held_there =
      let (held, named) = find_entry-holds t w j e in (held, named, find_entry-lt t w j v.sized e)

  -- What the table finds after the removal stood there before, and is another id.
  found_before :
      (k i : ℕ) → find_entry (release t j) k ≡ some i → (find_entry t k ≡ some i) × (i ≢ j)
  found_before k i f =
      let (held, named) = find_entry-holds (release t j) k i f in
      let below = find_entry-lt (release t j) k i (unfold release in v.sized) f in
      unfold release in ground (arith, v.found i)

  -- The removed id is found no more.
  pub find_entry-release_self : find_entry (release t j) w ≡ none
  find_entry-release_self = elim (Option-cases (find_entry (release t j) w)) [
    | inl gone ↦ gone
    | inr (i, f) ↦ ground (arith, found_before w i f)
  ]

  find_entry-release_other :
      (k i : ℕ) → k ≢ w → find_entry t k ≡ some i → find_entry (release t j) k ≡ some i
  unfolding find_entry release
  find_entry-release_other k i ne f =
      find_loop-update t.entries t.capacity k t.capacity (hash_wire_id k t.capacity) j removed_entry
        i refl (inl refl) (ground (arith, held_there, find_entry-holds t k i f)) f

  -- Every other id is found where it was.
  pub find_entry-release : (k : ℕ) → k ≢ w → find_entry (release t j) k ≡ find_entry t k
  find_entry-release k ne = elim (Option-cases (find_entry t k)) [
    | inr (i, f) ↦ rw f (find_entry-release_other k i ne f)
    | inl gone ↦ rw gone (elim (Option-cases (find_entry (release t j) k)) [
      | inl n ↦ n
      | inr (i, f) ↦ ground (arith, found_before k i f)
    ])
  ]

  released_entry :
      (i : ℕ)
      → is_occupied ((release t j).entries i) ≡ true
      → ((release t j).entries i ≡ t.entries i) × (i ≢ j)
  unfolding release
  released_entry i held = elim (ℕ_discrete i j) [
    | yes here ↦ absurd (ground arith)
    | no other ↦ (update_ne t.entries j removed_entry i (λ same. other (sym same)), other)
  ]

  found_after :
      (i : ℕ)
      → i < (release t j).capacity
      → is_occupied ((release t j).entries i) ≡ true
      → find_entry (release t j) ((release t j).entries i).wire_id ≡ some i
  found_after i lt held =
      let (kept, other) = released_entry i held in
      let k = (t.entries i).wire_id in
      let f : find_entry t k ≡ some i = v.found i (unfold release in lt) (rw kept at held) in
      rw kept (find_entry-release_other k i (λ same. ground (arith, rw same at f)) f)

  -- The count is right afterwards: it was not 0.
  pub count-release :
      ((release t j).count + 1 ≡ t.count)
      × ((release t j).count ≡ count_below is_occupied t.capacity (release t j).entries)
  unfolding release
  count-release = ground (
    arith,
    v.counted,
    v.small,
    held_there,
    count_below-le is_occupied t.capacity t.entries,
    count_below-update is_occupied t.capacity t.entries j removed_entry,
  )

  pub release-IsWellFormed : IsWellFormed (release t j)
  release-IsWellFormed = record {
    sized = unfold release in v.sized;
    small = unfold release in v.small;
    counted = unfold release in count-release.1;
    found = found_after;
  }
