-- ===== src/Handle/Table/Insert.antt =====
-- Insertion: the new id is found in its slot, every other id where it was, and the table stays well
-- formed.
use bionic_vulkan_bridge.Prelude.{
  ℕ, ◌<◌, ◌≡◌, ◌≢◌, refl, inl, inr, arith, true, false, some, update_ne, count_below-update,
  Option-cases, sym, ℕ_discrete,
}
use bionic_vulkan_bridge.Handle.Table.Invariant.{IsWellFormed, find_entry-holds, find_entry-lt}
use bionic_vulkan_bridge.Handle.Table.{
  new_entry, HandleTable, is_occupied, hash_wire_id, insert_loop, place, store, find_entry,
}
use bionic_vulkan_bridge.Handle.Table.Indices.{hash_wire_id-lt}
use bionic_vulkan_bridge.Handle.Table.Probe.{
  find_loop-update, insert_loop-free, insert_loop-finds, insert_loop_of_find,
}

-- The loop of insert, run from its start, chooses the slot `j`.
abbrev pub IsPlaced : HandleTable → ℕ → ℕ → Type 0
IsPlaced t w j =
    insert_loop t.entries t.capacity w t.capacity (hash_wire_id w t.capacity) t.capacity ≡ place j

module _ (t : HandleTable) (w parent native j : ℕ) (v : IsWellFormed t) (e : IsPlaced t w j) where
  -- The loop of insert does not choose a slot for an id that the table holds.
  placed-absent : (i : ℕ) → find_entry t w ≢ some i
  unfolding find_entry
  placed-absent i f = cc (
      insert_loop_of_find t.entries t.capacity w t.capacity (hash_wire_id w t.capacity) t.capacity i
        f)

  pub placed-free : (is_occupied (t.entries j) ≡ false) × (j < t.capacity)
  placed-free =
      insert_loop-free t.capacity v.sized w t.entries t.capacity (hash_wire_id w t.capacity) j
        (hash_wire_id-lt t.capacity v.sized w) e

  -- The id that was stored is found in its slot.
  pub find_entry-store_self : find_entry (store t j w parent native) w ≡ some j
  unfolding find_entry store
  find_entry-store_self =
      insert_loop-finds t.capacity v.sized w t.entries (new_entry w parent native) t.capacity
        (hash_wire_id w t.capacity) j (hash_wire_id-lt t.capacity v.sized w) refl refl e

  pub find_entry-store_other :
      (k i : ℕ)
      → k ≢ w
      → find_entry t k ≡ some i
      → find_entry (store t j w parent native) k ≡ some i
  unfolding find_entry store
  find_entry-store_other k i ne f =
      find_loop-update t.entries t.capacity k t.capacity (hash_wire_id k t.capacity) j
        (new_entry w parent native) i refl (inr (λ same. ne (sym same)))
        (ground (arith, placed-free, find_entry-holds t k i f)) f

  -- No other id appears or goes.
  pub find_entry-store : (k : ℕ) → k ≢ w → find_entry (store t j w parent native) k ≡ find_entry t k
  find_entry-store k ne = elim (Option-cases (find_entry t k)) [
    | inr (i, f) ↦ rw f (find_entry-store_other k i ne f)
    | inl gone ↦ rw gone (elim (Option-cases (find_entry (store t j w parent native) k)) [
      | inl n ↦ n
      | inr (i, f) ↦
          let (held, named) = find_entry-holds (store t j w parent native) k i f in
          let below = find_entry-lt (store t j w parent native) k i (unfold store in v.sized) f in
          absurd (unfold store in ground (arith, v.found i))
    ])
  ]

  found_after :
      (i : ℕ)
      → i < (store t j w parent native).capacity
      → is_occupied ((store t j w parent native).entries i) ≡ true
      → find_entry (store t j w parent native) ((store t j w parent native).entries i).wire_id
        ≡ some i
  found_after i lt held = elim (ℕ_discrete i j) [
    | yes here ↦
        let named : ((store t j w parent native).entries i).wire_id ≡ w =
          unfold store in ground arith in
        rw named (rw here find_entry-store_self)
    | no other ↦
        let k = (t.entries i).wire_id in
        let kept : (store t j w parent native).entries i ≡ t.entries i =
          unfold store in
          update_ne t.entries j (new_entry w parent native) i (λ same. other (sym same)) in
        let f : find_entry t k ≡ some i = v.found i (unfold store in lt) (rw kept at held) in
        let ne : k ≢ w = λ same. placed-absent i (rw same at f) in
        rw kept (find_entry-store_other k i ne f)
  ]

  pub store-IsWellFormed : IsWellFormed (store t j w parent native)
  store-IsWellFormed = record {
    sized = unfold store in v.sized;
    small = unfold store in v.small;
    counted =
        unfold store in
        ground (
          arith,
          placed-free,
          v.counted,
          count_below-update is_occupied t.capacity t.entries j (new_entry w parent native),
        );
    found = found_after;
  }
