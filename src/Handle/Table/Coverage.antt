-- ===== src/Handle/Table/Coverage.antt =====
-- The probes go through the whole array, so an insert that finds no room has met only occupied slots.
use native.Mathlib.Nat.{mod-eq_of_lt, mod-add-mod}
use bionic_vulkan_bridge.Prelude.{
  ℕ, zero, suc, ◌+◌, ◌%◌, ◌<◌, ◌≡◌, ◌≢◌, arith, true, ◌∙◌, ap, count_below, count_below-all,
}
use bionic_vulkan_bridge.Prelude.Modular.{steps_to, steps_to_reach}
use bionic_vulkan_bridge.Handle.Table.{
  Entry, capacity_is_valid, next_index, is_occupied, insert_loop, full, hash_wire_id,
}
use bionic_vulkan_bridge.Handle.Table.Indices.{next_index-lt, next_index-mod, hash_wire_id-lt}

-- With a tombstone in hand the loop never gives up.
insert_loop-ne-full :
    (entries : ℕ → Entry) (capacity w n index tomb : ℕ)
    → tomb ≢ capacity
    → insert_loop entries capacity w n index tomb ≢ full
unfolding insert_loop
insert_loop-ne-full entries capacity w zero index tomb known = ground arith
insert_loop-ne-full entries capacity w (suc n) index tomb known =
    ground (arith, insert_loop-ne-full entries capacity w n (next_index capacity index) tomb)

module _ (capacity : ℕ) (valid : capacity_is_valid capacity ≡ true) (w : ℕ) (es : ℕ → Entry) where
  -- The probe `p` steps after `index`, seen from the next slot.
  probe_shift :
      (index p : ℕ) → (next_index capacity index + p) % capacity ≡ (index + suc p) % capacity
  probe_shift index p =
      rw (next_index-mod capacity valid index)
        (mod-add-mod (index + 1) capacity p ∙ ap (λ (t : ℕ). t % capacity) (omega arith))

  full-occupied :
      (n index p : ℕ)
      → index < capacity
      → insert_loop es capacity w n index capacity ≡ full
      → p < n
      → is_occupied (es ((index + p) % capacity)) ≡ true
  unfolding insert_loop
  full-occupied zero index p lt e h = absurd (omega arith)
  full-occupied (suc n) index zero lt e h =
      let here : (index + 0) % capacity ≡ index =
        ap (λ (t : ℕ). t % capacity) (omega arith) ∙ mod-eq_of_lt lt in
      rw here
        (ground (arith, insert_loop-ne-full es capacity w n (next_index capacity index) index))
  full-occupied (suc n) index (suc p) lt e h =
      let next = next_index capacity index in
      rw (← probe_shift index p) (
        full-occupied n next p (next_index-lt capacity valid index)
          (ground (arith, insert_loop-ne-full es capacity w n next index)) (omega arith))

  -- Giving up means that every slot of the array is occupied.
  pub full-count :
      insert_loop es capacity w capacity (hash_wire_id w capacity) capacity ≡ full
      → count_below is_occupied capacity es ≡ capacity
  full-count e = count_below-all is_occupied capacity es λ i lt.
      let start = hash_wire_id w capacity in
      let reached = steps_to_reach capacity start i (hash_wire_id-lt capacity valid w) lt in
      rw reached at (
        full-occupied capacity start (steps_to capacity start i) (hash_wire_id-lt capacity valid w)
          e (omega arith))
