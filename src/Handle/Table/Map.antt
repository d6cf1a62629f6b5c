-- ===== src/Handle/Table/Map.antt =====
-- A well-formed table is a finite map from wire ids to a parent and native bits: each operation is
-- that of the map, on every branch.
use bionic_vulkan_bridge.Prelude.{
  ℕ, ◌+◌, Bool, true, false, not, ◌&&◌, ◌≡◌, ◌≢◌, refl, inl, inr, arith, Option, none, some, Result,
  ok, err, enoent, enospc, eexist, Status, success, ◌==◌, ◌!=◌, ◌>>=◌, if◌then◌else◌,
  count_below-le, Option-cases, ==_ne, ℕ_discrete, ◌∙◌, sym,
}
use bionic_vulkan_bridge.Handle.{handle_expect}
use bionic_vulkan_bridge.Handle.Table.{
  HandleTable, Placement, is_occupied, hash_wire_id, find_entry, insert_loop, insert_at, place,
  exists, full, store, insert, lookup, remove, release, is_typed, table_is_valid,
}
use bionic_vulkan_bridge.Handle.Table.Coverage.{full-count}
use bionic_vulkan_bridge.Handle.Table.Invariant.{IsWellFormed, find_entry-holds}
use bionic_vulkan_bridge.Handle.Table.Insert.{
  find_entry-store_self, find_entry-store, store-IsWellFormed, IsPlaced, placed-free,
}
use bionic_vulkan_bridge.Handle.Table.Probe.{
  insert_loop-exists, insert_loop_of_find, remove_loop-find_loop,
}
use bionic_vulkan_bridge.Handle.Table.Remove.{
  find_entry-release_self, find_entry-release, release-IsWellFormed, count-release,
}

abbrev pub payload : HandleTable → Option ℕ → Option (ℕ × ℕ)
payload t none = none
payload t (some i) = some ((t.entries i).parent_id, (t.entries i).native_bits)

-- The map that a table stands for.
abbrev pub view : HandleTable → ℕ → Option (ℕ × ℕ)
view t w = payload t (find_entry t w)

-- The arguments that insert accepts.
abbrev pub IsInsertable : ℕ → ℕ → ℕ → Type 0
IsInsertable w parent native =
    (is_typed w ≡ true) × (native ≢ 0) × ((parent != 0 && not (is_typed parent)) ≡ false)

pub valid_table : (t : HandleTable) → IsWellFormed t → table_is_valid t ≡ true
unfolding table_is_valid
valid_table t v =
    ground (arith, v.sized, v.counted, count_below-le is_occupied t.capacity t.entries)

-- What the probe of insert comes to, in terms of finds and of the count.
data Probed (t : HandleTable) (w : ℕ) : Type 0 where
  already : (i : ℕ) → find_entry t w ≡ some i → Probed t w
  room : (j : ℕ) → find_entry t w ≡ none → IsPlaced t w j → Probed t w
  packed : find_entry t w ≡ none → t.count ≡ t.capacity → Probed t w

probed : (t : HandleTable) (w : ℕ) → IsWellFormed t → Probed t w
probed t w v = elim (Option-cases (find_entry t w)) [
  | inr (i, f) ↦ already i f
  | inl gone ↦
      by_placement
        (insert_loop t.entries t.capacity w t.capacity (hash_wire_id w t.capacity) t.capacity) refl
        gone
]
  where
    by_placement :
        (p : Placement)
        → insert_loop t.entries t.capacity w t.capacity (hash_wire_id w t.capacity) t.capacity ≡ p
        → find_entry t w ≡ none
        → Probed t w
    by_placement (place j) e gone = room j gone e
    by_placement exists e gone = absurd (
        insert_loop-exists t.entries t.capacity w t.capacity (hash_wire_id w t.capacity) t.capacity
          e (unfold find_entry in gone))
    by_placement full e gone = packed gone (v.counted ∙ full-count t.capacity v.sized w t.entries e)

module _ (t : HandleTable) (w parent native : ℕ) where
  at_present : (i : ℕ) → find_entry t w ≡ some i → insert_at t w parent native ≡ err eexist
  unfolding insert_at
  at_present i f =
      let start = hash_wire_id w t.capacity in
      let met =
        insert_loop_of_find t.entries t.capacity w t.capacity start t.capacity i
          (unfold find_entry in f) in
      rw (met, insert_at)

  at_room : (j : ℕ) → IsPlaced t w j → insert_at t w parent native ≡ ok (store t j w parent native)
  unfolding insert_at
  at_room j e = rw (e, insert_at)

  -- With acceptable arguments only the count and the probe decide.
  insert-insert_at :
      IsWellFormed t
      → IsInsertable w parent native
      → insert t w parent native
        ≡ (if t.count == t.capacity then err enospc else insert_at t w parent native)
  unfolding insert
  insert-insert_at v (typed, nonzero, owned) = ground (arith, valid_table t v)

-- Whether insert succeeded.
abbrev pub status_of {ℓ} : {A : Type ℓ} → Result A → Status
status_of (ok a) = success
status_of (err e) = err e

abbrev pub holds : HandleTable → ℕ → Bool
holds t w = elim (view t w) [ none ↦ false | some _ ↦ true ]

-- On a well-formed table and acceptable arguments, insert fails with ENOSPC if the count has reached
-- the capacity, else with EEXIST if the table holds the id, and otherwise succeeds.
pub insert_status :
    (t : HandleTable) (w parent native : ℕ)
    → IsWellFormed t
    → IsInsertable w parent native
    → status_of (insert t w parent native)
      ≡ (if t.count == t.capacity then err enospc else if holds t w then err eexist else success)
insert_status t w parent native v ins =
    rw (insert-insert_at t w parent native v ins) (elim (probed t w v) [
      | already i f ↦ ground (arith, f, at_present t w parent native i f)
      | room j gone e ↦ ground (arith, gone, at_room t w parent native j e)
      | packed gone reached ↦ ground (arith, gone, reached)
    ])

view-store :
    (t : HandleTable) (w parent native j : ℕ)
    → IsWellFormed t
    → IsPlaced t w j
    → (k : ℕ)
    → view (store t j w parent native) k ≡ (if w == k then some (parent, native) else view t k)
view-store t w parent native j v e k = elim (ℕ_discrete w k) [
  | yes same ↦
      let f = find_entry-store_self t w parent native j v e in
      rw (← same) (rw f (unfold store in ground arith))
  | no other ↦
      let f = find_entry-store t w parent native j v e k (λ same. other (sym same)) in
      rw (f, ==_ne w k other)
        (elim (Option-cases (find_entry t k)) [
          | inl gone ↦ rw gone
          | inr (i, here) ↦
              let free = placed-free t w parent native j v e in
              unfold store in ground (arith, here, free, find_entry-holds t k i here)
        ])
]

-- An insert that succeeds adds its id, which was absent, to the map, changes no other id, adds one to
-- the count, and keeps the table well formed.
pub insert_refines :
    (t t' : HandleTable) (w parent native : ℕ)
    → IsWellFormed t
    → IsInsertable w parent native
    → insert t w parent native ≡ ok t'
    → IsWellFormed t'
      × (t'.count ≡ t.count + 1)
      × (view t w ≡ none)
      × ((k : ℕ) → view t' k ≡ (if w == k then some (parent, native) else view t k))
insert_refines t t' w parent native v ins e = elim (probed t w v) [
  | already i f ↦
      absurd
        (ground (arith, insert-insert_at t w parent native v ins, at_present t w parent native i f))
  | packed gone reached ↦ absurd (ground (arith, insert-insert_at t w parent native v ins))
  | room j gone p ↦
      let same : store t j w parent native ≡ t' =
        ground (arith, insert-insert_at t w parent native v ins, at_room t w parent native j p) in
      rw (← same) (
        store-IsWellFormed t w parent native j v p,
        unfold store in refl,
        rw (gone, view),
        view-store t w parent native j v p,
      )
]

lookup-view :
    (t : HandleTable) (w type : ℕ)
    → IsWellFormed t
    → lookup t w type
      ≡ (handle_expect w type >>= λ _. elim (view t w) [ none ↦ err enoent | some a ↦ ok a ])
unfolding lookup
lookup-view t w type v = ground (arith, valid_table t v)

-- After an insert that succeeds, lookup of the id at its own type returns the parent and the native bits that
-- were inserted, and lookup of every other id returns at every type what it returned before.
pub lookup-insert :
    (t t' : HandleTable) (w parent native type : ℕ)
    → IsWellFormed t
    → IsInsertable w parent native
    → handle_expect w type ≡ success
    → insert t w parent native ≡ ok t'
    → (lookup t' w type ≡ ok (parent, native))
      × ((k other : ℕ) → w ≢ k → lookup t' k other ≡ lookup t k other)
lookup-insert t t' w parent native type v ins expected e =
    let (v', _, _, views) = insert_refines t t' w parent native v ins e in
    (
      rw (lookup-view t' w type v', expected, views w) (ground arith),
      λ k other differs.
          let same : view t' k ≡ view t k = rw (views k, ==_ne w k differs) in
          rw (lookup-view t' k other v', lookup-view t k other v, same) refl,
    )

view-release :
    (t : HandleTable) (w j : ℕ)
    → IsWellFormed t
    → find_entry t w ≡ some j
    → (k : ℕ) → view (release t j) k ≡ (if w == k then none else view t k)
view-release t w j v f k = elim (ℕ_discrete w k) [
  | yes same ↦ rw (← same) (rw (find_entry-release_self t w j v f, view) (ground arith))
  | no other ↦
      let kept = find_entry-release t w j v f k (λ same. other (sym same)) in
      rw (==_ne w k other) (elim (Option-cases (find_entry t k)) [
        | inl gone ↦ ground (arith, kept, gone)
        | inr (i, here) ↦
            unfold release in
            ground (arith, kept, here, find_entry-holds t k i here, find_entry-holds t w j f)
      ])
]

-- What remove comes to.
remove_find :
    (t : HandleTable) (w type : ℕ)
    → IsWellFormed t
    → remove t w type ≡ (
        handle_expect w type >>= λ _. elim (find_entry t w) [
          | none ↦ err enoent
          | some i ↦ ok (release t i, (t.entries i).native_bits)
        ])
unfolding remove find_entry
remove_find t w type v =
    ground
      (arith, valid_table t v, remove_loop-find_loop t w t.capacity (hash_wire_id w t.capacity))

-- remove on a well-formed table fails with EINVAL at an id of another type and with ENOENT where the
-- map has nothing.
pub remove_status :
    (t : HandleTable) (w type : ℕ)
    → IsWellFormed t
    → status_of (remove t w type)
      ≡ (handle_expect w type >>= λ _. if holds t w then success else err enoent)
remove_status t w type v = ground (arith, remove_find t w type v)

-- A remove that succeeds returns the native bits that the map had, takes the id and nothing else out
-- of the map, lowers the count by one, and keeps the table well formed.
pub remove_refines :
    (t t' : HandleTable) (w type native : ℕ)
    → IsWellFormed t
    → remove t w type ≡ ok (t', native)
    → IsWellFormed t'
      × (t'.count + 1 ≡ t.count)
      × ((parent : ℕ) × (view t w ≡ some (parent, native)))
      × ((k : ℕ) → view t' k ≡ (if w == k then none else view t k))
remove_refines t t' w type native v e = elim (Option-cases (find_entry t w)) [
  | inl gone ↦ absurd (ground (arith, gone, remove_find t w type v))
  | inr (i, f) ↦
      let same : release t i ≡ t' = ground (arith, f, remove_find t w type v) in
      let bits : (t.entries i).native_bits ≡ native = ground (arith, f, remove_find t w type v) in
      rw (← same) (
        release-IsWellFormed t w i v f,
        (count-release t w i v f).0,
        ((t.entries i).parent_id, ground (arith, f, bits)),
        view-release t w i v f,
      )
]
