-- ===== src/StreamGeneration/Monotone.antt =====
-- Applying a batch of updates: no live command buffer's sequence goes back, and none is taken twice.
use bionic_vulkan_bridge.Prelude.{
  ℕ, ◌<◌, ◌≤◌, ◌≡◌, ◌≢◌, Option, none, some, List, [], ◌∷◌, ◌++◌, ok, arith, Bool, false, not, ◌&&◌,
  update, inl, inr, Bool-cases, Result-cases, sym, ◌∙◌, refl,
}
use mathlib.Core.Path.{subst}
use bionic_vulkan_bridge.Handle.{object_command_buffer}
use bionic_vulkan_bridge.Handle.Ids.{handle_expect_nonzero}
use bionic_vulkan_bridge.StreamGeneration.{
  is_full, Generation, GenerationUpdate, Shadow, is_dead, reclaim, reclaimed_shadow, prepared,
  apply_update, apply_loop, generation_check, generation_commit,
}
use bionic_vulkan_bridge.StreamGeneration.Entries.{
  IsWellFormed, generation_check_sound, commit_after_check-IsWellFormed, reclaim-IsWellFormed,
}

-- The callback says that the entry's command buffer is gone.
abbrev pub may_vanish : Option (ℕ → Bool) → Generation → Bool
may_vanish none g = false
may_vanish (some live) g = is_dead live g

-- The entry names the same command buffer, at the same sequence or a later one.
abbrev pub Keeps : Generation → Generation → Type 0
Keeps g h = (h.command_buffer_id ≡ g.command_buffer_id) × (g.last_sequence ≤ h.last_sequence)

prepared-IsWellFormed :
    (s : Shadow) (count : ℕ) (is_live : Option (ℕ → Bool)) (u : GenerationUpdate)
    → IsWellFormed s.generations count
    → IsWellFormed (prepared s count is_live u).generations count
unfolding prepared reclaimed_shadow
prepared-IsWellFormed s count none u w = w
prepared-IsWellFormed s count (some live) u w =
    let retry : Bool =
      is_full (generation_check s.generations count u.command_buffer_id u.sequence)
      && not s.attempted in
    elim (Bool-cases retry) [
      | inl tried ↦ rw tried (reclaim-IsWellFormed s.generations count live w)
      | inr kept ↦ rw kept w
    ]

prepared_keeps :
    (s : Shadow) (count : ℕ) (is_live : Option (ℕ → Bool)) (u : GenerationUpdate) (i : ℕ)
    → may_vanish is_live (s.generations i) ≡ false
    → (prepared s count is_live u).generations i ≡ s.generations i
unfolding prepared reclaimed_shadow reclaim
prepared_keeps s count none u i h = ground (arith, h)
prepared_keeps s count (some live) u i h = ground (arith, h)

-- The checks of an update that succeeds, and its commit.
update_committed :
    (s s' : Shadow) (count : ℕ) (is_live : Option (ℕ → Bool)) (u : GenerationUpdate)
    → apply_update s count is_live u ≡ ok s'
    → (k : ℕ) × (generation_check
          (prepared s count is_live u).generations
          count
          u.command_buffer_id
          u.sequence
        ≡ ok k)
      × (u.command_buffer_id ≢ 0)
      × (s'.generations
          ≡ update
              (prepared s count is_live u).generations
              k
              (record { command_buffer_id = u.command_buffer_id; last_sequence = u.sequence }))
unfolding apply_update generation_commit
update_committed s s' count is_live u e =
    let p = (prepared s count is_live u).generations in
    elim (Result-cases (generation_check p count u.command_buffer_id u.sequence)) [
      | inl (k, found) ↦ (
        k,
        found,
        handle_expect_nonzero u.command_buffer_id object_command_buffer (ground (arith, e, found)),
        ground (arith, e, found),
      )
      | inr (x, failed) ↦ absurd (ground (arith, e, failed))
    ]

-- What an update does to an entry of a live command buffer.
entry_lem :
    (g : ℕ → Generation) (count id sequence k i : ℕ)
    → IsWellFormed g count
    → generation_check g count id sequence ≡ ok k
    → i < count
    → (g i).command_buffer_id ≢ 0
    → Keeps (g i) (update g k (record { command_buffer_id = id; last_sequence = sequence }) i)
      × ((g i).command_buffer_id ≡ id → (g i).last_sequence < sequence)
entry_lem g count id sequence k i w e l nonzero =
    elim (generation_check_sound g count id sequence k e) [
      | inl held ↦ ground (arith, held, l, nonzero, w.distinct i k)
      | inr (slot, absent) ↦ ground (arith, slot, absent i l, l, nonzero)
    ]

apply_update-IsWellFormed :
    (s s' : Shadow) (count : ℕ) (is_live : Option (ℕ → Bool)) (u : GenerationUpdate)
    → IsWellFormed s.generations count
    → apply_update s count is_live u ≡ ok s'
    → IsWellFormed s'.generations count
apply_update-IsWellFormed s s' count is_live u w e =
    let (k, found, nonzero, same) = update_committed s s' count is_live u e in
    rw same (
      commit_after_check-IsWellFormed (prepared s count is_live u).generations count
        u.command_buffer_id u.sequence k (prepared-IsWellFormed s count is_live u w) found nonzero)

-- One update that succeeds is newer than what its live command buffer's entry holds, and takes no live
-- command buffer back.
apply_update_entry :
    (s s' : Shadow) (count : ℕ) (is_live : Option (ℕ → Bool)) (u : GenerationUpdate) (i : ℕ)
    → IsWellFormed s.generations count
    → apply_update s count is_live u ≡ ok s'
    → i < count
    → (s.generations i).command_buffer_id ≢ 0
    → may_vanish is_live (s.generations i) ≡ false
    → Keeps (s.generations i) (s'.generations i)
      × ((s.generations i).command_buffer_id ≡ u.command_buffer_id
          → (s.generations i).last_sequence < u.sequence)
apply_update_entry s s' count is_live u i w e l nonzero live =
    let (k, found, _, same) = update_committed s s' count is_live u e in
    let p = (prepared s count is_live u).generations in
    let kept = prepared_keeps s count is_live u i live in
    rw (same, sym kept)
      (entry_lem p count u.command_buffer_id u.sequence k i
        (prepared-IsWellFormed s count is_live u w) found l (rw kept nonzero))

-- The first update that succeeds and what the rest does.
apply_loop_step :
    (s s' : Shadow) (count : ℕ) (is_live : Option (ℕ → Bool)) (u : GenerationUpdate)
    (us : List GenerationUpdate)
    → apply_loop s count is_live (u ∷ us) ≡ ok s'
    → (m : Shadow) × (apply_update s count is_live u ≡ ok m)
      × (apply_loop m count is_live us ≡ ok s')
unfolding apply_loop
apply_loop_step s s' count is_live u us e = elim (Result-cases (apply_update s count is_live u)) [
  | inl (m, done) ↦ (m, done, ground (arith, e, done))
  | inr (x, failed) ↦ absurd (ground (arith, e, failed))
]

pub apply_loop-IsWellFormed :
    (s s' : Shadow) (count : ℕ) (is_live : Option (ℕ → Bool)) (us : List GenerationUpdate)
    → IsWellFormed s.generations count
    → apply_loop s count is_live us ≡ ok s'
    → IsWellFormed s'.generations count
unfolding apply_loop
apply_loop-IsWellFormed s s' count is_live [] w e =
    let same : s ≡ s' = ground (arith, e) in subst (λ x. IsWellFormed x.generations count) same w
apply_loop-IsWellFormed s s' count is_live (u ∷ us) w e =
    let (m, first, rest) = apply_loop_step s s' count is_live u us e in
    apply_loop-IsWellFormed m s' count is_live us
      (apply_update-IsWellFormed s m count is_live u w first) rest

-- Whether an entry may vanish depends on its command buffer alone.
may_vanish_same :
    (is_live : Option (ℕ → Bool)) (g h : Generation)
    → h.command_buffer_id ≡ g.command_buffer_id
    → may_vanish is_live h ≡ may_vanish is_live g
may_vanish_same none g h e = refl
may_vanish_same (some live) g h e = rw e refl

pub apply_loop-Keeps :
    (s s' : Shadow) (count : ℕ) (is_live : Option (ℕ → Bool)) (us : List GenerationUpdate) (i : ℕ)
    → IsWellFormed s.generations count
    → apply_loop s count is_live us ≡ ok s'
    → i < count
    → (s.generations i).command_buffer_id ≢ 0
    → may_vanish is_live (s.generations i) ≡ false
    → Keeps (s.generations i) (s'.generations i)
unfolding apply_loop
apply_loop-Keeps s s' count is_live [] i w e l nonzero live =
    let same : s ≡ s' = ground (arith, e) in
    subst (λ x. Keeps (s.generations i) (x.generations i)) same (refl, omega arith)
apply_loop-Keeps s s' count is_live (u ∷ us) i w e l nonzero live =
    let (m, first, rest) = apply_loop_step s s' count is_live u us e in
    let ((id, order), _) = apply_update_entry s m count is_live u i w first l nonzero live in
    let (id', order') =
      apply_loop-Keeps m s' count is_live us i
        (apply_update-IsWellFormed s m count is_live u w first) rest l (rw id nonzero)
        (may_vanish_same is_live (s.generations i) (m.generations i) id ∙ live) in
    (id' ∙ id, omega (arith, order, order'))

pub apply_loop_newer :
    (s s' : Shadow) (count : ℕ) (is_live : Option (ℕ → Bool)) (before after : List GenerationUpdate)
    (u : GenerationUpdate) (i : ℕ)
    → IsWellFormed s.generations count
    → apply_loop s count is_live (before ++ u ∷ after) ≡ ok s'
    → i < count
    → (s.generations i).command_buffer_id ≢ 0
    → may_vanish is_live (s.generations i) ≡ false
    → (s.generations i).command_buffer_id ≡ u.command_buffer_id
    → (s.generations i).last_sequence < u.sequence
apply_loop_newer s s' count is_live [] after u i w e l nonzero live same =
    let (m, first, _) = apply_loop_step s s' count is_live u after e in
    let (_, newer) = apply_update_entry s m count is_live u i w first l nonzero live in newer same
apply_loop_newer s s' count is_live (b ∷ bs) after u i w e l nonzero live same =
    let (m, first, rest) = apply_loop_step s s' count is_live b (bs ++ u ∷ after) e in
    let ((id, order), _) = apply_update_entry s m count is_live b i w first l nonzero live in
    let later =
      apply_loop_newer m s' count is_live bs after u i
        (apply_update-IsWellFormed s m count is_live b w first) rest l (rw id nonzero)
        (may_vanish_same is_live (s.generations i) (m.generations i) id ∙ live) (id ∙ same) in
    omega (arith, order, later)
