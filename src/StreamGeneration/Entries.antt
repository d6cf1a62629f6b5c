-- ===== src/StreamGeneration/Entries.antt =====
-- What the check finds, and that the commit after it succeeds.
use bionic_vulkan_bridge.Prelude.{
  ℕ, zero, suc, ◌+◌, ◌<◌, ◌≤◌, ◌≡◌, ◌≢◌, ◌⊎◌, inl, inr, ℕ_discrete, Option, none, some, ok, err,
  estale, arith, update, leb, if◌then◌else◌, Bool,
}
use bionic_vulkan_bridge.StreamGeneration.{
  Generation, first_empty, check_loop, generation_check, generation_commit, reclaim,
}

-- Each command buffer has one entry at most, and an empty entry has no sequence.
pub record IsWellFormed (g : ℕ → Generation) (count : ℕ) : Type 0 where
  pub distinct :
      (i j : ℕ)
      → i < count
      → j < count
      → (g i).command_buffer_id ≡ (g j).command_buffer_id
      → (g i).command_buffer_id ≢ 0
      → i ≡ j
  pub blank : (i : ℕ) → i < count → (g i).command_buffer_id ≡ 0 → (g i).last_sequence ≡ 0

slot_lem :
    (g : ℕ → Generation) (index k left : ℕ) (empty : Option ℕ)
    → (first_empty empty (g index) index ≡ some k)
      ⊎ (k < index + 1 + left) × ((g k).command_buffer_id ≡ 0)
    → (empty ≡ some k) ⊎ (k < index + suc left) × ((g k).command_buffer_id ≡ 0)
slot_lem g index k left none (inl e) = ground (arith, e)
slot_lem g index k left (some i) (inl e) = inl e
slot_lem g index k left empty (inr (a, b)) = inr (omega (arith, a), b)

-- The entry found is the command buffer's and older than the sequence, or an empty one while no entry from
-- the index on is the command buffer's.
pub check_loop_sound :
    (g : ℕ → Generation) (id sequence left index k : ℕ) (empty : Option ℕ)
    → check_loop g id sequence left index empty ≡ ok k
    → (k < index + left) × ((g k).command_buffer_id ≡ id) × ((g k).last_sequence < sequence)
      ⊎ ((empty ≡ some k) ⊎ (k < index + left) × ((g k).command_buffer_id ≡ 0))
        × ((j : ℕ) → index ≤ j → j < index + left → (g j).command_buffer_id ≢ id)
unfolding check_loop
check_loop_sound g id sequence zero index k none e = ground (arith, e)
check_loop_sound g id sequence zero index k (some i) e =
    inr (inl (ground (arith, e)), λ j a b. absurd (omega (arith, a, b)))
check_loop_sound g id sequence (suc left) index k empty e =
    elim (ℕ_discrete (g index).command_buffer_id id) [
      | yes same ↦ ground (arith, e, same)
      | no other ↦
          elim (check_loop_sound g id sequence left (index + 1) k
            (first_empty empty (g index) index) (ground (arith, e, other))) [
              | inl (a, b, c) ↦ inl (omega (arith, a), b, c)
              | inr (slot, absent) ↦ inr (
                slot_lem g index k left empty slot,
                λ j a b. elim (ℕ_discrete j index) [
                  | yes here ↦ rw here other
                  | no later ↦ absent j (omega (arith, a, later)) (omega (arith, b))
                ],
              )
            ]
    ]

pub generation_check_sound :
    (g : ℕ → Generation) (count id sequence k : ℕ)
    → generation_check g count id sequence ≡ ok k
    → (k < count) × ((g k).command_buffer_id ≡ id) × ((g k).last_sequence < sequence)
      ⊎ ((k < count) × ((g k).command_buffer_id ≡ 0))
        × ((j : ℕ) → j < count → (g j).command_buffer_id ≢ id)
unfolding generation_check
generation_check_sound g count id sequence k e =
    elim (check_loop_sound g id sequence count 0 k none (ground (arith, e))) [
      | inl held ↦ inl (ground (arith, held))
      | inr (slot, absent) ↦
          inr (ground (arith, slot), λ j l. absent j (omega arith) (omega (arith, l)))
    ]

-- A check that succeeds on a well-formed array makes the commit at its index succeed.
pub commit_after_check :
    (g : ℕ → Generation) (count id sequence k : ℕ)
    → IsWellFormed g count
    → generation_check g count id sequence ≡ ok k
    → generation_commit g count k id sequence
      ≡ ok (update g k (record { command_buffer_id = id; last_sequence = sequence }))
unfolding generation_check generation_commit
commit_after_check g count id sequence k w e =
    ground (arith, e, check_loop_sound g id sequence count 0 k none, w.blank k)

pub commit_after_check-IsWellFormed :
    (g : ℕ → Generation) (count id sequence k : ℕ)
    → IsWellFormed g count
    → generation_check g count id sequence ≡ ok k
    → id ≢ 0
    → IsWellFormed (update g k (record { command_buffer_id = id; last_sequence = sequence })) count
commit_after_check-IsWellFormed g count id sequence k w e nonzero = record {
  distinct = λ i j a b c d. elim (generation_check_sound g count id sequence k e) [
    | inl held ↦ ground (arith, a, b, c, d, held, w.distinct i j)
    | inr (slot, absent) ↦ ground (arith, a, b, c, d, slot, absent i a, absent j b, w.distinct i j)
  ];
  blank = λ i a b. ground (arith, a, b, nonzero, w.blank i);
}

pub reclaim-IsWellFormed :
    (g : ℕ → Generation) (count : ℕ) (is_live : ℕ → Bool)
    → IsWellFormed g count
    → IsWellFormed (reclaim g count is_live) count
unfolding reclaim
reclaim-IsWellFormed g count is_live w = record {
  distinct = λ i j a b c d. ground (arith, a, b, c, d, w.distinct i j);
  blank = λ i a b. ground (arith, a, b, w.blank i);
}

pub check_loop_held :
    (g : ℕ → Generation) (id sequence left index i : ℕ) (empty : Option ℕ)
    → ((j : ℕ) → j < index + left → (g j).command_buffer_id ≡ id → j ≡ i)
    → (g i).command_buffer_id ≡ id
    → index ≤ i
    → i < index + left
    → check_loop g id sequence left index empty
      ≡ (if leb sequence (g i).last_sequence then err estale else ok i)
unfolding check_loop
check_loop_held g id sequence zero index i empty only held a b = absurd (omega (arith, a, b))
check_loop_held g id sequence (suc left) index i empty only held a b = ground (
  arith,
  a,
  b,
  held,
  only index,
  check_loop_held g id sequence left (index + 1) i (first_empty empty (g index) index)
      (λ j l. only j (omega (arith, l))) held,
)
