-- ===== src/StreamGeneration/Apply.antt =====
-- What bvb_command_stream_generations_apply promises of the array.
use bionic_vulkan_bridge.Prelude.{
  ℕ, ◌<◌, ◌≡◌, ◌≢◌, Option, none, List, [], ◌∷◌, ok, err, estale, arith, Bool, false, not, leb,
  ◌==◌, ◌||◌, if◌then◌else◌, success, Result-cases, Bool-cases, inl, inr, refl, ◌⊎◌,
}
use bionic_vulkan_bridge.Handle.{handle_expect, object_command_buffer}
use bionic_vulkan_bridge.StreamGeneration.{
  Generation, GenerationUpdate, Shadow, apply_loop, generation_check, generations_apply,
}
use bionic_vulkan_bridge.StreamGeneration.Entries.{IsWellFormed, check_loop_held}
use bionic_vulkan_bridge.StreamGeneration.Monotone.{
  may_vanish, Keeps, apply_loop-IsWellFormed, apply_loop-Keeps,
}

abbrev started : (ℕ → Generation) → Shadow
started g = record { generations = g; attempted = false; reclaimed = 0 }

apply_done :
    (g : ℕ → Generation) (count : ℕ) (u : GenerationUpdate) (us : List GenerationUpdate)
    (is_live : Option (ℕ → Bool)) (fits allocated : Bool) (s : Shadow)
    → apply_loop (started g) count is_live (u ∷ us) ≡ ok s
    → ((generations_apply g count (u ∷ us) is_live fits allocated).0 ≡ g)
      ⊎ ((s : Shadow) × (apply_loop (started g) count is_live (u ∷ us) ≡ ok s)
          × ((generations_apply g count (u ∷ us) is_live fits allocated).0 ≡ s.generations))
unfolding generations_apply
apply_done g count u us is_live fits allocated s done = elim (Bool-cases (count == 0 || not fits)) [
  | inl bad ↦ inl (rw bad refl)
  | inr good ↦ elim (Bool-cases (not allocated)) [
    | inl lacking ↦ inl (rw (good, lacking) refl)
    | inr room ↦ inr (s, done, rw (good, room, done) refl)
  ]
]

-- Either the array is as before, or the loop over the updates has succeeded and its copy is the array.
apply_cases :
    (g : ℕ → Generation) (count : ℕ) (us : List GenerationUpdate) (is_live : Option (ℕ → Bool))
    (fits allocated : Bool)
    → ((generations_apply g count us is_live fits allocated).0 ≡ g)
      ⊎ ((s : Shadow) × (apply_loop (started g) count is_live us ≡ ok s)
          × ((generations_apply g count us is_live fits allocated).0 ≡ s.generations))
unfolding generations_apply
apply_cases g count [] is_live fits allocated = inl (ground arith)
apply_cases g count (u ∷ us) is_live fits allocated =
    elim (Result-cases (apply_loop (started g) count is_live (u ∷ us))) [
      | inl (s, done) ↦ apply_done g count u us is_live fits allocated s done
      | inr (x, failed) ↦ inl (ground (arith, failed))
    ]

-- An array in which each command buffer has one entry at most stays so, whatever is applied to it and
-- whether that succeeds or not.
pub generations_apply-IsWellFormed :
    (g : ℕ → Generation) (count : ℕ) (us : List GenerationUpdate) (is_live : Option (ℕ → Bool))
    (fits allocated : Bool)
    → IsWellFormed g count
    → IsWellFormed (generations_apply g count us is_live fits allocated).0 count
generations_apply-IsWellFormed g count us is_live fits allocated w =
    elim (apply_cases g count us is_live fits allocated) [
      | inl same ↦ rw same w
      | inr (s, done, same) ↦
          rw same (apply_loop-IsWellFormed (started g) s count is_live us w done)
    ]

-- On a well-formed array, the entry of a command buffer that the callback does not report dead keeps its
-- command buffer, and its sequence does not go back, whatever is applied and whether that succeeds or not.
pub generations_apply-Keeps :
    (g : ℕ → Generation) (count : ℕ) (us : List GenerationUpdate) (is_live : Option (ℕ → Bool))
    (fits allocated : Bool) (i : ℕ)
    → IsWellFormed g count
    → i < count
    → (g i).command_buffer_id ≢ 0
    → may_vanish is_live (g i) ≡ false
    → Keeps (g i) ((generations_apply g count us is_live fits allocated).0 i)
generations_apply-Keeps g count us is_live fits allocated i w l nonzero live =
    elim (apply_cases g count us is_live fits allocated) [
      | inl same ↦ rw same (refl, omega arith)
      | inr (s, done, same) ↦
          rw same (apply_loop-Keeps (started g) s count is_live us i w done l nonzero live)
    ]

-- On a well-formed array with an entry for a command buffer, the check of a nonzero sequence fails with
-- ESTALE up to the entry's sequence, and from there on finds the entry.
pub generation_check_held :
    (g : ℕ → Generation) (count id sequence i : ℕ)
    → IsWellFormed g count
    → handle_expect id object_command_buffer ≡ success
    → id ≢ 0
    → sequence ≢ 0
    → i < count
    → (g i).command_buffer_id ≡ id
    → generation_check g count id sequence
      ≡ (if leb sequence (g i).last_sequence then err estale else ok i)
unfolding generation_check
generation_check_held g count id sequence i w valid nonzero positive l held = ground (
  arith,
  valid,
  nonzero,
  positive,
  l,
  check_loop_held g id sequence count 0 i none
      (λ j a b.
        w.distinct j i (omega (arith, a)) l (ground (arith, b, held)) (ground (arith, b, nonzero)))
      held (omega arith) (omega (arith, l)),
)
