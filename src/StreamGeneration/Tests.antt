-- ===== src/StreamGeneration/Tests.antt =====
-- An array of two generations, and the theorems at concrete inputs.
use bionic_vulkan_bridge.Prelude.{
  ℕ, ◌+◌, ◌*◌, ◌^◌, ◌≡◌, none, [], ◌∷◌, ok, refl, arith, true, if◌then◌else◌, ◌==◌, success, update,
}
use bionic_vulkan_bridge.Handle.{
  handle_expect, handle_type, handle_serial, object_type_is_valid, object_command_buffer,
}
use bionic_vulkan_bridge.StreamGeneration.{
  Generation, GenerationUpdate, no_generation, check_loop, generation_check, generation_commit,
  generations_apply,
}
use bionic_vulkan_bridge.StreamGeneration.Entries.{IsWellFormed, commit_after_check}
use bionic_vulkan_bridge.StreamGeneration.Monotone.{Keeps}
use bionic_vulkan_bridge.StreamGeneration.Apply.{
  generations_apply-IsWellFormed, generations_apply-Keeps,
}

-- Two command buffers: serials 1 and 2.
abbrev first_buffer : ℕ
first_buffer = 11 * 2 ^ 56 + 1

abbrev second_buffer : ℕ
second_buffer = 11 * 2 ^ 56 + 2

abbrev one_entry : ℕ → Generation
one_entry i =
    if i == 0 then record { command_buffer_id = first_buffer; last_sequence = 5 } else no_generation

abbrev newer_first : GenerationUpdate
newer_first = record { command_buffer_id = first_buffer; sequence = 7 }

abbrev new_second : GenerationUpdate
new_second = record { command_buffer_id = second_buffer; sequence = 1 }

one_entry-IsWellFormed : IsWellFormed one_entry 2
one_entry-IsWellFormed = record {
  distinct = λ i j a b c d. ground (arith, a, b, c, d);
  blank = λ i a b. ground (arith, a, b);
}

generations_apply-IsWellFormed_example :
    IsWellFormed (generations_apply one_entry 2 (new_second ∷ newer_first ∷ []) none true true).0 2
generations_apply-IsWellFormed_example =
    generations_apply-IsWellFormed one_entry 2 (new_second ∷ newer_first ∷ []) none true true
      one_entry-IsWellFormed

generations_apply-Keeps_example :
    Keeps
      (one_entry 0)
      ((generations_apply one_entry 2 (new_second ∷ newer_first ∷ []) none true true).0 0)
generations_apply-Keeps_example =
    generations_apply-Keeps one_entry 2 (new_second ∷ newer_first ∷ []) none true true 0
      one_entry-IsWellFormed (omega arith) (omega arith) refl

first_buffer_accepted : handle_expect first_buffer object_command_buffer ≡ success
unfolding handle_expect handle_type handle_serial object_type_is_valid
first_buffer_accepted = refl

first_found : generation_check one_entry 2 first_buffer 6 ≡ ok 0
unfolding generation_check check_loop handle_expect handle_type handle_serial object_type_is_valid
first_found = refl

commit_after_check_example :
    generation_commit one_entry 2 0 first_buffer 6
    ≡ ok (update one_entry 0 (record { command_buffer_id = first_buffer; last_sequence = 6 }))
commit_after_check_example =
    commit_after_check one_entry 2 first_buffer 6 0 one_entry-IsWellFormed first_found
