-- ===== src/StreamGeneration.antt =====
-- Replay protection of command streams: bvb_command_stream_generation_check, _commit and
-- bvb_command_stream_generations_apply of src/command_batch.c. The array of generations is the family of
-- its entries; `is_live` is the caller's callback, none where it is null.
pub mod Entries
pub mod Monotone
pub mod Apply
mod Tests
use bionic_vulkan_bridge.Prelude.{
  ℕ, zero, suc, ◌+◌, Bool, true, false, not, ◌&&◌, ◌||◌, ltb, leb, ◌==◌, ◌!=◌, if◌then◌else◌,
  Option, none, some, List, [], ◌∷◌, Result, Status, ok, err, einval, enospc, estale, enomem, ◌>>◌,
  ◌>>=◌, fail_if, update, count_below, Error,
}
use bionic_vulkan_bridge.Handle.{handle_expect, object_command_buffer}

pub record Generation : Type 0 where
  pub command_buffer_id : ℕ
  pub last_sequence : ℕ

-- An update of the batch that is applied.
pub record GenerationUpdate : Type 0 where
  pub command_buffer_id : ℕ
  pub sequence : ℕ

abbrev pub no_generation : Generation
no_generation = record { command_buffer_id = 0; last_sequence = 0 }

-- `if (empty == SIZE_MAX && generations[index].command_buffer_id == 0U) empty = index;`
abbrev pub first_empty : Option ℕ → Generation → ℕ → Option ℕ
first_empty (some i) g index = some i
first_empty none g index = if g.command_buffer_id == 0 then some index else none

-- The loop of the check, with the number of entries left and the next entry.
pub check_loop : (ℕ → Generation) → ℕ → ℕ → ℕ → ℕ → Option ℕ → Result ℕ
check_loop generations id sequence zero index empty = elim empty [
  | none ↦ err enospc
  | some i ↦ ok i
]
check_loop generations id sequence (suc left) index empty =
    let g = generations index in
    let rest = check_loop generations id sequence left (index + 1) (first_empty empty g index) in
    if g.command_buffer_id == id
    then (if leb sequence g.last_sequence then err estale else ok index)
    else rest

pub generation_check : (ℕ → Generation) → ℕ → ℕ → ℕ → Result ℕ
generation_check generations count id sequence = do
  fail_if (count == 0 || sequence == 0) einval
  handle_expect id object_command_buffer
  check_loop generations id sequence count 0 none

pub generation_commit : (ℕ → Generation) → ℕ → ℕ → ℕ → ℕ → Result (ℕ → Generation)
generation_commit generations count index id sequence = do
  fail_if (leb count index || sequence == 0) einval
  handle_expect id object_command_buffer
  fail_if
      ((generations index).command_buffer_id != 0 && (generations index).command_buffer_id != id
        || leb sequence (generations index).last_sequence)
      einval
  ok (update generations index (record { command_buffer_id = id; last_sequence = sequence }))

abbrev pub is_dead : (ℕ → Bool) → Generation → Bool
is_dead is_live g = g.command_buffer_id != 0 && not (is_live g.command_buffer_id)

-- The entries whose command buffers are no longer live are emptied.
pub reclaim : (ℕ → Generation) → ℕ → (ℕ → Bool) → ℕ → Generation
reclaim generations count is_live i =
    if ltb i count && is_dead is_live (generations i) then no_generation else generations i

-- The locals of apply: the copy of the array, whether reclamation was tried, and how many it freed.
pub record Shadow : Type 0 where
  pub generations : ℕ → Generation
  pub attempted : Bool
  pub reclaimed : ℕ

pub reclaimed_shadow : Shadow → ℕ → (ℕ → Bool) → Shadow
reclaimed_shadow s count is_live = record {
  generations = reclaim s.generations count is_live;
  attempted = true;
  reclaimed = s.reclaimed + count_below (is_dead is_live) count s.generations;
}

-- `result == -ENOSPC`
abbrev pub is_full : Result ℕ → Bool
is_full (err enospc) = true
is_full _ = false

-- The copy at the last check of an update: reclamation is tried once, where there is no room. The check
-- does not write, so one that is not repeated answers the same.
pub prepared : Shadow → ℕ → Option (ℕ → Bool) → GenerationUpdate → Shadow
unfolding reclaimed_shadow
prepared s count none u = s
prepared s count (some is_live) u =
    if is_full (generation_check s.generations count u.command_buffer_id u.sequence)
      && not s.attempted
    then reclaimed_shadow s count is_live
    else s

-- One update: its checks, and the commit at the index found.
pub apply_update : Shadow → ℕ → Option (ℕ → Bool) → GenerationUpdate → Result Shadow
unfolding prepared
apply_update s count is_live u =
    let s = prepared s count is_live u in
    do
      index ← generation_check s.generations count u.command_buffer_id u.sequence
      generations ← generation_commit s.generations count index u.command_buffer_id u.sequence
      ok (record s { generations = generations })

pub apply_loop : Shadow → ℕ → Option (ℕ → Bool) → List GenerationUpdate → Result Shadow
apply_loop s count is_live [] = ok s
apply_loop s count is_live (u ∷ us) =
    apply_update s count is_live u >>= λ s'. apply_loop s' count is_live us

-- The array afterwards, and the status with the number of entries reclaimed. `allocated` says whether
-- malloc gives room for the copy; `fits` whether the size of the array is representable.
pub generations_apply :
    (ℕ → Generation)
    → ℕ
    → List GenerationUpdate
    → Option (ℕ → Bool)
    → Bool
    → Bool
    → (ℕ → Generation) × Result ℕ
unfolding apply_loop
generations_apply generations count [] is_live fits allocated =
    if count == 0 || not fits then (generations, err einval) else (generations, ok 0)
generations_apply generations count (u ∷ us) is_live fits allocated =
    if count == 0 || not fits
    then (generations, err einval)
    else if not allocated
    then (generations, err enomem)
    else elim (apply_loop (record { generations = generations; attempted = false; reclaimed = 0 })
        count is_live (u ∷ us)) [
          | err e ↦ (generations, err e)
          | ok s ↦ (s.generations, ok s.reclaimed)
        ]
