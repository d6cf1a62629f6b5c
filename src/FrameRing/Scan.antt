-- ===== src/FrameRing/Scan.antt =====
-- The loops over the slots: what they find, and that they miss nothing.
use bionic_vulkan_bridge.Prelude.{
  ℕ, zero, suc, ◌+◌, ◌%◌, ◌≤◌, ◌<◌, ◌≡◌, ◌≢◌, refl, arith, none, some, success, ℕ_discrete,
}
use bionic_vulkan_bridge.Prelude.Modular.{steps_to, steps_to_reach}
use bionic_vulkan_bridge.FrameRing.{
  Ring, available, presented, check_states, scan, find_available, find_from, find_presented,
}

pub check_states_sound :
    (states : ℕ → ℕ) (n k i : ℕ)
    → check_states states n k ≡ success
    → k ≤ i
    → i < k + n
    → states i ≤ presented
unfolding check_states
check_states_sound states zero k i e lo hi = absurd (omega arith)
check_states_sound states (suc n) k i e lo hi = elim (ℕ_discrete i k) [
  | yes here ↦ ground arith
  | no other ↦ ground (arith, check_states_sound states n (k + 1) i)
]

pub check_states_of_all :
    (states : ℕ → ℕ) (n k : ℕ)
    → ((i : ℕ) → k ≤ i → i < k + n → states i ≤ presented)
    → check_states states n k ≡ success
unfolding check_states
check_states_of_all states zero k h = refl
check_states_of_all states (suc n) k h =
    let rest = check_states_of_all states n (k + 1) (λ i lo hi. h i (omega arith) (omega arith)) in
    ground (arith, h k (omega arith) (omega arith), rest)

find_from_sound :
    (r : Ring) (expected n k i : ℕ)
    → find_from r expected n k ≡ some i
    → (r.slot_state i ≡ presented) × (r.slot_sequence i ≡ expected) × (i < k + n)
unfolding find_from
find_from_sound r expected zero k i e = absurd (cc)
find_from_sound r expected (suc n) k i e = ground (arith, find_from_sound r expected n (k + 1) i)

find_from_complete :
    (r : Ring) (expected n k i : ℕ)
    → r.slot_state i ≡ presented
    → r.slot_sequence i ≡ expected
    → k ≤ i
    → i < k + n
    → find_from r expected n k ≢ none
unfolding find_from
find_from_complete r expected zero k i st sq lo hi = absurd (omega arith)
find_from_complete r expected (suc n) k i st sq lo hi = elim (ℕ_discrete i k) [
  | yes here ↦ ground arith
  | no other ↦ ground (arith, find_from_complete r expected n (k + 1) i)
]

pub find_presented_sound :
    (r : Ring) (expected i : ℕ)
    → find_presented r expected ≡ some i
    → (r.slot_state i ≡ presented) × (r.slot_sequence i ≡ expected) × (i < r.slot_count)
unfolding find_presented
find_presented_sound r expected i e = ground (arith, find_from_sound r expected r.slot_count 0 i e)

pub find_presented_complete :
    (r : Ring) (expected i : ℕ)
    → r.slot_state i ≡ presented
    → r.slot_sequence i ≡ expected
    → i < r.slot_count
    → find_presented r expected ≢ none
unfolding find_presented
find_presented_complete r expected i st sq lt =
    find_from_complete r expected r.slot_count 0 i st sq (omega arith) (omega arith)

scan_sound :
    (states : ℕ → ℕ) (count start n o i : ℕ)
    → 0 < count
    → scan states count start n o ≡ some i
    → (states i ≡ available) × (i < count)
unfolding scan
scan_sound states count start zero o i pos e = absurd (cc)
scan_sound states count start (suc n) o i pos e =
    ground (arith, scan_sound states count start n (o + 1) i)

scan_complete :
    (states : ℕ → ℕ) (count start n o p : ℕ)
    → states ((start + p) % count) ≡ available
    → o ≤ p
    → p < o + n
    → scan states count start n o ≢ none
unfolding scan
scan_complete states count start zero o p free lo hi = absurd (omega arith)
scan_complete states count start (suc n) o p free lo hi = elim (ℕ_discrete p o) [
  | yes here ↦ ground arith
  | no other ↦ ground (arith, scan_complete states count start n (o + 1) p)
]

-- The scan returns an available slot of the ring.
pub find_available_sound :
    (r : Ring) (i : ℕ)
    → 0 < r.slot_count
    → find_available r ≡ some i
    → (r.slot_state i ≡ available) × (i < r.slot_count)
unfolding find_available
find_available_sound r i pos e =
    scan_sound r.slot_state r.slot_count (r.next_acquire % r.slot_count) r.slot_count 0 i pos e

-- If any slot is available the scan returns one, wherever it starts.
pub find_available_complete :
    (r : Ring) (i : ℕ) → i < r.slot_count → r.slot_state i ≡ available → find_available r ≢ none
unfolding find_available
find_available_complete r i lt free =
    let start = r.next_acquire % r.slot_count in
    let reach = steps_to_reach r.slot_count start i (omega arith) lt in
    scan_complete r.slot_state r.slot_count start r.slot_count 0 (steps_to r.slot_count start i)
      (rw reach free) (omega arith) (omega arith)
