-- ===== src/FrameRing/Invariant.antt =====
-- What holds of the ring between any two calls: the slots that wait for the consumer carry exactly the
-- sequences that were presented and not released, each once.
use bionic_vulkan_bridge.Prelude.{ℕ, ◌^◌, ◌≤◌, ◌<◌, ◌≡◌, ◌≢◌, refl, arith, false, ok, success}
use bionic_vulkan_bridge.FrameRing.{
  Ring, fresh, initialize, header_is_bad, validate, available, presented, claim, max_slots,
}
use bionic_vulkan_bridge.FrameRing.Scan.{check_states_of_all}

pub record IsLive (r : Ring) : Type 0 where
  pub header : header_is_bad r 0 ≡ false
  pub states : (i : ℕ) → i < r.slot_count → r.slot_state i ≤ presented
  pub behind : r.consumer_sequence ≤ r.producer_sequence
  pub word : r.producer_sequence < 2 ^ 32
  pub pending :
      (i : ℕ)
      → i < r.slot_count
      → r.slot_state i ≡ presented
      → (r.consumer_sequence < r.slot_sequence i) × (r.slot_sequence i ≤ r.producer_sequence)
  pub idle : (i : ℕ) → i < r.slot_count → r.slot_state i ≢ presented → r.slot_sequence i ≡ 0
  pub unique :
      (i j : ℕ)
      → i < r.slot_count
      → j < r.slot_count
      → r.slot_state i ≡ presented
      → r.slot_sequence i ≡ r.slot_sequence j
      → i ≡ j
  pub covered :
      (s : ℕ)
      → r.consumer_sequence < s
      → s ≤ r.producer_sequence
      → (i : ℕ) × (i < r.slot_count) × (r.slot_state i ≡ presented) × (r.slot_sequence i ≡ s)

pub validate-IsLive : (r : Ring) → IsLive r → validate r 0 ≡ success
unfolding validate
validate-IsLive r v = ground (
  arith,
  v.header,
  check_states_of_all r.slot_state r.slot_count 0 (λ i lo hi. v.states i (omega arith)),
)

pub slot_count_bounds : (r : Ring) → IsLive r → (2 ≤ r.slot_count) × (r.slot_count ≤ max_slots)
unfolding header_is_bad
slot_count_bounds r v = ground (arith, v.header)

fresh-IsLive :
    (slot_count generation : ℕ)
    → header_is_bad (fresh slot_count generation) 0 ≡ false
    → IsLive (fresh slot_count generation)
fresh-IsLive slot_count generation h = record {
  header = h;
  states = λ i lt. omega arith;
  behind = omega arith;
  word = omega arith;
  pending = λ i lt st. absurd (omega arith);
  idle = λ i lt st. refl;
  unique = λ i j li lj st sq. absurd (omega arith);
  covered = λ s lo hi. absurd (omega arith);
}

-- What initialize accepts is live, and nothing is presented.
pub initialize-IsLive :
    (address length slot_count generation : ℕ) (r : Ring)
    → initialize address length slot_count generation ≡ ok r
    → IsLive r × (r.slot_count ≡ slot_count) × (r.producer_sequence ≡ 0)
unfolding initialize
initialize-IsLive address length slot_count generation r e =
    let same : fresh slot_count generation ≡ r = ground arith in
    let good : header_is_bad (fresh slot_count generation) 0 ≡ false =
      unfold header_is_bad in ground arith in
    rw (← same) (fresh-IsLive slot_count generation good, refl, refl)

-- An available slot that is claimed.
pub claim-IsLive :
    (r : Ring) (k : ℕ)
    → k < r.slot_count
    → r.slot_state k ≡ available
    → IsLive r
    → IsLive (claim r k)
unfolding claim
claim-IsLive r k lt free v = record {
  header = unfold header_is_bad in ground (arith, v.header);
  states = λ i li. ground (arith, v.states i li);
  behind = v.behind;
  word = v.word;
  pending = λ i li st. ground (arith, v.pending i li);
  idle = λ i li st. ground (arith, v.idle i li, v.idle k lt);
  unique = λ i j li lj st sq. ground (arith, v.unique i j li lj);
  covered = λ s lo hi. let (i, li, st, sq) = v.covered s lo hi in (i, li, ground arith, sq);
}
