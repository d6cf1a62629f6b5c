-- ===== src/FrameRing/Operations.antt =====
-- Every operation of either process keeps the ring live, whatever its arguments.
use bionic_vulkan_bridge.Prelude.{
  ℕ, ◌+◌, ◌-◌, ◌^◌, ◌<◌, ◌≡◌, ◌≢◌, ◌⊎◌, inl, inr, arith, some, Result, Status, success, ℕ_discrete,
  ℤ, pos, negsuc, Option-cases,
}
use bionic_vulkan_bridge.FrameRing.{
  Ring, header_is_bad, acquired, presented, claim, present, mark_presented, release, release_check,
  clear_sequence, mark_available, find_available, fail_producer, fail_consumer, acquire_pass,
}
use bionic_vulkan_bridge.FrameRing.Scan.{find_available_sound}
use bionic_vulkan_bridge.FrameRing.Invariant.{
  IsLive, validate-IsLive, claim-IsLive, slot_count_bounds,
}

mark_presented-IsLive :
    (r : Ring) (k : ℕ)
    → k < r.slot_count
    → r.slot_state k ≡ acquired
    → r.producer_sequence ≢ 2 ^ 32 - 1
    → IsLive r
    → IsLive (mark_presented r k)
unfolding mark_presented
mark_presented-IsLive r k lt held room v = record {
  header = unfold header_is_bad in ground (arith, v.header);
  states = λ i li. ground (arith, v.states i li);
  behind = omega (arith, v.behind);
  word = omega (arith, v.word);
  pending = λ i li st. ground (arith, v.pending i li, v.behind);
  idle = λ i li st. ground (arith, v.idle i li);
  unique = λ i j li lj st sq.
      ground (arith, v.unique i j li lj, v.pending i li, v.pending j lj, v.idle j lj);
  covered = λ s lo hi. elim (ℕ_discrete s (r.producer_sequence + 1)) [
    | yes newest ↦ (k, lt, ground arith, ground arith)
    | no older ↦
        let (i, li, st, sq) = v.covered s lo (omega arith) in (i, li, ground arith, ground arith)
  ];
}

mark_available-IsLive :
    (r : Ring) (k : ℕ)
    → k < r.slot_count
    → r.slot_state k ≡ presented
    → r.slot_sequence k ≡ r.consumer_sequence + 1
    → IsLive r
    → IsLive (mark_available (clear_sequence r k) k (r.consumer_sequence + 1))
unfolding mark_available clear_sequence
mark_available-IsLive r k lt held first v = record {
  header = unfold header_is_bad in ground (arith, v.header);
  states = λ i li. ground (arith, v.states i li);
  behind = omega (arith, v.pending k lt held);
  word = v.word;
  pending = λ i li st. ground (arith, v.pending i li, v.unique i k li lt);
  idle = λ i li st. ground (arith, v.idle i li);
  unique = λ i j li lj st sq. ground (arith, v.unique i j li lj, v.pending i li);
  covered = λ s lo hi.
      let (i, li, st, sq) = v.covered s (omega arith) hi in (i, li, ground arith, ground arith);
}

pub present-IsLive : (r : Ring) (k : ℕ) (wake : Status) → IsLive r → IsLive (present r k wake).0
unfolding present
present-IsLive r k wake v = ground (arith, mark_presented-IsLive r k, v)

-- A slot that carries a sequence other than 0 is presented.
carrying :
    (r : Ring) (k : ℕ)
    → IsLive r
    → k < r.slot_count
    → r.slot_sequence k ≢ 0
    → r.slot_state k ≡ presented
carrying r k v lt nonzero = elim (ℕ_discrete (r.slot_state k) presented) [
  | yes held ↦ held
  | no other ↦ absurd (nonzero (v.idle k lt other))
]

-- What the checks of release have established on a live ring.
pub release_check-facts :
    (r : Ring) (k sequence : ℕ)
    → IsLive r
    → release_check r k sequence ≡ success
    → (k < r.slot_count)
      × (r.slot_state k ≡ presented)
      × (r.slot_sequence k ≡ r.consumer_sequence + 1)
      × (sequence ≡ r.consumer_sequence + 1)
unfolding release_check
release_check-facts r k sequence v e = ground (arith, v.behind, v.word, carrying r k v)

pub release-IsLive :
    (r : Ring) (k sequence : ℕ) (wake : Status) → IsLive r → IsLive (release r k sequence wake).0
unfolding release
release-IsLive r k sequence wake v =
    ground (arith, release_check-facts r k sequence v, mark_available-IsLive r k)

pub acquire_pass-IsLive :
    (r r' : Ring) (timeout : ℕ) (result : Result ℕ)
    → IsLive r
    → acquire_pass r timeout ≡ some (r', result)
    → IsLive r'
unfolding acquire_pass
acquire_pass-IsLive r r' timeout result v e = elim (Option-cases (find_available r)) [
  | inl nothing ↦ let same : r ≡ r' = ground (arith, nothing) in rw (← same) v
  | inr (i, found) ↦
      let (free, lt) = find_available_sound r i (omega (arith, slot_count_bounds r v)) found in
      let either : (r ≡ r') ⊎ (claim r i ≡ r') = ground (arith, found) in
      elim either [ inl same ↦ rw (← same) v | inr same ↦ rw (← same) (claim-IsLive r i lt free v) ]
]

pub fail_producer-IsLive :
    (r : Ring) (status : ℤ) (first second : Status)
    → IsLive r
    → IsLive (fail_producer r status first second).0
unfolding fail_producer header_is_bad
fail_producer-IsLive r (pos n) first second v =
    let same : (fail_producer r (pos n) first second).0 ≡ r = ground (arith, validate-IsLive r v) in
    rw same v
fail_producer-IsLive r (negsuc n) first second v =
    rw (validate-IsLive r v, fail_producer)
      (record {
        header = v.header;
        states = v.states;
        behind = v.behind;
        word = v.word;
        pending = v.pending;
        idle = v.idle;
        unique = v.unique;
        covered = v.covered;
      })

pub fail_consumer-IsLive :
    (r : Ring) (status : ℤ) (first second : Status)
    → IsLive r
    → IsLive (fail_consumer r status first second).0
unfolding fail_consumer header_is_bad
fail_consumer-IsLive r (pos n) first second v =
    let same : (fail_consumer r (pos n) first second).0 ≡ r = ground (arith, validate-IsLive r v) in
    rw same v
fail_consumer-IsLive r (negsuc n) first second v =
    rw (validate-IsLive r v, fail_consumer)
      (record {
        header = v.header;
        states = v.states;
        behind = v.behind;
        word = v.word;
        pending = v.pending;
        idle = v.idle;
        unique = v.unique;
        covered = v.covered;
      })
