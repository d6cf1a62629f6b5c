-- ===== src/FrameRing/Delivery.antt =====
-- Frames reach the consumer in order and one by one, and free slots come back to the producer.
use bionic_vulkan_bridge.Prelude.{
  ℕ, ◌+◌, ◌*◌, ◌≤◌, ◌<◌, ◌≡◌, ◌≢◌, ◌⊎◌, refl, ap, inl, inr, arith, Bool, true, false, ◌||◌, Option,
  none, some, Result, Status, ok, err, success, eproto, Error, Option-cases, Result-cases, List, [],
  ◌∷◌, leb,
}
use native.Mathlib.Decide.{dec_le}
use bionic_vulkan_bridge.Futex.{Clock, futex_wait_until, deadline_from_timeout, wait_status}
use bionic_vulkan_bridge.FrameRing.{
  Ring, Round, available, presented, release, release_check, clear_sequence, mark_available,
  find_presented, peer_failure, wait_rounds, wait_present,
}
use bionic_vulkan_bridge.FrameRing.Scan.{find_presented_sound, find_presented_complete}
use bionic_vulkan_bridge.FrameRing.Invariant.{IsLive, validate-IsLive}
use bionic_vulkan_bridge.FrameRing.Operations.{release_check-facts}

-- The slot holds the frame of this sequence.
abbrev pub HoldsFrame : Ring → ℕ → ℕ → Type 0
HoldsFrame r slot sequence =
    (slot < r.slot_count) × (r.slot_state slot ≡ presented) × (r.slot_sequence slot ≡ sequence)

-- On a live ring with a frame that is not yet released, the scan for the next sequence finds a slot.
next_found :
    (r : Ring)
    → IsLive r
    → r.consumer_sequence < r.producer_sequence
    → (k : ℕ) × (find_presented r (r.consumer_sequence + 1) ≡ some k)
      × (k < r.slot_count)
      × (r.slot_state k ≡ presented)
      × (r.slot_sequence k ≡ r.consumer_sequence + 1)
next_found r v more =
    let (i, li, st, sq) = v.covered (r.consumer_sequence + 1) (omega arith) (omega arith) in
    elim (Option-cases (find_presented r (r.consumer_sequence + 1))) [
      | inl missed ↦ absurd (find_presented_complete r (r.consumer_sequence + 1) i st sq li missed)
      | inr (k, found) ↦
          let (held, carries, lt) = find_presented_sound r (r.consumer_sequence + 1) k found in
          (k, found, lt, held, carries)
    ]

-- On a live ring whose peers are well, if more frames were presented than released, the next one in
-- order is found in some slot, and its release succeeds: it frees the slot, counts the frame as
-- consumed, and returns what the wake returned.
pub next_frame_delivered :
    (r : Ring) (wake : Status)
    → IsLive r
    → peer_failure r ≡ success
    → r.consumer_sequence < r.producer_sequence
    → (k : ℕ) × (find_presented r (r.consumer_sequence + 1) ≡ some k)
      × (release r k (r.consumer_sequence + 1) wake
          ≡ (mark_available (clear_sequence r k) k (r.consumer_sequence + 1), wake))
next_frame_delivered r wake v healthy more =
    let (k, found, lt, held, carries) = next_found r v more in
    (k, found, unfold release release_check in ground (arith, validate-IsLive r v, v.word))

-- The slot is available and carries no sequence, the frame counts as consumed, and the other slots and the
-- producer's word are as they were.
abbrev pub IsFreed : Ring → ℕ → ℕ → Ring → Type 0
IsFreed r slot sequence after =
    (after.slot_state slot ≡ available)
    × (after.slot_sequence slot ≡ 0)
    × (after.consumer_sequence ≡ sequence)
    × (after.producer_sequence ≡ r.producer_sequence)
    × ((i : ℕ)
        → i ≢ slot
        → (after.slot_state i ≡ r.slot_state i) × (after.slot_sequence i ≡ r.slot_sequence i))

freed_lem :
    (r : Ring) (k sequence : ℕ)
    → IsFreed r k sequence (mark_available (clear_sequence r k) k sequence)
unfolding mark_available clear_sequence
freed_lem r k sequence =
    (ground arith, ground arith, refl, refl, λ i other. (ground arith, ground arith))

-- On a live ring release does the whole of its work or none of it: either it leaves the ring as it is
-- and fails, or the slot holds the frame after the last that was released, and release frees the slot and
-- nothing else, counts the frame as consumed and returns what the wake returned.
pub release_whole :
    (r : Ring) (k sequence : ℕ) (wake : Status)
    → IsLive r
    → ((e : Error) × (release r k sequence wake ≡ (r, err e)))
      ⊎ (HoldsFrame r k sequence
          × (sequence ≡ r.consumer_sequence + 1)
          × IsFreed r k sequence ((release r k sequence wake).0)
          × ((release r k sequence wake).1 ≡ wake))
release_whole r k sequence wake v = elim (Result-cases (release_check r k sequence)) [
  | inr (e, refused) ↦ inl (e, unfold release in ground (arith, refused))
  | inl (_, passed) ↦
      let (lt, held, carries, next) = release_check-facts r k sequence v passed in
      let whole : release r k sequence wake
          ≡ (mark_available (clear_sequence r k) k sequence, wake) =
        unfold release in ground (arith, passed, held) in
      inr (
        (lt, held, omega (arith, carries, next)),
        next,
        rw whole (freed_lem r k sequence),
        ap (λ p. p.1) whole,
      )
]

-- The consumer has released `n` frames and no more, in both pages that a round reads, and EPROTO comes
-- neither from a status that a peer has published nor from the futex call.
abbrev pub Follows : ℕ → List Round → Type 0
Follows n [] = Unit
Follows n (w ∷ ws) =
    (IsLive w.seen × (w.seen.consumer_sequence ≡ n) × (peer_failure w.seen ≢ err eproto))
    × (IsLive w.later × (w.later.consumer_sequence ≡ n) × (wait_status w.result ≢ err eproto))
    × Follows n ws

-- One of the pages that the rounds read holds the frame in the slot.
abbrev pub IsShownIn : List Round → ℕ → ℕ → Type 0
IsShownIn [] slot sequence = ⊥
IsShownIn (w ∷ ws) slot sequence =
    HoldsFrame w.seen slot sequence
    ⊎ (HoldsFrame w.later slot sequence ⊎ IsShownIn ws slot sequence)

-- If the wait is over, it gives this frame in a slot that holds it, or an error other than EPROTO.
abbrev pub YieldsOnly : ℕ → List Round → Option (Result (ℕ × ℕ)) → Type 0
YieldsOnly n ws none = Unit
YieldsOnly n ws (some (ok (slot, s))) = (s ≡ n) × IsShownIn ws slot n
YieldsOnly n ws (some (err e)) = e ≢ eproto

-- The same in two facts, for the induction.
abbrev Yields : ℕ → List Round → Option (Result (ℕ × ℕ)) → Type 0
Yields n ws r =
    ((slot s : ℕ) → r ≡ some (ok (slot, s)) → (s ≡ n) × IsShownIn ws slot n)
    × (r ≢ some (err eproto))

Yields-YieldsOnly :
    (n : ℕ) (ws : List Round) (r : Option (Result (ℕ × ℕ))) → Yields n ws r → YieldsOnly n ws r
Yields-YieldsOnly n ws none y = tt
Yields-YieldsOnly n ws (some (ok (slot, s))) y = y.0 slot s refl
Yields-YieldsOnly n ws (some (err e)) y = λ same. y.1 (ap (λ e. some (err e)) same)

-- A live page that counts the frame as produced shows it to the second scan.
shown :
    (r : Ring) (n : ℕ)
    → IsLive r
    → r.consumer_sequence ≡ n
    → n + 1 ≤ r.producer_sequence
    → find_presented r (n + 1) ≢ none
shown r n v level more missed =
    let (k, found, lt, held, carries) = next_found r v (omega arith) in
    ground (arith, found, missed)

found_lem : (r : Ring) (n k : ℕ) → find_presented r n ≡ some k → HoldsFrame r k n
found_lem r n k found =
    let (held, carries, lt) = find_presented_sound r n k found in (lt, held, carries)

-- A frame that the rounds give was found in a page of the first round, or comes from the others.
round_found :
    (n deadline slot s : ℕ) (w : Round) (ws : List Round)
    → wait_rounds n deadline (w ∷ ws) ≡ some (ok (slot, s))
    → ((s ≡ n) × ((find_presented w.seen n ≡ some slot) ⊎ (find_presented w.later n ≡ some slot)))
      ⊎ (wait_rounds n deadline ws ≡ some (ok (slot, s)))
unfolding wait_rounds futex_wait_until peer_failure
round_found n deadline slot s w ws e = elim (Option-cases (find_presented w.seen n)) [
  | inr (k, found) ↦ inl (ground (arith, e, found), inl (ground (arith, e, found)))
  | inl missed ↦ elim (dec_le n w.later.producer_sequence) [
    | yes counted ↦
        inl (ground (arith, e, missed, counted), inr (ground (arith, e, missed, counted)))
    | no ahead ↦ inr (ground (arith, e, missed, ahead))
  ]
]

wait_rounds-Yields :
    (n deadline : ℕ) (ws : List Round)
    → Follows n ws
    → Yields (n + 1) ws (wait_rounds (n + 1) deadline ws)
unfolding wait_rounds futex_wait_until
wait_rounds-Yields n deadline [] f = (λ slot s e. absurd (cc), λ e. absurd (cc))
wait_rounds-Yields n deadline (w ∷ ws) (early, late, f) =
    let rest = wait_rounds-Yields n deadline ws f in
    let second = shown w.later n late.0 late.1 in
    (
      λ slot s e. elim (round_found (n + 1) deadline slot s w ws e) [
        | inl (same, inl found) ↦ (same, inl (found_lem w.seen (n + 1) slot found))
        | inl (same, inr found) ↦ (same, inr (inl (found_lem w.later (n + 1) slot found)))
        | inr others ↦ let (same, held) = rest.0 slot s others in (same, inr (inr held))
      ],
      ground (arith, rest.1, second, early.2, late.2),
    )

-- The consumer that has released n frames and waits for the next gets frame n + 1 if its wait
-- succeeds, in a slot that holds it in a page that the wait has read. It gets no protocol error of its
-- own scans: if no peer has published EPROTO and no futex call failed with it, it does not get EPROTO.
-- The producer may do anything between the scans and the waits, and the consumer releases nothing.
pub wait_present-Yields :
    (r : Ring) (n timeout : ℕ) (started : Clock) (ws : List Round)
    → IsLive r
    → Follows n ws
    → YieldsOnly (n + 1) ws (wait_present r n timeout started ws)
unfolding wait_present deadline_from_timeout
wait_present-Yields r n timeout none ws v f =
    Yields-YieldsOnly (n + 1) ws (wait_present r n timeout none ws) (
      λ slot s e. absurd (ground (arith, validate-IsLive r v, e)),
      ground (arith, validate-IsLive r v),
    )
wait_present-Yields r n timeout (some now) ws v f =
    let loop = wait_rounds-Yields n (now + timeout * 1000000) ws f in
    Yields-YieldsOnly (n + 1) ws (wait_present r n timeout (some now) ws) (
      λ slot s e. loop.0 slot s (ground (arith, validate-IsLive r v, e)),
      ground (arith, validate-IsLive r v, loop.1),
    )

-- In some listed round the frame counts as produced, or the clock fails or has reached the deadline.
unfoldable pub any_decides : ℕ → ℕ → List Round → Bool
any_decides expected deadline [] = false
any_decides expected deadline (w ∷ ws) =
    leb expected w.later.producer_sequence
    || (elim w.now [ none ↦ true | some now ↦ leb deadline now ])
    || any_decides expected deadline ws

wait_rounds-ends :
    (expected deadline : ℕ) (ws : List Round)
    → any_decides expected deadline ws ≡ true
    → wait_rounds expected deadline ws ≢ none
unfolding any_decides wait_rounds futex_wait_until
wait_rounds-ends expected deadline [] h = absurd (cc)
wait_rounds-ends expected deadline (w ∷ ws) h =
    ground (arith, wait_rounds-ends expected deadline ws)

-- The wait returns once the frame counts as produced, the clock fails or the deadline is reached.
pub wait_present-ends :
    (r : Ring) (n timeout now : ℕ) (ws : List Round)
    → any_decides (n + 1) (now + timeout * 1000000) ws ≡ true
    → wait_present r n timeout (some now) ws ≢ none
unfolding wait_present deadline_from_timeout
wait_present-ends r n timeout now ws h =
    ground (arith, wait_rounds-ends (n + 1) (now + timeout * 1000000) ws h)
