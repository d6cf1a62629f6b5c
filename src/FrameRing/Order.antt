-- ===== src/FrameRing/Order.antt =====
-- Runs of the ring: whatever the two processes call, the ring stays live, and frames are presented and
-- released in one and the same order.
use bionic_vulkan_bridge.Prelude.{
  ℕ, zero, suc, ◌+◌, ◌≡◌, refl, arith, Option, none, some, Status, ok, err, List, [], ◌∷◌, ℤ,
  length, Option-cases, inl, inr, ◌==◌, ◌!=◌, ◌&&◌, if◌then◌else◌, Result, ◌>>◌,
}
use bionic_vulkan_bridge.FrameRing.{
  Ring, acquire_pass, present, release, fail_producer, fail_consumer, presented, available, claim,
}
use bionic_vulkan_bridge.FrameRing.Invariant.{IsLive}
use bionic_vulkan_bridge.FrameRing.Operations.{
  present-IsLive, release-IsLive, acquire_pass-IsLive, fail_producer-IsLive, fail_consumer-IsLive,
  release_check-facts,
}

-- A call on the ring by either process, with the answers of its futex wakes; `acquires` is a poll.
pub data Call : Type 0 where
  acquires : Call
  presents : ℕ → Status → Call
  releases : ℕ → ℕ → Status → Call
  producer_fails consumer_fails : ℤ → Status → Status → Call

unfoldable pub step : Ring → Call → Ring
step r acquires = elim (acquire_pass r 0) [ none ↦ r | some (r', result) ↦ r' ]
step r (presents slot wake) = (present r slot wake).0
step r (releases slot sequence wake) = (release r slot sequence wake).0
step r (producer_fails status first second) = (fail_producer r status first second).0
step r (consumer_fails status first second) = (fail_consumer r status first second).0

unfoldable pub run : Ring → List Call → Ring
run r [] = r
run r (call ∷ calls) = run (step r call) calls

step-IsLive : (r : Ring) (call : Call) → IsLive r → IsLive (step r call)
unfolding step
step-IsLive r acquires v = elim (Option-cases (acquire_pass r 0)) [
  | inl nothing ↦ rw (nothing, step) v
  | inr ((r', result), e) ↦ rw (e, step) (acquire_pass-IsLive r r' 0 result v e)
]
step-IsLive r (presents slot wake) v = present-IsLive r slot wake v
step-IsLive r (releases slot sequence wake) v = release-IsLive r slot sequence wake v
step-IsLive r (producer_fails status first second) v = fail_producer-IsLive r status first second v
step-IsLive r (consumer_fails status first second) v = fail_consumer-IsLive r status first second v

-- Whatever the two processes call, with whatever arguments and in whatever order, a live ring stays
-- live.
pub run-IsLive : (r : Ring) (calls : List Call) → IsLive r → IsLive (run r calls)
unfolding run
run-IsLive r [] v = v
run-IsLive r (call ∷ calls) v = run-IsLive (step r call) calls (step-IsLive r call v)

-- The sequence of the frame that a call presents: its slot was not presented before the call and is
-- afterwards. And the sequence of the frame that a call releases: its slot was presented before the call
-- and is available afterwards.
unfoldable pub presents_now : Ring → Call → Option ℕ
presents_now r (presents slot wake) =
    let after = (present r slot wake).0 in
    if r.slot_state slot != presented && after.slot_state slot == presented
    then some (after.slot_sequence slot)
    else none
presents_now r _ = none

unfoldable pub releases_now : Ring → Call → Option ℕ
releases_now r (releases slot sequence wake) =
    let after = (release r slot sequence wake).0 in
    if r.slot_state slot == presented && after.slot_state slot == available
    then some (r.slot_sequence slot)
    else none
releases_now r _ = none

-- A result that is no error goes with this sequence.
abbrev pub GoesWith : Result ℕ → Option ℕ → Type 0
GoesWith (ok n) now = now ≡ some n
GoesWith (err e) now = Unit

-- A present that does not fail returns the sequence of the frame that it presents, and a release that
-- does not fail releases the frame of the sequence that it was given.
abbrev pub ReturnsFrame : Ring → Call → Type 0
ReturnsFrame r (presents slot wake) =
    GoesWith (present r slot wake).1 (presents_now r (presents slot wake))
ReturnsFrame r (releases slot sequence wake) =
    GoesWith ((release r slot sequence wake).1 >> ok sequence)
      (releases_now r (releases slot sequence wake))
ReturnsFrame r _ = Unit

-- The same of all the calls of a run.
abbrev pub ReturnFrames : Ring → List Call → Type 0
ReturnFrames r [] = Unit
ReturnFrames r (call ∷ calls) = ReturnsFrame r call × ReturnFrames (step r call) calls

abbrev pub prepend : Option ℕ → List ℕ → List ℕ
prepend none ns = ns
prepend (some n) ns = n ∷ ns

-- What the calls of a run present or release, in order.
module _ (now : Ring → Call → Option ℕ) where
  unfoldable pub record_of : Ring → List Call → List ℕ
  record_of r [] = []
  record_of r (call ∷ calls) = prepend (now r call) (record_of (step r call) calls)

-- The specification: consecutive numbers from `n`.
unfoldable pub consecutive : ℕ → ℕ → List ℕ
consecutive n zero = []
consecutive n (suc k) = n ∷ consecutive (n + 1) k

abbrev advanced : ℕ → Option ℕ → ℕ
advanced n none = n
advanced n (some _) = n + 1

abbrev IsNext : ℕ → Option ℕ → Type 0
IsNext n none = Unit
IsNext n (some m) = m ≡ n + 1

prepend_next :
    (n m : ℕ) (o : Option ℕ) (ns : List ℕ)
    → IsNext n o
    → m ≡ advanced n o
    → ns ≡ consecutive (m + 1) (length ns)
    → prepend o ns ≡ consecutive (n + 1) (length (prepend o ns))
unfolding consecutive
prepend_next n m none ns first later e = rw later at e
prepend_next n m (some k) ns first later e =
    let rest : ns ≡ consecutive (n + 1 + 1) (length ns) = rw later at e in cc

module _ (now : Ring → Call → Option ℕ) (word : Ring → ℕ)
    (moves : (r : Ring) (call : Call)
      → IsLive r
      → IsNext (word r) (now r call) × (word (step r call) ≡ advanced (word r) (now r call))) where
  record_of-consecutive :
      (r : Ring) (calls : List Call)
      → IsLive r
      → record_of now r calls ≡ consecutive (word r + 1) (length (record_of now r calls))
  unfolding record_of
  record_of-consecutive r [] v = unfold consecutive in refl
  record_of-consecutive r (call ∷ calls) v =
      let (first, later) = moves r call v in
      prepend_next (word r) (word (step r call)) (now r call) (record_of now (step r call) calls)
        first later (record_of-consecutive (step r call) calls (step-IsLive r call v))

presents_move :
    (r : Ring) (call : Call)
    → IsLive r
    → IsNext r.producer_sequence (presents_now r call)
      × ((step r call).producer_sequence ≡ advanced r.producer_sequence (presents_now r call))
unfolding step presents_now present release fail_producer fail_consumer acquire_pass claim
presents_move r acquires v = ground arith
presents_move r (presents slot wake) v = ground arith
presents_move r (releases slot sequence wake) v = ground arith
presents_move r (producer_fails status first second) v = ground arith
presents_move r (consumer_fails status first second) v = ground arith

releases_move :
    (r : Ring) (call : Call)
    → IsLive r
    → IsNext r.consumer_sequence (releases_now r call)
      × ((step r call).consumer_sequence ≡ advanced r.consumer_sequence (releases_now r call))
unfolding step releases_now present release fail_producer fail_consumer acquire_pass claim
releases_move r acquires v = ground arith
releases_move r (presents slot wake) v = ground arith
releases_move r (releases slot sequence wake) v =
    ground (arith, release_check-facts r slot sequence v)
releases_move r (producer_fails status first second) v = ground arith
releases_move r (consumer_fails status first second) v = ground arith

ok-GoesWith :
    (result : Result ℕ) (now : Option ℕ)
    → ((n : ℕ) → result ≡ ok n → now ≡ some n)
    → GoesWith result now
ok-GoesWith (ok n) now h = h n refl
ok-GoesWith (err e) now h = tt

present_returns :
    (r : Ring) (slot : ℕ) (wake : Status) (n : ℕ)
    → (present r slot wake).1 ≡ ok n
    → presents_now r (presents slot wake) ≡ some n
unfolding presents_now present
present_returns r slot wake n e = ground arith

release_returns :
    (r : Ring) (slot sequence : ℕ) (wake : Status) (n : ℕ)
    → IsLive r
    → (release r slot sequence wake).1 >> ok sequence ≡ ok n
    → releases_now r (releases slot sequence wake) ≡ some n
unfolding releases_now release
release_returns r slot sequence wake n v e = ground (arith, release_check-facts r slot sequence v)

call-ReturnsFrame : (r : Ring) (call : Call) → IsLive r → ReturnsFrame r call
call-ReturnsFrame r acquires v = tt
call-ReturnsFrame r (presents slot wake) v =
    ok-GoesWith ((present r slot wake).1) (presents_now r (presents slot wake))
      (present_returns r slot wake)
call-ReturnsFrame r (releases slot sequence wake) v =
    ok-GoesWith ((release r slot sequence wake).1 >> ok sequence)
      (releases_now r (releases slot sequence wake)) (λ n. release_returns r slot sequence wake n v)
call-ReturnsFrame r (producer_fails status first second) v = tt
call-ReturnsFrame r (consumer_fails status first second) v = tt

run-ReturnFrames : (r : Ring) (calls : List Call) → IsLive r → ReturnFrames r calls
run-ReturnFrames r [] v = tt
run-ReturnFrames r (call ∷ calls) v =
    (call-ReturnsFrame r call v, run-ReturnFrames (step r call) calls (step-IsLive r call v))

-- In every run of a live ring the frames that are presented have the sequences after producer_sequence
-- one by one, and the frames that are released those after consumer_sequence: frames are released in the
-- order in which they are presented, none twice and none left out. A present that does not fail returns
-- the sequence of the frame that it presents, and a release that does not fail releases the frame that
-- it was asked for.
pub run_in_order :
    (r : Ring) (calls : List Call)
    → IsLive r
    → (record_of presents_now r calls
        ≡ consecutive (r.producer_sequence + 1) (length (record_of presents_now r calls)))
      × (record_of releases_now r calls
          ≡ consecutive (r.consumer_sequence + 1) (length (record_of releases_now r calls)))
      × ReturnFrames r calls
run_in_order r calls v = (
  record_of-consecutive presents_now (λ r. r.producer_sequence) presents_move r calls v,
  record_of-consecutive releases_now (λ r. r.consumer_sequence) releases_move r calls v,
  run-ReturnFrames r calls v,
)
