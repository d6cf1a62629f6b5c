-- ===== src/FrameSync/Order.antt =====
-- Serialized ownership: producer and consumer publish in strict turn.
use bionic_vulkan_bridge.Prelude.{
  ℕ, ◌+◌, ◌/◌, ◌%◌, ◌≤◌, ◌≡◌, ◌↔◌, refl, arith, List, [], ◌∷◌, Status, ok, err, success, ℤ, Option,
  none, some, zero, suc, ◌==◌, if◌then◌else◌, length,
}
use bionic_vulkan_bridge.FrameSync.{
  Control, initialize, producer_check, publish_producer, consumer_check, publish_consumer,
  fail_producer, fail_consumer, validate, peer_failure, out_of_turn,
}

-- What holds of the page at every moment: a good header, and the consumer level with the producer or
-- one frame behind it.
pub record IsOrdered (c : Control) : Type 0 where
  pub header : validate c ≡ success
  pub consumer_behind : c.consumer_sequence ≤ c.producer_sequence
  pub producer_ahead : c.producer_sequence ≤ c.consumer_sequence + 1
  pub in_range : c.producer_sequence ≤ c.frame_count

-- What initialize accepts is in order, with nothing published.
pub initialize-IsOrdered :
    (address length frame_count : ℕ) (c : Control)
    → initialize address length frame_count ≡ ok c
    → IsOrdered c × (c.producer_sequence ≡ 0) × (c.frame_count ≡ frame_count)
unfolding initialize validate
initialize-IsOrdered address length frame_count c e = ground arith

-- On a page in order that no peer has failed, the producer may publish exactly the frame after the
-- last, if there is one left and the consumer has published the last.
pub producer_check_iff :
    (c : Control) (sequence : ℕ)
    → IsOrdered c
    → peer_failure c ≡ success
    → (producer_check c sequence ≡ success) ↔ (
        (sequence ≡ c.producer_sequence + 1)
        × (sequence ≤ c.frame_count)
        × (c.consumer_sequence ≡ c.producer_sequence))
unfolding producer_check validate out_of_turn
producer_check_iff c sequence v healthy = (ground arith, ground arith)

-- There the consumer may publish exactly the frame that the producer published and it did not.
pub consumer_check_iff :
    (c : Control) (sequence : ℕ)
    → IsOrdered c
    → peer_failure c ≡ success
    → (consumer_check c sequence ≡ success)
      ↔ ((sequence ≡ c.consumer_sequence + 1) × (c.producer_sequence ≡ sequence))
unfolding consumer_check validate out_of_turn
consumer_check_iff c sequence v healthy = (ground arith, ground arith)

-- A call on the page by either process, with the answers of its futex wakes.
pub data Call : Type 0 where
  produce consume : ℕ → Status → Call
  producer_fails consumer_fails : ℤ → Status → Status → Call

unfoldable pub step : Control → Call → Control
step c (produce sequence wake) = (publish_producer c sequence wake).0
step c (consume sequence wake) = (publish_consumer c sequence wake).0
step c (producer_fails status first second) = (fail_producer c status first second).0
step c (consumer_fails status first second) = (fail_consumer c status first second).0

unfoldable pub run : Control → List Call → Control
run c [] = c
run c (call ∷ calls) = run (step c call) calls

step-IsOrdered : (c : Control) (call : Call) → IsOrdered c → IsOrdered (step c call)
unfolding step publish_producer publish_consumer fail_producer fail_consumer validate out_of_turn
step-IsOrdered c (produce sequence wake) v = ground arith
step-IsOrdered c (consume sequence wake) v = ground arith
step-IsOrdered c (producer_fails status first second) v = ground arith
step-IsOrdered c (consumer_fails status first second) v = ground arith

-- Every call, successful or not, keeps the page in order.
pub run-IsOrdered : (c : Control) (calls : List Call) → IsOrdered c → IsOrdered (run c calls)
unfolding run
run-IsOrdered c [] v = v
run-IsOrdered c (call ∷ calls) v = run-IsOrdered (step c call) calls (step-IsOrdered c call v)

-- What a call publishes, whatever its wake answers.
pub data Publication : Type 0 where
  produced consumed : ℕ → Publication

unfoldable pub publishes : Control → Call → Option Publication
publishes c (produce sequence wake) = elim (producer_check c sequence) [
  | err _ ↦ none
  | ok _ ↦ some (produced sequence)
]
publishes c (consume sequence wake) = elim (consumer_check c sequence) [
  | err _ ↦ none
  | ok _ ↦ some (consumed sequence)
]
publishes c (producer_fails status first second) = none
publishes c (consumer_fails status first second) = none

abbrev pub prepend : Option Publication → List Publication → List Publication
prepend none ps = ps
prepend (some p) ps = p ∷ ps

unfoldable pub publications : Control → List Call → List Publication
publications c [] = []
publications c (call ∷ calls) = prepend (publishes c call) (publications (step c call) calls)

-- The specification: turn 2k is the producer's with frame k + 1, turn 2k + 1 the consumer's with it.
unfoldable pub turn : ℕ → Publication
turn n = if n % 2 == 0 then produced (n / 2 + 1) else consumed (n / 2 + 1)

unfoldable pub turns : ℕ → ℕ → List Publication
turns n zero = []
turns n (suc k) = turn n ∷ turns (n + 1) k

-- How many turns are over.
abbrev pub taken : Control → ℕ
taken c = c.producer_sequence + c.consumer_sequence

abbrev advanced : ℕ → Option Publication → ℕ
advanced n none = n
advanced n (some _) = n + 1

abbrev IsTurn : ℕ → Option Publication → Type 0
IsTurn n none = Unit
IsTurn n (some p) = p ≡ turn n

step-IsTurn :
    (c : Control) (call : Call)
    → IsOrdered c
    → IsTurn (taken c) (publishes c call)
      × (taken (step c call) ≡ advanced (taken c) (publishes c call))
unfolding step publishes publish_producer publish_consumer fail_producer fail_consumer turn
    out_of_turn
step-IsTurn c (produce sequence wake) v = ground arith
step-IsTurn c (consume sequence wake) v = ground arith
step-IsTurn c (producer_fails status first second) v = ground arith
step-IsTurn c (consumer_fails status first second) v = ground arith

prepend_turn :
    (n m : ℕ) (p : Option Publication) (ps : List Publication)
    → IsTurn n p
    → m ≡ advanced n p
    → ps ≡ turns m (length ps)
    → prepend p ps ≡ turns n (length (prepend p ps))
unfolding turns
prepend_turn n m none ps first later e = rw later at e
prepend_turn n m (some p) ps first later e =
    let rest : ps ≡ turns (n + 1) (length ps) = rw later at e in cc

-- From a page in order, whatever calls the two processes make, what is published is one run of the
-- turns, beginning with the turn that the page is at: none is skipped, repeated or out of order.
pub publications_take_turns :
    (c : Control) (calls : List Call)
    → IsOrdered c
    → publications c calls ≡ turns (taken c) (length (publications c calls))
unfolding publications
publications_take_turns c [] v = unfold turns in refl
publications_take_turns c (call ∷ calls) v =
    let (first, later) = step-IsTurn c call v in
    prepend_turn (taken c) (taken (step c call)) (publishes c call)
      (publications (step c call) calls) first later
      (publications_take_turns (step c call) calls (step-IsOrdered c call v))
