-- ===== src/FrameSync/Tests.antt =====
-- A page of two frames, and the theorems at concrete inputs.
use bionic_vulkan_bridge.Prelude.{
  ℕ, ◌+◌, ◌≤◌, ◌≡◌, ◌≢◌, ◌↔◌, refl, arith, none, some, List, [], ◌∷◌, ok, success,
}
use bionic_vulkan_bridge.Futex.{Wait, woken}
use bionic_vulkan_bridge.FrameSync.{
  Control, fresh, initialize, producer_check, publish_producer, consumer_check, publish_consumer,
  wait_producer, wait_sequence, peer_failure, validate,
}
use bionic_vulkan_bridge.FrameSync.Order.{
  IsOrdered, initialize-IsOrdered, producer_check_iff, consumer_check_iff, Call, produce, consume,
  run, run-IsOrdered, publications, publications_take_turns, turns, turn, step, publishes, produced,
  consumed,
}
use bionic_vulkan_bridge.FrameSync.Waiting.{
  wait_sequence-ends, any_last, wait_producer-Yields, YieldsOnly,
}

abbrev first_produced : Control
first_produced = record (fresh 2) { producer_sequence = 1 }

abbrev first_consumed : Control
first_consumed = record (fresh 2) { producer_sequence = 1; consumer_sequence = 1 }

initialize-fresh : initialize 4096 4096 2 ≡ ok (fresh 2)
unfolding initialize
initialize-fresh = refl

initialize-IsOrdered_example :
    IsOrdered (fresh 2) × ((fresh 2).producer_sequence ≡ 0) × ((fresh 2).frame_count ≡ 2)
initialize-IsOrdered_example = initialize-IsOrdered 4096 4096 2 (fresh 2) initialize-fresh

fresh-IsOrdered : IsOrdered (fresh 2)
fresh-IsOrdered = (initialize-IsOrdered 4096 4096 2 (fresh 2) initialize-fresh).0

first_produced-IsOrdered : IsOrdered first_produced
unfolding validate
first_produced-IsOrdered = ground arith

producer_check_iff_example :
    (producer_check (fresh 2) 1 ≡ success) ↔ ((◌≡◌ {A = ℕ} 1 (0 + 1)) × (1 ≤ 2) × (◌≡◌ {A = ℕ} 0 0))
unfolding peer_failure
producer_check_iff_example = producer_check_iff (fresh 2) 1 fresh-IsOrdered refl

consumer_check_iff_example :
    (consumer_check first_produced 1 ≡ success) ↔ ((◌≡◌ {A = ℕ} 1 (0 + 1)) × (◌≡◌ {A = ℕ} 1 1))
unfolding peer_failure
consumer_check_iff_example = consumer_check_iff first_produced 1 first_produced-IsOrdered refl

-- The second call is out of turn and changes nothing.
abbrev script : List Call
script = produce 1 success ∷ produce 2 success ∷ consume 1 success ∷ produce 2 success ∷ []

run-IsOrdered_example : IsOrdered (run (fresh 2) script)
run-IsOrdered_example = run-IsOrdered (fresh 2) script fresh-IsOrdered

publications_take_turns_example :
    publications (fresh 2) script ≡ produced 1 ∷ consumed 1 ∷ produced 2 ∷ []
unfolding publications publishes step publish_producer publish_consumer turns turn
publications_take_turns_example = publications_take_turns (fresh 2) script fresh-IsOrdered

-- Woken once, by the consumer.
abbrev one_wait : List (Wait Control)
one_wait = record { now = some 5; result = woken; memory = first_consumed } ∷ []

-- The clock has passed the deadline at the first wait.
abbrev late_wait : List (Wait Control)
late_wait = record { now = some 1000007; result = woken; memory = first_produced } ∷ []

wait_sequence-ends_example :
    wait_sequence (λ c. c.consumer_sequence) first_produced 0 1 (some 7) late_wait ≢ none
unfolding any_last
wait_sequence-ends_example =
    wait_sequence-ends (λ c. c.consumer_sequence) first_produced 0 1 7 late_wait refl

wait_producer-Yields_example : YieldsOnly 1 (wait_producer (fresh 2) 0 1 (some 4) [])
unfolding peer_failure
wait_producer-Yields_example =
    wait_producer-Yields (fresh 2) 0 1 (some 4) [] (fresh-IsOrdered, refl, λ e. cc)
