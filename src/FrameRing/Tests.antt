-- ===== src/FrameRing/Tests.antt =====
-- A ring of two images, and the theorems at concrete inputs.
use bionic_vulkan_bridge.Prelude.{
  ℕ, ◌≡◌, ◌≢◌, ◌⊎◌, ◌+◌, Error, refl, arith, none, some, List, [], ◌∷◌, ok, err, success, update,
}
use bionic_vulkan_bridge.Futex.{woken}
use bionic_vulkan_bridge.FrameRing.{
  Ring, Round, fresh, initialize, validate, presented, acquire_pass, claim, find_available, scan,
  present, mark_presented, release, clear_sequence, mark_available, find_presented, peer_failure,
  wait_present, check_states,
}
use bionic_vulkan_bridge.FrameRing.Invariant.{IsLive, initialize-IsLive}
use bionic_vulkan_bridge.FrameRing.Delivery.{
  next_frame_delivered, release_whole, wait_present-Yields, wait_present-ends, any_decides,
  YieldsOnly, HoldsFrame, IsFreed,
}
use bionic_vulkan_bridge.FrameRing.Order.{
  Call, acquires, presents, releases, step, run, run-IsLive, run_in_order, record_of, presents_now,
  releases_now, consecutive, ReturnFrames,
}

initialize-fresh : initialize 4096 4096 2 7 ≡ ok (fresh 2 7)
unfolding initialize
initialize-fresh = refl

initialize-IsLive_example :
    IsLive (fresh 2 7) × ((fresh 2 7).slot_count ≡ 2) × ((fresh 2 7).producer_sequence ≡ 0)
initialize-IsLive_example = initialize-IsLive 4096 4096 2 7 (fresh 2 7) initialize-fresh

fresh-IsLive : IsLive (fresh 2 7)
fresh-IsLive = (initialize-IsLive 4096 4096 2 7 (fresh 2 7) initialize-fresh).0

-- The first image is acquired and presented; the second present is of a slot that was not acquired.
abbrev one_presented : List Call
one_presented = acquires ∷ presents 0 success ∷ presents 1 success ∷ []

abbrev whole_frame : List Call
whole_frame =
    acquires ∷ presents 0 success ∷ acquires ∷ releases 0 1 success ∷ presents 1 success ∷ []

run-IsLive_example : IsLive (run (fresh 2 7) one_presented)
run-IsLive_example = run-IsLive (fresh 2 7) one_presented fresh-IsLive

run_in_order_example :
    (record_of presents_now (fresh 2 7) whole_frame ≡ 1 ∷ 2 ∷ [])
    × (record_of releases_now (fresh 2 7) whole_frame ≡ 1 ∷ [])
    × ReturnFrames (fresh 2 7) whole_frame
unfolding record_of presents_now releases_now consecutive step acquire_pass find_available scan
    claim present mark_presented release validate check_states
run_in_order_example = run_in_order (fresh 2 7) whole_frame fresh-IsLive

-- One frame is presented and not released.
abbrev waiting : Ring
waiting = record (fresh 2 7) {
  next_acquire = 1;
  producer_sequence = 1;
  slot_state = update (update (λ _. 0) 0 1) 0 presented;
  slot_sequence = update (λ _. 0) 0 1;
}

run-waiting : run (fresh 2 7) one_presented ≡ waiting
unfolding run step acquire_pass find_available scan claim present mark_presented validate
    check_states
run-waiting = refl

waiting-IsLive : IsLive waiting
waiting-IsLive = rw run-waiting at (run-IsLive (fresh 2 7) one_presented fresh-IsLive)

next_frame_delivered_example :
    (k : ℕ) × (find_presented waiting 1 ≡ some k)
    × (release waiting k 1 success ≡ (mark_available (clear_sequence waiting k) k 1, success))
unfolding peer_failure
next_frame_delivered_example =
    next_frame_delivered waiting success waiting-IsLive refl (omega arith)

release_whole_example :
    ((e : Error) × (release waiting 0 1 success ≡ (waiting, err e)))
    ⊎ (HoldsFrame waiting 0 1
        × (1 ≡ waiting.consumer_sequence + 1)
        × IsFreed waiting 0 1 ((release waiting 0 1 success).0)
        × ((release waiting 0 1 success).1 ≡ success))
release_whole_example = release_whole waiting 0 1 success waiting-IsLive

-- The frame is presented between the two scans.
abbrev raced : List Round
raced = record { seen = fresh 2 7; later = waiting; now = some 9; result = woken } ∷ []

wait_present-Yields_example : YieldsOnly 1 raced (wait_present (fresh 2 7) 0 1 (some 4) raced)
unfolding peer_failure
wait_present-Yields_example =
    wait_present-Yields (fresh 2 7) 0 1 (some 4) raced fresh-IsLive
      ((fresh-IsLive, refl, λ e. cc), (waiting-IsLive, refl, λ e. cc), tt)

wait_present-ends_example : wait_present (fresh 2 7) 0 1 (some 4) raced ≢ none
unfolding any_decides
wait_present-ends_example = wait_present-ends (fresh 2 7) 0 1 4 raced refl
