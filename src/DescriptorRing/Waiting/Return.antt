-- ===== src/DescriptorRing/Waiting/Return.antt =====
-- What a wait on the descriptor ring shows when it succeeds, and that it returns.
use bionic_vulkan_bridge.Prelude.{
  ℕ, ◌+◌, ◌%◌, ◌^◌, ◌≤◌, ◌≡◌, Bool, false, ◌||◌, Option, none, some, List, [], ◌∷◌, Status, success,
  arith, ap, ◌∙◌, Option-cases, Result-cases, inl, inr,
}
use mathlib.Core.Path.{subst}
use bionic_vulkan_bridge.Futex.{Clock, Wait, futex_wait_until, is_last}
use bionic_vulkan_bridge.DescriptorRing.{Ring, peer_status, wait_idle, wait_spinning, wait_sleeping}
use bionic_vulkan_bridge.DescriptorRing.Waiting.{
  Word, request_word, completion_word, word_of, with_state, poll, Spin, SpinEnd, returned, over,
  spin, sleep, idle, after_spin, spin_deadline, wait_for_sequence,
}

-- The region shows the sequence waited for, and neither side has failed.
abbrev pub Shows : Word → ℕ → Ring → Type 0
Shows word expected r = (expected ≤ word_of word r) × (peer_status r ≡ success)

with_state-Shows :
    (word : Word) (expected state : ℕ) (r : Ring)
    → Shows word expected r
    → Shows word expected (with_state word r state)
unfolding peer_status
with_state-Shows request_word expected state r h = h
with_state-Shows completion_word expected state r h = h

poll-Shows :
    (word : Word) (expected : ℕ) (r : Ring)
    → poll word r expected ≡ some success
    → Shows word expected r
unfolding poll
poll-Shows word expected r e = ground (arith, e)

polled-Shows :
    (word : Word) (expected : ℕ) (r after : Ring) (result : Status)
    → poll word r expected ≡ some result
    → ◌≡◌ {A = Option (Ring × Status)} (some (r, result)) (some (after, success))
    → Shows word expected after
polled-Shows word expected r after result polled e =
    let same : r ≡ after = ground (arith, e) in
    let accepted : result ≡ success = ground (arith, e) in
    subst (Shows word expected) same (poll-Shows word expected r (polled ∙ ap some accepted))

sleep-Shows :
    (word : Word) (expected deadline_ns : ℕ) (r after : Ring) (waits : List (Wait Ring))
    → sleep word expected deadline_ns r waits ≡ some (after, success)
    → Shows word expected after
unfolding sleep
sleep-Shows word expected deadline_ns r after [] e = elim (Option-cases (poll word r expected)) [
  | inl waiting ↦ absurd (ground (arith, e, waiting))
  | inr (result, polled) ↦
      polled-Shows word expected r after result polled (rw (sleep, polled) at e)
]
sleep-Shows word expected deadline_ns r after (w ∷ ws) e =
    elim (Option-cases (poll word r expected)) [
      | inl waiting ↦ elim (Result-cases (futex_wait_until w deadline_ns)) [
        | inl (_, woken) ↦
            sleep-Shows word expected deadline_ns w.memory after ws
              (rw (sleep, waiting, woken) at e)
        | inr (error, failed) ↦ absurd (ground (arith, e, waiting, failed))
      ]
      | inr (result, polled) ↦
          polled-Shows word expected r after result polled (rw (sleep, polled) at e)
    ]

abbrev ended : Option SpinEnd → Option (Ring × Status)
ended (some (returned result)) = some result
ended _ = none

spin-Shows :
    (word : Word) (expected spin_deadline_ns iterations : ℕ) (r after : Ring) (spins : List Spin)
    → spin word expected spin_deadline_ns iterations r spins ≡ some (returned (after, success))
    → Shows word expected after
unfolding spin
spin-Shows word expected spin_deadline_ns iterations r after [] e =
    elim (Option-cases (poll word r expected)) [
      | inl waiting ↦ absurd (ground (arith, e, waiting))
      | inr (result, polled) ↦
          polled-Shows word expected r after result polled (ap ended (rw (spin, polled) at e))
    ]
spin-Shows word expected spin_deadline_ns iterations r after (s ∷ ss) e =
    elim (Option-cases (poll word r expected)) [
      | inl waiting ↦
          let next : spin word expected spin_deadline_ns ((iterations + 1) % 2 ^ 32) s.memory ss
              ≡ some (returned (after, success)) =
            ground (arith, e, waiting) in
          spin-Shows word expected spin_deadline_ns ((iterations + 1) % 2 ^ 32) s.memory after ss
            next
      | inr (result, polled) ↦
          polled-Shows word expected r after result polled (ap ended (rw (spin, polled) at e))
    ]

abbrev as_returned : Option (Ring × Status) → Option SpinEnd
as_returned none = none
as_returned (some result) = some (returned result)

idle-Shows :
    (word : Word) (expected : ℕ) (after : Ring) (end : Option (Ring × Status))
    → ((r : Ring) → end ≡ some (r, success) → Shows word expected r)
    → idle word end ≡ some (after, success)
    → Shows word expected after
idle-Shows word expected after none h e = absurd (ground (arith, e))
idle-Shows word expected after (some (r, result)) h e =
    let same : with_state word r wait_idle ≡ after = ground (arith, e) in
    let accepted : result ≡ success = ground (arith, e) in
    subst (Shows word expected) same
      (with_state-Shows word expected wait_idle r (h r (ap (λ x. some (r, x)) accepted)))

after_spin-Shows :
    (word : Word) (expected deadline_ns : ℕ) (waits : List (Wait Ring)) (end : Option SpinEnd)
    (after : Ring)
    → ((r : Ring) → end ≡ some (returned (r, success)) → Shows word expected r)
    → after_spin word expected deadline_ns waits end ≡ some (after, success)
    → Shows word expected after
unfolding after_spin
after_spin-Shows word expected deadline_ns waits none after h e = absurd (ground (arith, e))
after_spin-Shows word expected deadline_ns waits (some (returned result)) after h e =
    idle-Shows word expected after (some result) (λ r same. h r (ap as_returned same)) e
after_spin-Shows word expected deadline_ns waits (some (over r)) after h e =
    idle-Shows word expected after
      (sleep word expected deadline_ns (with_state word r wait_sleeping) waits)
      (λ last slept.
        sleep-Shows word expected deadline_ns (with_state word r wait_sleeping) last waits slept)
      e

-- Where a wait succeeds, however long it spins and sleeps and whatever the peer does meanwhile, the
-- region shows the sequence that was waited for and neither side has failed.
pub wait_for_sequence-Shows :
    (word : Word) (expected deadline_ns : ℕ) (started : Clock) (spins : List Spin)
    (waits : List (Wait Ring)) (r after : Ring)
    → wait_for_sequence word expected deadline_ns started spins waits r ≡ some (after, success)
    → Shows word expected after
unfolding wait_for_sequence
wait_for_sequence-Shows word expected deadline_ns started spins waits r after e =
    elim (Option-cases (poll word r expected)) [
      | inl waiting ↦ elim (Option-cases started) [
        | inl unread ↦ absurd (ground (arith, e, waiting, unread))
        | inr (started_ns, read) ↦
            let spun =
              spin word expected (spin_deadline deadline_ns started_ns) 0
                (with_state word r wait_spinning) spins in
            after_spin-Shows word expected deadline_ns waits spun after
              (λ last ended_spin.
                spin-Shows word expected (spin_deadline deadline_ns started_ns) 0
                  (with_state word r wait_spinning) last spins ended_spin)
              (rw (wait_for_sequence, waiting, read) at e)
      ]
      | inr (result, polled) ↦
          polled-Shows word expected r after result polled (rw (wait_for_sequence, polled) at e)
    ]

-- Some listed wait finds the clock broken or the deadline reached.
unfoldable pub any_last : ℕ → List (Wait Ring) → Bool
any_last deadline_ns [] = false
any_last deadline_ns (w ∷ ws) = is_last deadline_ns w || any_last deadline_ns ws

abbrev pub IsLate : ℕ → Clock → Type 0
IsLate deadline_ns none = Unit {0}
IsLate deadline_ns (some now) = deadline_ns ≤ now

-- In each of the listed turns the clock, were it read, would be broken or past the deadline.
abbrev pub AllLate : ℕ → List Spin → Type 0
AllLate deadline_ns [] = Unit {0}
AllLate deadline_ns (s ∷ ss) = IsLate deadline_ns s.now × AllLate deadline_ns ss
