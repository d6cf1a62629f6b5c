-- ===== src/DescriptorRing/Waiting.antt =====
-- wait_for_sequence and wake_if_sleeping of src/descriptor_transaction_ring.c: spin for a while, then
-- sleep on the word.
pub mod Return
use bionic_vulkan_bridge.Prelude.{
  ℕ, ◌+◌, ◌*◌, ◌%◌, ◌^◌, ◌≤◌, ◌≡◌, Bool, true, ltb, leb, ◌==◌, if◌then◌else◌, Option, none, some,
  List, [], ◌∷◌, Status, ok, err, success, eio, arith, refl, ap, ◌∙◌, Option-cases, Result-cases,
  Bool-cases, inl, inr,
}
use mathlib.Core.Path.{subst}
use bionic_vulkan_bridge.Futex.{Clock, Wait, futex_wait_until}
use bionic_vulkan_bridge.DescriptorRing.{Ring, peer_status, wait_idle, wait_spinning, wait_sleeping}

-- The two words that are waited on, each with its own wait state.
pub data Word : Type 0 where
  request_word completion_word : Word

abbrev pub word_of : Word → Ring → ℕ
word_of request_word r = r.request_sequence
word_of completion_word r = r.completion_sequence

abbrev pub with_state : Word → Ring → ℕ → Ring
with_state request_word r state = record r { request_wait_state = state }
with_state completion_word r state = record r { completion_wait_state = state }

-- The test that each round makes: `none` goes on.
unfoldable pub poll : Word → Ring → ℕ → Option Status
poll word r expected = elim (peer_status r) [
  | err e ↦ some (err e)
  | ok _ ↦ if leb expected (word_of word r) then some success else none
]

-- One turn of the spin loop: the clock, where it is read, and the region as the peer leaves it.
pub record Spin : Type 0 where
  pub now : Clock
  pub memory : Ring

pub data SpinEnd : Type 0 where
  -- The call returns, or the time to spin is over.
  returned : Ring × Status → SpinEnd
  over : Ring → SpinEnd

abbrev pub clock_interval : ℕ
clock_interval = 64

-- The clock is read in every 64th turn. `none` means that it still spins when the listed turns are over.
unfoldable pub spin : Word → ℕ → ℕ → ℕ → Ring → List Spin → Option SpinEnd
spin word expected spin_deadline_ns iterations r [] = elim (poll word r expected) [
  | some result ↦ some (returned (r, result))
  | none ↦ none
]
spin word expected spin_deadline_ns iterations r (s ∷ ss) =
    let iterations = (iterations + 1) % 2 ^ 32 in
    let rest = spin word expected spin_deadline_ns iterations s.memory ss in
    elim (poll word r expected) [
      | some result ↦ some (returned (r, result))
      | none ↦
          if iterations % clock_interval == 0
          then elim s.now [
            | none ↦ some (returned (s.memory, err eio))
            | some now ↦ if leb spin_deadline_ns now then some (over s.memory) else rest
          ]
          else rest
    ]

-- The loop with the futex; `none` means that it still waits when the listed waits are over.
unfoldable pub sleep : Word → ℕ → ℕ → Ring → List (Wait Ring) → Option (Ring × Status)
sleep word expected deadline_ns r [] = elim (poll word r expected) [
  | some result ↦ some (r, result)
  | none ↦ none
]
sleep word expected deadline_ns r (w ∷ ws) =
    let rest = sleep word expected deadline_ns w.memory ws in
    elim (poll word r expected) [
      | some result ↦ some (r, result)
      | none ↦ elim (futex_wait_until w deadline_ns) [
        | err e ↦ some (w.memory, err e)
        | ok _ ↦ rest
      ]
    ]

abbrev pub idle : Word → Option (Ring × Status) → Option (Ring × Status)
idle word none = none
idle word (some (r, result)) = some (with_state word r wait_idle, result)

-- Where the spinning ends the call, and where the sleeping follows.
unfoldable pub after_spin :
    Word → ℕ → ℕ → List (Wait Ring) → Option SpinEnd → Option (Ring × Status)
after_spin word expected deadline_ns waits none = none
after_spin word expected deadline_ns waits (some (returned result)) = idle word (some result)
after_spin word expected deadline_ns waits (some (over r)) =
    idle word (sleep word expected deadline_ns (with_state word r wait_sleeping) waits)

abbrev pub spin_ns : ℕ
spin_ns = 250000

-- The sum with a clock reading does not pass INT64_MAX.
abbrev pub spin_deadline : ℕ → ℕ → ℕ
spin_deadline deadline_ns started_ns =
    if ltb deadline_ns (started_ns + spin_ns) then deadline_ns else started_ns + spin_ns

unfoldable pub wait_for_sequence :
    Word → ℕ → ℕ → Clock → List Spin → List (Wait Ring) → Ring → Option (Ring × Status)
unfolding after_spin
wait_for_sequence word expected deadline_ns started spins waits r = elim (poll word r expected) [
  | some result ↦ some (r, result)
  | none ↦ elim started [
    | none ↦ some (r, err eio)
    | some started_ns ↦ after_spin word expected deadline_ns waits (
        spin word expected (spin_deadline deadline_ns started_ns) 0
          (with_state word r wait_spinning) spins)
  ]
]

-- `wake` is what futex_wake answers, if it is called.
unfoldable pub wake_if_sleeping : ℕ → Status → Status
wake_if_sleeping wait_state wake = if wait_state == wait_sleeping then wake else success
