-- ===== src/Futex.antt =====
-- Waiting on a word of shared memory, as src/frame_sync.c, src/wsi_frame_ring.c and
-- src/descriptor_transaction_ring.c do it: monotonic_ns, futex_wait, futex_wake and the deadline.
-- The kernel is not modelled. What it answers is an argument: the clock readings, the outcome of each
-- futex call, and the shared memory as the other process has left it when the call returns.
use bionic_vulkan_bridge.Prelude.{
  ℕ, ◌+◌, ◌-◌, ◌*◌, ◌^◌, Bool, ltb, leb, ◌==◌, if◌then◌else◌, Option, none, some, Result, Status,
  ok, err, success, einval, eio, eoverflow, etimedout, error_of, ℤ, pos, negsuc,
}

-- A reading of CLOCK_MONOTONIC in nanoseconds; `none` where clock_gettime fails.
abbrev pub Clock : Type 0
Clock = Option ℕ

-- Of FUTEX_WAIT: woken, stopped with EAGAIN or EINTR, or failed with another errno.
pub data WaitResult : Type 0 where
  woken interrupted : WaitResult
  failed : ℕ → WaitResult

-- One futex wait: the clock before it, its outcome, and the memory after it.
pub record Wait (M : Type 0) : Type 0 where
  pub now : Clock
  pub result : WaitResult
  pub memory : M

abbrev pub wait_status : WaitResult → Status
wait_status woken = success
wait_status interrupted = success
wait_status (failed errno) = err (error_of errno)

-- `futex_wait_until`, which src/wsi_frame_ring.c calls `futex_wait`.
unfoldable pub futex_wait_until : {M : Type 0} → Wait M → ℕ → Status
futex_wait_until w deadline_ns = elim w.now [
  | none ↦ err eio
  | some now ↦ if leb deadline_ns now then err etimedout else wait_status w.result
]

abbrev pub int64_max : ℕ
int64_max = 2 ^ 63 - 1

-- `deadline_from_timeout`; a clock reading is at most INT64_MAX.
unfoldable pub deadline_from_timeout : ℕ → Clock → Result ℕ
deadline_from_timeout timeout_ms started = if timeout_ms == 0 then err einval else elim started [
  | none ↦ err eio
  | some now ↦
      if ltb (int64_max - now) (timeout_ms * 1000000)
      then err eoverflow
      else ok (now + timeout_ms * 1000000)
]

-- `if (status < 0) return status;`
abbrev pub published : ℤ → Status
published (pos n) = success
published (negsuc n) = err (error_of (n + 1))

-- A wait at which the clock fails or has reached the deadline.
abbrev pub is_last : {M : Type 0} → ℕ → Wait M → Bool
is_last deadline_ns w = elim w.now [ none ↦ Bool.true | some now ↦ leb deadline_ns now ]
