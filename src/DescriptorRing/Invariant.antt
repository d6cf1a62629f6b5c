-- ===== src/DescriptorRing/Invariant.antt =====
-- What validate accepts stays so, whatever the two sides call.
use bionic_vulkan_bridge.Prelude.{ℕ, ◌≤◌, ◌≡◌, arith, refl, ok, success, ℤ, Status}
use bionic_vulkan_bridge.Wire.{Buffer}
use bionic_vulkan_bridge.DescriptorRing.{
  Ring, LeaseRecord, initialize, fresh, header_is_bad, slot_is_valid, bank_is_valid, validate,
  wait_sleeping,
}
use bionic_vulkan_bridge.DescriptorRing.Waiting.{Word, with_state}
use bionic_vulkan_bridge.DescriptorRing.Transactions.{
  call_check, post, receive, complete, fail_client, fail_service,
}
use bionic_vulkan_bridge.DescriptorRing.Leases.{disable, publish}
use bionic_vulkan_bridge.DescriptorRing.Disjoint.{ClaimRequest, claimed}
use bionic_vulkan_bridge.DescriptorRing.Validity.{
  IsValid, validate-IsValid, IsValid-validate, posts-IsValid, receives-IsValid, waits-IsValid,
  completes-IsValid, fails_client-IsValid, fails_service-IsValid, disables-IsValid,
  publishes-IsValid, claims-IsValid,
}

-- One store sequence of either side: what call does before and after its wait, the wait state of a waiter,
-- and every other operation whole.
pub data Step (length generation : ℕ) : Ring → Ring → Type 0 where
  posts :
      (r : Ring) (sequence : ℕ) (request : Buffer) (request_length timeout_ms : ℕ)
      → call_check r length generation sequence request_length timeout_ms ≡ success
      → Step length generation r (post r sequence request request_length)
  receives :
      (r : Ring) (sequence capacity : ℕ)
      → Step length generation r ((receive r sequence capacity).0)
  waits :
      (r : Ring) (word : Word) (state : ℕ)
      → state ≤ wait_sleeping
      → Step length generation r (with_state word r state)
  completes :
      (r : Ring) (index sequence : ℕ) (status : ℤ) (response : Buffer) (response_length : ℕ)
      (wake : Status)
      → Step length generation r
          ((complete r length generation index sequence status response response_length wake).0)
  fails_client :
      (r : Ring) (status : ℤ) (first second : Status)
      → Step length generation r ((fail_client r status first second).0)
  fails_service :
      (r : Ring) (status : ℤ) (first second : Status)
      → Step length generation r ((fail_service r status first second).0)
  disables : (r : Ring) (bank : ℕ) → Step length generation r ((disable r length bank).0)
  publishes :
      (r : Ring) (bank pool_id epoch : ℕ) (records : ℕ → LeaseRecord) (count : ℕ)
      → Step length generation r ((publish r length bank pool_id epoch records count).0)
  claims : (r : Ring) (q : ClaimRequest) → Step length generation r ((claimed r q).0)

Step-IsValid :
    {length generation : ℕ} {r after : Ring}
    → Step length generation r after
    → IsValid length generation r
    → IsValid length generation after
Step-IsValid {length} {generation} (posts r sequence request request_length timeout_ms e) h =
    posts-IsValid length generation r h sequence request request_length timeout_ms e
Step-IsValid {length} {generation} (receives r sequence capacity) h =
    receives-IsValid length generation r h sequence capacity
Step-IsValid {length} {generation} (waits r word state l) h =
    waits-IsValid length generation r h word state l
Step-IsValid {length} {generation} (completes r index sequence status response response_length wake)
      h =
    completes-IsValid length generation r h index sequence status response response_length wake
Step-IsValid {length} {generation} (fails_client r status first second) h =
    fails_client-IsValid length generation r h status first second
Step-IsValid {length} {generation} (fails_service r status first second) h =
    fails_service-IsValid length generation r h status first second
Step-IsValid {length} {generation} (disables r bank) h = disables-IsValid length generation r h bank
Step-IsValid {length} {generation} (publishes r bank pool_id epoch records count) h =
    publishes-IsValid length generation r h bank pool_id epoch records count
Step-IsValid {length} {generation} (claims r q) h = claims-IsValid length generation r h q

-- Any sequence of steps.
pub data Run (length generation : ℕ) : Ring → Ring → Type 0 where
  ends : (r : Ring) → Run length generation r r
  goes :
      (r between after : Ring)
      → Step length generation r between
      → Run length generation between after
      → Run length generation r after

Run-IsValid :
    {length generation : ℕ} {r after : Ring}
    → Run length generation r after
    → IsValid length generation r
    → IsValid length generation after
Run-IsValid (ends r) h = h
Run-IsValid (goes r between after step rest) h = Run-IsValid rest (Step-IsValid step h)

-- A region that validate accepts it accepts still after any sequence of calls of the two sides: requests
-- posted and received, wait states, completions, failures, and lease banks published, disabled and claimed.
pub validate-Run :
    (length generation : ℕ) (r after : Ring)
    → validate r length generation ≡ success
    → Run length generation r after
    → validate after length generation ≡ success
validate-Run length generation r after e run =
    IsValid-validate after length generation
      (Run-IsValid run (validate-IsValid r length generation e))

initialize-IsValid :
    (address length slot_count generation : ℕ) (r : Ring)
    → initialize address length slot_count generation ≡ ok r
    → IsValid length generation r
unfolding initialize header_is_bad slot_is_valid bank_is_valid
initialize-IsValid address length slot_count generation r e =
    let same : fresh slot_count generation ≡ r = ground (arith, e) in
    rw (← same) (record {
      header = ground (arith, e);
      next_lem = ground (arith, e);
      slots_lem = λ i l. refl;
      banks_lem = λ i l. refl;
    })

-- From initialize on, validate accepts the region after any sequence of calls of the two sides.
pub initialize-Run :
    (address length slot_count generation : ℕ) (r after : Ring)
    → initialize address length slot_count generation ≡ ok r
    → Run length generation r after
    → validate after length generation ≡ success
initialize-Run address length slot_count generation r after e run =
    IsValid-validate after length generation
      (Run-IsValid run (initialize-IsValid address length slot_count generation r e))
