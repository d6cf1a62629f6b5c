-- ===== src/DescriptorRing/Tests.antt =====
-- The theorems of DescriptorRing at concrete regions: one transaction, two claims and one wait.
use bionic_vulkan_bridge.Prelude.{
  ℕ, zero, suc, ◌+◌, ◌<◌, ◌≡◌, List, [], ◌∷◌, arith, refl, ok, err, success, estale, none, some,
  length, pos, update, all_below,
}
use bionic_vulkan_bridge.Wire.{Buffer}
use bionic_vulkan_bridge.Wire.Canonical.{AgreeTo}
use bionic_vulkan_bridge.Futex.{Wait, woken, deadline_from_timeout}
use bionic_vulkan_bridge.DescriptorRing.{
  Ring, LeaseRecord, fresh, validate, validate_header, header_is_bad, slot_is_valid, bank_is_valid,
  region_bytes, peer_status, available, bank_count, wait_idle,
}
use bionic_vulkan_bridge.DescriptorRing.Transactions.{
  Request, response_of, call_check, post, complete, complete_check, call, wait_request, fulfil,
}
use bionic_vulkan_bridge.DescriptorRing.Waiting.{
  request_word, with_state, Spin, spin, poll, after_spin, wait_for_sequence, wake_if_sleeping,
}
use bionic_vulkan_bridge.DescriptorRing.Waiting.Return.{Shows, wait_for_sequence-Shows}
use bionic_vulkan_bridge.DescriptorRing.Leases.{
  claim, claim_check, find_bank, bank_serves, record_serves, lease_of, published_bank,
}
use bionic_vulkan_bridge.DescriptorRing.Delivery.{complete_once}
use bionic_vulkan_bridge.DescriptorRing.Delivery.Whole.{awaiting, transaction_delivers}
use bionic_vulkan_bridge.DescriptorRing.Disjoint.{ClaimRequest, claimed, Serves, claim-Serves}
use bionic_vulkan_bridge.DescriptorRing.Invariant.{claims, Run, ends, goes, validate-Run}

abbrev idle_ring : Ring
idle_ring = fresh 4 7

abbrev sample_request : Buffer
sample_request i = i + 1

abbrev sample_response : Buffer
sample_response i = 9

sample_accepted : call_check idle_ring region_bytes 7 1 3 5 ≡ success
unfolding call_check validate_header header_is_bad peer_status
sample_accepted = refl

abbrev awaiting_ring : Ring
awaiting_ring = awaiting idle_ring 1 sample_request 3

transaction_delivers_example :
    (taken : Request) × (freed : Ring) × (bytes : Buffer) × (wait_request awaiting_ring region_bytes
        7 0 176 4
        (some 200)
        none
        []
        []
      ≡ some (awaiting_ring, ok taken))
    × (taken.length ≡ 3)
    × AgreeTo 3 taken.bytes sample_request
    × (call idle_ring region_bytes 7 1 sample_request 3 136 5 success
          (some 100)
          (some 110)
          (record {
            now = none;
            memory =
                (complete awaiting_ring region_bytes 7 taken.slot taken.sequence
                  (pos 0)
                  sample_response
                  2
                  success).0;
          }
            ∷ [])
          []
        ≡ some (freed, response_of bytes 2))
    × AgreeTo 2 bytes sample_response
    × ((freed.slots taken.slot).state ≡ available)
unfolding deadline_from_timeout
transaction_delivers_example =
    transaction_delivers idle_ring region_bytes 7 1 5 5000100 4 4000200 sample_request
      sample_response 3 176 2 136 110 (some 100) none (some 200) none [] [] [] [] success
      sample_accepted (omega arith) (omega arith) refl refl (omega arith) (omega arith)
      (omega arith)

abbrev posted_ring : Ring
posted_ring = post idle_ring 1 sample_request 3

abbrev completed_ring : Ring
completed_ring = fulfil posted_ring 0 1 (pos 0) sample_response 2

sample_completed :
    complete posted_ring region_bytes 7 0 1 (pos 0) sample_response 2 success
    ≡ (completed_ring, success)
unfolding complete complete_check validate_header header_is_bad post wake_if_sleeping
sample_completed = refl

complete_once_example :
    complete completed_ring region_bytes 7 0 1 (pos 0) sample_request 2 success
    ≡ (completed_ring, err estale)
complete_once_example =
    complete_once posted_ring completed_ring region_bytes 7 0 1 (pos 0) sample_response
      sample_request 2 success success sample_completed

-- Four sets of one layout in the first bank.
abbrev sample_records : ℕ → LeaseRecord
sample_records i = record { layout_id = 8; descriptor_set_id = 100 + i }

abbrev lease_ring : Ring
lease_ring = record idle_ring {
  banks = update idle_ring.banks 0 (published_bank 5 1 sample_records 4);
}

abbrev two_sets : ClaimRequest
two_sets = record { length = region_bytes; pool_id = 5; layout_ids = λ _. 8; count = 2 }

sample_claimed : (claimed lease_ring two_sets).1 ≡ ok (lease_of lease_ring 0 2)
unfolding claim claim_check validate_header header_is_bad find_bank bank_serves record_serves
    all_below
sample_claimed = refl

claim-Serves_example :
    (0 < bank_count) × Serves (lease_ring.banks 0) two_sets (lease_of lease_ring 0 2)
claim-Serves_example = claim-Serves lease_ring two_sets (lease_of lease_ring 0 2) sample_claimed

lease_ring_valid : validate lease_ring region_bytes 7 ≡ success
unfolding validate validate_header header_is_bad all_below slot_is_valid bank_is_valid
lease_ring_valid = refl

one_claim : Run region_bytes 7 lease_ring ((claimed lease_ring two_sets).0)
one_claim =
    goes lease_ring ((claimed lease_ring two_sets).0) ((claimed lease_ring two_sets).0)
      (claims lease_ring two_sets) (ends ((claimed lease_ring two_sets).0))

validate-Run_example : validate ((claimed lease_ring two_sets).0) region_bytes 7 ≡ success
validate-Run_example =
    validate-Run region_bytes 7 lease_ring ((claimed lease_ring two_sets).0) lease_ring_valid
      one_claim

-- The request comes while the service spins.
abbrev busy_ring : Ring
busy_ring = record idle_ring { request_sequence = 1 }

abbrev one_turn : List Spin
one_turn = record { now = some 20; memory = busy_ring } ∷ []

sample_waited :
    wait_for_sequence request_word 1 1000 (some 10) one_turn [] idle_ring
    ≡ some (with_state request_word busy_ring wait_idle, success)
unfolding wait_for_sequence poll peer_status spin after_spin
sample_waited = refl

wait_for_sequence-Shows_example : Shows request_word 1 (with_state request_word busy_ring wait_idle)
wait_for_sequence-Shows_example =
    wait_for_sequence-Shows request_word 1 1000 (some 10) one_turn [] idle_ring
      (with_state request_word busy_ring wait_idle) sample_waited

-- Turns past the deadline in which nothing comes.
abbrev late_turns : ℕ → List Spin
late_turns zero = []
late_turns (suc n) = record { now = some 2000; memory = idle_ring } ∷ late_turns n

abbrev last_wait : List (Wait Ring)
last_wait = record { now = some 2000; result = woken; memory = idle_ring } ∷ []
