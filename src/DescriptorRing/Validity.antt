-- ===== src/DescriptorRing/Validity.antt =====
-- Each operation on the descriptor ring keeps what validate checks.
use bionic_vulkan_bridge.Prelude.{
  ℕ, zero, suc, ◌+◌, ◌≤◌, ◌<◌, ◌≡◌, arith, refl, success, true, false, Bool, Result-cases,
  Bool-cases, inl, inr, update, update_self, update_ne, all_below, all_below_at, all_below_of,
  ℕ_discrete, ℤ, pos, negsuc, Status,
}
use native.Mathlib.Nat.{mod-lt}
use bionic_vulkan_bridge.Wire.{Buffer}
use bionic_vulkan_bridge.DescriptorRing.{
  Ring, Slot, Bank, LeaseRecord, header_is_bad, validate_header, validate, slot_is_valid,
  bank_is_valid, bank_count, blank_slot, blank_bank, wait_sleeping,
}
use bionic_vulkan_bridge.DescriptorRing.Waiting.{Word, request_word, completion_word, with_state}
use bionic_vulkan_bridge.DescriptorRing.Transactions.{
  call_check, post, receive, completion_is_bad, settled, complete, complete_check, fulfil,
  fail_check, fail_client, fail_service, slot_index, request_slot, completed_slot,
}
use bionic_vulkan_bridge.DescriptorRing.Leases.{
  disable, disable_check, publish, publish_check, published_bank,
}
use bionic_vulkan_bridge.DescriptorRing.Delivery.{call_check_lem, complete_check_lem}
use bionic_vulkan_bridge.DescriptorRing.Disjoint.{
  ClaimRequest, claimed, claim_keeps, claim_advances,
}

-- What validate checks, taken apart.
pub record IsValid (length generation : ℕ) (r : Ring) : Type 0 where
  pub header : header_is_bad r length generation ≡ false
  pub next_lem : r.next_slot < r.slot_count
  pub slots_lem : (i : ℕ) → i < r.slot_count → slot_is_valid (r.slots i) ≡ true
  pub banks_lem : (i : ℕ) → i < bank_count → bank_is_valid (r.banks i) ≡ true

validate_parts :
    (r : Ring) (length generation : ℕ)
    → validate r length generation ≡ success
    → (header_is_bad r length generation ≡ false)
      × (r.next_slot < r.slot_count)
      × (all_below r.slot_count (λ index. slot_is_valid (r.slots index)) ≡ true)
      × (all_below bank_count (λ index. bank_is_valid (r.banks index)) ≡ true)
unfolding validate validate_header
validate_parts r length generation e = ground (arith, e)

pub validate-IsValid :
    (r : Ring) (length generation : ℕ)
    → validate r length generation ≡ success
    → IsValid length generation r
validate-IsValid r length generation e =
    let (header, next, slots, banks) = validate_parts r length generation e in
    record {
      header = header;
      next_lem = next;
      slots_lem = all_below_at (λ index. slot_is_valid (r.slots index)) r.slot_count slots;
      banks_lem = all_below_at (λ index. bank_is_valid (r.banks index)) bank_count banks;
    }

pub IsValid-validate :
    (r : Ring) (length generation : ℕ)
    → IsValid length generation r
    → validate r length generation ≡ success
unfolding validate validate_header
IsValid-validate r length generation h =
    rw
      (
        h.header,
        all_below_of (λ index. slot_is_valid (r.slots index)) r.slot_count h.slots_lem,
        all_below_of (λ index. bank_is_valid (r.banks index)) bank_count h.banks_lem,
      )
      (ground (arith, h.next_lem))

update-holds :
    {A : Type 0} (p : A → Bool) (f : ℕ → A) (k : ℕ) (a : A) (n : ℕ)
    → ((i : ℕ) → i < n → p (f i) ≡ true)
    → p a ≡ true
    → (i : ℕ) → i < n
    → p (update f k a i) ≡ true
update-holds p f k a n h e i l = elim (ℕ_discrete k i) [
  | yes same ↦ rw (← same) (rw (update_self f k a) e)
  | no other ↦ rw (update_ne f k a i other) (h i l)
]

published_bank-IsBank :
    (r : Ring) (length bank pool_id epoch : ℕ) (records : ℕ → LeaseRecord) (count : ℕ)
    → publish_check r length bank pool_id epoch records count ≡ success
    → bank_is_valid (published_bank pool_id epoch records count) ≡ true
unfolding publish_check bank_is_valid
published_bank-IsBank r length bank pool_id epoch records count e = ground (arith, e)

cursor-IsBank :
    (bank : Bank) (count : ℕ)
    → bank_is_valid bank ≡ true
    → bank.cursor + count ≤ bank.count
    → bank_is_valid (record bank { cursor = bank.cursor + count }) ≡ true
unfolding bank_is_valid
cursor-IsBank bank count e fits = ground (arith, e, fits)

blank_bank-IsBank : bank_is_valid blank_bank ≡ true
unfolding bank_is_valid
blank_bank-IsBank = refl

module _ (length generation : ℕ) (r : Ring) (h : IsValid length generation r) where
  with_slot :
      (k : ℕ) (slot : Slot)
      → slot_is_valid slot ≡ true
      → (i : ℕ) → i < r.slot_count
      → slot_is_valid (update r.slots k slot i) ≡ true
  with_slot k slot = update-holds slot_is_valid r.slots k slot r.slot_count h.slots_lem

  with_bank :
      (k : ℕ) (bank : Bank)
      → bank_is_valid bank ≡ true
      → IsValid length generation (record r { banks = update r.banks k bank })
  unfolding header_is_bad
  with_bank k bank e = record {
    header = h.header;
    next_lem = h.next_lem;
    slots_lem = h.slots_lem;
    banks_lem = update-holds bank_is_valid r.banks k bank bank_count h.banks_lem e;
  }

  pub posts-IsValid :
      (sequence : ℕ) (request : Buffer) (request_length timeout_ms : ℕ)
      → call_check r length generation sequence request_length timeout_ms ≡ success
      → IsValid length generation (post r sequence request request_length)
  unfolding post header_is_bad slot_is_valid
  posts-IsValid sequence request request_length timeout_ms e =
      let (_, _, small, _, _) =
        call_check_lem r length generation sequence request_length timeout_ms e in
      record {
        header = h.header;
        next_lem = h.next_lem;
        slots_lem =
            with_slot (slot_index r sequence) (request_slot sequence request request_length)
              (ground (arith, small));
        banks_lem = h.banks_lem;
      }

  settled-IsValid :
      (status : ℤ) (index : ℕ) → IsValid length generation ((settled status r index).0)
  unfolding header_is_bad slot_is_valid
  settled-IsValid (pos zero) index = record {
    header = h.header;
    next_lem = mod-lt (index + 1) (omega (arith, h.next_lem));
    slots_lem = with_slot index blank_slot refl;
    banks_lem = h.banks_lem;
  }
  settled-IsValid (pos (suc n)) index = h
  settled-IsValid (negsuc n) index = h

  pub receives-IsValid :
      (sequence capacity : ℕ) → IsValid length generation ((receive r sequence capacity).0)
  unfolding receive
  receives-IsValid sequence capacity =
      let index = slot_index r sequence in
      elim (Bool-cases (completion_is_bad (r.slots index) sequence capacity)) [
        | inl bad ↦ rw (receive, bad) h
        | inr good ↦ rw (receive, good) (settled-IsValid (r.slots index).status index)
      ]

  pub waits-IsValid :
      (word : Word) (state : ℕ)
      → state ≤ wait_sleeping
      → IsValid length generation (with_state word r state)
  unfolding header_is_bad
  waits-IsValid request_word state l = record {
    header = ground (arith, l, h.header);
    next_lem = h.next_lem;
    slots_lem = h.slots_lem;
    banks_lem = h.banks_lem;
  }
  waits-IsValid completion_word state l = record {
    header = ground (arith, l, h.header);
    next_lem = h.next_lem;
    slots_lem = h.slots_lem;
    banks_lem = h.banks_lem;
  }

  pub completes-IsValid :
      (index sequence : ℕ) (status : ℤ) (response : Buffer) (response_length : ℕ) (wake : Status)
      → IsValid length generation
          ((complete r length generation index sequence status response response_length wake).0)
  unfolding complete fulfil header_is_bad slot_is_valid
  completes-IsValid index sequence status response response_length wake =
      elim (Result-cases
        (complete_check r length generation index sequence status response_length)) [
          | inr (error, refused) ↦ rw (complete, refused) h
          | inl (_, checked) ↦
              let (small, _, _, inside) =
                complete_check_lem r length generation index sequence status response_length
                  checked in
              let before = h.slots_lem index inside in
              rw (complete, checked)
                (record {
                  header = h.header;
                  next_lem = h.next_lem;
                  slots_lem =
                      with_slot index
                        (completed_slot (r.slots index) status response response_length)
                        (ground (arith, small, before));
                  banks_lem = h.banks_lem;
                })
        ]

  pub fails_client-IsValid :
      (status : ℤ) (first second : Status)
      → IsValid length generation ((fail_client r status first second).0)
  unfolding fail_client header_is_bad
  fails_client-IsValid status first second = elim (Result-cases (fail_check r status)) [
    | inr (error, refused) ↦ rw (fail_client, refused) h
    | inl (_, checked) ↦
        rw (fail_client, checked)
          (record {
            header = h.header;
            next_lem = h.next_lem;
            slots_lem = h.slots_lem;
            banks_lem = h.banks_lem;
          })
  ]

  pub fails_service-IsValid :
      (status : ℤ) (first second : Status)
      → IsValid length generation ((fail_service r status first second).0)
  unfolding fail_service header_is_bad
  fails_service-IsValid status first second = elim (Result-cases (fail_check r status)) [
    | inr (error, refused) ↦ rw (fail_service, refused) h
    | inl (_, checked) ↦
        rw (fail_service, checked)
          (record {
            header = h.header;
            next_lem = h.next_lem;
            slots_lem = h.slots_lem;
            banks_lem = h.banks_lem;
          })
  ]

  pub disables-IsValid : (bank : ℕ) → IsValid length generation ((disable r length bank).0)
  unfolding disable
  disables-IsValid bank = elim (Result-cases (disable_check r length bank)) [
    | inr (error, refused) ↦ rw (disable, refused) h
    | inl (_, checked) ↦ rw (disable, checked) (with_bank bank blank_bank blank_bank-IsBank)
  ]

  pub publishes-IsValid :
      (bank pool_id epoch : ℕ) (records : ℕ → LeaseRecord) (count : ℕ)
      → IsValid length generation ((publish r length bank pool_id epoch records count).0)
  unfolding publish
  publishes-IsValid bank pool_id epoch records count =
      elim (Result-cases (publish_check r length bank pool_id epoch records count)) [
        | inr (error, refused) ↦ rw (publish, refused) h
        | inl (_, checked) ↦
            rw (publish, checked)
              (with_bank bank (published_bank pool_id epoch records count)
                (published_bank-IsBank r length bank pool_id epoch records count checked))
      ]

  pub claims-IsValid : (q : ClaimRequest) → IsValid length generation ((claimed r q).0)
  claims-IsValid q = elim (Result-cases ((claimed r q).1)) [
    | inr (error, refused) ↦ rw (claim_keeps r q error refused) h
    | inl (lease, taken) ↦
        let (b, below, fits, after) = claim_advances r q lease taken in
        rw after (
          with_bank b (record (r.banks b) { cursor = (r.banks b).cursor + q.count })
            (cursor-IsBank (r.banks b) q.count (h.banks_lem b below) fits))
  ]
