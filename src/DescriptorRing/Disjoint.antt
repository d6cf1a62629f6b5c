-- ===== src/DescriptorRing/Disjoint.antt =====
-- Claims on the lease banks: what one gets and what it does to the cursors.
pub mod Sets
use bionic_vulkan_bridge.Prelude.{
  ℕ, zero, suc, ◌+◌, ◌≤◌, ◌<◌, ◌≡◌, ◌≢◌, List, [], ◌∷◌, arith, refl, sym, ap, ◌∙◌, ℕ_discrete,
  Error, ok, err, true, some, Option-cases, Result, Result-cases, Bool-cases, inl, inr, update_self,
  update_ne, all_below, all_below_at,
}
use bionic_vulkan_bridge.DescriptorRing.{Ring, Bank, bank_count}
use bionic_vulkan_bridge.DescriptorRing.Leases.{
  Lease, claim, claim_check, find_bank, bank_serves, record_serves, lease_of, advanced_cursor,
}

-- One call of claim: the length, the pool and the layouts asked for.
pub record ClaimRequest : Type 0 where
  pub length : ℕ
  pub pool_id : ℕ
  pub layout_ids : ℕ → ℕ
  pub count : ℕ

abbrev pub claimed : Ring → ClaimRequest → Ring × Result Lease
claimed r q = claim r q.length q.pool_id q.layout_ids q.count

abbrev pub kept : Result Lease → List Lease → List Lease
kept (ok lease) rest = lease ∷ rest
kept (err e) rest = rest

-- The leases that a sequence of claims yields.
abbrev pub leases : Ring → List ClaimRequest → List Lease
leases r [] = []
leases r (q ∷ qs) = kept ((claimed r q).1) (leases ((claimed r q).0) qs)

abbrev cursor_in : Bank → ℕ
cursor_in bank = bank.cursor

abbrev pub cursor_of : Ring → ℕ → ℕ
cursor_of r b = (r.banks b).cursor

pub claim_lem :
    (r : Ring) (q : ClaimRequest) (lease : Lease)
    → (claimed r q).1 ≡ ok lease
    → (b : ℕ) × (find_bank r.banks q.pool_id q.layout_ids q.count bank_count 0 ≡ some b)
      × (lease ≡ lease_of r b q.count)
      × ((claimed r q).0 ≡ advanced_cursor r b q.count)
unfolding claim
claim_lem r q lease e = elim (Result-cases (claim_check r q.length q.pool_id q.count)) [
  | inr (error, refused) ↦ absurd (ground (arith, e, refused))
  | inl (_, checked) ↦
      elim (Option-cases (find_bank r.banks q.pool_id q.layout_ids q.count bank_count 0)) [
        | inl nowhere ↦ absurd (ground (arith, e, checked, nowhere))
        | inr (b, found) ↦
            (b, found, ground (arith, e, checked, found), rw (claim, checked, found) refl)
      ]
]

pub claim_keeps :
    (r : Ring) (q : ClaimRequest) (error : Error)
    → (claimed r q).1 ≡ err error
    → (claimed r q).0 ≡ r
unfolding claim
claim_keeps r q error e = elim (Result-cases (claim_check r q.length q.pool_id q.count)) [
  | inr (why, refused) ↦ rw (claim, refused) refl
  | inl (_, checked) ↦
      elim (Option-cases (find_bank r.banks q.pool_id q.layout_ids q.count bank_count 0)) [
        | inl nowhere ↦ rw (claim, checked, nowhere) refl
        | inr (b, found) ↦ absurd (ground (arith, e, checked, found))
      ]
]

abbrev pub with_cursor : Ring → ℕ → ℕ → Bank
with_cursor r b count = record (r.banks b) { cursor = (r.banks b).cursor + count }

cursor_of_self :
    (r : Ring) (b count : ℕ) → cursor_of (advanced_cursor r b count) b ≡ cursor_of r b + count
cursor_of_self r b count = ap cursor_in (update_self r.banks b (with_cursor r b count))

advanced_cursor-le :
    (r : Ring) (b count i : ℕ) → cursor_of r i ≤ cursor_of (advanced_cursor r b count) i
advanced_cursor-le r b count i = elim (ℕ_discrete b i) [
  | yes same ↦ rw (← same) (omega (arith, cursor_of_self r b count))
  | no other ↦ omega (arith, ap cursor_in (update_ne r.banks b (with_cursor r b count) i other))
]

pub claim_cursors :
    (r : Ring) (q : ClaimRequest) (lease : Lease)
    → (claimed r q).1 ≡ ok lease
    → (cursor_of r lease.bank ≤ lease.first)
      × (lease.first + lease.count ≤ cursor_of ((claimed r q).0) lease.bank)
      × ((i : ℕ) → cursor_of r i ≤ cursor_of ((claimed r q).0) i)
claim_cursors r q lease e =
    let (b, _, same, after) = claim_lem r q lease e in
    rw (same, after)
      (
        omega arith,
        omega (arith, cursor_of_self r b q.count),
        λ i. advanced_cursor-le r b q.count i,
      )

find_bank_lem :
    (banks : ℕ → Bank) (pool_id : ℕ) (layout_ids : ℕ → ℕ) (count left start b : ℕ)
    → find_bank banks pool_id layout_ids count left start ≡ some b
    → (bank_serves (banks b) pool_id layout_ids count ≡ true) × (b < start + left)
unfolding find_bank
find_bank_lem banks pool_id layout_ids count zero start b e = absurd (ground (arith, e))
find_bank_lem banks pool_id layout_ids count (suc left) start b e =
    elim (Bool-cases (bank_serves (banks start) pool_id layout_ids count)) [
      | inl serves ↦
          let same : start ≡ b = ground (arith, e, serves) in
          (rw (← same) serves, omega (arith, same))
      | inr other ↦
          let rest : find_bank banks pool_id layout_ids count left (start + 1) ≡ some b =
            ground (arith, e, other) in
          let (serves, below) =
            find_bank_lem banks pool_id layout_ids count left (start + 1) b rest in
          (serves, omega (arith, below))
    ]

abbrev pub Serves : Bank → ClaimRequest → Lease → Type 0
Serves bank q lease =
    (bank.pool_id ≡ q.pool_id)
    × (lease.first ≡ bank.cursor)
    × (lease.count ≡ q.count)
    × (lease.first + lease.count ≤ bank.count)
    × ((i : ℕ)
        → i < lease.count
        → ((bank.records (lease.first + i)).layout_id ≡ q.layout_ids i)
          × (lease.descriptor_set_ids i ≡ (bank.records (lease.first + i)).descriptor_set_id)
          × (lease.descriptor_set_ids i ≢ 0))

bank_serves_parts :
    (bank : Bank) (q : ClaimRequest)
    → bank_serves bank q.pool_id q.layout_ids q.count ≡ true
    → (bank.pool_id ≡ q.pool_id)
      × (bank.cursor + q.count ≤ bank.count)
      × (all_below q.count (record_serves bank q.layout_ids) ≡ true)
unfolding bank_serves
bank_serves_parts bank q e = ground (arith, e)

record_serves_lem :
    (bank : Bank) (layout_ids : ℕ → ℕ) (i : ℕ)
    → record_serves bank layout_ids i ≡ true
    → ((bank.records (bank.cursor + i)).layout_id ≡ layout_ids i)
      × ((bank.records (bank.cursor + i)).descriptor_set_id ≢ 0)
unfolding record_serves
record_serves_lem bank layout_ids i e = ground (arith, e)

bank_serves_lem :
    (r : Ring) (b : ℕ) (q : ClaimRequest)
    → bank_serves (r.banks b) q.pool_id q.layout_ids q.count ≡ true
    → Serves (r.banks b) q (lease_of r b q.count)
bank_serves_lem r b q e =
    let (pool, fits, all) = bank_serves_parts (r.banks b) q e in
    (
      pool,
      refl,
      refl,
      fits,
      λ i l.
          let (layout, nonzero) =
            record_serves_lem (r.banks b) q.layout_ids i
              (all_below_at (record_serves (r.banks b) q.layout_ids) q.count all i l) in
          (layout, refl, nonzero),
    )

-- A claim that succeeds is served by one of the 64 banks, of the pool asked for: the client gets the records
-- from the bank's cursor on, as many as asked and all within the bank's count, whose layouts are those asked
-- for and whose descriptor sets are nonzero.
pub claim-Serves :
    (r : Ring) (q : ClaimRequest) (lease : Lease)
    → (claimed r q).1 ≡ ok lease
    → (lease.bank < bank_count) × Serves (r.banks lease.bank) q lease
claim-Serves r q lease e =
    let (b, found, same, _) = claim_lem r q lease e in
    let (serves, below) =
      find_bank_lem r.banks q.pool_id q.layout_ids q.count bank_count 0 b found in
    rw same (below, bank_serves_lem r b q serves)

-- What a claim that succeeds does to the region.
pub claim_advances :
    (r : Ring) (q : ClaimRequest) (lease : Lease)
    → (claimed r q).1 ≡ ok lease
    → (b : ℕ) × (b < bank_count)
      × ((r.banks b).cursor + q.count ≤ (r.banks b).count)
      × ((claimed r q).0 ≡ advanced_cursor r b q.count)
claim_advances r q lease e =
    let (b, found, _, after) = claim_lem r q lease e in
    let (serves, below) =
      find_bank_lem r.banks q.pool_id q.layout_ids q.count bank_count 0 b found in
    let (_, fits, _) = bank_serves_parts (r.banks b) q serves in (b, below, fits, after)
