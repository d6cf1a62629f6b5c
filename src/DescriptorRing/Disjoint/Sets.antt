-- ===== src/DescriptorRing/Disjoint/Sets.antt =====
-- The descriptor sets that claims hand out: claim of src/descriptor_transaction_ring.c.
use bionic_vulkan_bridge.Prelude.{ℕ, ◌+◌, ◌≤◌, ◌<◌, ◌≡◌, ◌≢◌, List, [], ◌∷◌}
use bionic_vulkan_bridge.DescriptorRing.{Ring, bank_count}
use bionic_vulkan_bridge.DescriptorRing.Leases.{Lease}

-- No descriptor set is in both leases.
abbrev pub Apart : Lease → Lease → Type 0
Apart l m = (i j : ℕ) → i < l.count → j < m.count → l.descriptor_set_ids i ≢ m.descriptor_set_ids j

abbrev pub AllApart : Lease → List Lease → Type 0
AllApart l [] = Unit {0}
AllApart l (m ∷ ms) = Apart l m × AllApart l ms

abbrev pub AreDisjoint : List Lease → Type 0
AreDisjoint [] = Unit {0}
AreDisjoint (l ∷ ls) = AllApart l ls × AreDisjoint ls

-- The set that a bank has at an index.
abbrev pub set_at : Ring → ℕ → ℕ → ℕ
set_at r b i = ((r.banks b).records i).descriptor_set_id

-- No descriptor set stands twice in the banks.
abbrev pub HoldsDistinctSets : Ring → Type 0
HoldsDistinctSets r =
    (b c i j : ℕ)
    → b < bank_count
    → c < bank_count
    → i < (r.banks b).count
    → j < (r.banks c).count
    → set_at r b i ≡ set_at r c j
    → (b ≡ c) × (i ≡ j)

-- The later lease starts behind the earlier one, where both are of the same bank.
abbrev IsBehind : Lease → Lease → Type 0
IsBehind l m = l.bank ≡ m.bank → l.first + l.count ≤ m.first

abbrev AllBehind : Lease → List Lease → Type 0
AllBehind l [] = Unit {0}
AllBehind l (m ∷ ms) = IsBehind l m × AllBehind l ms

abbrev StartFrom : (ℕ → ℕ) → List Lease → Type 0
StartFrom c [] = Unit {0}
StartFrom c (m ∷ ms) = (c m.bank ≤ m.first) × StartFrom c ms

-- The lease is of sets that a bank of the region holds.
record IsOf (r : Ring) (lease : Lease) : Type 0 where
  bank_lem : lease.bank < bank_count
  within : lease.first + lease.count ≤ (r.banks lease.bank).count
  sets :
      (i : ℕ) → i < lease.count → lease.descriptor_set_ids i ≡ set_at r lease.bank (lease.first + i)

abbrev AllOf : Ring → List Lease → Type 0
AllOf r [] = Unit {0}
AllOf r (l ∷ ls) = IsOf r l × AllOf r ls

-- A claim leaves the sets of the banks as they are.
abbrev KeepsSets : Ring → Ring → Type 0
KeepsSets r r' =
    (b : ℕ) → ((r'.banks b).count ≡ (r.banks b).count) × ((i : ℕ) → set_at r' b i ≡ set_at r b i)
