-- ===== src/Handle/Table/Indices.antt =====
-- The probe sequence stays inside the array and goes round it by remainders.
use bionic_vulkan_bridge.Prelude.{ℕ, ◌+◌, ◌-◌, ◌%◌, ◌≤◌, ◌<◌, bit_and, ◌≡◌, arith, true}
use bionic_vulkan_bridge.Prelude.Bits.{bit_and_mask}
use bionic_vulkan_bridge.Handle.Table.{capacity_is_valid, hash_wire_id, next_index}

module _ (capacity : ℕ) (valid : capacity_is_valid capacity ≡ true) where
  pub eight-le-capacity : 8 ≤ capacity
  unfolding capacity_is_valid
  eight-le-capacity = ground arith

  masked-mod : (x : ℕ) → bit_and x (capacity - 1) ≡ x % capacity
  unfolding capacity_is_valid
  masked-mod x = bit_and_mask capacity x (ground arith) (ground arith)

  masked-lt : (x : ℕ) → bit_and x (capacity - 1) < capacity
  masked-lt x = omega (arith, masked-mod x, eight-le-capacity)

  pub next_index-mod : (i : ℕ) → next_index capacity i ≡ (i + 1) % capacity
  next_index-mod i = masked-mod (i + 1)

  pub next_index-lt : (i : ℕ) → next_index capacity i < capacity
  next_index-lt i = masked-lt (i + 1)

  pub hash_wire_id-lt : (w : ℕ) → hash_wire_id w capacity < capacity
  unfolding hash_wire_id
  hash_wire_id-lt w = masked-lt _
