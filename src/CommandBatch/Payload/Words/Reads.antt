-- ===== src/CommandBatch/Payload/Words/Reads.antt =====
-- The reads of a payload that stay within a length: two payloads that agree there read the same.
use bionic_vulkan_bridge.Prelude.{ℕ, ◌+◌, ◌*◌, ◌≤◌, ◌≡◌, arith, refl, ap, ◌==◌, all_below_ext}
use bionic_vulkan_bridge.Wire.{Buffer, get_u32, get_u64}
use bionic_vulkan_bridge.Wire.Canonical.{AgreeTo}
use bionic_vulkan_bridge.CommandBatch.Payload.Words.{
  image_range_is_valid, image_range_is_zero, bytes_are_zero,
}

module _ (n : ℕ) (p q : Buffer) (h : AgreeTo n p q) where
  pub u32_same : (o : ℕ) → o + 4 ≤ n → get_u32 p o ≡ get_u32 q o
  unfolding get_u32
  u32_same o l =
      rw
        (
          h o (omega arith),
          h (o + 1) (omega arith),
          h (o + 2) (omega arith),
          h (o + 3) (omega arith),
        )
        refl

  pub u64_same : (o : ℕ) → o + 8 ≤ n → get_u64 p o ≡ get_u64 q o
  unfolding get_u64
  u64_same o l = rw (u32_same o (omega arith), u32_same (o + 4) (omega arith)) refl

  pub range_same : (o : ℕ) → o + 24 ≤ n → image_range_is_valid p o ≡ image_range_is_valid q o
  unfolding image_range_is_valid
  range_same o l =
      rw
        (
          u32_same o (omega arith),
          u32_same (o + 8) (omega arith),
          u32_same (o + 16) (omega arith),
          u32_same (o + 20) (omega arith),
        )
        refl

  pub zero_range_same : (o : ℕ) → o + 24 ≤ n → image_range_is_zero p o ≡ image_range_is_zero q o
  unfolding image_range_is_zero
  zero_range_same o l =
      all_below_ext 6 (λ i b. ap (λ w. w == 0) (u32_same (o + i * 4) (omega arith)))

  pub zeros_same : (o size : ℕ) → o + size ≤ n → bytes_are_zero p o size ≡ bytes_are_zero q o size
  unfolding bytes_are_zero
  zeros_same o size l = all_below_ext size (λ i b. ap (λ w. w == 0) (h (o + i) (omega arith)))
