-- ===== src/CommandBatch/Payload/State/Local.antt =====
-- The validators of State read within the length of their payload.
use bionic_vulkan_bridge.Prelude.{
  ℕ, ◌+◌, ◌*◌, ◌≤◌, ◌≡◌, arith, refl, ◌==◌, all_below, all_below_ext, ==_iff, Bool-cases, Option,
  none, some, inl, inr,
}
use bionic_vulkan_bridge.Wire.{Buffer, get_u32}
use bionic_vulkan_bridge.Wire.Canonical.{AgreeTo}
use bionic_vulkan_bridge.CommandBatch.Payload.Words.{float_word_is_finite}
use bionic_vulkan_bridge.CommandBatch.Payload.Words.Reads.{u32_same, u64_same}
use bionic_vulkan_bridge.CommandBatch.Payload.State.{
  sets_are_valid, offsets_are_zero, bind_descriptor_sets_is_valid, constants_are_zero,
  push_constants_is_valid, kind_is_enable, kind_is_stencil_pair, expected_values,
  dynamic_values_are_valid, value_at, values_are_zero, values_are_valid, dynamic_state_is_valid,
  query_is_valid, begin_is_valid,
}

module _ (n : ℕ) (p q : Buffer) (h : AgreeTo n p q) where
  sets_are_valid-agree : (count : ℕ) → 88 ≤ n → sets_are_valid p count ≡ sets_are_valid q count
  unfolding sets_are_valid
  sets_are_valid-agree count l =
      all_below_ext 8 (λ i b. rw (u64_same n p q h (24 + i * 8) (omega (arith, b, l))) refl)

  offsets_are_zero-agree :
      (count : ℕ) → 216 ≤ n → offsets_are_zero p count ≡ offsets_are_zero q count
  unfolding offsets_are_zero
  offsets_are_zero-agree count l =
      all_below_ext 32 (λ i b. rw (u32_same n p q h (88 + i * 4) (omega (arith, b, l))) refl)

  pub bind_descriptor_sets_is_valid-agree :
      216 ≤ n → bind_descriptor_sets_is_valid p ≡ bind_descriptor_sets_is_valid q
  unfolding bind_descriptor_sets_is_valid
  bind_descriptor_sets_is_valid-agree l =
      rw
        (
          u64_same n p q h 0 (omega (arith, l)),
          u32_same n p q h 8 (omega (arith, l)),
          u32_same n p q h 16 (omega (arith, l)),
          u32_same n p q h 20 (omega (arith, l)),
          sets_are_valid-agree (get_u32 q 16) (omega (arith, l)),
          offsets_are_zero-agree (get_u32 q 20) l,
        )
        refl

  constants_are_zero-agree :
      (size : ℕ) → 280 ≤ n → constants_are_zero p size ≡ constants_are_zero q size
  unfolding constants_are_zero
  constants_are_zero-agree size l =
      all_below_ext 256 (λ i b. rw (h (24 + i) (omega (arith, b, l))) refl)

  pub push_constants_is_valid-agree :
      280 ≤ n → push_constants_is_valid p ≡ push_constants_is_valid q
  unfolding push_constants_is_valid
  push_constants_is_valid-agree l =
      rw
        (
          u64_same n p q h 0 (omega (arith, l)),
          u32_same n p q h 8 (omega (arith, l)),
          u32_same n p q h 12 (omega (arith, l)),
          u32_same n p q h 16 (omega (arith, l)),
          u32_same n p q h 20 (omega (arith, l)),
          constants_are_zero-agree (get_u32 q 16) l,
        )
        refl

  expected_values-le : (kind expected : ℕ) → expected_values kind ≡ some expected → expected ≤ 5
  unfolding expected_values kind_is_enable kind_is_stencil_pair
  expected_values-le kind expected e = ground (arith, e)

  values_are_zero-agree : (count : ℕ) → 40 ≤ n → values_are_zero p count ≡ values_are_zero q count
  unfolding values_are_zero
  values_are_zero-agree count l =
      all_below_ext 8 (λ i b. rw (u32_same n p q h (8 + i * 4) (omega (arith, b, l))) refl)

  floats-agree :
      (count : ℕ)
      → count ≤ 5
      → 40 ≤ n
      → all_below count (λ index. float_word_is_finite (value_at p index))
        ≡ all_below count (λ index. float_word_is_finite (value_at q index))
  floats-agree count c l =
      all_below_ext count (λ i b. rw (u32_same n p q h (8 + i * 4) (omega (arith, b, c, l))) refl)

  dynamic_values_are_valid-agree :
      (kind count : ℕ)
      → count ≤ 5
      → 40 ≤ n
      → dynamic_values_are_valid kind count (value_at p)
        ≡ dynamic_values_are_valid kind count (value_at q)
  unfolding dynamic_values_are_valid
  dynamic_values_are_valid-agree kind count c l =
      rw
        (
          floats-agree count c l,
          u32_same n p q h 8 (omega (arith, l)),
          u32_same n p q h 12 (omega (arith, l)),
          u32_same n p q h 16 (omega (arith, l)),
          u32_same n p q h 20 (omega (arith, l)),
          u32_same n p q h 24 (omega (arith, l)),
        )
        refl

  values_are_valid-agree :
      (expected : Option ℕ) (kind count : ℕ)
      → expected_values kind ≡ expected
      → 40 ≤ n
      → values_are_valid expected p kind count ≡ values_are_valid expected q kind count
  unfolding values_are_valid
  values_are_valid-agree none kind count known l = refl
  values_are_valid-agree (some expected) kind count known l =
      elim (Bool-cases (count == expected)) [
        | inl same ↦
            rw
              (
                same,
                values_are_zero-agree count l,
                dynamic_values_are_valid-agree kind count
                    (omega (
                      arith,
                      (==_iff count expected).0 same,
                      expected_values-le kind expected known,
                    ))
                    l,
              )
              refl
        | inr other ↦ rw other refl
      ]

  pub dynamic_state_is_valid-agree : 40 ≤ n → dynamic_state_is_valid p ≡ dynamic_state_is_valid q
  unfolding dynamic_state_is_valid
  dynamic_state_is_valid-agree l =
      rw (u32_same n p q h 0 (omega (arith, l)), u32_same n p q h 4 (omega (arith, l)))
        (values_are_valid-agree (expected_values (get_u32 q 0)) (get_u32 q 0) (get_u32 q 4) refl l)

  pub query_is_valid-agree : 40 ≤ n → query_is_valid p ≡ query_is_valid q
  unfolding query_is_valid
  query_is_valid-agree l =
      rw
        (
          u64_same n p q h 0 (omega (arith, l)),
          u64_same n p q h 8 (omega (arith, l)),
          u32_same n p q h 20 (omega (arith, l)),
          u32_same n p q h 24 (omega (arith, l)),
          u32_same n p q h 28 (omega (arith, l)),
          u32_same n p q h 32 (omega (arith, l)),
          u32_same n p q h 36 (omega (arith, l)),
        )
        refl

  pub begin_is_valid-agree : 8 ≤ n → begin_is_valid p ≡ begin_is_valid q
  unfolding begin_is_valid
  begin_is_valid-agree l =
      rw (u32_same n p q h 0 (omega (arith, l)), u32_same n p q h 4 (omega (arith, l))) refl
