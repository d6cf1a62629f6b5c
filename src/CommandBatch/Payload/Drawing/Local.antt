-- ===== src/CommandBatch/Payload/Drawing/Local.antt =====
-- The validators of Drawing read within the length of their payload.
use bionic_vulkan_bridge.Prelude.{
  ℕ, ◌+◌, ◌*◌, ◌≤◌, ◌<◌, Bool, true, false, ◌≡◌, arith, refl, all_below, all_below_ext,
}
use bionic_vulkan_bridge.Wire.{Buffer, get_u32}
use bionic_vulkan_bridge.Wire.Canonical.{AgreeTo}
use bionic_vulkan_bridge.CommandBatch.Payload.Words.Reads.{u32_same, u64_same, zeros_same}
use bionic_vulkan_bridge.CommandBatch.Payload.Drawing.{
  attachment_is_valid, optional_attachment_is_valid, colors_are_valid, begin_rendering_is_valid,
  bind_graphics_pipeline_is_valid, viewport_is_finite, set_viewport_is_valid, set_scissor_is_valid,
  draw_is_valid, push_rotation_is_valid, vertex_binding_is_valid, bind_vertex_buffers_is_valid,
  bind_index_buffer_is_valid, draw_indexed_is_valid, draw_indirect_is_valid,
  draw_indirect_count_is_valid,
}

module _ (n : ℕ) (p q : Buffer) (h : AgreeTo n p q) where
  pub attachment_is_valid-agree :
      (o : ℕ) (required : Bool)
      → o + 56 ≤ n
      → attachment_is_valid p o required ≡ attachment_is_valid q o required
  unfolding attachment_is_valid
  attachment_is_valid-agree o required l =
      rw
        (
          u64_same n p q h o (omega (arith, l)),
          u64_same n p q h (o + 8) (omega (arith, l)),
          u32_same n p q h (o + 16) (omega (arith, l)),
          u32_same n p q h (o + 20) (omega (arith, l)),
          u32_same n p q h (o + 24) (omega (arith, l)),
          u32_same n p q h (o + 36) (omega (arith, l)),
        )
        refl

  pub optional_attachment_is_valid-agree :
      (present o : ℕ)
      → o + 56 ≤ n
      → optional_attachment_is_valid p present o ≡ optional_attachment_is_valid q present o
  unfolding optional_attachment_is_valid
  optional_attachment_is_valid-agree present o l =
      rw (attachment_is_valid-agree o true l, zeros_same n p q h o 56 l) refl

  pub colors_are_valid-agree :
      (count : ℕ) → 488 ≤ n → colors_are_valid p count ≡ colors_are_valid q count
  unfolding colors_are_valid
  colors_are_valid-agree count l = all_below_ext 8 (λ i b.
      rw
        (
          zeros_same n p q h (40 + i * 56) 56 (omega (arith, b, l)),
          attachment_is_valid-agree (40 + i * 56) false (omega (arith, b, l)),
        )
        refl)

  pub begin_rendering_is_valid-agree :
      600 ≤ n → begin_rendering_is_valid p ≡ begin_rendering_is_valid q
  unfolding begin_rendering_is_valid
  begin_rendering_is_valid-agree l =
      rw
        (
          u32_same n p q h 12 (omega (arith, l)),
          u32_same n p q h 16 (omega (arith, l)),
          u32_same n p q h 20 (omega (arith, l)),
          u32_same n p q h 28 (omega (arith, l)),
          u32_same n p q h 32 (omega (arith, l)),
          u32_same n p q h 36 (omega (arith, l)),
          colors_are_valid-agree (get_u32 q 28) (omega (arith, l)),
          optional_attachment_is_valid-agree (get_u32 q 32) 488 (omega (arith, l)),
          optional_attachment_is_valid-agree (get_u32 q 36) 544 (omega (arith, l)),
        )
        refl

  pub bind_graphics_pipeline_is_valid-agree :
      16 ≤ n → bind_graphics_pipeline_is_valid p ≡ bind_graphics_pipeline_is_valid q
  unfolding bind_graphics_pipeline_is_valid
  bind_graphics_pipeline_is_valid-agree l =
      rw
        (
          u64_same n p q h 0 (omega (arith, l)),
          u32_same n p q h 8 (omega (arith, l)),
          u32_same n p q h 12 (omega (arith, l)),
        )
        refl

  pub viewport_is_finite-agree : 24 ≤ n → viewport_is_finite p ≡ viewport_is_finite q
  unfolding viewport_is_finite
  viewport_is_finite-agree l =
      all_below_ext 6 (λ i b. rw (u32_same n p q h (i * 4) (omega (arith, b, l))) refl)

  pub set_viewport_is_valid-agree : 24 ≤ n → set_viewport_is_valid p ≡ set_viewport_is_valid q
  unfolding set_viewport_is_valid
  set_viewport_is_valid-agree l =
      rw
        (
          u32_same n p q h 8 (omega (arith, l)),
          u32_same n p q h 12 (omega (arith, l)),
          u32_same n p q h 16 (omega (arith, l)),
          u32_same n p q h 20 (omega (arith, l)),
          viewport_is_finite-agree l,
        )
        refl

  pub set_scissor_is_valid-agree : 16 ≤ n → set_scissor_is_valid p ≡ set_scissor_is_valid q
  unfolding set_scissor_is_valid
  set_scissor_is_valid-agree l =
      rw (u32_same n p q h 8 (omega (arith, l)), u32_same n p q h 12 (omega (arith, l))) refl

  pub draw_is_valid-agree : 16 ≤ n → draw_is_valid p ≡ draw_is_valid q
  unfolding draw_is_valid
  draw_is_valid-agree l =
      rw (u32_same n p q h 0 (omega (arith, l)), u32_same n p q h 4 (omega (arith, l))) refl

  pub push_rotation_is_valid-agree : 16 ≤ n → push_rotation_is_valid p ≡ push_rotation_is_valid q
  unfolding push_rotation_is_valid
  push_rotation_is_valid-agree l =
      rw
        (
          u64_same n p q h 0 (omega (arith, l)),
          u32_same n p q h 8 (omega (arith, l)),
          u32_same n p q h 12 (omega (arith, l)),
        )
        refl

  pub vertex_binding_is_valid-agree :
      (index : ℕ)
      → index < 16
      → 528 ≤ n
      → vertex_binding_is_valid p index ≡ vertex_binding_is_valid q index
  unfolding vertex_binding_is_valid
  vertex_binding_is_valid-agree index b l =
      rw
        (
          u32_same n p q h 4 (omega (arith, l)),
          u32_same n p q h 8 (omega (arith, l)),
          u32_same n p q h 12 (omega (arith, l)),
          u64_same n p q h (16 + index * 8) (omega (arith, b, l)),
          u64_same n p q h (144 + index * 8) (omega (arith, b, l)),
          u64_same n p q h (272 + index * 8) (omega (arith, b, l)),
          u64_same n p q h (400 + index * 8) (omega (arith, b, l)),
        )
        refl

  vertex_bindings-agree :
      528 ≤ n → all_below 16 (vertex_binding_is_valid p) ≡ all_below 16 (vertex_binding_is_valid q)
  vertex_bindings-agree l = all_below_ext 16 (λ i b. vertex_binding_is_valid-agree i b l)

  pub bind_vertex_buffers_is_valid-agree :
      (plain : Bool)
      → 528 ≤ n
      → bind_vertex_buffers_is_valid plain p ≡ bind_vertex_buffers_is_valid plain q
  unfolding bind_vertex_buffers_is_valid
  bind_vertex_buffers_is_valid-agree plain l =
      rw
        (
          u32_same n p q h 4 (omega (arith, l)),
          u32_same n p q h 8 (omega (arith, l)),
          u32_same n p q h 12 (omega (arith, l)),
          vertex_bindings-agree l,
        )
        refl

  pub bind_index_buffer_is_valid-agree :
      (plain : Bool)
      → 32 ≤ n
      → bind_index_buffer_is_valid plain p ≡ bind_index_buffer_is_valid plain q
  unfolding bind_index_buffer_is_valid
  bind_index_buffer_is_valid-agree plain l =
      rw
        (
          u64_same n p q h 0 (omega (arith, l)),
          u64_same n p q h 16 (omega (arith, l)),
          u32_same n p q h 28 (omega (arith, l)),
        )
        refl

  pub draw_indexed_is_valid-agree : 24 ≤ n → draw_indexed_is_valid p ≡ draw_indexed_is_valid q
  unfolding draw_indexed_is_valid
  draw_indexed_is_valid-agree l = rw (u32_same n p q h 20 (omega (arith, l))) refl

  pub draw_indirect_is_valid-agree :
      (minimum : ℕ) → 32 ≤ n → draw_indirect_is_valid minimum p ≡ draw_indirect_is_valid minimum q
  unfolding draw_indirect_is_valid
  draw_indirect_is_valid-agree minimum l =
      rw
        (
          u64_same n p q h 0 (omega (arith, l)),
          u32_same n p q h 16 (omega (arith, l)),
          u32_same n p q h 20 (omega (arith, l)),
          u64_same n p q h 24 (omega (arith, l)),
        )
        refl

  pub draw_indirect_count_is_valid-agree :
      (minimum : ℕ)
      → 48 ≤ n
      → draw_indirect_count_is_valid minimum p ≡ draw_indirect_count_is_valid minimum q
  unfolding draw_indirect_count_is_valid
  draw_indirect_count_is_valid-agree minimum l =
      rw
        (
          u64_same n p q h 0 (omega (arith, l)),
          u64_same n p q h 16 (omega (arith, l)),
          u32_same n p q h 32 (omega (arith, l)),
          u32_same n p q h 36 (omega (arith, l)),
          u64_same n p q h 40 (omega (arith, l)),
        )
        refl
