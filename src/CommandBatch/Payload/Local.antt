-- ===== src/CommandBatch/Payload/Local.antt =====
-- What a payload is does not depend on the bytes behind its length: the validators read no further.
use bionic_vulkan_bridge.Prelude.{
  ℕ, ◌+◌, ◌*◌, ◌≤◌, true, false, ◌≡◌, arith, refl, sym, inl, inr, Option, Bool-cases, ◌==◌, none,
  some,
}
use native.Mathlib.Decide.{dec_le}
use bionic_vulkan_bridge.Wire.{Buffer, get_u32}
use bionic_vulkan_bridge.Wire.Canonical.{AgreeTo}
use bionic_vulkan_bridge.CommandBatch.Payload.{
  payload_is_valid, validate_payload, opcode_payload_is_valid,
}
use bionic_vulkan_bridge.CommandBatch.Payload.Opcodes.{
  Opcode, opcode_of, transfer_opcode_is_valid, begin_rendering, bind_graphics_pipeline,
  set_viewport, set_scissor, draw, end_rendering, fill_buffer, buffer_host_read_barrier,
  push_rotation, vulkan_image_barrier_2, vulkan_clear_color_image_general,
  vulkan_bind_descriptor_sets, vulkan_push_constants, vulkan_copy_buffer_2,
  vulkan_copy_buffer_to_image_2, vulkan_copy_image_to_buffer_2, vulkan_copy_image_2,
  vulkan_blit_image_2, vulkan_resolve_image_2, vulkan_begin, vulkan_clear_color_image,
  vulkan_init_image_barrier, vulkan_end, vulkan_bind_vertex_buffers, vulkan_bind_vertex_buffers_2,
  vulkan_bind_index_buffer, vulkan_bind_index_buffer_2, vulkan_draw_indexed, vulkan_draw_indirect,
  vulkan_draw_indexed_indirect, vulkan_draw_indirect_count, vulkan_draw_indexed_indirect_count,
  vulkan_dynamic_state, vulkan_clear_depth_stencil_image, vulkan_clear_attachments,
  vulkan_update_buffer, vulkan_query,
}
use bionic_vulkan_bridge.CommandBatch.Payload.Sizes.{
  expected_payload_size, barrier_length_is_valid, update_length_is_valid, transfer_length_is_valid,
  payload_length_is_valid,
}
use bionic_vulkan_bridge.CommandBatch.Payload.Words.Reads.{u32_same}
use bionic_vulkan_bridge.CommandBatch.Payload.Drawing.Local.{
  begin_rendering_is_valid-agree, bind_graphics_pipeline_is_valid-agree,
  set_viewport_is_valid-agree, set_scissor_is_valid-agree, draw_is_valid-agree,
  push_rotation_is_valid-agree, bind_vertex_buffers_is_valid-agree,
  bind_index_buffer_is_valid-agree, draw_indexed_is_valid-agree, draw_indirect_is_valid-agree,
  draw_indirect_count_is_valid-agree,
}
use bionic_vulkan_bridge.CommandBatch.Payload.Resources.Local.{
  fill_buffer_is_valid-agree, buffer_host_read_barrier_is_valid-agree, image_barrier_is_valid-agree,
  clear_color_image_general_is_valid-agree, clear_depth_stencil_image_is_valid-agree,
  clear_attachments_is_valid-agree, transfer_is_valid-agree, update_buffer_is_valid-agree,
  clear_color_image_is_valid-agree, init_image_barrier_is_valid-agree,
}
use bionic_vulkan_bridge.CommandBatch.Payload.State.Local.{
  bind_descriptor_sets_is_valid-agree, push_constants_is_valid-agree, dynamic_state_is_valid-agree,
  query_is_valid-agree, begin_is_valid-agree,
}

module _ (n : ℕ) (p q : Buffer) (h : AgreeTo n p q) where
  barrier_length_is_valid-agree : barrier_length_is_valid p n ≡ barrier_length_is_valid q n
  unfolding barrier_length_is_valid
  barrier_length_is_valid-agree = elim (dec_le 16 n) [
    | yes l ↦
        rw
          (
            u32_same n p q h 4 (omega (arith, l)),
            u32_same n p q h 8 (omega (arith, l)),
            u32_same n p q h 12 (omega (arith, l)),
          )
          refl
    | no short ↦ ground arith
  ]

  update_length_is_valid-agree : update_length_is_valid p n ≡ update_length_is_valid q n
  unfolding update_length_is_valid
  update_length_is_valid-agree = elim (dec_le 24 n) [
    | yes l ↦ rw (u32_same n p q h 16 (omega (arith, l))) refl
    | no short ↦ ground arith
  ]

  transfer_length_is_valid-agree : transfer_length_is_valid p n ≡ transfer_length_is_valid q n
  unfolding transfer_length_is_valid
  transfer_length_is_valid-agree = elim (dec_le 32 n) [
    | yes l ↦ rw (u32_same n p q h 28 (omega (arith, l))) refl
    | no short ↦ ground arith
  ]

  payload_length_is_valid-agree :
      (o : Opcode) → payload_length_is_valid o p n ≡ payload_length_is_valid o q n
  unfolding payload_length_is_valid transfer_opcode_is_valid
  payload_length_is_valid-agree begin_rendering = refl
  payload_length_is_valid-agree bind_graphics_pipeline = refl
  payload_length_is_valid-agree set_viewport = refl
  payload_length_is_valid-agree set_scissor = refl
  payload_length_is_valid-agree draw = refl
  payload_length_is_valid-agree end_rendering = refl
  payload_length_is_valid-agree fill_buffer = refl
  payload_length_is_valid-agree buffer_host_read_barrier = refl
  payload_length_is_valid-agree push_rotation = refl
  payload_length_is_valid-agree vulkan_image_barrier_2 = barrier_length_is_valid-agree
  payload_length_is_valid-agree vulkan_clear_color_image_general = refl
  payload_length_is_valid-agree vulkan_bind_descriptor_sets = refl
  payload_length_is_valid-agree vulkan_push_constants = refl
  payload_length_is_valid-agree vulkan_copy_buffer_2 = transfer_length_is_valid-agree
  payload_length_is_valid-agree vulkan_copy_buffer_to_image_2 = transfer_length_is_valid-agree
  payload_length_is_valid-agree vulkan_copy_image_to_buffer_2 = transfer_length_is_valid-agree
  payload_length_is_valid-agree vulkan_copy_image_2 = transfer_length_is_valid-agree
  payload_length_is_valid-agree vulkan_blit_image_2 = transfer_length_is_valid-agree
  payload_length_is_valid-agree vulkan_resolve_image_2 = transfer_length_is_valid-agree
  payload_length_is_valid-agree vulkan_begin = refl
  payload_length_is_valid-agree vulkan_clear_color_image = refl
  payload_length_is_valid-agree vulkan_init_image_barrier = refl
  payload_length_is_valid-agree vulkan_end = refl
  payload_length_is_valid-agree vulkan_bind_vertex_buffers = refl
  payload_length_is_valid-agree vulkan_bind_vertex_buffers_2 = refl
  payload_length_is_valid-agree vulkan_bind_index_buffer = refl
  payload_length_is_valid-agree vulkan_bind_index_buffer_2 = refl
  payload_length_is_valid-agree vulkan_draw_indexed = refl
  payload_length_is_valid-agree vulkan_draw_indirect = refl
  payload_length_is_valid-agree vulkan_draw_indexed_indirect = refl
  payload_length_is_valid-agree vulkan_draw_indirect_count = refl
  payload_length_is_valid-agree vulkan_draw_indexed_indirect_count = refl
  payload_length_is_valid-agree vulkan_dynamic_state = refl
  payload_length_is_valid-agree vulkan_clear_depth_stencil_image = refl
  payload_length_is_valid-agree vulkan_clear_attachments = refl
  payload_length_is_valid-agree vulkan_update_buffer = update_length_is_valid-agree
  payload_length_is_valid-agree vulkan_query = refl

  barrier_length_lem :
      barrier_length_is_valid p n ≡ true
      → 16 + get_u32 p 4 * 32 + get_u32 p 8 * 64 + get_u32 p 12 * 80 ≤ n
  unfolding barrier_length_is_valid
  barrier_length_lem e = ground (arith, e)

  update_length_lem : update_length_is_valid p n ≡ true → 24 ≤ n
  unfolding update_length_is_valid
  update_length_lem e = ground (arith, e)

  transfer_length_lem : transfer_length_is_valid p n ≡ true → 32 + get_u32 p 28 * 128 ≤ n
  unfolding transfer_length_is_valid
  transfer_length_lem e = ground (arith, e)

  exact_length_lem : (size : ℕ) → (n == size) ≡ true → size ≤ n
  exact_length_lem size e = ground (arith, e)

  validate_payload-agree :
      (o : Opcode)
      → payload_length_is_valid o p n ≡ true
      → validate_payload o p ≡ validate_payload o q
  unfolding payload_length_is_valid expected_payload_size validate_payload transfer_opcode_is_valid
  validate_payload-agree begin_rendering e =
      begin_rendering_is_valid-agree n p q h (exact_length_lem 600 e)
  validate_payload-agree bind_graphics_pipeline e =
      bind_graphics_pipeline_is_valid-agree n p q h (exact_length_lem 16 e)
  validate_payload-agree set_viewport e =
      set_viewport_is_valid-agree n p q h (exact_length_lem 24 e)
  validate_payload-agree set_scissor e = set_scissor_is_valid-agree n p q h (exact_length_lem 16 e)
  validate_payload-agree draw e = draw_is_valid-agree n p q h (exact_length_lem 16 e)
  validate_payload-agree end_rendering e = refl
  validate_payload-agree fill_buffer e = fill_buffer_is_valid-agree n p q h (exact_length_lem 32 e)
  validate_payload-agree buffer_host_read_barrier e =
      buffer_host_read_barrier_is_valid-agree n p q h (exact_length_lem 24 e)
  validate_payload-agree push_rotation e =
      push_rotation_is_valid-agree n p q h (exact_length_lem 16 e)
  validate_payload-agree vulkan_image_barrier_2 e =
      image_barrier_is_valid-agree n p q h (barrier_length_lem e)
  validate_payload-agree vulkan_clear_color_image_general e =
      clear_color_image_general_is_valid-agree n p q h (exact_length_lem 128 e)
  validate_payload-agree vulkan_bind_descriptor_sets e =
      bind_descriptor_sets_is_valid-agree n p q h (exact_length_lem 216 e)
  validate_payload-agree vulkan_push_constants e =
      push_constants_is_valid-agree n p q h (exact_length_lem 280 e)
  validate_payload-agree vulkan_copy_buffer_2 e =
      transfer_is_valid-agree n p q h vulkan_copy_buffer_2 (transfer_length_lem e)
  validate_payload-agree vulkan_copy_buffer_to_image_2 e =
      transfer_is_valid-agree n p q h vulkan_copy_buffer_to_image_2 (transfer_length_lem e)
  validate_payload-agree vulkan_copy_image_to_buffer_2 e =
      transfer_is_valid-agree n p q h vulkan_copy_image_to_buffer_2 (transfer_length_lem e)
  validate_payload-agree vulkan_copy_image_2 e =
      transfer_is_valid-agree n p q h vulkan_copy_image_2 (transfer_length_lem e)
  validate_payload-agree vulkan_blit_image_2 e =
      transfer_is_valid-agree n p q h vulkan_blit_image_2 (transfer_length_lem e)
  validate_payload-agree vulkan_resolve_image_2 e =
      transfer_is_valid-agree n p q h vulkan_resolve_image_2 (transfer_length_lem e)
  validate_payload-agree vulkan_begin e = begin_is_valid-agree n p q h (exact_length_lem 8 e)
  validate_payload-agree vulkan_clear_color_image e =
      clear_color_image_is_valid-agree n p q h (exact_length_lem 16 e)
  validate_payload-agree vulkan_init_image_barrier e =
      init_image_barrier_is_valid-agree n p q h (exact_length_lem 40 e)
  validate_payload-agree vulkan_end e = refl
  validate_payload-agree vulkan_bind_vertex_buffers e =
      bind_vertex_buffers_is_valid-agree n p q h true (exact_length_lem 528 e)
  validate_payload-agree vulkan_bind_vertex_buffers_2 e =
      bind_vertex_buffers_is_valid-agree n p q h false (exact_length_lem 528 e)
  validate_payload-agree vulkan_bind_index_buffer e =
      bind_index_buffer_is_valid-agree n p q h true (exact_length_lem 32 e)
  validate_payload-agree vulkan_bind_index_buffer_2 e =
      bind_index_buffer_is_valid-agree n p q h false (exact_length_lem 32 e)
  validate_payload-agree vulkan_draw_indexed e =
      draw_indexed_is_valid-agree n p q h (exact_length_lem 24 e)
  validate_payload-agree vulkan_draw_indirect e =
      draw_indirect_is_valid-agree n p q h 16 (exact_length_lem 32 e)
  validate_payload-agree vulkan_draw_indexed_indirect e =
      draw_indirect_is_valid-agree n p q h 20 (exact_length_lem 32 e)
  validate_payload-agree vulkan_draw_indirect_count e =
      draw_indirect_count_is_valid-agree n p q h 16 (exact_length_lem 48 e)
  validate_payload-agree vulkan_draw_indexed_indirect_count e =
      draw_indirect_count_is_valid-agree n p q h 20 (exact_length_lem 48 e)
  validate_payload-agree vulkan_dynamic_state e =
      dynamic_state_is_valid-agree n p q h (exact_length_lem 40 e)
  validate_payload-agree vulkan_clear_depth_stencil_image e =
      clear_depth_stencil_image_is_valid-agree n p q h (exact_length_lem 120 e)
  validate_payload-agree vulkan_clear_attachments e =
      clear_attachments_is_valid-agree n p q h (exact_length_lem 392 e)
  validate_payload-agree vulkan_update_buffer e =
      update_buffer_is_valid-agree n p q h (update_length_lem e)
  validate_payload-agree vulkan_query e = query_is_valid-agree n p q h (exact_length_lem 40 e)

  opcode_payload_is_valid-agree :
      (o : Option Opcode) → opcode_payload_is_valid o p n ≡ opcode_payload_is_valid o q n
  unfolding opcode_payload_is_valid
  opcode_payload_is_valid-agree none = refl
  opcode_payload_is_valid-agree (some o) = elim (Bool-cases (payload_length_is_valid o p n)) [
    | inl good ↦
        rw (sym (payload_length_is_valid-agree o), good, validate_payload-agree o good) refl
    | inr bad ↦ rw (sym (payload_length_is_valid-agree o), bad) refl
  ]

-- Whether a payload is one of its opcode depends on the bytes within its length alone: the validators of
-- all 37 opcodes read no byte behind it, whatever the counts in an untrusted payload say.
pub payload_is_valid-agree :
    (opcode n : ℕ) (p q : Buffer)
    → AgreeTo n p q
    → payload_is_valid opcode p n ≡ payload_is_valid opcode q n
unfolding payload_is_valid
payload_is_valid-agree opcode n p q h = opcode_payload_is_valid-agree n p q h (opcode_of opcode)
