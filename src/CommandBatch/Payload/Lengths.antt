-- ===== src/CommandBatch/Payload/Lengths.antt =====
-- A valid payload is short: how long the payloads are that payload_length_is_valid of
-- src/command_batch.c lets through.
use bionic_vulkan_bridge.Prelude.{ℕ, ◌^◌, ◌≤◌, ◌≡◌, arith, true, Option, none, some}
use bionic_vulkan_bridge.Wire.{Buffer}
use bionic_vulkan_bridge.CommandBatch.Payload.Opcodes.{
  Opcode, opcode_of, transfer_opcode_is_valid, begin_rendering, bind_graphics_pipeline,
  set_viewport, set_scissor, draw, end_rendering, fill_buffer, buffer_host_read_barrier,
  push_rotation, vulkan_image_barrier_2, vulkan_clear_color_image_general,
  vulkan_bind_descriptor_sets, vulkan_push_constants, vulkan_copy_buffer_2,
  vulkan_copy_buffer_to_image_2, vulkan_copy_image_to_buffer_2, vulkan_copy_image_2,
  vulkan_blit_image_2, vulkan_resolve_image_2, vulkan_begin, vulkan_clear_color_image,
  vulkan_init_image_barrier, vulkan_end, vulkan_bind_vertex_buffers, vulkan_bind_vertex_buffers_2,
  vulkan_bind_index_buffer, vulkan_bind_index_buffer_2, vulkan_draw_indexed, vulkan_draw_indirect,
  vulkan_draw_indexed_indirect, vulkan_draw_indirect_count, vulkan_draw_indexed_indirect_count,
  vulkan_dynamic_state, vulkan_clear_depth_stencil_image, vulkan_clear_attachments,
  vulkan_update_buffer, vulkan_query,
}
use bionic_vulkan_bridge.CommandBatch.Payload.Sizes.{
  expected_payload_size, barrier_length_is_valid, update_length_is_valid, transfer_length_is_valid,
  payload_length_is_valid,
}
use bionic_vulkan_bridge.CommandBatch.Payload.{payload_is_valid, opcode_payload_is_valid}

abbrev pub longest : ℕ
longest = 2 ^ 20

barrier_length-le : (p : Buffer) (n : ℕ) → barrier_length_is_valid p n ≡ true → n ≤ longest
unfolding barrier_length_is_valid
barrier_length-le p n e = ground (arith, e)

update_length-le : (p : Buffer) (n : ℕ) → update_length_is_valid p n ≡ true → n ≤ longest
unfolding update_length_is_valid
update_length-le p n e = ground (arith, e)

transfer_length-le : (p : Buffer) (n : ℕ) → transfer_length_is_valid p n ≡ true → n ≤ longest
unfolding transfer_length_is_valid
transfer_length-le p n e = ground (arith, e)

payload_length-le :
    (o : Opcode) (p : Buffer) (n : ℕ) → payload_length_is_valid o p n ≡ true → n ≤ longest
unfolding payload_length_is_valid expected_payload_size transfer_opcode_is_valid
payload_length-le begin_rendering p n e = ground (arith, e)
payload_length-le bind_graphics_pipeline p n e = ground (arith, e)
payload_length-le set_viewport p n e = ground (arith, e)
payload_length-le set_scissor p n e = ground (arith, e)
payload_length-le draw p n e = ground (arith, e)
payload_length-le end_rendering p n e = ground (arith, e)
payload_length-le fill_buffer p n e = ground (arith, e)
payload_length-le buffer_host_read_barrier p n e = ground (arith, e)
payload_length-le push_rotation p n e = ground (arith, e)
payload_length-le vulkan_image_barrier_2 p n e = barrier_length-le p n e
payload_length-le vulkan_clear_color_image_general p n e = ground (arith, e)
payload_length-le vulkan_bind_descriptor_sets p n e = ground (arith, e)
payload_length-le vulkan_push_constants p n e = ground (arith, e)
payload_length-le vulkan_copy_buffer_2 p n e = transfer_length-le p n e
payload_length-le vulkan_copy_buffer_to_image_2 p n e = transfer_length-le p n e
payload_length-le vulkan_copy_image_to_buffer_2 p n e = transfer_length-le p n e
payload_length-le vulkan_copy_image_2 p n e = transfer_length-le p n e
payload_length-le vulkan_blit_image_2 p n e = transfer_length-le p n e
payload_length-le vulkan_resolve_image_2 p n e = transfer_length-le p n e
payload_length-le vulkan_begin p n e = ground (arith, e)
payload_length-le vulkan_clear_color_image p n e = ground (arith, e)
payload_length-le vulkan_init_image_barrier p n e = ground (arith, e)
payload_length-le vulkan_end p n e = ground (arith, e)
payload_length-le vulkan_bind_vertex_buffers p n e = ground (arith, e)
payload_length-le vulkan_bind_vertex_buffers_2 p n e = ground (arith, e)
payload_length-le vulkan_bind_index_buffer p n e = ground (arith, e)
payload_length-le vulkan_bind_index_buffer_2 p n e = ground (arith, e)
payload_length-le vulkan_draw_indexed p n e = ground (arith, e)
payload_length-le vulkan_draw_indirect p n e = ground (arith, e)
payload_length-le vulkan_draw_indexed_indirect p n e = ground (arith, e)
payload_length-le vulkan_draw_indirect_count p n e = ground (arith, e)
payload_length-le vulkan_draw_indexed_indirect_count p n e = ground (arith, e)
payload_length-le vulkan_dynamic_state p n e = ground (arith, e)
payload_length-le vulkan_clear_depth_stencil_image p n e = ground (arith, e)
payload_length-le vulkan_clear_attachments p n e = ground (arith, e)
payload_length-le vulkan_update_buffer p n e = update_length-le p n e
payload_length-le vulkan_query p n e = ground (arith, e)

opcode_payload-le :
    (o : Option Opcode) (p : Buffer) (n : ℕ) → opcode_payload_is_valid o p n ≡ true → n ≤ longest
unfolding opcode_payload_is_valid
opcode_payload-le none p n e = absurd (cc)
opcode_payload-le (some o) p n e = payload_length-le o p n (ground (arith, e))

-- No opcode has a payload of more than 2^20 bytes.
pub payload_is_valid-le :
    (opcode : ℕ) (p : Buffer) (n : ℕ) → payload_is_valid opcode p n ≡ true → n ≤ longest
unfolding payload_is_valid
payload_is_valid-le opcode p n e = opcode_payload-le (opcode_of opcode) p n e
