-- ===== src/CommandBatch/Payload/Sizes.antt =====
-- The length that the payload of an opcode has: the first part of src/command_batch.c.
use bionic_vulkan_bridge.Prelude.{ℕ, ◌+◌, ◌*◌, Bool, ◌&&◌, leb, ◌==◌, ◌!=◌, if◌then◌else◌, bit_and}
use bionic_vulkan_bridge.Wire.{Buffer, get_u32}
use bionic_vulkan_bridge.CommandBatch.Payload.Opcodes.{
  Opcode, transfer_opcode_is_valid, max_memory_barriers, max_buffer_barriers, max_image_barriers,
  max_clear_ranges, max_bound_descriptor_sets, max_dynamic_offsets, max_push_constant_bytes,
  max_transfer_regions, max_color_attachments, max_vertex_bindings, max_dynamic_state_values,
  max_clear_attachments, max_clear_rects, max_update_buffer_bytes, attachment_size,
  begin_rendering_header_size, image_range_size, memory_barrier_size, buffer_barrier_size,
  image_barrier_size, image_barrier_header_size, transfer_header_size, transfer_region_size,
  clear_attachment_size, clear_rect_size, update_buffer_header_size, begin_rendering,
  bind_graphics_pipeline, set_viewport, set_scissor, draw, end_rendering, fill_buffer,
  buffer_host_read_barrier, push_rotation, vulkan_image_barrier_2, vulkan_clear_color_image_general,
  vulkan_bind_descriptor_sets, vulkan_push_constants, vulkan_copy_buffer_2,
  vulkan_copy_buffer_to_image_2, vulkan_copy_image_to_buffer_2, vulkan_copy_image_2,
  vulkan_blit_image_2, vulkan_resolve_image_2, vulkan_begin, vulkan_clear_color_image,
  vulkan_init_image_barrier, vulkan_end, vulkan_bind_vertex_buffers, vulkan_bind_vertex_buffers_2,
  vulkan_bind_index_buffer, vulkan_bind_index_buffer_2, vulkan_draw_indexed, vulkan_draw_indirect,
  vulkan_draw_indexed_indirect, vulkan_draw_indirect_count, vulkan_draw_indexed_indirect_count,
  vulkan_dynamic_state, vulkan_clear_depth_stencil_image, vulkan_clear_attachments,
  vulkan_update_buffer, vulkan_query,
}

abbrev pub transfer_payload_size : ℕ → ℕ
transfer_payload_size region_count = transfer_header_size + region_count * transfer_region_size

abbrev pub barrier_payload_size : ℕ → ℕ → ℕ → ℕ
barrier_payload_size memory_count buffer_count image_count =
    image_barrier_header_size
    + memory_count * memory_barrier_size
    + buffer_count * buffer_barrier_size
    + image_count * image_barrier_size

-- The length of the payload of an opcode, or the largest where the length depends on its counts.
unfoldable pub expected_payload_size : Opcode → ℕ
expected_payload_size begin_rendering =
    begin_rendering_header_size + (max_color_attachments + 2) * attachment_size
expected_payload_size bind_graphics_pipeline = 16
expected_payload_size set_viewport = 24
expected_payload_size set_scissor = 16
expected_payload_size draw = 16
expected_payload_size end_rendering = 0
expected_payload_size fill_buffer = 32
expected_payload_size buffer_host_read_barrier = 24
expected_payload_size push_rotation = 16
expected_payload_size vulkan_image_barrier_2 =
    barrier_payload_size max_memory_barriers max_buffer_barriers max_image_barriers
expected_payload_size vulkan_clear_color_image_general = 32 + max_clear_ranges * image_range_size
expected_payload_size vulkan_bind_descriptor_sets =
    24 + max_bound_descriptor_sets * 8 + max_dynamic_offsets * 4
expected_payload_size vulkan_push_constants = 24 + max_push_constant_bytes
expected_payload_size vulkan_copy_buffer_2 = transfer_payload_size max_transfer_regions
expected_payload_size vulkan_copy_buffer_to_image_2 = transfer_payload_size max_transfer_regions
expected_payload_size vulkan_copy_image_to_buffer_2 = transfer_payload_size max_transfer_regions
expected_payload_size vulkan_copy_image_2 = transfer_payload_size max_transfer_regions
expected_payload_size vulkan_blit_image_2 = transfer_payload_size max_transfer_regions
expected_payload_size vulkan_resolve_image_2 = transfer_payload_size max_transfer_regions
expected_payload_size vulkan_begin = 8
expected_payload_size vulkan_clear_color_image = 16
expected_payload_size vulkan_init_image_barrier = 40
expected_payload_size vulkan_end = 0
expected_payload_size vulkan_bind_vertex_buffers = 16 + 4 * max_vertex_bindings * 8
expected_payload_size vulkan_bind_vertex_buffers_2 = 16 + 4 * max_vertex_bindings * 8
expected_payload_size vulkan_bind_index_buffer = 32
expected_payload_size vulkan_bind_index_buffer_2 = 32
expected_payload_size vulkan_draw_indexed = 24
expected_payload_size vulkan_draw_indirect = 32
expected_payload_size vulkan_draw_indexed_indirect = 32
expected_payload_size vulkan_draw_indirect_count = 48
expected_payload_size vulkan_draw_indexed_indirect_count = 48
expected_payload_size vulkan_dynamic_state = 8 + max_dynamic_state_values * 4
expected_payload_size vulkan_clear_depth_stencil_image = 24 + max_clear_ranges * image_range_size
expected_payload_size vulkan_clear_attachments =
    8 + max_clear_attachments * clear_attachment_size + max_clear_rects * clear_rect_size
expected_payload_size vulkan_update_buffer = update_buffer_header_size + max_update_buffer_bytes
expected_payload_size vulkan_query = 40

-- The three kinds of payload whose length depends on the counts in them. The sums of a uint32_t do not wrap,
-- since the counts are within their limits where they are taken.
unfoldable pub barrier_length_is_valid : Buffer → ℕ → Bool
barrier_length_is_valid payload payload_length =
    let memory_count = get_u32 payload 4 in
    let buffer_count = get_u32 payload 8 in
    let image_count = get_u32 payload 12 in
    leb image_barrier_header_size payload_length
    && leb memory_count max_memory_barriers
    && leb buffer_count max_buffer_barriers
    && leb image_count max_image_barriers
    && payload_length == barrier_payload_size memory_count buffer_count image_count

unfoldable pub update_length_is_valid : Buffer → ℕ → Bool
update_length_is_valid payload payload_length =
    let data_size = get_u32 payload 16 in
    leb update_buffer_header_size payload_length
    && data_size != 0
    && leb data_size max_update_buffer_bytes
    && bit_and data_size 3 == 0
    && payload_length == update_buffer_header_size + data_size

unfoldable pub transfer_length_is_valid : Buffer → ℕ → Bool
transfer_length_is_valid payload payload_length =
    let count = get_u32 payload 28 in
    leb transfer_header_size payload_length
    && count != 0
    && leb count max_transfer_regions
    && payload_length == transfer_payload_size count

unfoldable pub payload_length_is_valid : Opcode → Buffer → ℕ → Bool
payload_length_is_valid vulkan_image_barrier_2 payload payload_length =
    barrier_length_is_valid payload payload_length
payload_length_is_valid vulkan_update_buffer payload payload_length =
    update_length_is_valid payload payload_length
payload_length_is_valid opcode payload payload_length =
    if transfer_opcode_is_valid opcode
    then transfer_length_is_valid payload payload_length
    else payload_length == expected_payload_size opcode
