-- ===== src/CommandBatch/Payload/Opcodes.antt =====
-- The opcodes of include/bvb/command_batch.h, the sizes of their payloads and the limits of the counts
-- in them.
use bionic_vulkan_bridge.Prelude.{
  ℕ, zero, suc, Bool, true, false, Option, none, some, List, [], ◌∷◌,
}

pub data Opcode : Type 0 where
  begin_rendering bind_graphics_pipeline set_viewport set_scissor draw end_rendering fill_buffer :
      Opcode
  buffer_host_read_barrier push_rotation vulkan_image_barrier_2 vulkan_clear_color_image_general :
      Opcode
  vulkan_bind_descriptor_sets vulkan_push_constants vulkan_copy_buffer_2
        vulkan_copy_buffer_to_image_2 :
      Opcode
  vulkan_copy_image_to_buffer_2 vulkan_copy_image_2 vulkan_blit_image_2 vulkan_resolve_image_2 :
      Opcode
  vulkan_begin vulkan_clear_color_image vulkan_init_image_barrier vulkan_end
        vulkan_bind_vertex_buffers :
      Opcode
  vulkan_bind_vertex_buffers_2 vulkan_bind_index_buffer vulkan_bind_index_buffer_2
        vulkan_draw_indexed :
      Opcode
  vulkan_draw_indirect vulkan_draw_indexed_indirect vulkan_draw_indirect_count : Opcode
  vulkan_draw_indexed_indirect_count vulkan_dynamic_state vulkan_clear_depth_stencil_image : Opcode
  vulkan_clear_attachments vulkan_update_buffer vulkan_query : Opcode

abbrev pub opcodes : List Opcode
opcodes =
    begin_rendering ∷ bind_graphics_pipeline ∷ set_viewport ∷ set_scissor ∷ draw ∷ end_rendering
    ∷ fill_buffer ∷ buffer_host_read_barrier ∷ push_rotation ∷ vulkan_image_barrier_2
    ∷ vulkan_clear_color_image_general ∷ vulkan_bind_descriptor_sets ∷ vulkan_push_constants
    ∷ vulkan_copy_buffer_2 ∷ vulkan_copy_buffer_to_image_2 ∷ vulkan_copy_image_to_buffer_2
    ∷ vulkan_copy_image_2 ∷ vulkan_blit_image_2 ∷ vulkan_resolve_image_2 ∷ vulkan_begin
    ∷ vulkan_clear_color_image ∷ vulkan_init_image_barrier ∷ vulkan_end ∷ vulkan_bind_vertex_buffers
    ∷ vulkan_bind_vertex_buffers_2 ∷ vulkan_bind_index_buffer ∷ vulkan_bind_index_buffer_2
    ∷ vulkan_draw_indexed ∷ vulkan_draw_indirect ∷ vulkan_draw_indexed_indirect
    ∷ vulkan_draw_indirect_count ∷ vulkan_draw_indexed_indirect_count ∷ vulkan_dynamic_state
    ∷ vulkan_clear_depth_stencil_image ∷ vulkan_clear_attachments ∷ vulkan_update_buffer
    ∷ vulkan_query ∷ []

abbrev nth : ℕ → List Opcode → Option Opcode
nth n [] = none
nth zero (x ∷ xs) = some x
nth (suc n) (x ∷ xs) = nth n xs

-- The numbers start at 1; no other number is a case of the switch.
unfoldable pub opcode_of : ℕ → Option Opcode
opcode_of zero = none
opcode_of (suc n) = nth n opcodes

-- The six opcodes from COPY_BUFFER_2 to RESOLVE_IMAGE_2.
unfoldable pub transfer_opcode_is_valid : Opcode → Bool
transfer_opcode_is_valid vulkan_copy_buffer_2 = true
transfer_opcode_is_valid vulkan_copy_buffer_to_image_2 = true
transfer_opcode_is_valid vulkan_copy_image_to_buffer_2 = true
transfer_opcode_is_valid vulkan_copy_image_2 = true
transfer_opcode_is_valid vulkan_blit_image_2 = true
transfer_opcode_is_valid vulkan_resolve_image_2 = true
transfer_opcode_is_valid _ = false

abbrev pub max_memory_barriers : ℕ
max_memory_barriers = 64

abbrev pub max_buffer_barriers : ℕ
max_buffer_barriers = 256

abbrev pub max_image_barriers : ℕ
max_image_barriers = 2048

abbrev pub max_init_image_barriers : ℕ
max_init_image_barriers = 4

abbrev pub max_clear_ranges : ℕ
max_clear_ranges = 4

abbrev pub max_bound_descriptor_sets : ℕ
max_bound_descriptor_sets = 8

abbrev pub max_dynamic_offsets : ℕ
max_dynamic_offsets = 32

abbrev pub max_push_constant_bytes : ℕ
max_push_constant_bytes = 256

abbrev pub max_transfer_regions : ℕ
max_transfer_regions = 16

abbrev pub max_color_attachments : ℕ
max_color_attachments = 8

abbrev pub max_vertex_bindings : ℕ
max_vertex_bindings = 16

abbrev pub max_dynamic_state_values : ℕ
max_dynamic_state_values = 8

abbrev pub max_clear_attachments : ℕ
max_clear_attachments = 8

abbrev pub max_clear_rects : ℕ
max_clear_rects = 8

abbrev pub max_update_buffer_bytes : ℕ
max_update_buffer_bytes = 65536

abbrev pub attachment_size : ℕ
attachment_size = 56

abbrev pub begin_rendering_header_size : ℕ
begin_rendering_header_size = 40

abbrev pub image_range_size : ℕ
image_range_size = 24

abbrev pub memory_barrier_size : ℕ
memory_barrier_size = 32

abbrev pub buffer_barrier_size : ℕ
buffer_barrier_size = 64

abbrev pub image_barrier_size : ℕ
image_barrier_size = 80

abbrev pub image_barrier_header_size : ℕ
image_barrier_header_size = 16

abbrev pub transfer_header_size : ℕ
transfer_header_size = 32

abbrev pub transfer_region_size : ℕ
transfer_region_size = 128

abbrev pub clear_attachment_size : ℕ
clear_attachment_size = 24

abbrev pub clear_rect_size : ℕ
clear_rect_size = 24

abbrev pub update_buffer_header_size : ℕ
update_buffer_header_size = 24
