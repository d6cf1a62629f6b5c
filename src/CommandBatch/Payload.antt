-- ===== src/CommandBatch/Payload.antt =====
-- Which payloads an opcode has: payload_length_is_valid and validate_payload of src/command_batch.c.
pub mod Opcodes
pub mod Sizes
pub mod Words
pub mod Drawing
pub mod Resources
pub mod State
pub mod Local
pub mod Lengths
use bionic_vulkan_bridge.Prelude.{ℕ, Bool, true, false, Option, none, some, ◌&&◌}
use bionic_vulkan_bridge.Wire.{Buffer}
use Opcodes.*
use Sizes.*
use Drawing.*
use Resources.*
use State.*

-- The switch of validate_payload, true where it returns 0.
unfoldable pub validate_payload : Opcode → Buffer → Bool
validate_payload begin_rendering payload = begin_rendering_is_valid payload
validate_payload bind_graphics_pipeline payload = bind_graphics_pipeline_is_valid payload
validate_payload set_viewport payload = set_viewport_is_valid payload
validate_payload set_scissor payload = set_scissor_is_valid payload
validate_payload draw payload = draw_is_valid payload
validate_payload end_rendering payload = true
validate_payload fill_buffer payload = fill_buffer_is_valid payload
validate_payload buffer_host_read_barrier payload = buffer_host_read_barrier_is_valid payload
validate_payload push_rotation payload = push_rotation_is_valid payload
validate_payload vulkan_image_barrier_2 payload = image_barrier_is_valid payload
validate_payload vulkan_clear_color_image_general payload =
    clear_color_image_general_is_valid payload
validate_payload vulkan_bind_descriptor_sets payload = bind_descriptor_sets_is_valid payload
validate_payload vulkan_push_constants payload = push_constants_is_valid payload
validate_payload vulkan_copy_buffer_2 payload = transfer_is_valid vulkan_copy_buffer_2 payload
validate_payload vulkan_copy_buffer_to_image_2 payload =
    transfer_is_valid vulkan_copy_buffer_to_image_2 payload
validate_payload vulkan_copy_image_to_buffer_2 payload =
    transfer_is_valid vulkan_copy_image_to_buffer_2 payload
validate_payload vulkan_copy_image_2 payload = transfer_is_valid vulkan_copy_image_2 payload
validate_payload vulkan_blit_image_2 payload = transfer_is_valid vulkan_blit_image_2 payload
validate_payload vulkan_resolve_image_2 payload = transfer_is_valid vulkan_resolve_image_2 payload
validate_payload vulkan_bind_vertex_buffers payload = bind_vertex_buffers_is_valid true payload
validate_payload vulkan_bind_vertex_buffers_2 payload = bind_vertex_buffers_is_valid false payload
validate_payload vulkan_bind_index_buffer payload = bind_index_buffer_is_valid true payload
validate_payload vulkan_bind_index_buffer_2 payload = bind_index_buffer_is_valid false payload
validate_payload vulkan_draw_indexed payload = draw_indexed_is_valid payload
validate_payload vulkan_draw_indirect payload = draw_indirect_is_valid 16 payload
validate_payload vulkan_draw_indexed_indirect payload = draw_indirect_is_valid 20 payload
validate_payload vulkan_draw_indirect_count payload = draw_indirect_count_is_valid 16 payload
validate_payload vulkan_draw_indexed_indirect_count payload =
    draw_indirect_count_is_valid 20 payload
validate_payload vulkan_dynamic_state payload = dynamic_state_is_valid payload
validate_payload vulkan_clear_depth_stencil_image payload =
    clear_depth_stencil_image_is_valid payload
validate_payload vulkan_clear_attachments payload = clear_attachments_is_valid payload
validate_payload vulkan_update_buffer payload = update_buffer_is_valid payload
validate_payload vulkan_query payload = query_is_valid payload
validate_payload vulkan_begin payload = begin_is_valid payload
validate_payload vulkan_clear_color_image payload = clear_color_image_is_valid payload
validate_payload vulkan_init_image_barrier payload = init_image_barrier_is_valid payload
validate_payload vulkan_end payload = true

-- `none` is the default case of the switches.
unfoldable pub opcode_payload_is_valid : Option Opcode → Buffer → ℕ → Bool
opcode_payload_is_valid none payload payload_length = false
opcode_payload_is_valid (some opcode) payload payload_length =
    payload_length_is_valid opcode payload payload_length && validate_payload opcode payload

-- The test of append_record and of the loop of validate.
unfoldable pub payload_is_valid : ℕ → Buffer → ℕ → Bool
unfolding opcode_payload_is_valid
payload_is_valid opcode payload payload_length =
    opcode_payload_is_valid (opcode_of opcode) payload payload_length
