-- ===== src/CommandBatch/Payload/Drawing.antt =====
-- validate_payload of src/command_batch.c for the commands that draw.
pub mod Local
use bionic_vulkan_bridge.Prelude.{
  ℕ, ◌+◌, ◌*◌, ◌^◌, ◌-◌, Bool, true, false, not, ◌&&◌, ◌||◌, ltb, leb, ◌==◌, ◌!=◌, if◌then◌else◌,
  all_below,
}
use bionic_vulkan_bridge.Wire.{Buffer, get_u32, get_u64}
use bionic_vulkan_bridge.Handle.{object_image_view, object_pipeline, object_pipeline_layout}
use bionic_vulkan_bridge.Protocol.{object_buffer}
use bionic_vulkan_bridge.CommandBatch.Payload.Opcodes.{
  max_color_attachments, max_vertex_bindings, attachment_size, begin_rendering_header_size, draw,
}
use bionic_vulkan_bridge.CommandBatch.Payload.Words.{
  is_object, is_multiple_of_4, float_word_is_finite, float_is_zero, float_lt, float_turn,
  float_is_depth, bytes_are_zero,
}

-- rendering_attachment_is_valid of the attachment decoded at an offset.
pub attachment_is_valid : Buffer → ℕ → Bool → Bool
attachment_is_valid input o required =
    let image_view_id = get_u64 input o in
    let resolve_image_view_id = get_u64 input (o + 8) in
    let image_layout = get_u32 input (o + 16) in
    let resolve_mode = get_u32 input (o + 20) in
    let resolve_image_layout = get_u32 input (o + 24) in
    let feedback_loop_enable = get_u32 input (o + 36) in
    if ltb 1 feedback_loop_enable
    then false
    else if image_view_id == 0
    then not required && resolve_image_view_id == 0 && resolve_mode == 0
    else if not (is_object image_view_id object_image_view) || image_layout == 0
    then false
    else if resolve_mode == 0
    then resolve_image_view_id == 0
    else is_object resolve_image_view_id object_image_view && resolve_image_layout != 0

-- The optional attachment at an offset: a valid one if the flag is set, zeros otherwise.
pub optional_attachment_is_valid : Buffer → ℕ → ℕ → Bool
optional_attachment_is_valid payload present o =
    if present != 0
    then attachment_is_valid payload o true
    else bytes_are_zero payload o attachment_size

abbrev pub color_offset : ℕ → ℕ
color_offset index = begin_rendering_header_size + index * attachment_size

-- The first `color_count` color attachments are valid, the others are zero.
pub colors_are_valid : Buffer → ℕ → Bool
colors_are_valid payload color_count = all_below max_color_attachments (λ index.
    if leb color_count index
    then bytes_are_zero payload (color_offset index) attachment_size
    else attachment_is_valid payload (color_offset index) false)

pub begin_rendering_is_valid : Buffer → Bool
begin_rendering_is_valid payload =
    let color_count = get_u32 payload 28 in
    let has_depth = get_u32 payload 32 in
    let has_stencil = get_u32 payload 36 in
    get_u32 payload 12 != 0
    && get_u32 payload 16 != 0
    && get_u32 payload 20 != 0
    && leb color_count max_color_attachments
    && leb has_depth 1
    && leb has_stencil 1
    && not (color_count == 0 && has_depth == 0 && has_stencil == 0)
    && colors_are_valid payload color_count
    && optional_attachment_is_valid payload has_depth (color_offset max_color_attachments)
    && optional_attachment_is_valid payload has_stencil (color_offset (max_color_attachments + 1))

pub bind_graphics_pipeline_is_valid : Buffer → Bool
bind_graphics_pipeline_is_valid payload =
    is_object (get_u64 payload 0) object_pipeline
    && get_u32 payload 8 == 0
    && get_u32 payload 12 == 0

pub viewport_is_finite : Buffer → Bool
viewport_is_finite payload =
    all_below 6 (λ index. float_word_is_finite (get_u32 payload (index * 4)))

pub set_viewport_is_valid : Buffer → Bool
set_viewport_is_valid payload =
    viewport_is_finite payload
    && not (float_is_zero (get_u32 payload 8))
    && not (float_is_zero (get_u32 payload 12))
    && float_is_depth (get_u32 payload 16)
    && float_is_depth (get_u32 payload 20)
    && not (float_lt (get_u32 payload 20) (get_u32 payload 16))

pub set_scissor_is_valid : Buffer → Bool
set_scissor_is_valid payload = get_u32 payload 8 != 0 && get_u32 payload 12 != 0

unfoldable pub draw_is_valid : Buffer → Bool
draw_is_valid payload = get_u32 payload 0 != 0 && get_u32 payload 4 != 0

pub push_rotation_is_valid : Buffer → Bool
push_rotation_is_valid payload =
    is_object (get_u64 payload 0) object_pipeline_layout
    && float_word_is_finite (get_u32 payload 8)
    && float_word_is_finite (get_u32 payload 12)
    && not (float_lt (get_u32 payload 8) 0)
    && float_lt (get_u32 payload 8) float_turn
    && float_lt 0 (get_u32 payload 12)

-- The four arrays of a payload of vertex buffers; `plain` is BIND_VERTEX_BUFFERS.
pub vertex_binding_is_valid : Buffer → ℕ → Bool
vertex_binding_is_valid payload index =
    let count = get_u32 payload 4 in
    let has_sizes = get_u32 payload 8 in
    let has_strides = get_u32 payload 12 in
    let id = get_u64 payload (16 + index * 8) in
    let offset = get_u64 payload (144 + index * 8) in
    let size = get_u64 payload (272 + index * 8) in
    let stride = get_u64 payload (400 + index * 8) in
    if leb count index
    then id == 0 && offset == 0 && size == 0 && stride == 0
    else (id == 0 || is_object id object_buffer)
      && (has_sizes != 0 || size == 0)
      && (has_strides != 0 || stride == 0)

pub bind_vertex_buffers_is_valid : Bool → Buffer → Bool
bind_vertex_buffers_is_valid plain payload =
    let count = get_u32 payload 4 in
    let has_sizes = get_u32 payload 8 in
    let has_strides = get_u32 payload 12 in
    count != 0
    && leb count max_vertex_bindings
    && leb has_sizes 1
    && leb has_strides 1
    && (not plain || has_sizes == 0 && has_strides == 0)
    && all_below max_vertex_bindings (vertex_binding_is_valid payload)

pub bind_index_buffer_is_valid : Bool → Buffer → Bool
bind_index_buffer_is_valid plain payload =
    let id = get_u64 payload 0 in
    let size = get_u64 payload 16 in
    (id == 0 || is_object id object_buffer)
    && (id == 0 || size != 0)
    && (not plain || size == 2 ^ 64 - 1)
    && get_u32 payload 28 == 0

pub draw_indexed_is_valid : Buffer → Bool
draw_indexed_is_valid payload = get_u32 payload 20 == 0

-- `minimum` is the least stride: 20 for the indexed ones, 16 otherwise.
pub draw_indirect_is_valid : ℕ → Buffer → Bool
draw_indirect_is_valid minimum payload =
    let count = get_u32 payload 16 in
    let stride = get_u32 payload 20 in
    is_object (get_u64 payload 0) object_buffer
    && is_multiple_of_4 stride
    && (leb count 1 || leb minimum stride)
    && get_u64 payload 24 == 0

pub draw_indirect_count_is_valid : ℕ → Buffer → Bool
draw_indirect_count_is_valid minimum payload =
    let count = get_u32 payload 32 in
    let stride = get_u32 payload 36 in
    is_object (get_u64 payload 0) object_buffer
    && is_object (get_u64 payload 16) object_buffer
    && is_multiple_of_4 stride
    && (leb count 1 || leb minimum stride)
    && get_u64 payload 40 == 0
