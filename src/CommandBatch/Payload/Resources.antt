-- ===== src/CommandBatch/Payload/Resources.antt =====
-- validate_payload of src/command_batch.c for the commands on buffers and images.
pub mod Local
use bionic_vulkan_bridge.Prelude.{
  ℕ, ◌+◌, ◌*◌, Bool, true, false, not, ◌&&◌, ◌||◌, ltb, leb, ◌==◌, ◌!=◌, if◌then◌else◌, all_below,
}
use bionic_vulkan_bridge.Wire.{Buffer, get_u32, get_u64}
use bionic_vulkan_bridge.Protocol.{object_buffer, object_image}
use bionic_vulkan_bridge.CommandBatch.Payload.Opcodes.{
  Opcode, max_memory_barriers, max_buffer_barriers, max_image_barriers, max_init_image_barriers,
  max_clear_ranges, max_transfer_regions, max_clear_attachments, max_clear_rects,
  max_update_buffer_bytes, image_range_size, memory_barrier_size, buffer_barrier_size,
  image_barrier_size, image_barrier_header_size, transfer_header_size, transfer_region_size,
  clear_attachment_size, clear_rect_size, vulkan_copy_buffer_2, vulkan_copy_buffer_to_image_2,
  vulkan_copy_image_to_buffer_2, vulkan_blit_image_2,
}
use bionic_vulkan_bridge.CommandBatch.Payload.Words.{
  is_object, within_mask, is_multiple_of_4, float_word_is_finite, image_range_is_valid,
  image_range_is_zero, bytes_are_zero,
}

pub fill_buffer_is_valid : Buffer → Bool
fill_buffer_is_valid payload =
    is_object (get_u64 payload 0) object_buffer
    && get_u64 payload 16 != 0
    && is_multiple_of_4 (get_u64 payload 8)
    && is_multiple_of_4 (get_u64 payload 16)
    && get_u32 payload 28 == 0

pub buffer_host_read_barrier_is_valid : Buffer → Bool
buffer_host_read_barrier_is_valid payload =
    is_object (get_u64 payload 0) object_buffer && get_u64 payload 16 != 0

-- The barriers from an offset on.
pub buffer_barriers_are_valid : Buffer → ℕ → ℕ → Bool
buffer_barriers_are_valid payload o count = all_below count (λ index.
    is_object (get_u64 payload (o + index * buffer_barrier_size + 40)) object_buffer
    && get_u64 payload (o + index * buffer_barrier_size + 56) != 0)

pub image_barriers_are_valid : Buffer → ℕ → ℕ → Bool
image_barriers_are_valid payload o count = all_below count (λ index.
    is_object (get_u64 payload (o + index * image_barrier_size + 48)) object_image
    && image_range_is_valid payload (o + index * image_barrier_size + 56))

-- The memory barriers stand first, then those of buffers, then those of images.
pub image_barrier_is_valid : Buffer → Bool
image_barrier_is_valid payload =
    let memory_count = get_u32 payload 4 in
    let buffer_count = get_u32 payload 8 in
    let image_count = get_u32 payload 12 in
    let buffers = image_barrier_header_size + memory_count * memory_barrier_size in
    let images = buffers + buffer_count * buffer_barrier_size in
    within_mask (get_u32 payload 0) 0x6f
    && leb memory_count max_memory_barriers
    && leb buffer_count max_buffer_barriers
    && leb image_count max_image_barriers
    && buffer_barriers_are_valid payload buffers buffer_count
    && image_barriers_are_valid payload images image_count

-- The ranges from an offset on: the first `count` valid, the others zero.
pub ranges_are_valid : Buffer → ℕ → ℕ → Bool
ranges_are_valid payload o count = all_below max_clear_ranges (λ index.
    if ltb index count
    then image_range_is_valid payload (o + index * image_range_size)
    else image_range_is_zero payload (o + index * image_range_size))

pub clear_color_image_general_is_valid : Buffer → Bool
clear_color_image_general_is_valid payload =
    let count = get_u32 payload 12 in
    is_object (get_u64 payload 0) object_image
    && get_u32 payload 8 != 0
    && count != 0
    && leb count max_clear_ranges
    && ranges_are_valid payload 32 count

-- As ranges_are_valid, with the aspects of depth and stencil.
pub depth_ranges_are_valid : Buffer → ℕ → Bool
depth_ranges_are_valid payload count = all_below max_clear_ranges (λ index.
    if ltb index count
    then image_range_is_valid payload (24 + index * image_range_size)
      && within_mask (get_u32 payload (24 + index * image_range_size)) 6
    else image_range_is_zero payload (24 + index * image_range_size))

pub clear_depth_stencil_image_is_valid : Buffer → Bool
clear_depth_stencil_image_is_valid payload =
    let layout = get_u32 payload 8 in
    let count = get_u32 payload 12 in
    is_object (get_u64 payload 0) object_image
    && (layout == 1 || layout == 7)
    && count != 0
    && leb count max_clear_ranges
    && float_word_is_finite (get_u32 payload 16)
    && depth_ranges_are_valid payload count

abbrev pub rect_offset : ℕ → ℕ
rect_offset index = 8 + max_clear_attachments * clear_attachment_size + index * clear_rect_size

pub attachments_are_valid : Buffer → ℕ → Bool
attachments_are_valid payload attachment_count = all_below max_clear_attachments (λ index.
    let aspect = get_u32 payload (8 + index * clear_attachment_size) in
    if ltb index attachment_count
    then aspect != 0 && within_mask aspect 7
    else bytes_are_zero payload (8 + index * clear_attachment_size) clear_attachment_size)

pub rects_are_valid : Buffer → ℕ → Bool
rects_are_valid payload rect_count = all_below max_clear_rects (λ index.
    if ltb index rect_count
    then get_u32 payload (rect_offset index + 8) != 0
      && get_u32 payload (rect_offset index + 12) != 0
      && get_u32 payload (rect_offset index + 20) != 0
    else bytes_are_zero payload (rect_offset index) clear_rect_size)

pub clear_attachments_is_valid : Buffer → Bool
clear_attachments_is_valid payload =
    let attachment_count = get_u32 payload 0 in
    let rect_count = get_u32 payload 4 in
    attachment_count != 0
    && leb attachment_count max_clear_attachments
    && rect_count != 0
    && leb rect_count max_clear_rects
    && attachments_are_valid payload attachment_count
    && rects_are_valid payload rect_count

-- Which end of a transfer is a buffer.
pub source_is_buffer : Opcode → Bool
source_is_buffer vulkan_copy_buffer_2 = true
source_is_buffer vulkan_copy_buffer_to_image_2 = true
source_is_buffer _ = false

pub destination_is_buffer : Opcode → Bool
destination_is_buffer vulkan_copy_buffer_2 = true
destination_is_buffer vulkan_copy_image_to_buffer_2 = true
destination_is_buffer _ = false

pub is_copy_buffer : Opcode → Bool
is_copy_buffer vulkan_copy_buffer_2 = true
is_copy_buffer _ = false

pub is_blit_image : Opcode → Bool
is_blit_image vulkan_blit_image_2 = true
is_blit_image _ = false

abbrev pub region_offset : ℕ → ℕ
region_offset index = transfer_header_size + index * transfer_region_size

pub region_is_valid : Opcode → Buffer → ℕ → Bool
region_is_valid opcode payload wire =
    (if is_copy_buffer opcode
      then get_u64 payload (wire + 16) != 0
      else get_u32 payload (wire + 112) != 0
        && get_u32 payload (wire + 116) != 0
        && get_u32 payload (wire + 120) != 0)
    && (source_is_buffer opcode
        || get_u32 payload (wire + 32) != 0 && get_u32 payload (wire + 44) != 0)
    && (destination_is_buffer opcode
        || get_u32 payload (wire + 48) != 0 && get_u32 payload (wire + 60) != 0)
    && get_u32 payload (wire + 124) == 0

pub regions_are_valid : Opcode → Buffer → ℕ → Bool
regions_are_valid opcode payload count =
    all_below count (λ index. region_is_valid opcode payload (region_offset index))

pub transfer_is_valid : Opcode → Buffer → Bool
transfer_is_valid opcode payload =
    let count = get_u32 payload 28 in
    is_object (get_u64 payload 0) (if source_is_buffer opcode then object_buffer else object_image)
    && is_object (get_u64 payload 8)
        (if destination_is_buffer opcode then object_buffer else object_image)
    && (source_is_buffer opcode || get_u32 payload 16 != 0)
    && (destination_is_buffer opcode || get_u32 payload 20 != 0)
    && leb (get_u32 payload 24) (if is_blit_image opcode then 1 else 0)
    && count != 0
    && leb count max_transfer_regions
    && regions_are_valid opcode payload count

pub update_buffer_is_valid : Buffer → Bool
update_buffer_is_valid payload =
    let data_size = get_u32 payload 16 in
    is_object (get_u64 payload 0) object_buffer
    && is_multiple_of_4 (get_u64 payload 8)
    && data_size != 0
    && leb data_size max_update_buffer_bytes
    && is_multiple_of_4 data_size
    && get_u32 payload 20 == 0

pub clear_color_image_is_valid : Buffer → Bool
clear_color_image_is_valid payload =
    is_object (get_u64 payload 0) object_image && get_u64 payload 8 == 0

-- The first `count` images are images, each once, and the others zero.
pub images_are_valid : Buffer → ℕ → Bool
images_are_valid payload count = all_below max_init_image_barriers (λ index.
    let image_id = get_u64 payload (8 + index * 8) in
    if leb count index
    then image_id == 0
    else is_object image_id object_image
      && all_below index (λ earlier. image_id != get_u64 payload (8 + earlier * 8)))

pub init_image_barrier_is_valid : Buffer → Bool
init_image_barrier_is_valid payload =
    let count = get_u32 payload 0 in
    count != 0
    && leb count max_init_image_barriers
    && get_u32 payload 4 == 0
    && images_are_valid payload count
