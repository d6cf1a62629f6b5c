-- ===== src/Protocol.antt =====
-- The wire messages of src/protocol.c and include/bvb/protocol.h: fixed layouts of little-endian
-- words behind a common header. A decoder returns the value it would store, or the error.
pub mod Instance
pub mod Formats
pub mod External
pub mod Device
pub mod CommandPool
pub mod CommandBuffer
pub mod Recording
pub mod BufferObject
pub mod DeviceAddress
pub mod Image
pub mod Sync
pub mod Hello
pub mod Header
use bionic_vulkan_bridge.Prelude.{
  ℕ, ◌/◌, ◌%◌, ◌^◌, bit_and, Bool, ◌&&◌, ltb, ◌==◌, ◌!=◌, if◌then◌else◌, not, ℤ, pos, negsuc,
}
use bionic_vulkan_bridge.Wire.{Buffer, u8, shr}

-- `(uint8_t)(wire_id >> 56) == type`, with a nonzero serial.
pub wire_id_is_type : ℕ → ℕ → Bool
wire_id_is_type wire_id type =
    u8 (shr wire_id 56) == type && bit_and wire_id 0xff_ffff_ffff_ffff != 0

-- `memset(output, 0, size)`
abbrev pub zeroed : Buffer → ℕ → Buffer
zeroed output size i = if ltb i size then 0 else output i

-- Whether an int32_t is zero.
abbrev pub is_zero : ℤ → Bool
is_zero (pos n) = n == 0
is_zero (negsuc n) = Bool.false

abbrev pub is_nonzero : ℤ → Bool
is_nonzero x = not (is_zero x)

abbrev pub buffer_requirements_2_pnext_mask : ℕ
buffer_requirements_2_pnext_mask = 1

abbrev pub buffer_requirements_2_request_size : ℕ
buffer_requirements_2_request_size = 16

abbrev pub buffer_requirements_size : ℕ
buffer_requirements_size = 24

abbrev pub command_buffer_allocate_response_size : ℕ
command_buffer_allocate_response_size = 16

abbrev pub command_buffer_begin_request_size : ℕ
command_buffer_begin_request_size = 16

abbrev pub command_buffer_fill_request_size : ℕ
command_buffer_fill_request_size = 40

abbrev pub command_pool_create_response_size : ℕ
command_pool_create_response_size = 16

abbrev pub command_pool_reset_request_size : ℕ
command_pool_reset_request_size = 16

abbrev pub device_create_request_size : ℕ
device_create_request_size = 32

abbrev pub device_extension_query_size : ℕ
device_extension_query_size = 16

abbrev pub device_queue_request_size : ℕ
device_queue_request_size = 16

abbrev pub external_buffer_query_size : ℕ
external_buffer_query_size = 24

abbrev pub external_semaphore_query_size : ℕ
external_semaphore_query_size = 16

abbrev pub fence_create_request_size : ℕ
fence_create_request_size = 16

abbrev pub fence_wait_request_size : ℕ
fence_wait_request_size = 24

abbrev pub format_query_size : ℕ
format_query_size = 16

abbrev pub global_info_size : ℕ
global_info_size = 24

abbrev pub image_format_properties_size : ℕ
image_format_properties_size = 40

abbrev pub image_format_query_size : ℕ
image_format_query_size = 32

abbrev pub image_requirements_2_pnext_mask : ℕ
image_requirements_2_pnext_mask = 1

abbrev pub image_requirements_2_request_size : ℕ
image_requirements_2_request_size = 16

abbrev pub image_requirements_size : ℕ
image_requirements_size = 24

abbrev pub instance_create_response_size : ℕ
instance_create_response_size = 16

abbrev pub memory_verify_fill_request_size : ℕ
memory_verify_fill_request_size = 32

abbrev pub object_buffer : ℕ
object_buffer = 19

abbrev pub object_create_response_size : ℕ
object_create_response_size = 16

abbrev pub object_device_memory : ℕ
object_device_memory = 9

abbrev pub object_image : ℕ
object_image = 7

abbrev pub semaphore_counter_response_size : ℕ
semaphore_counter_response_size = 16

abbrev pub semaphore_create_request_size : ℕ
semaphore_create_request_size = 24
