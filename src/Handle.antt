-- ===== src/Handle.antt =====
-- Typed wire ids: the first half of src/handle.c and include/bvb/handle.h. An object type is the
-- number of its enumerator.
pub mod Ids
pub mod Table
use bionic_vulkan_bridge.Prelude.{
  ℕ, ◌-◌, ◌^◌, ◌*◌, ◌/◌, bit_and, bit_or, Bool, not, ◌&&◌, ◌||◌, ltb, leb, ◌==◌, ◌!=◌,
  if◌then◌else◌, Status, success, err, einval,
}

abbrev pub object_invalid : ℕ
object_invalid = 0

abbrev pub object_instance : ℕ
object_instance = 1

abbrev pub object_physical_device : ℕ
object_physical_device = 2

abbrev pub object_command_buffer : ℕ
object_command_buffer = 11

abbrev pub object_image_view : ℕ
object_image_view = 8

abbrev pub object_pipeline_layout : ℕ
object_pipeline_layout = 15

abbrev pub object_pipeline : ℕ
object_pipeline = 16

abbrev pub object_descriptor_set : ℕ
object_descriptor_set = 22

abbrev pub object_query_pool : ℕ
object_query_pool = 25

abbrev pub handle_type_shift : ℕ
handle_type_shift = 56

abbrev pub handle_serial_mask : ℕ
handle_serial_mask = 0x00ff_ffff_ffff_ffff

unfoldable pub object_type_is_valid : ℕ → Bool
object_type_is_valid type = leb object_instance type && leb type object_query_pool

-- `(uint64_t)type << 56` loses no bits, since a valid type is at most 25.
unfoldable pub handle_id : ℕ → ℕ → ℕ
unfolding object_type_is_valid
handle_id type serial =
    if not (object_type_is_valid type) || serial == 0 || ltb handle_serial_mask serial
    then 0
    else bit_or (type * 2 ^ handle_type_shift) serial

unfoldable pub handle_type : ℕ → ℕ
unfolding object_type_is_valid
handle_type wire_id =
    let type = wire_id / 2 ^ handle_type_shift in
    if object_type_is_valid type then type else object_invalid

unfoldable pub handle_serial : ℕ → ℕ
handle_serial wire_id = bit_and wire_id handle_serial_mask

unfoldable pub handle_expect : ℕ → ℕ → Status
unfolding object_type_is_valid handle_type handle_serial
handle_expect wire_id expected_type =
    if not (object_type_is_valid expected_type)
      || handle_type wire_id != expected_type
      || handle_serial wire_id == 0
    then err einval
    else success
