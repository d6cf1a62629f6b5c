-- ===== src/CommandBatch/Payload/Words.antt =====
-- The tests that the validators of src/command_batch.c share: handles, finite floats, image ranges and
-- words that are zero.
pub mod Reads
use bionic_vulkan_bridge.Prelude.{
  ℕ, ◌+◌, ◌-◌, ◌*◌, ◌^◌, Bool, true, false, not, ◌&&◌, ◌||◌, ltb, leb, ◌==◌, ◌!=◌, if◌then◌else◌,
  bit_and, ok, err, all_below,
}
use bionic_vulkan_bridge.Wire.{Buffer, get_u32}
use bionic_vulkan_bridge.Handle.{handle_expect}
use bionic_vulkan_bridge.CommandBatch.Payload.Opcodes.{}

-- `bvb_handle_expect(wire_id, type) == 0`
pub is_object : ℕ → ℕ → Bool
is_object wire_id type = elim (handle_expect wire_id type) [ ok _ ↦ true | err _ ↦ false ]

-- No bit of the word is outside the mask: `(word & ~mask) == 0`.
pub within_mask : ℕ → ℕ → Bool
within_mask word mask = bit_and word (2 ^ 32 - 1 - mask) == 0

pub is_multiple_of_4 : ℕ → Bool
is_multiple_of_4 word = bit_and word 3 == 0

-- A float is its 32-bit pattern.
pub float_word_is_finite : ℕ → Bool
float_word_is_finite word = bit_and word 0x7f80_0000 != 0x7f80_0000

abbrev pub magnitude : ℕ → ℕ
magnitude word = bit_and word 0x7fff_ffff

abbrev pub is_negative : ℕ → Bool
is_negative word = leb (2 ^ 31) word

-- `value == 0.0F`: both zeros.
pub float_is_zero : ℕ → Bool
float_is_zero word = magnitude word == 0

-- `<` of IEEE 754 on finite patterns: sign and magnitude, the two zeros equal.
pub float_lt : ℕ → ℕ → Bool
float_lt a b =
    if is_negative a
    then if is_negative b
      then ltb (magnitude b) (magnitude a)
      else magnitude a != 0 || magnitude b != 0
    else not (is_negative b) && ltb (magnitude a) (magnitude b)

-- The pattern of 1.0F.
abbrev pub float_one : ℕ
float_one = 0x3f80_0000

-- The pattern of the float nearest to 6.283186.
abbrev pub float_turn : ℕ
float_turn = 0x40c9_0fdc

-- The value lies between 0.0F and 1.0F.
pub float_is_depth : ℕ → Bool
float_is_depth word = not (float_lt word 0) && not (float_lt float_one word)

-- validate_image_range_wire and image_range_wire_is_zero, at an offset.
pub image_range_is_valid : Buffer → ℕ → Bool
image_range_is_valid input o =
    get_u32 input o != 0
    && get_u32 input (o + 8) != 0
    && get_u32 input (o + 16) != 0
    && get_u32 input (o + 20) == 0

pub image_range_is_zero : Buffer → ℕ → Bool
image_range_is_zero input o = all_below 6 (λ index. get_u32 input (o + index * 4) == 0)

pub bytes_are_zero : Buffer → ℕ → ℕ → Bool
bytes_are_zero bytes o size = all_below size (λ index. bytes (o + index) == 0)
