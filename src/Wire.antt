-- ===== src/Wire.antt =====
-- The byte codecs of src/protocol.c (bvb_wire_put_* and bvb_wire_get_*), which src/lifecycle.c
-- repeats as static functions. A buffer is the family of its bytes from the pointer on; `output + 8`
-- is the same buffer at a larger offset.
pub mod RoundTrip
pub mod Canonical
use bionic_vulkan_bridge.Prelude.{
  ℕ, ◌+◌, ◌-◌, ◌*◌, ◌/◌, ◌%◌, ◌^◌, bit_and, bit_or, ltb, leb, ◌&&◌, if◌then◌else◌, update, ℤ, pos,
  negsuc,
}

abbrev pub Buffer : Type 0
Buffer = ℕ → ℕ

-- `x >> k` and, for a shift that loses no bits, `x << k`.
abbrev pub shr : ℕ → ℕ → ℕ
shr x k = x / 2 ^ k

abbrev pub shl : ℕ → ℕ → ℕ
shl x k = x * 2 ^ k

-- The conversions to uint8_t, uint16_t and uint32_t.
abbrev pub u8 : ℕ → ℕ
u8 x = x % 2 ^ 8

abbrev pub u16 : ℕ → ℕ
u16 x = x % 2 ^ 16

abbrev pub u32 : ℕ → ℕ
u32 x = x % 2 ^ 32

unfoldable pub put_u16 : Buffer → ℕ → ℕ → Buffer
put_u16 output o value =
    let output = update output o (u8 (bit_and value 0xff)) in
    update output (o + 1) (u8 (shr value 8))

unfoldable pub put_u32 : Buffer → ℕ → ℕ → Buffer
put_u32 output o value =
    let output = update output o (u8 (bit_and value 0xff)) in
    let output = update output (o + 1) (u8 (bit_and (shr value 8) 0xff)) in
    let output = update output (o + 2) (u8 (bit_and (shr value 16) 0xff)) in
    update output (o + 3) (u8 (shr value 24))

-- `(uint32_t)value` of an int32_t: the two's complement pattern.
abbrev pub pattern_of : ℤ → ℕ
pattern_of (pos n) = u32 n
pattern_of (negsuc n) = 2 ^ 32 - 1 - u32 n

-- `(int32_t)w` of a pattern below 2^32.
abbrev pub signed_of : ℕ → ℤ
signed_of w = if ltb w (2 ^ 31) then pos w else negsuc (2 ^ 32 - 1 - w)

unfoldable pub put_i32 : Buffer → ℕ → ℤ → Buffer
unfolding put_u32
put_i32 output o value = put_u32 output o (pattern_of value)

unfoldable pub put_u64 : Buffer → ℕ → ℕ → Buffer
put_u64 output o value =
    let output = put_u32 output o (u32 value) in put_u32 output (o + 4) (u32 (shr value 32))

unfoldable pub get_u16 : Buffer → ℕ → ℕ
get_u16 input o = u16 (bit_or (input o) (shl (input (o + 1)) 8))

unfoldable pub get_u32 : Buffer → ℕ → ℕ
get_u32 input o =
    bit_or (bit_or (bit_or (input o) (shl (input (o + 1)) 8)) (shl (input (o + 2)) 16))
      (shl (input (o + 3)) 24)

unfoldable pub get_i32 : Buffer → ℕ → ℤ
unfolding get_u32
get_i32 input o = signed_of (get_u32 input o)

unfoldable pub get_u64 : Buffer → ℕ → ℕ
get_u64 input o = bit_or (get_u32 input o) (shl (get_u32 input (o + 4)) 32)

-- `memcpy(output + o, bytes, size)`
abbrev pub copied : Buffer → ℕ → Buffer → ℕ → Buffer
copied output o bytes size i = if leb o i && ltb i (o + size) then bytes (i - o) else output i

-- `input + o`
abbrev pub from : Buffer → ℕ → Buffer
from input o i = input (o + i)
