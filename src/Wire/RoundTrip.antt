-- ===== src/Wire/RoundTrip.antt =====
-- Reading back what was written, and what a write leaves alone.
use bionic_vulkan_bridge.Prelude.{
  ℕ, ◌+◌, ◌-◌, ◌*◌, ◌/◌, ◌%◌, ◌^◌, ◌≤◌, ◌<◌, bit_and, bit_or, ◌≡◌, ◌⊎◌, inl, inr, arith, ◌∙◌, ℤ,
  pos, negsuc,
}
use bionic_vulkan_bridge.Prelude.Bits.{bit_and-ones, bit_or_low_high}
use bionic_vulkan_bridge.Wire.{
  Buffer, u8, u16, u32, put_u16, put_u32, put_i32, put_u64, get_u16, get_u32, get_i32, get_u64,
  pattern_of, signed_of,
}

-- A buffer of bytes.
abbrev pub IsBytes : Buffer → Type 0
IsBytes b = (i : ℕ) → b i < 256

low_byte : (v : ℕ) → u8 (bit_and v 0xff) ≡ v % 256
low_byte v = omega (arith, bit_and-ones 8 v)

-- Four bytes joined are their positional sum.
pub join_u32 :
    (a b c d : ℕ)
    → a < 256
    → b < 256
    → c < 256
    → bit_or (bit_or (bit_or a (b * 2 ^ 8)) (c * 2 ^ 16)) (d * 2 ^ 24)
      ≡ a + b * 2 ^ 8 + c * 2 ^ 16 + d * 2 ^ 24
join_u32 a b c d ha hb hc = rw (bit_or_low_high 8 a b ha) (
    rw (bit_or_low_high 16 (a + b * 2 ^ 8) c (omega arith))
      (bit_or_low_high 24 (a + b * 2 ^ 8 + c * 2 ^ 16) d (omega arith)))

pub get_u32-bytes :
    (i : Buffer) (o : ℕ)
    → i o < 256
    → i (o + 1) < 256
    → i (o + 2) < 256
    → get_u32 i o ≡ i o + i (o + 1) * 2 ^ 8 + i (o + 2) * 2 ^ 16 + i (o + 3) * 2 ^ 24
unfolding get_u32
get_u32-bytes i o a b c = join_u32 (i o) (i (o + 1)) (i (o + 2)) (i (o + 3)) a b c

-- What `put_u32` leaves in its four bytes.
pub put_u32-bytes :
    (b : Buffer) (o v : ℕ)
    → (put_u32 b o v o ≡ v % 256)
      × (put_u32 b o v (o + 1) ≡ v / 2 ^ 8 % 256)
      × (put_u32 b o v (o + 2) ≡ v / 2 ^ 16 % 256)
      × (put_u32 b o v (o + 3) ≡ v / 2 ^ 24 % 256)
unfolding put_u32
put_u32-bytes b o v = ground (arith, low_byte v, low_byte (v / 2 ^ 8), low_byte (v / 2 ^ 16))

-- The bytes of a stored word, joined as the readers join them.
abbrev pub joined_u16 : ℕ → ℕ
joined_u16 v = u16 (bit_or (u8 (bit_and v 0xff)) (u8 (v / 2 ^ 8) * 2 ^ 8))

abbrev pub joined_u32 : ℕ → ℕ
joined_u32 v =
    bit_or
      (bit_or (bit_or (u8 (bit_and v 0xff)) (u8 (bit_and (v / 2 ^ 8) 0xff) * 2 ^ 8))
        (u8 (bit_and (v / 2 ^ 16) 0xff) * 2 ^ 16))
      (u8 (v / 2 ^ 24) * 2 ^ 24)

abbrev pub joined_u64 : ℕ → ℕ
joined_u64 v = bit_or (joined_u32 (u32 v)) (joined_u32 (u32 (v / 2 ^ 32)) * 2 ^ 32)

pub joined_u16_lem : (v : ℕ) → v < 2 ^ 16 → joined_u16 v ≡ v
joined_u16_lem v h =
    rw (low_byte v) (rw (bit_or_low_high 8 (v % 256) (u8 (v / 2 ^ 8)) (omega arith)) (omega arith))

pub joined_u32_lem : (v : ℕ) → v < 2 ^ 32 → joined_u32 v ≡ v
joined_u32_lem v h =
    rw (low_byte v, low_byte (v / 2 ^ 8), low_byte (v / 2 ^ 16))
      (rw
        (join_u32 (v % 256) (v / 2 ^ 8 % 256) (v / 2 ^ 16 % 256) (u8 (v / 2 ^ 24)) (omega arith)
          (omega arith) (omega arith))
        (omega arith))

pub joined_u64_lem : (v : ℕ) → v < 2 ^ 64 → joined_u64 v ≡ v
joined_u64_lem v h =
    rw (joined_u32_lem (u32 v) (omega arith), joined_u32_lem (u32 (v / 2 ^ 32)) (omega arith))
      (rw (bit_or_low_high 32 (u32 v) (u32 (v / 2 ^ 32)) (omega arith)) (omega arith))

-- An int32_t.
abbrev pub IsI32 : ℤ → Type 0
IsI32 (pos n) = n < 2 ^ 31
IsI32 (negsuc n) = n < 2 ^ 31

pub joined_i32_lem : (v : ℤ) → IsI32 v → signed_of (joined_u32 (pattern_of v)) ≡ v
joined_i32_lem (pos n) h = rw (joined_u32_lem (u32 n) (omega arith)) (ground arith)
joined_i32_lem (negsuc n) h = rw (joined_u32_lem (2 ^ 32 - 1 - u32 n) (omega arith)) (ground arith)

-- A store outside the four bytes is not seen.
get_u32-put_u32_apart :
    (b : Buffer) (o p v : ℕ) → (p + 4 ≤ o) ⊎ (o + 4 ≤ p) → get_u32 (put_u32 b p v) o ≡ get_u32 b o
unfolding get_u32 put_u32
get_u32-put_u32_apart b o p v h = ground arith

-- What is stored at an offset is read back there, and nothing else changes.
pub get_u16-put_u16 : (b : Buffer) (o v : ℕ) → v < 2 ^ 16 → get_u16 (put_u16 b o v) o ≡ v
unfolding get_u16 put_u16
get_u16-put_u16 b o v h = ground (arith, joined_u16_lem v)

pub get_u32-put_u32 : (b : Buffer) (o v : ℕ) → v < 2 ^ 32 → get_u32 (put_u32 b o v) o ≡ v
unfolding get_u32 put_u32
get_u32-put_u32 b o v h = ground (arith, joined_u32_lem v)

pub get_u64-put_u64 : (b : Buffer) (o v : ℕ) → v < 2 ^ 64 → get_u64 (put_u64 b o v) o ≡ v
unfolding get_u64 put_u64
get_u64-put_u64 b o v h =
    let low = put_u32 b o (u32 v) in
    let high = u32 (v / 2 ^ 32) in
    rw (get_u32-put_u32_apart low o (o + 4) high (inr (omega arith))) (
      rw (get_u32-put_u32 b o (u32 v) (omega arith)) (
        rw (get_u32-put_u32 low (o + 4) high (omega arith))
          (rw (bit_or_low_high 32 (u32 v) high (omega arith)) (omega arith))))

pub get_i32-put_i32 : (b : Buffer) (o : ℕ) (v : ℤ) → IsI32 v → get_i32 (put_i32 b o v) o ≡ v
unfolding get_i32 put_i32
get_i32-put_i32 b o v h = ground (arith, joined_i32_lem v h)

pub put_u16-outside : (b : Buffer) (o v i : ℕ) → (i < o) ⊎ (o + 2 ≤ i) → put_u16 b o v i ≡ b i
unfolding put_u16
put_u16-outside b o v i h = ground arith

pub put_u32-outside : (b : Buffer) (o v i : ℕ) → (i < o) ⊎ (o + 4 ≤ i) → put_u32 b o v i ≡ b i
unfolding put_u32
put_u32-outside b o v i h = ground arith

pub put_u64-outside : (b : Buffer) (o v i : ℕ) → (i < o) ⊎ (o + 8 ≤ i) → put_u64 b o v i ≡ b i
unfolding put_u64
put_u64-outside b o v i h = elim h [
  | inl below ↦
      put_u32-outside (put_u32 b o (u32 v)) (o + 4) (u32 (v / 2 ^ 32)) i (inl (omega arith))
      ∙ put_u32-outside b o (u32 v) i (inl below)
  | inr above ↦
      put_u32-outside (put_u32 b o (u32 v)) (o + 4) (u32 (v / 2 ^ 32)) i (inr (omega arith))
      ∙ put_u32-outside b o (u32 v) i (inr (omega arith))
]
