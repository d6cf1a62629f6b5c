-- ===== src/Wire/Canonical.antt =====
-- Writing back what was read: the first bytes of a buffer agree with those of the input, word by word.
use bionic_vulkan_bridge.Prelude.{ℕ, ◌+◌, ◌*◌, ◌/◌, ◌^◌, ◌<◌, ◌≡◌, arith, sym}
use bionic_vulkan_bridge.Prelude.Bits.{bit_and-ones, bit_or_low_high}
use bionic_vulkan_bridge.Wire.{
  Buffer, u32, put_u16, put_u32, put_i32, put_u64, get_u16, get_u32, get_i32, get_u64, pattern_of,
  signed_of,
}
use bionic_vulkan_bridge.Wire.RoundTrip.{IsBytes, get_u32-bytes, put_u32-bytes}

-- The first n bytes are the same.
abbrev pub AgreeTo : ℕ → Buffer → Buffer → Type 0
AgreeTo n a b = (i : ℕ) → i < n → a i ≡ b i

word_lem :
    (out b : Buffer) (o : ℕ)
    → IsBytes b
    → (put_u32 out o (get_u32 b o) o ≡ b o)
      × (put_u32 out o (get_u32 b o) (o + 1) ≡ b (o + 1))
      × (put_u32 out o (get_u32 b o) (o + 2) ≡ b (o + 2))
      × (put_u32 out o (get_u32 b o) (o + 3) ≡ b (o + 3))
word_lem out b o h = ground (
  arith,
  put_u32-bytes out o (get_u32 b o),
  get_u32-bytes b o (h o) (h (o + 1)) (h (o + 2)),
  h o,
  h (o + 1),
  h (o + 2),
  h (o + 3),
)

pub agree_none : (out b : Buffer) → AgreeTo 0 out b
agree_none out b i l = omega arith

-- Each reads a word of the input and stores it at the same place.
pub put_u32_agree :
    (out b : Buffer) (o : ℕ)
    → IsBytes b
    → AgreeTo o out b
    → AgreeTo (o + 4) (put_u32 out o (get_u32 b o)) b
unfolding put_u32
put_u32_agree out b o h a i l = ground (arith, word_lem out b o h, a i)

get_u32-IsU32 : (b : Buffer) (o : ℕ) → IsBytes b → get_u32 b o < 2 ^ 32
get_u32-IsU32 b o h =
    ground
      (arith, get_u32-bytes b o (h o) (h (o + 1)) (h (o + 2)), h o, h (o + 1), h (o + 2), h (o + 3))

halves :
    (b : Buffer) (o : ℕ)
    → IsBytes b
    → (u32 (get_u64 b o) ≡ get_u32 b o) × (u32 (get_u64 b o / 2 ^ 32) ≡ get_u32 b (o + 4))
unfolding get_u64
halves b o h =
    let low = get_u32-IsU32 b o h in
    let high = get_u32-IsU32 b (o + 4) h in
    rw (bit_or_low_high 32 (get_u32 b o) (get_u32 b (o + 4)) low) (omega arith, omega arith)

pub put_u64_agree :
    (out b : Buffer) (o : ℕ)
    → IsBytes b
    → AgreeTo o out b
    → AgreeTo (o + 8) (put_u64 out o (get_u64 b o)) b
unfolding put_u64
put_u64_agree out b o h a i l =
    let (low, high) = halves b o h in
    rw (low, high)
      (put_u32_agree (put_u32 out o (get_u32 b o)) b (o + 4) h (put_u32_agree out b o h a) i
        (omega arith))

pattern_of-signed_of : (w : ℕ) → w < 2 ^ 32 → pattern_of (signed_of w) ≡ w
pattern_of-signed_of w h = ground arith

pub put_i32_agree :
    (out b : Buffer) (o : ℕ)
    → IsBytes b
    → AgreeTo o out b
    → AgreeTo (o + 4) (put_i32 out o (get_i32 b o)) b
unfolding put_i32 get_i32
put_i32_agree out b o h a i l =
    rw (pattern_of-signed_of (get_u32 b o) (get_u32-IsU32 b o h)) (put_u32_agree out b o h a i l)

get_u16-bytes : (b : Buffer) (o : ℕ) → IsBytes b → get_u16 b o ≡ b o + b (o + 1) * 2 ^ 8
unfolding get_u16
get_u16-bytes b o h =
    rw (bit_or_low_high 8 (b o) (b (o + 1)) (h o))
      (let low = h o in let high = h (o + 1) in omega arith)

pub put_u16_agree :
    (out b : Buffer) (o : ℕ)
    → IsBytes b
    → AgreeTo o out b
    → AgreeTo (o + 2) (put_u16 out o (get_u16 b o)) b
unfolding put_u16
put_u16_agree out b o h a i l =
    ground (arith, bit_and-ones 8 (get_u16 b o), get_u16-bytes b o h, h o, h (o + 1), a i)

-- A word that both hold as zero.
pub zero_u32_agree :
    (out b : Buffer) (o : ℕ)
    → IsBytes b
    → get_u32 b o ≡ 0
    → (out o ≡ 0) × (out (o + 1) ≡ 0) × (out (o + 2) ≡ 0) × (out (o + 3) ≡ 0)
    → AgreeTo o out b
    → AgreeTo (o + 4) out b
zero_u32_agree out b o h z blank a i l =
    ground (arith, get_u32-bytes b o (h o) (h (o + 1)) (h (o + 2)), z, blank, a i)

-- The same for a word that a constant was stored to.
pub const_u32_agree :
    (out b : Buffer) (o v : ℕ)
    → IsBytes b
    → get_u32 b o ≡ v
    → AgreeTo o out b
    → AgreeTo (o + 4) (put_u32 out o v) b
const_u32_agree out b o v h e a = rw (sym e) (put_u32_agree out b o h a)

pub const_u16_agree :
    (out b : Buffer) (o v : ℕ)
    → IsBytes b
    → get_u16 b o ≡ v
    → AgreeTo o out b
    → AgreeTo (o + 2) (put_u16 out o v) b
const_u16_agree out b o v h e a = rw (sym e) (put_u16_agree out b o h a)
