-- ===== src/Lifecycle/Token.antt =====
-- The hexadecimal token of bvb_lifecycle_token_from_hex.
use bionic_vulkan_bridge.Prelude.{
  ℕ, zero, suc, ◌+◌, ◌*◌, ◌^◌, ◌<◌, ◌≤◌, ◌≡◌, err, none, some, arith, success, einval, bit_or,
  update, refl, if◌then◌else◌, ltb, leb, ◌&&◌, ◌⊎◌, ◌∙◌, ap, sym, ◌≢◌, inl, inr, ◌==◌, Option-cases,
}
use mathlib.Core.Path.{fun_ext}
use bionic_vulkan_bridge.Prelude.Bits.{bit_or_high_low}
use bionic_vulkan_bridge.Wire.{Buffer, u8, shl}
use bionic_vulkan_bridge.Lifecycle.{hex_nibble, token_loop, token_from_hex}

hex_nibble_bound : (c d : ℕ) → hex_nibble c ≡ some d → d < 16
unfolding hex_nibble
hex_nibble_bound c d e = ground (arith, e)

-- `high << 4 | low`
byte_lem : (h l : ℕ) → h < 16 → l < 16 → bit_or (u8 (shl h 4)) (u8 l) ≡ h * 16 + l
byte_lem h l a b =
    let high : u8 (shl h 4) ≡ h * 2 ^ 4 = omega arith in
    let low : u8 l ≡ l = omega arith in rw (high, low) (bit_or_high_low 4 h l b)

-- The characters have these values as digits.
abbrev pub AreDigits : Buffer → Buffer → Type 0
AreDigits input digits = (i : ℕ) → i < 64 → hex_nibble (input i) ≡ some (digits i)

-- The bytes from an index on that the digits stand for, in pairs with the high one first.
abbrev pub paired : Buffer → ℕ → Buffer → Buffer
paired digits index output i =
    if leb index i && ltb i 32 then digits (i * 2) * 16 + digits (i * 2 + 1) else output i

paired_step :
    (digits output : Buffer) (index byte : ℕ)
    → index < 32
    → byte ≡ digits (index * 2) * 16 + digits (index * 2 + 1)
    → paired digits (index + 1) (update output index byte) ≡ paired digits index output
paired_step digits output index byte l e = fun_ext λ i. ground (arith, e)

paired_end : (digits output : Buffer) (index : ℕ) → index ≡ 32 → paired digits index output ≡ output
paired_end digits output index e = fun_ext λ i. ground (arith, e)

token_loop_step :
    (input output : Buffer) (left index high low : ℕ)
    → hex_nibble (input (index * 2)) ≡ some high
    → hex_nibble (input (index * 2 + 1)) ≡ some low
    → token_loop input (suc left) index output
      ≡ token_loop input left (index + 1) (update output index (bit_or (u8 (shl high 4)) (u8 low)))
unfolding token_loop
token_loop_step input output left index high low a b = rw (token_loop, a, b) refl

pub token_loop_lem :
    (input digits : Buffer) (left index : ℕ) (output : Buffer)
    → AreDigits input digits
    → index + left ≡ 32
    → token_loop input left index output ≡ some (paired digits index output)
unfolding token_loop
token_loop_lem input digits zero index output h e =
    ap some (sym (paired_end digits output index (omega (arith, e))))
token_loop_lem input digits (suc left) index output h e =
    let a = digits (index * 2) in
    let b = digits (index * 2 + 1) in
    let high = h (index * 2) (omega (arith, e)) in
    let low = h (index * 2 + 1) (omega (arith, e)) in
    let value = bit_or (u8 (shl a 4)) (u8 b) in
    let byte =
      byte_lem a b (hex_nibble_bound (input (index * 2)) a high)
        (hex_nibble_bound (input (index * 2 + 1)) b low) in
    token_loop_step input output left index a b high low
    ∙ token_loop_lem input digits left (index + 1) (update output index value) h (omega (arith, e))
    ∙ ap some (paired_step digits output index value (omega (arith, e)) byte)

-- A text of 64 hexadecimal digits is accepted, and each byte of the output's first 32 becomes the value of
-- its two digits, the high one first.
pub token_from_hex_digits :
    (input digits output : Buffer)
    → AreDigits input digits
    → token_from_hex input 64 output ≡ (paired digits 0 output, success)
unfolding token_from_hex
token_from_hex_digits input digits output h =
    rw (token_loop_lem input digits 32 0 output h refl) refl

-- A character that is no digit stops the loop.
token_loop_stops :
    (input : Buffer) (left index : ℕ) (output : Buffer) (i : ℕ)
    → hex_nibble (input i) ≡ none
    → index * 2 ≤ i
    → i < (index + left) * 2
    → token_loop input left index output ≡ none
unfolding token_loop
token_loop_stops input zero index output i e l u = absurd (omega (arith, l, u))
token_loop_stops input (suc left) index output i e l u =
    elim (Option-cases (hex_nibble (input (index * 2)))) [
      | inl nothing ↦ rw (token_loop, nothing) refl
      | inr (a, high) ↦ elim (Option-cases (hex_nibble (input (index * 2 + 1)))) [
        | inl nothing ↦ rw (token_loop, high, nothing) refl
        | inr (b, low) ↦
            rw (token_loop, high, low)
              (token_loop_stops input left (index + 1)
                (update output index (bit_or (u8 (shl a 4)) (u8 b))) i e
                (ground (arith, e, high, low, l)) (omega (arith, u)))
      ]
    ]

-- A text of another length, or with a character that is no digit, is refused with EINVAL; then, at the right
-- length, the output's 32 bytes are zero, and at another it is untouched.
pub token_from_hex_refused :
    (input output : Buffer) (length i : ℕ)
    → (length ≡ 64) × (i < 64) × (hex_nibble (input i) ≡ none) ⊎ (length ≢ 64)
    → token_from_hex input length output
      ≡ ((if length == 64 then (λ k. if ltb k 32 then 0 else output k) else output), err einval)
unfolding token_from_hex
token_from_hex_refused input output length i (inl (l, b, e)) =
    rw (l, token_loop_stops input 32 0 output i e (omega arith) b) refl
token_from_hex_refused input output length i (inr n) = ground (arith, n)
