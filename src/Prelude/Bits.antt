-- ===== src/Prelude/Bits.antt =====
-- Masks, shifts and disjoint joins of machine words as arithmetic, at every width.
use Prim.Native.Nat.{
  ℕ, zero, suc, ◌+◌, ◌-◌, ◌*◌, ◌/◌, ◌%◌, ◌^◌, ◌≤◌, ◌<◌, min, max, bit_and, bit_or, digits,
  bit_and-bitwise, bit_or-bitwise,
}
use mathlib.Core.Path.{◌≡◌, refl, ap}
use native.Mathlib.Nat.{pow-suc, one-le-pow}
use native.Mathlib.Decide.{dec_lt, ℕ_discrete}
use native.Mathlib.Omega.{arith}

-- One equation for the lowest digit; the fuel of the library's definition is dropped.
module _ (z : ℕ → ℕ) (f : ℕ → ℕ → ℕ) where
  enough_fuel : (n m a b : ℕ) → a ≤ n → a ≤ m → digits z f n a b ≡ digits z f m a b
  enough_fuel n m zero b p q = zero_case n m b
    where
      zero_case : (n m b : ℕ) → digits z f n 0 b ≡ digits z f m 0 b
      zero_case zero zero b = refl
      zero_case zero (suc m) b = refl
      zero_case (suc n) zero b = refl
      zero_case (suc n) (suc m) b = refl
  enough_fuel zero m (suc a) b p q = absurd (omega arith)
  enough_fuel (suc n) zero (suc a) b p q = absurd (omega arith)
  enough_fuel (suc n) (suc m) (suc a) b p q =
      let shorter = enough_fuel n m (suc a / 2) (b / 2) (omega arith) (omega arith) in rw shorter

pub bit_and_digit : (a b : ℕ) → bit_and a b ≡ bit_and (a / 2) (b / 2) * 2 + min (a % 2) (b % 2)
bit_and_digit zero b = simp bit_and-bitwise (omega arith)
bit_and_digit (suc a) b = simp bit_and-bitwise (
    omega (
      arith,
      enough_fuel (λ y. 0) min a (suc a / 2) (suc a / 2) (b / 2) (omega arith) (omega arith),
    ))

pub bit_or_digit : (a b : ℕ) → bit_or a b ≡ bit_or (a / 2) (b / 2) * 2 + max (a % 2) (b % 2)
bit_or_digit zero b = simp bit_or-bitwise (omega arith)
bit_or_digit (suc a) b = simp bit_or-bitwise (
    omega (
      arith,
      enough_fuel (λ y. y) max a (suc a / 2) (suc a / 2) (b / 2) (omega arith) (omega arith),
    ))

twice_pow : (q k : ℕ) → q * 2 ^ suc k ≡ 2 * (q * 2 ^ k)
twice_pow q k = omega (arith, ap (λ (t : ℕ). q * t) (pow-suc 2 k))

bit_and-zero_below : (n a : ℕ) → a ≤ n → bit_and a 0 ≡ 0
bit_and-zero_below n zero h = refl
bit_and-zero_below zero (suc a) h = absurd (omega arith)
bit_and-zero_below (suc n) (suc a) h =
    omega (arith, bit_and_digit (suc a) 0, bit_and-zero_below n (suc a / 2) (omega arith))

-- `x & (2^k - 1)` is the remainder.
pub bit_and-ones : (k x : ℕ) → bit_and x (2 ^ k - 1) ≡ x % 2 ^ k
bit_and-ones zero x = omega (arith, bit_and-zero_below x x (omega arith))
bit_and-ones (suc k) x = ground (
  arith,
  bit_and_digit x (2 ^ suc k - 1),
  pow-suc 2 k,
  one-le-pow k 2,
  bit_and-ones k (x / 2),
  halves,
)
  where
    -- The remainder by 2^(k+1) is twice that of the half, and the lowest digit.
    halves : x % 2 ^ suc k ≡ x / 2 % 2 ^ k * 2 + x % 2
    halves = rw (pow-suc 2 k) (grind arith)

bit_or-zero_below : (n a : ℕ) → a ≤ n → bit_or a 0 ≡ a
bit_or-zero_below n zero h = refl
bit_or-zero_below zero (suc a) h = absurd (omega arith)
bit_or-zero_below (suc n) (suc a) h =
    omega (arith, bit_or_digit (suc a) 0, bit_or-zero_below n (suc a / 2) (omega arith))

zero-bit_or : (b : ℕ) → bit_or 0 b ≡ b
zero-bit_or b = bit_or-bitwise 0 b

-- `low | (high << k)` is a sum where `low` fits below bit `k`.
pub bit_or_low_high :
    (k low high : ℕ) → low < 2 ^ k → bit_or low (high * 2 ^ k) ≡ low + high * 2 ^ k
bit_or_low_high zero low high fits =
    let nothing : low ≡ 0 = omega arith in rw nothing (omega (arith, zero-bit_or (high * 2 ^ 0)))
bit_or_low_high (suc k) low high fits = ground (
  arith,
  bit_or_digit low (high * 2 ^ suc k),
  twice_pow high k,
  pow-suc 2 k,
  bit_or_low_high k (low / 2) high (omega (arith, pow-suc 2 k)),
)

-- `(high << k) | low` likewise.
pub bit_or_high_low :
    (k high low : ℕ) → low < 2 ^ k → bit_or (high * 2 ^ k) low ≡ high * 2 ^ k + low
bit_or_high_low zero high low fits =
    let nothing : low ≡ 0 = omega arith in
    rw nothing (omega (arith, bit_or-zero_below (high * 2 ^ 0) (high * 2 ^ 0) (omega arith)))
bit_or_high_low (suc k) high low fits = ground (
  arith,
  bit_or_digit (high * 2 ^ suc k) low,
  twice_pow high k,
  pow-suc 2 k,
  bit_or_high_low k high (low / 2) (omega (arith, pow-suc 2 k)),
)

bit_and_self_below : (n a : ℕ) → a ≤ n → bit_and a a ≡ a
bit_and_self_below n zero h = refl
bit_and_self_below zero (suc a) h = absurd (omega arith)
bit_and_self_below (suc n) (suc a) h =
    omega (arith, bit_and_digit (suc a) (suc a), bit_and_self_below n (suc a / 2) (omega arith))

pow2_below : (n c : ℕ) → c ≤ n → 0 < c → bit_and c (c - 1) ≡ 0 → (k : ℕ) × (c ≡ 2 ^ k)
pow2_below zero c h pos e = absurd (omega arith)
pow2_below (suc n) c h pos e = elim (dec_lt 1 c) [
  | no one ↦ (0, omega arith)
  | yes more ↦ elim (ℕ_discrete (c % 2) 0) [
    | yes even ↦
        let d = c / 2 in
        let half : (c - 1) / 2 ≡ d - 1 = omega arith in
        let (k, p) =
          pow2_below n d (omega arith) (omega arith)
            (omega (arith, e, bit_and_digit c (c - 1), ap (bit_and d) half)) in
        (suc k, omega (arith, p, pow-suc 2 k))
    | no odd ↦
        let half : (c - 1) / 2 ≡ c / 2 = omega arith in
        absurd (
          omega (
            arith,
            e,
            bit_and_digit c (c - 1),
            ap (bit_and (c / 2)) half,
            bit_and_self_below (c / 2) (c / 2) (omega arith),
          ))
  ]
]

-- The test `(c & (c - 1)) == 0` on a nonzero word finds the powers of two.
pub power_of_two : (c : ℕ) → 0 < c → bit_and c (c - 1) ≡ 0 → (k : ℕ) × (c ≡ 2 ^ k)
power_of_two c = pow2_below c c (omega arith)

-- For such a word `x & (c - 1)` is the remainder by `c`.
pub bit_and_mask : (c x : ℕ) → 0 < c → bit_and c (c - 1) ≡ 0 → bit_and x (c - 1) ≡ x % c
bit_and_mask c x pos e = let (k, p) = power_of_two c pos e in rw p (bit_and-ones k x)
