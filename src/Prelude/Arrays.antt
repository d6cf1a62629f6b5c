-- ===== src/Prelude/Arrays.antt =====
-- C arrays and byte buffers as families over the index, and counts over an initial segment.
use Prim.Native.Nat.{ℕ, zero, suc, ◌+◌, ◌≤◌, ◌<◌}
use mathlib.Core.Path.{◌≡◌, refl}
use mathlib.Core.Logic.{◌≢◌}
use mathlib.Core.Bool.{Bool, true, false, ◌&&◌}
use mathlib.Core.List.{List, [], ◌∷◌, ◌++◌}
use native.Mathlib.Decide.{dec_lt}
use native.Mathlib.Omega.{arith}
use package.bionic_vulkan_bridge.Prelude.Tests.{◌==◌, if◌then◌else◌, ==_ne, ==_refl}

-- `array[i] = a`
abbrev pub update {ℓ} : {A : Type ℓ} → (ℕ → A) → ℕ → A → ℕ → A
update f i a j = if i == j then a else f j

pub update_self {ℓ} : {A : Type ℓ} (f : ℕ → A) (i : ℕ) (a : A) → update f i a i ≡ a
update_self f i a = rw (==_refl i)

pub update_ne {ℓ} : {A : Type ℓ} (f : ℕ → A) (i : ℕ) (a : A) (j : ℕ) → i ≢ j → update f i a j ≡ f j
update_ne f i a j h = rw (==_ne i j h)

abbrev pub bit_of : Bool → ℕ
bit_of true = 1
bit_of false = 0

-- How many of the first `n` indices pass the test.
module _ {ℓ} {A : Type ℓ} (p : A → Bool) where
  pub count_below : ℕ → (ℕ → A) → ℕ
  count_below zero f = 0
  count_below (suc n) f = count_below n f + bit_of (p (f n))

  count_below-update_of_le :
      (n : ℕ) (f : ℕ → A) (i : ℕ) (a : A) → n ≤ i → count_below n (update f i a) ≡ count_below n f
  unfolding count_below
  count_below-update_of_le zero f i a h = refl
  count_below-update_of_le (suc n) f i a h =
      ground (arith, count_below-update_of_le n f i a (omega arith))

  -- A write at one index moves the count by that index alone.
  pub count_below-update :
      (n : ℕ) (f : ℕ → A) (i : ℕ) (a : A)
      → i < n
      → count_below n (update f i a) + bit_of (p (f i)) ≡ count_below n f + bit_of (p a)
  unfolding count_below
  count_below-update zero f i a h = absurd (omega arith)
  count_below-update (suc n) f i a h = elim (dec_lt i n) [
    | yes below ↦ ground (arith, count_below-update n f i a below)
    | no last ↦ ground (arith, count_below-update_of_le n f i a)
  ]

  bit_of-le : (b : Bool) → bit_of b ≤ 1
  bit_of-le true = omega arith
  bit_of-le false = omega arith

  pub count_below-le : (n : ℕ) (f : ℕ → A) → count_below n f ≤ n
  unfolding count_below
  count_below-le zero f = omega arith
  count_below-le (suc n) f = omega (arith, count_below-le n f, bit_of-le (p (f n)))

  pub count_below-all :
      (n : ℕ) (f : ℕ → A) → ((i : ℕ) → i < n → p (f i) ≡ true) → count_below n f ≡ n
  unfolding count_below
  count_below-all zero f h = refl
  count_below-all (suc n) f h =
      ground (arith, h n (omega arith), count_below-all n f (λ i lt. h i (omega arith)))

  pub count_below-none :
      (n : ℕ) (f : ℕ → A) → ((i : ℕ) → i < n → p (f i) ≡ false) → count_below n f ≡ 0
  unfolding count_below
  count_below-none zero f h = refl
  count_below-none (suc n) f h =
      ground (arith, h n (omega arith), count_below-none n f (λ i lt. h i (omega arith)))

module _ {ℓ} {A : Type ℓ} where
  abbrev pub length : List A → ℕ
  length [] = 0
  length (x ∷ xs) = suc (length xs)

  pub length-append : (xs ys : List A) → length (xs ++ ys) ≡ length xs + length ys
  length-append [] ys = omega arith
  length-append (x ∷ xs) ys = omega (arith, length-append xs ys)

-- Whether each of the first `n` indices passes the test.
unfoldable pub all_below : ℕ → (ℕ → Bool) → Bool
all_below zero f = true
all_below (suc n) f = all_below n f && f n

pub all_below_ext :
    {f g : ℕ → Bool} (n : ℕ) → ((i : ℕ) → i < n → f i ≡ g i) → all_below n f ≡ all_below n g
unfolding all_below
all_below_ext zero h = refl
all_below_ext (suc n) h = rw (all_below_ext n (λ i l. h i (omega arith)), h n (omega arith)) refl

at_last : (i n : ℕ) → i < suc n → ¬ (i < n) → i ≡ n
at_last i n l top = omega (arith, l, top)

pub all_below_at : (f : ℕ → Bool) (n : ℕ) → all_below n f ≡ true → (i : ℕ) → i < n → f i ≡ true
unfolding all_below
all_below_at f zero h i l = absurd (omega (arith, l))
all_below_at f (suc n) h i l =
    let (rest, last) : (all_below n f ≡ true) × (f n ≡ true) = ground (arith, h) in
    elim (dec_lt i n) [
      | yes below ↦ all_below_at f n rest i below
      | no top ↦ rw (at_last i n l top) last
    ]

pub all_below_of : (f : ℕ → Bool) (n : ℕ) → ((i : ℕ) → i < n → f i ≡ true) → all_below n f ≡ true
unfolding all_below
all_below_of f zero h = refl
all_below_of f (suc n) h = rw (all_below_of f n (λ i l. h i (omega arith)), h n (omega arith)) refl
