-- ===== src/Prelude/Modular.antt =====
-- Going round an array: every index is reached from every start.
use Prim.Native.Nat.{ℕ, ◌+◌, ◌-◌, ◌%◌, ◌<◌}
use mathlib.Core.Path.{◌≡◌, ap, ◌∙◌}
use native.Mathlib.Nat.{mod-eq_of_lt, add-mod-mod, add-mod_right}
use native.Mathlib.Omega.{arith}

-- The steps from `start` to `i` in a ring of `n`.
abbrev pub steps_to : ℕ → ℕ → ℕ → ℕ
steps_to n start i = (i + n - start) % n

pub steps_to_reach : (n start i : ℕ) → start < n → i < n → (start + steps_to n start i) % n ≡ i
steps_to_reach n start i hs hi =
    add-mod-mod start (i + n - start) n
    ∙ ap (λ (t : ℕ). t % n) (omega arith)
    ∙ add-mod_right i n
    ∙ mod-eq_of_lt hi
