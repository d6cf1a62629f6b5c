-- ===== src/Prelude/Results.antt =====
-- What the C functions return: success with the values behind the out parameters, or an error.
use Prim.Native.Nat.{ℕ}
use mathlib.Core.Bool.{Bool, true, false}
use mathlib.Core.Path.{◌≡◌, refl}
use mathlib.Core.Logic.{◌⊎◌, inl, inr}
use package.bionic_vulkan_bridge.Prelude.Tests.{◌==◌, if◌then◌else◌}

-- The errno values that the modelled code returns negated; `other` is one that it does not name.
pub data Error : Type 0 where
  einval enoent enospc eexist eproto eagain ebusy estale eoverflow etimedout eio erange : Error
  emsgsize enomem : Error
  other : ℕ → Error

pub data Result {ℓ} (A : Type ℓ) : Type ℓ where
  ok : A → Result A
  err : Error → Result A

abbrev pub Status : Type 0
Status = Result (Unit {0})

abbrev pub success : Status
success = ok tt

infixl 5 ◌>>=◌ ◌>>◌
abbrev pub ◌>>=◌ {ℓ κ} : {A : Type ℓ} {B : Type κ} → Result A → (A → Result B) → Result B
ok a >>= f = f a
err e >>= f = err e

abbrev pub ◌>>◌ {ℓ} : {B : Type ℓ} → Status → Result B → Result B
m >> k = m >>= λ _. k

-- `if (bad) return -e;`
abbrev pub fail_if : Bool → Error → Status
fail_if true e = err e
fail_if false e = success

-- The error that an errno value is, with the numbers of Linux: what a system call has set and what
-- another process has published in shared memory are such values.
unfoldable pub error_of : ℕ → Error
error_of errno =
    if errno == 22
    then einval
    else if errno == 2
    then enoent
    else if errno == 28
    then enospc
    else if errno == 17
    then eexist
    else if errno == 71
    then eproto
    else if errno == 11
    then eagain
    else if errno == 16
    then ebusy
    else if errno == 116
    then estale
    else if errno == 75
    then eoverflow
    else if errno == 110
    then etimedout
    else if errno == 5
    then eio
    else if errno == 34
    then erange
    else if errno == 90
    then emsgsize
    else if errno == 12
    then enomem
    else other errno

-- An int32_t: `negsuc n` is -(n + 1).
pub data ℤ : Type 0 where
  pos : ℕ → ℤ
  negsuc : ℕ → ℤ

pub Result-cases {ℓ} :
    {A : Type ℓ} (r : Result A) → ((a : A) × (r ≡ ok a)) ⊎ ((e : Error) × (r ≡ err e))
Result-cases (ok a) = inl (a, refl)
Result-cases (err e) = inr (e, refl)
