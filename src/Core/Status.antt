-- ===== src/Core/Status.antt =====
-- include/veritas/core/Status.h: the error values that every fallible function returns.
use veritas.Common.{◌≡◌, refl, ◌⊎◌, inl, inr, Bool, true, false, Option, none, some}
use Prim.Native.String.{String}

-- `StatusCode` without `kOk`, which stands for the presence of a value.
pub data StatusCode : Type 0 where
  invalid_argument not_found failed_precondition internal deadline_exceeded : StatusCode

-- `StatusOr<T>`: a value, or a code with its message.
pub data StatusOr {ℓ} (A : Type ℓ) : Type ℓ where
  ok : A → StatusOr A
  err : StatusCode → String → StatusOr A

-- `Status` alone carries no value.
abbrev pub Status : Type 0
Status = StatusOr (Unit {0})

infixl 5 ◌>>=◌ ◌>>◌
abbrev pub ◌>>=◌ {ℓ κ} :
    {Value : Type ℓ} {Next : Type κ} → StatusOr Value → (Value → StatusOr Next) → StatusOr Next
ok value >>= next = next value
err code message >>= next = err code message

abbrev pub ◌>>◌ {ℓ} : {Next : Type ℓ} → Status → StatusOr Next → StatusOr Next
checked >> next = checked >>= λ _. next

-- `if (!b) return error;`
abbrev pub require : Bool → StatusCode → String → Status
require b code message = elim b [ true ↦ ok tt | false ↦ err code message ]

-- A chain returns a value only where each of its parts does.
pub >>=-eq-ok {ℓ κ} :
    {Value : Type ℓ} {Next : Type κ} (first : StatusOr Value) (next : Value → StatusOr Next)
    {result : Next}
    → (first >>= next) ≡ ok result
    → (value : Value) × (first ≡ ok value) × (next value ≡ ok result)
>>=-eq-ok (ok value) next e = (value, refl, e)
>>=-eq-ok (err code message) next e = cc

pub StatusOr-cases {ℓ} :
    {A : Type ℓ} (r : StatusOr A)
    → ((a : A) × (r ≡ ok a)) ⊎ ((c : StatusCode) × (m : String) × (r ≡ err c m))
StatusOr-cases (ok a) = inl (a, refl)
StatusOr-cases (err c m) = inr (c, m, refl)

-- `if (!o) return error;`
abbrev pub from_option {ℓ} : {A : Type ℓ} → Option A → StatusCode → String → StatusOr A
from_option none c m = err c m
from_option (some a) c m = ok a

pub ok-injective {ℓ} : {A : Type ℓ} {a b : A} → ok a ≡ ok b → a ≡ b
ok-injective h = cc
