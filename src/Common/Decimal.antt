-- ===== src/Common/Decimal.antt =====
-- `std::to_string` of an unsigned number: its decimal digits, the most significant first.
use veritas.Common.{
  ℕ, zero, suc, ◌+◌, ◌-◌, ◌*◌, ◌/◌, ◌%◌, ◌<◌, ◌≡◌, refl, ◌∙◌, [], ◌∷◌, ◌++◌, true, false, Bytes,
  All, All-append, arith, ltb, leb, ◌&&◌, Bool, Bool-cases, inl, inr,
}

-- With `n < fuel` the fuel is enough, since each round divides by ten.
pub decimal_go : ℕ → ℕ → Bytes
decimal_go zero n = []
decimal_go (suc fuel) n = elim (ltb n 10) [
  | true ↦ (b'0' + n) ∷ []
  | false ↦ decimal_go fuel (n / 10) ++ (b'0' + n % 10) ∷ []
]

unfoldable pub to_decimal : ℕ → Bytes
unfolding decimal_go
to_decimal n = decimal_go (suc n) n

-- `c >= '0' && c <= '9'`
abbrev pub is_digit : ℕ → Bool
is_digit c = leb b'0' c && leb c b'9'

-- The number that a run of digits spells, read from the left after `acc`.
unfoldable pub from_decimal : ℕ → Bytes → ℕ
from_decimal acc [] = acc
from_decimal acc (c ∷ cs) = from_decimal (acc * 10 + (c - b'0')) cs

pub from_decimal-append :
    (acc : ℕ) (xs ys : Bytes) → from_decimal acc (xs ++ ys) ≡ from_decimal (from_decimal acc xs) ys
unfolding from_decimal
from_decimal-append acc [] ys = refl
from_decimal-append acc (x ∷ xs) ys = from_decimal-append (acc * 10 + (x - b'0')) xs ys

abbrev pub IsDigits : Bytes → Type 0
IsDigits = All (λ c. is_digit c ≡ true)

from_decimal-go : (fuel n : ℕ) → n < fuel → from_decimal 0 (decimal_go fuel n) ≡ n
unfolding decimal_go from_decimal
from_decimal-go zero n h = absurd (omega arith)
from_decimal-go (suc fuel) n h = elim (Bool-cases (ltb n 10)) [
  | inl small ↦ rw (small, decimal_go) (omega arith)
  | inr big ↦
      rw (big, decimal_go)
        (from_decimal-append 0 (decimal_go fuel (n / 10)) ((b'0' + n % 10) ∷ [])
          ∙ rw (from_decimal-go fuel (n / 10) (ground arith)) (omega arith))
]

-- Reading the digits back gives the number.
pub from_decimal-to_decimal : (n : ℕ) → from_decimal 0 (to_decimal n) ≡ n
unfolding to_decimal
from_decimal-to_decimal n = from_decimal-go (suc n) n (omega arith)

decimal_go-IsDigits : (fuel n : ℕ) → IsDigits (decimal_go fuel n)
unfolding decimal_go
decimal_go-IsDigits zero n = tt
decimal_go-IsDigits (suc fuel) n = elim (Bool-cases (ltb n 10)) [
  | inl small ↦ rw (small, decimal_go) (ground arith, tt)
  | inr big ↦
      rw (big, decimal_go)
        (All-append (λ c. is_digit c ≡ true) (decimal_go fuel (n / 10)) ((b'0' + n % 10) ∷ [])
          (decimal_go-IsDigits fuel (n / 10)) (ground arith, tt))
]

pub to_decimal-IsDigits : (n : ℕ) → IsDigits (to_decimal n)
unfolding to_decimal
to_decimal-IsDigits n = decimal_go-IsDigits (suc n) n

-- The spelling is never empty.
pub to_decimal-cons : (n : ℕ) → (c : ℕ) × (cs : Bytes) × (to_decimal n ≡ c ∷ cs)
unfolding to_decimal
to_decimal-cons n = elim (Bool-cases (ltb n 10)) [
  | inl small ↦ (b'0' + n, [], rw (small, decimal_go))
  | inr big ↦ append_cons (decimal_go n (n / 10)) (b'0' + n % 10) (rw (big, decimal_go))
]
  where
    append_cons :
        (xs : Bytes) (x : ℕ) {ys : Bytes}
        → ys ≡ xs ++ x ∷ []
        → (c : ℕ) × (cs : Bytes) × (ys ≡ c ∷ cs)
    append_cons [] x e = (x, [], e)
    append_cons (c ∷ cs) x e = (c, cs ++ x ∷ [], e)
