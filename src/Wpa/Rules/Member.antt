-- ===== src/Wpa/Rules/Member.antt =====
-- Equality of tuples, and `std::set::contains`.
use mathlib.Core.List.{Memᴰ}
use mathlib.Core.List.Memᴰ.{head, tail}
use veritas.Common.{
  Bool, true, false, ◌&&◌, ◌||◌, List, [], ◌∷◌, ◌==◌, ==_iff, ◌≡◌, refl, subst, inl, inr,
  Bool-cases, arith,
}
use veritas.Core.Ids.{id_eq, id_eq_iff}
use veritas.Facts.Epistemic.{EpistemicState, must, may, must_not, inferred, assumed, unknown}
use veritas.Wpa.Rules.{enumerator, DerivedTuple, tuple_eq, contains}

enumerator-injective : (a b : EpistemicState) → enumerator a ≡ enumerator b → a ≡ b
enumerator-injective must must h = refl
enumerator-injective may may h = refl
enumerator-injective must_not must_not h = refl
enumerator-injective inferred inferred h = refl
enumerator-injective assumed assumed h = refl
enumerator-injective unknown unknown h = refl
enumerator-injective _ _ h = ground arith

pub tuple_of :
    {a b : DerivedTuple}
    → a.subject ≡ b.subject
    → a.object ≡ b.object
    → a.epistemic ≡ b.epistemic
    → a ≡ b
tuple_of p q r = λ i. record { subject = p i; object = q i; epistemic = r i }

all_three : (a b c : Bool) → (a && b && c) ≡ true → (a ≡ true) × (b ≡ true) × (c ≡ true)
all_three true true true e = (refl, refl, refl)
all_three true true false e = cc e
all_three true false c e = cc e
all_three false b c e = cc e

tuple_eq-eq : (a b : DerivedTuple) → tuple_eq a b ≡ true → a ≡ b
unfolding tuple_eq
tuple_eq-eq a b h =
    let p =
      all_three (id_eq a.subject b.subject) (id_eq a.object b.object)
        (enumerator a.epistemic == enumerator b.epistemic) h in
    tuple_of ((id_eq_iff a.subject b.subject).0 p.0) ((id_eq_iff a.object b.object).0 p.1)
      (enumerator-injective a.epistemic b.epistemic ((==_iff _ _).0 p.2))

tuple_eq_refl : (a : DerivedTuple) → tuple_eq a a ≡ true
unfolding tuple_eq
tuple_eq_refl a =
    rw ((id_eq_iff a.subject a.subject).1 refl, (id_eq_iff a.object a.object).1 refl)
      ((==_iff (enumerator a.epistemic) (enumerator a.epistemic)).1 refl)

pub contains-Mem : (t : DerivedTuple) (xs : List DerivedTuple) → contains t xs ≡ true → Memᴰ t xs
unfolding contains
contains-Mem t [] h = cc h
contains-Mem t (x ∷ xs) h = elim (Bool-cases (tuple_eq t x)) [
  | inl same ↦ head (tuple_eq-eq t x same)
  | inr other ↦ tail (contains-Mem t xs (rw other at h))
]

pub Mem-contains : (t : DerivedTuple) (xs : List DerivedTuple) → Memᴰ t xs → contains t xs ≡ true
unfolding contains
Mem-contains t [] m = elim m [ ]
Mem-contains t (x ∷ xs) (head e) =
    subst (λ y. (tuple_eq t y || contains t xs) ≡ true) e (rw (tuple_eq_refl t) refl)
Mem-contains t (x ∷ xs) (tail m) = elim (Bool-cases (tuple_eq t x)) [
  | inl same ↦ rw same
  | inr other ↦ rw other (Mem-contains t xs m)
]
