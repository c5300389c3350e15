-- ===== src/Summarydb/Impact/Maps.antt =====
-- The maps of the traversal, and the comparison of sensitivities.
use veritas.Common.{
  ◌+◌, ◌≤◌, [], ◌∷◌, Bytes, length, All, bytes_eq, bytes_lt, ◌≡◌, refl, inl, inr, Bool-cases, arith,
}
use veritas.Summarydb.Impact.{
  Sensitivity, semantic, evidence_only, identity, configuration, sensitivity_value, ConsumerRef,
  Map, emplace, values,
}

pub sensitivity_value-injective :
    (a b : Sensitivity) → sensitivity_value a ≡ sensitivity_value b → a ≡ b
sensitivity_value-injective semantic semantic h = refl
sensitivity_value-injective evidence_only evidence_only h = refl
sensitivity_value-injective identity identity h = refl
sensitivity_value-injective configuration configuration h = refl
sensitivity_value-injective _ _ h = ground arith

pub emplace-All :
    {V : Type 0} (P : V → Type 0) (key : Bytes) (v : V) (m : Map V)
    → P v
    → All (λ e. P e.1) m
    → All (λ e. P e.1) (emplace key v m)
unfolding emplace
emplace-All P key v [] p a = (p, tt)
emplace-All P key v ((k, x) ∷ rest) p a = elim (Bool-cases (bytes_eq key k)) [
  | inl same ↦ rw same a
  | inr other ↦ elim (Bool-cases (bytes_lt key k)) [
    | inl before ↦ rw (other, before) (p, a)
    | inr after ↦ rw (other, after) (a.0, emplace-All P key v rest p a.1)
  ]
]

pub length-emplace :
    {V : Type 0} (key : Bytes) (v : V) (m : Map V) → length (emplace key v m) ≤ length m + 1
unfolding emplace
length-emplace key v [] = omega arith
length-emplace key v ((k, x) ∷ rest) = elim (Bool-cases (bytes_eq key k)) [
  | inl same ↦ rw same (omega arith)
  | inr other ↦ elim (Bool-cases (bytes_lt key k)) [
    | inl before ↦ rw (other, before) (omega arith)
    | inr after ↦ rw (other, after) (omega (arith, length-emplace key v rest))
  ]
]

pub values-All :
    (P : ConsumerRef → Type 0) (m : Map ConsumerRef) → All (λ e. P e.1) m → All P (values m)
values-All P [] a = tt
values-All P ((k, x) ∷ rest) a = (a.0, values-All P rest a.1)

pub length-values : (m : Map ConsumerRef) → length (values m) ≡ length m
length-values [] = refl
length-values ((k, x) ∷ rest) = omega (arith, length-values rest)
