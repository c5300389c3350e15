-- ===== src/Evidence/Canonicalizer/Total.antt =====
-- The encoders never fail.
use veritas.Common.{Bool, true, false, List, [], ◌∷◌, map, Bytes, ◌≡◌, refl}
use veritas.Core.Status.{StatusOr, ok, ◌>>=◌}
use veritas.Core.Canonical.{CanonicalValue, CanonicalObject}
use veritas.Core.Canonical.Build.{emplace}
use veritas.Evidence.Case.Records.{Expression, expression, Operands, no_operands, operand}
use veritas.Evidence.Canonicalizer.Elements.{
  no_key, make_keyed_element, collect, sort_values_by_encoding,
}
use veritas.Evidence.Canonicalizer.Expressions.{
  is_commutative, order_operands, encode_expression, encode_operands,
}
use veritas.Evidence.Canonicalizer.Records.{encode_properties}
use veritas.Evidence.Canonicalizer.Order.{keyed, make_keyed_element_lem}

abbrev pub Returns {ℓ} : {A : Type ℓ} → StatusOr A → Type ℓ
Returns {A = A} r = (a : A) × (r ≡ ok a)

pub Returns-bind {ℓ κ} :
    {A : Type ℓ} {B : Type κ} {r : StatusOr A} (k : A → StatusOr B)
    → Returns r
    → ((a : A) → Returns (k a))
    → Returns (r >>= k)
Returns-bind k (a, e) then = let (b, f) = then a in (b, rw e f)

module _ {ℓ κ} {A : Type ℓ} {B : Type κ} (make : A → StatusOr B) (made : A → B) where
  pub collect_lem :
      ((a : A) → make a ≡ ok (made a)) → (xs : List A) → collect make xs ≡ ok (map made xs)
  unfolding collect
  collect_lem makes [] = refl
  collect_lem makes (x ∷ xs) =
      let rest = collect_lem makes xs in let first = makes x in rw (first, rest) refl

pub collect-Returns {ℓ κ} :
    {A : Type ℓ} {B : Type κ} (make : A → StatusOr B)
    → ((a : A) → Returns (make a))
    → (xs : List A) → Returns (collect make xs)
collect-Returns make makes xs =
    (map (λ a. (makes a).0) xs, collect_lem make (λ a. (makes a).0) (λ a. (makes a).1) xs)

pub sort_values_by_encoding-Returns :
    (values : List CanonicalValue) → Returns (sort_values_by_encoding values)
unfolding sort_values_by_encoding
sort_values_by_encoding-Returns values =
    Returns-bind _
      (collect-Returns (make_keyed_element no_key)
        (λ v. (keyed no_key v, make_keyed_element_lem no_key v)) values)
      (λ elements. (_, refl))

pub order_operands-Returns :
    (commutes : Bool) (operands : List CanonicalValue) → Returns (order_operands commutes operands)
unfolding order_operands
order_operands-Returns true operands = sort_values_by_encoding-Returns operands
order_operands-Returns false operands = (operands, refl)

mutual
  unfolding encode_expression encode_operands

  pub encode_expression-Returns : (e : Expression) → Returns (encode_expression e)
  encode_expression-Returns (expression kind text integer truth operands) =
      Returns-bind _ (encode_operands-Returns operands) (λ encoded.
        Returns-bind _ (order_operands-Returns (is_commutative kind) encoded)
          (λ ordered. (_, refl)))

  pub encode_operands-Returns : (operands : Operands) → Returns (encode_operands operands)
  encode_operands-Returns no_operands = ([], refl)
  encode_operands-Returns (operand first others) =
      Returns-bind _ (encode_expression-Returns first)
        (λ encoded. Returns-bind _ (encode_operands-Returns others) (λ rest. (_, refl)))

pub encode_properties-Returns :
    (entries : List (Bytes × Expression)) (filled : CanonicalObject)
    → Returns (encode_properties entries filled)
unfolding encode_properties
encode_properties-Returns [] filled = (filled, refl)
encode_properties-Returns ((name, property) ∷ rest) filled =
    Returns-bind _ (encode_expression-Returns property)
      (λ v. encode_properties-Returns rest (emplace name v filled))
