-- ===== src/Evidence/Canonicalizer/Encoders.antt =====
-- Every collection of members is encoded, in one way for all orders of the members.
use mathlib.Core.List.{Permᴰ}
use veritas.Common.{List, map, ◌≡◌, refl}
use veritas.Core.Status.{StatusOr, ok, ◌>>=◌}
use veritas.Core.Canonical.{CanonicalValue, no_entries}
use veritas.Core.Canonical.Written.{bytes}
use veritas.Evidence.Case.Records.{
  Assumption, Constraint, Entity, EvidencePath, Fact, Hypothesis, ProofObligation, Unknown,
}
use veritas.Evidence.Canonicalizer.Elements.{
  SortKey, KeyedElement, make_keyed_element, sorted_array,
}
use veritas.Evidence.Canonicalizer.Expressions.{encode_expression}
use veritas.Evidence.Canonicalizer.Records.{
  encode_entity, encode_edge, encode_path, encode_fact, encode_assumption,
}
use veritas.Evidence.Canonicalizer.Findings.{
  encode_hypothesis, encode_unknown, encode_constraint, encode_provenance, encode_proof_obligation,
  encode_summary_reference, encode_dependency, encode_omission,
}
use veritas.Evidence.Canonicalizer.Collections.{
  sorted_elements, entity_element, edge_element, path_element, fact_element, assumption_element,
  hypothesis_element, unknown_element, constraint_element, provenance_element,
  proof_obligation_element, summary_reference_element, dependency_element, omission_element,
}
use veritas.Evidence.Canonicalizer.Order.{
  keyed, make_keyed_element_lem, sorted_array-ranks, ranks-Permᴰ,
}
use veritas.Evidence.Canonicalizer.Total.{
  Returns, Returns-bind, collect_lem, collect-Returns, sort_values_by_encoding-Returns,
  encode_expression-Returns, encode_properties-Returns,
}

-- Two computations that return values that are written alike.
pub record Same (r s : StatusOr CanonicalValue) : Type 0 where
  pub left : CanonicalValue
  pub right : CanonicalValue
  pub returns_left : r ≡ ok left
  pub returns_right : s ≡ ok right
  pub written_alike : bytes left ≡ bytes right

-- The elements of a collection, made without errors, with the bytes of their values.
pub record Encoder {ℓ} {A : Type ℓ} (make : A → StatusOr KeyedElement) : Type ℓ where
  pub element : A → KeyedElement
  pub makes : (a : A) → make a ≡ ok (element a)
  pub writes : (a : A) → bytes (element a).value ≡ (element a).bytes

module _ {ℓ} {A : Type ℓ} (make : A → StatusOr KeyedElement) (encoder : Encoder make) where
  pub sorted_elements-Permᴰ :
      {xs ys : List A} → Permᴰ xs ys → Same (sorted_elements make xs) (sorted_elements make ys)
  unfolding sorted_elements
  sorted_elements-Permᴰ {xs} {ys} p =
      let made = collect_lem make encoder.element encoder.makes in
      let left = made xs in
      let right = made ys in
      record {
        left = sorted_array (map encoder.element xs);
        right = sorted_array (map encoder.element ys);
        returns_left = rw left refl;
        returns_right = rw right refl;
        written_alike =
            sorted_array-ranks encoder.element encoder.writes xs ys
              (ranks-Permᴰ encoder.element encoder.writes p);
      }

Encoder-keyed {ℓ} :
    {A : Type ℓ} (key : A → SortKey) (encode : A → StatusOr CanonicalValue)
    → ((a : A) → Returns (encode a))
    → Encoder (λ a. encode a >>= λ encoded. make_keyed_element (key a) encoded)
Encoder-keyed key encode returns = record {
  element = λ a. keyed (key a) (returns a).0;
  makes = λ a. let e = (returns a).1 in rw e (make_keyed_element_lem (key a) (returns a).0);
  writes = λ a. refl;
}

encode_entity-Returns : (m : Entity) → Returns (encode_entity m)
unfolding encode_entity
encode_entity-Returns m =
    Returns-bind _ (encode_properties-Returns m.properties no_entries) (λ properties. (_, refl))

pub entity_element-Encoder : Encoder entity_element
unfolding entity_element
entity_element-Encoder = Encoder-keyed _ encode_entity encode_entity-Returns

pub edge_element-Encoder : Encoder edge_element
unfolding edge_element
edge_element-Encoder = Encoder-keyed _ (λ m. ok (encode_edge m)) (λ m. (_, refl))

encode_path-Returns : (m : EvidencePath) → Returns (encode_path m)
unfolding encode_path
encode_path-Returns m =
    Returns-bind _ (collect-Returns encode_expression encode_expression-Returns m.conditions)
      (λ conditions.
        Returns-bind _ (sort_values_by_encoding-Returns conditions) (λ sorted. (_, refl)))

pub path_element-Encoder : Encoder path_element
unfolding path_element
path_element-Encoder = Encoder-keyed _ encode_path encode_path-Returns

encode_fact-Returns : (m : Fact) → Returns (encode_fact m)
unfolding encode_fact
encode_fact-Returns m =
    Returns-bind _ (encode_expression-Returns m.predicate) (λ predicate. (_, refl))

pub fact_element-Encoder : Encoder fact_element
unfolding fact_element
fact_element-Encoder = Encoder-keyed _ encode_fact encode_fact-Returns

encode_assumption-Returns : (m : Assumption) → Returns (encode_assumption m)
unfolding encode_assumption
encode_assumption-Returns m =
    Returns-bind _ (encode_expression-Returns m.predicate) (λ predicate. (_, refl))

pub assumption_element-Encoder : Encoder assumption_element
unfolding assumption_element
assumption_element-Encoder = Encoder-keyed _ encode_assumption encode_assumption-Returns

encode_hypothesis-Returns : (m : Hypothesis) → Returns (encode_hypothesis m)
unfolding encode_hypothesis
encode_hypothesis-Returns m =
    Returns-bind _ (encode_expression-Returns m.predicate) (λ predicate. (_, refl))

pub hypothesis_element-Encoder : Encoder hypothesis_element
unfolding hypothesis_element
hypothesis_element-Encoder = Encoder-keyed _ encode_hypothesis encode_hypothesis-Returns

encode_unknown-Returns : (m : Unknown) → Returns (encode_unknown m)
unfolding encode_unknown
encode_unknown-Returns m =
    Returns-bind _ (encode_expression-Returns m.property) (λ property. (_, refl))

pub unknown_element-Encoder : Encoder unknown_element
unfolding unknown_element
unknown_element-Encoder = Encoder-keyed _ encode_unknown encode_unknown-Returns

encode_constraint-Returns : (m : Constraint) → Returns (encode_constraint m)
unfolding encode_constraint
encode_constraint-Returns m =
    Returns-bind _ (encode_expression-Returns m.expression) (λ v. (_, refl))

pub constraint_element-Encoder : Encoder constraint_element
unfolding constraint_element
constraint_element-Encoder = Encoder-keyed _ encode_constraint encode_constraint-Returns

pub provenance_element-Encoder : Encoder provenance_element
unfolding provenance_element
provenance_element-Encoder = Encoder-keyed _ (λ m. ok (encode_provenance m)) (λ m. (_, refl))

encode_proof_obligation-Returns : (m : ProofObligation) → Returns (encode_proof_obligation m)
unfolding encode_proof_obligation
encode_proof_obligation-Returns m =
    Returns-bind _ (encode_expression-Returns m.budget)
      (λ budget. Returns-bind _ (encode_expression-Returns m.predicate) (λ predicate. (_, refl)))

pub proof_obligation_element-Encoder : Encoder proof_obligation_element
unfolding proof_obligation_element
proof_obligation_element-Encoder =
    Encoder-keyed _ encode_proof_obligation encode_proof_obligation-Returns

pub summary_reference_element-Encoder : Encoder summary_reference_element
unfolding summary_reference_element
summary_reference_element-Encoder =
    Encoder-keyed _ (λ m. ok (encode_summary_reference m)) (λ m. (_, refl))

pub dependency_element-Encoder : Encoder dependency_element
unfolding dependency_element
dependency_element-Encoder = Encoder-keyed _ (λ m. ok (encode_dependency m)) (λ m. (_, refl))

pub omission_element-Encoder : Encoder omission_element
unfolding omission_element
omission_element-Encoder = Encoder-keyed _ (λ m. ok (encode_omission m)) (λ m. (_, refl))
