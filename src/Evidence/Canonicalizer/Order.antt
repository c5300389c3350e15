-- ===== src/Evidence/Canonicalizer/Order.antt =====
-- The order of the elements of a collection: it depends on their keys and bytes alone.
use mathlib.Core.List.{Permᴰ}
use mathlib.Core.List.Permᴰ.{nil, cons, swap, trans}
use veritas.Common.{
  Bool, true, false, not, List, [], ◌∷◌, map, Bytes, bytes_eq, bytes_eq_iff, bytes_lt,
  if◌then◌else◌, ◌≡◌, refl, sym, ap, ◌∙◌, arith,
}
use veritas.Common.Order.{bytes_lt_trans, bytes_lt-asym, bytes_lt_total}
use veritas.Common.Sort.{sort, StrictOrder, sort-Permᴰ, map-sort}
use veritas.Core.Status.{ok}
use veritas.Core.Canonical.{CanonicalValue, canonical_encode}
use veritas.Core.Canonical.Build.{array_of-same}
use veritas.Core.Canonical.Written.{bytes, encode_value_lem}
use veritas.Evidence.Canonicalizer.Elements.{
  SortKey, KeyedElement, keyed_less, make_keyed_element, value_of, sorted_array,
}

bytes_lt-StrictOrder : StrictOrder bytes_lt
bytes_lt-StrictOrder = record {
  transitive = bytes_lt_trans;
  asymmetric = bytes_lt-asym;
  total = bytes_lt_total;
}

module _ {ℓ} {A : Type ℓ} where
  first_by : (A → A → Bool) → (Bytes × A) → (Bytes × A) → Bool
  first_by less (a, x) (b, y) = if not (bytes_eq a b) then bytes_lt a b else less x y

  module _ {less : A → A → Bool} (o : StrictOrder less) where
    first_by_trans :
        (p q r : Bytes × A)
        → first_by less p q ≡ true
        → first_by less q r ≡ true
        → first_by less p r ≡ true
    unfolding first_by
    first_by_trans (a, x) (b, y) (c, z) h h' =
        let ab = (bytes_eq_iff a b).0 in
        let bc = (bytes_eq_iff b c).0 in
        let ac = (bytes_eq_iff a c).0 in
        let ba = (bytes_eq_iff a c).1 in
        let abc = bytes_lt_trans a b c in
        let asym = bytes_lt-asym a b in let xyz = o.transitive x y z in ground arith

    first_by_asym : (p q : Bytes × A) → first_by less p q ≡ true → first_by less q p ≡ false
    unfolding first_by
    first_by_asym (a, x) (b, y) h =
        let ab = (bytes_eq_iff a b).0 in
        let ba = (bytes_eq_iff b a).0 in
        let ab' = (bytes_eq_iff a b).1 in
        let ba' = (bytes_eq_iff b a).1 in
        let asym = bytes_lt-asym a b in let xy = o.asymmetric x y in ground arith

    first_by_total :
        (p q : Bytes × A) → first_by less p q ≡ false → first_by less q p ≡ false → p ≡ q
    unfolding first_by
    first_by_total (a, x) (b, y) h h' =
        let ab = (bytes_eq_iff a b).0 in
        let ba = (bytes_eq_iff b a).0 in
        let ab' = (bytes_eq_iff a b).1 in
        let ba' = (bytes_eq_iff b a).1 in
        let total = bytes_lt_total a b in let xy = o.total x y in ground arith

    first_by-StrictOrder : StrictOrder (first_by less)
    first_by-StrictOrder = record {
      transitive = first_by_trans;
      asymmetric = first_by_asym;
      total = first_by_total;
    }

-- What `KeyedLess` reads of an element.
abbrev Rank : Type 0
Rank = Bytes × (Bytes × (Bytes × Bytes))

abbrev pub rank : KeyedElement → Rank
rank e = (e.key.kind, (e.key.stable_id, (e.key.local_id, e.bytes)))

pub rank_less : Rank → Rank → Bool
unfolding first_by
rank_less = first_by (first_by (first_by bytes_lt))

rank_less-StrictOrder : StrictOrder rank_less
unfolding rank_less
rank_less-StrictOrder =
    first_by-StrictOrder (first_by-StrictOrder (first_by-StrictOrder bytes_lt-StrictOrder))

rank_less-rank : (d e : KeyedElement) → rank_less (rank d) (rank e) ≡ keyed_less d e
unfolding rank_less keyed_less first_by
rank_less-rank d e = refl

-- The bytes of an element are those of its value.
module _ {ℓ} {A : Type ℓ} (element : A → KeyedElement)
    (writes : (a : A) → bytes (element a).value ≡ (element a).bytes) where
  abbrev ranks : List A → List Rank
  ranks xs = map (λ a. rank (element a)) xs

  element_less : A → A → Bool
  element_less a b = keyed_less (element a) (element b)

  written_bytes :
      (xs : List A) → map bytes (map value_of (map element xs)) ≡ map (λ r. r.1.1.1) (ranks xs)
  written_bytes [] = refl
  written_bytes (x ∷ xs) = cc (writes x, written_bytes xs)

  sorted_bytes :
      (xs : List A)
      → map bytes (map value_of (sort keyed_less (map element xs)))
        ≡ map (λ r. r.1.1.1) (sort rank_less (ranks xs))
  unfolding element_less
  sorted_bytes xs =
      ap (λ ks. map bytes (map value_of ks))
        (sym (map-sort element element_less keyed_less (λ a b. refl) xs))
      ∙ written_bytes (sort element_less xs)
      ∙ ap (map (λ r. r.1.1.1)) (
          map-sort (λ a. rank (element a)) element_less rank_less
            (λ a b. rank_less-rank (element a) (element b)) xs)

  -- What is written for the sorted values depends on what is read of the elements, in any order.
  pub sorted_values-ranks :
      (xs ys : List A)
      → Permᴰ (ranks xs) (ranks ys)
      → map bytes (map value_of (sort keyed_less (map element xs)))
        ≡ map bytes (map value_of (sort keyed_less (map element ys)))
  sorted_values-ranks xs ys p =
      sorted_bytes xs
      ∙ ap (map (λ r. r.1.1.1)) (sort-Permᴰ rank_less-StrictOrder p)
      ∙ sym (sorted_bytes ys)

  pub sorted_array-ranks :
      (xs ys : List A)
      → Permᴰ (ranks xs) (ranks ys)
      → bytes (sorted_array (map element xs)) ≡ bytes (sorted_array (map element ys))
  unfolding sorted_array
  sorted_array-ranks xs ys p = array_of-same _ _ (sorted_values-ranks xs ys p)

  pub ranks-Permᴰ : {xs ys : List A} → Permᴰ xs ys → Permᴰ (ranks xs) (ranks ys)
  ranks-Permᴰ nil = nil
  ranks-Permᴰ (cons e d) = cons (ap (λ a. rank (element a)) e) (ranks-Permᴰ d)
  ranks-Permᴰ (swap e e') = swap (ap (λ a. rank (element a)) e) (ap (λ a. rank (element a)) e')
  ranks-Permᴰ (trans d d') = trans (ranks-Permᴰ d) (ranks-Permᴰ d')

-- What `MakeKeyedElement` makes, which never fails.
abbrev pub keyed : SortKey → CanonicalValue → KeyedElement
keyed key value = record { key = key; bytes = bytes value; value = value }

pub make_keyed_element_lem :
    (key : SortKey) (value : CanonicalValue) → make_keyed_element key value ≡ ok (keyed key value)
unfolding make_keyed_element canonical_encode
make_keyed_element_lem key value = let e = encode_value_lem value in rw e refl
