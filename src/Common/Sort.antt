-- ===== src/Common/Sort.antt =====
-- `std::sort` of the C++ library, as insert_sortedion in order: a strict order that tells all values apart
-- leaves one result only.
use mathlib.Core.List.{Permᴰ}
use mathlib.Core.List.Permᴰ.{nil, cons, swap, trans}
use veritas.Common.{
  Bool, true, false, List, [], ◌∷◌, map, ◌≡◌, refl, ap, ◌∙◌, inl, inr, Bool-cases, if◌then◌else◌,
  arith,
}

module _ {ℓ} {A : Type ℓ} (less : A → A → Bool) where
  unfoldable pub insert_sorted : A → List A → List A
  insert_sorted a [] = a ∷ []
  insert_sorted a (b ∷ bs) =
      let rest = insert_sorted a bs in if less b a then b ∷ rest else a ∷ b ∷ bs

  unfoldable pub sort : List A → List A
  unfolding insert_sorted
  sort [] = []
  sort (a ∷ rest) = insert_sorted a (sort rest)

-- The laws of an order that `std::sort` relies on, where no two values tie.
pub record StrictOrder {ℓ} {A : Type ℓ} (less : A → A → Bool) : Type ℓ where
  pub transitive : (a b c : A) → less a b ≡ true → less b c ≡ true → less a c ≡ true
  pub asymmetric : (a b : A) → less a b ≡ true → less b a ≡ false
  pub total : (a b : A) → less a b ≡ false → less b a ≡ false → a ≡ b

module _ {ℓ} {A : Type ℓ} {less : A → A → Bool} (order : StrictOrder less) where
  insert_sorted_comm :
      (a b : A) (cs : List A)
      → insert_sorted less a (insert_sorted less b cs)
        ≡ insert_sorted less b (insert_sorted less a cs)
  unfolding insert_sorted
  insert_sorted_comm a b [] =
      let ab = order.asymmetric a b in let tie = order.total a b in ground arith
  insert_sorted_comm a b (c ∷ cs) =
      let ih = insert_sorted_comm a b cs in
      let ab = order.asymmetric a b in
      let tie = order.total a b in
      let cab = order.transitive c a b in
      let cba = order.transitive c b a in let bc = order.asymmetric b c in ground arith

  -- The result of a sort does not depend on the order of its input.
  pub sort-Permᴰ : {xs ys : List A} → Permᴰ xs ys → sort less xs ≡ sort less ys
  unfolding sort
  sort-Permᴰ nil = refl
  sort-Permᴰ (cons e d) = cc (e, sort-Permᴰ d)
  sort-Permᴰ (swap {a = a} {b = b} {l = l} e e') = cc (e, e', insert_sorted_comm a b (sort less l))
  sort-Permᴰ (trans d d') = sort-Permᴰ d ∙ sort-Permᴰ d'

module _ {ℓ κ} {A : Type ℓ} {B : Type κ} (f : A → B) (less : A → A → Bool) (below : B → B → Bool)
    (same : (a b : A) → below (f a) (f b) ≡ less a b) where
  map-insert_sorted :
      (a : A) (bs : List A) → map f (insert_sorted less a bs) ≡ insert_sorted below (f a) (map f bs)
  unfolding insert_sorted
  map-insert_sorted a [] = refl
  map-insert_sorted a (b ∷ bs) =
      let ih = map-insert_sorted a bs in
      let eq = same b a in
      elim (Bool-cases (less b a)) [ inl h ↦ rw (h, eq ∙ h) (cc ih) | inr h ↦ rw (h, eq ∙ h) refl ]

  -- A sort by keys is a sort of the keys.
  pub map-sort : (xs : List A) → map f (sort less xs) ≡ sort below (map f xs)
  unfolding sort
  map-sort [] = refl
  map-sort (a ∷ rest) =
      map-insert_sorted a (sort less rest) ∙ ap (insert_sorted below (f a)) (map-sort rest)
