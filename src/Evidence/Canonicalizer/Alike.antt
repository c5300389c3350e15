-- ===== src/Evidence/Canonicalizer/Alike.antt =====
-- Expressions that differ in the order of the operands of `and` and `or`, at any depth, are written
-- alike.
use mathlib.Core.List.{Permᴰ}
use mathlib.Core.List.Permᴰ as Permᴰ
use mathlib.Core.List.Permᴰ.{nil, cons, swap, trans}
use veritas.Common.{ℕ, Bool, true, false, List, [], ◌∷◌, map, Bytes, ◌≡◌, refl, sym, ap, ◌∙◌, subst}
use veritas.Core.Status.{StatusOr, ok, ok-injective, ◌>>=◌}
use veritas.Core.Canonical.{CanonicalValue}
use veritas.Core.Canonical.Build.{array_of-same, object_of-same}
use veritas.Core.Canonical.Written.{bytes}
use veritas.Evidence.Case.Records.{
  ExpressionKind, Expression, expression, Operands, no_operands, operand,
}
use veritas.Evidence.Canonicalizer.Elements.{
  no_key, make_keyed_element, value_of, sort_values_by_encoding, keyed_less,
}
use veritas.Evidence.Canonicalizer.Expressions.{
  is_commutative, order_operands, expression_object, encode_expression, encode_operands,
}
use veritas.Evidence.Canonicalizer.Order.{
  rank, keyed, make_keyed_element_lem, sorted_values-ranks, ranks-Permᴰ,
}
use veritas.Evidence.Canonicalizer.Total.{collect_lem, encode_expression-Returns}
use veritas.Evidence.Canonicalizer.Encoders.{Same}
use veritas.Common.Sort.{sort}

abbrev pub operand_list : Operands → List Expression
operand_list no_operands = []
operand_list (operand first others) = first ∷ operand_list others

-- The same expression but for the order of the operands of `and` and `or`, at any depth.
mutual
  pub data Alike : Expression → Expression → Type 0 where
    commuted :
        {kind : ExpressionKind} {text : Bytes} {integer : ℕ} {truth : Bool} {xs ys : Operands}
        → is_commutative kind ≡ true
        → Permᴰ (operand_list xs) (operand_list ys)
        → Alike (expression kind text integer truth xs) (expression kind text integer truth ys)
    inside :
        {kind : ExpressionKind} {text : Bytes} {integer : ℕ} {truth : Bool} {xs ys : Operands}
        → AlikeOperands xs ys
        → Alike (expression kind text integer truth xs) (expression kind text integer truth ys)
    in_turn : {d e f : Expression} → Alike d e → Alike e f → Alike d f

  pub data AlikeOperands : Operands → Operands → Type 0 where
    ended : AlikeOperands no_operands no_operands
    paired :
        {e f : Expression} {es fs : Operands}
        → Alike e f
        → AlikeOperands es fs
        → AlikeOperands (operand e es) (operand f fs)

record SameLists (r s : StatusOr (List CanonicalValue)) : Type 0 where
  left : List CanonicalValue
  right : List CanonicalValue
  returns_left : r ≡ ok left
  returns_right : s ≡ ok right
  written_alike : map bytes left ≡ map bytes right

Same-in_turn : {r s t : StatusOr CanonicalValue} → Same r s → Same s t → Same r t
Same-in_turn p q =
    let met : p.right ≡ q.left = ok-injective (sym p.returns_right ∙ q.returns_left) in
    record {
      left = p.left;
      right = q.right;
      returns_left = p.returns_left;
      returns_right = q.returns_right;
      written_alike = p.written_alike ∙ ap bytes met ∙ q.written_alike;
    }

sort_values_by_encoding_lem :
    (vs : List CanonicalValue)
    → sort_values_by_encoding vs ≡ ok (map value_of (sort keyed_less (map (keyed no_key) vs)))
unfolding sort_values_by_encoding
sort_values_by_encoding_lem vs =
    let e =
      collect_lem (make_keyed_element no_key) (keyed no_key) (make_keyed_element_lem no_key) vs in
    rw e refl

abbrev value_ranks : List CanonicalValue → List (Bytes × (Bytes × (Bytes × Bytes)))
value_ranks vs = map (λ v. rank (keyed no_key v)) vs

value_ranks_lem :
    (vs ws : List CanonicalValue) → map bytes vs ≡ map bytes ws → value_ranks vs ≡ value_ranks ws
value_ranks_lem vs ws e = by_bytes vs ∙ ap (map (λ b. ([], ([], ([], b))))) e ∙ sym (by_bytes ws)
  where
    by_bytes :
        (vs : List CanonicalValue) → value_ranks vs ≡ map (λ b. ([], ([], ([], b)))) (map bytes vs)
    by_bytes [] = refl
    by_bytes (v ∷ vs) = cc (by_bytes vs)

module _ (vs ws : List CanonicalValue) where
  sorted-SameLists :
      Permᴰ (value_ranks vs) (value_ranks ws)
      → SameLists (sort_values_by_encoding vs) (sort_values_by_encoding ws)
  sorted-SameLists p = record {
    left = map value_of (sort keyed_less (map (keyed no_key) vs));
    right = map value_of (sort keyed_less (map (keyed no_key) ws));
    returns_left = sort_values_by_encoding_lem vs;
    returns_right = sort_values_by_encoding_lem ws;
    written_alike = sorted_values-ranks (keyed no_key) (λ v. refl) vs ws p;
  }

  order_operands-SameLists :
      (commutes : Bool)
      → map bytes vs ≡ map bytes ws
      → SameLists (order_operands commutes vs) (order_operands commutes ws)
  unfolding order_operands
  order_operands-SameLists true e =
      sorted-SameLists
        (subst (Permᴰ (value_ranks vs)) (value_ranks_lem vs ws e) (Permᴰ.refl (value_ranks vs)))
  order_operands-SameLists false e = record {
    left = vs;
    right = ws;
    returns_left = refl;
    returns_right = refl;
    written_alike = e;
  }

operands_value : (xs : List Expression) → List CanonicalValue
operands_value xs = map (λ e. (encode_expression-Returns e).0) xs

encode_operands_lem : (xs : Operands) → encode_operands xs ≡ ok (operands_value (operand_list xs))
unfolding encode_operands operands_value
encode_operands_lem no_operands = refl
encode_operands_lem (operand first others) =
    let here = (encode_expression-Returns first).1 in
    let there = encode_operands_lem others in rw (here, there) refl

module _ (kind : ExpressionKind) (text : Bytes) (integer : ℕ) (truth : Bool) where
  abbrev ordered_object : List CanonicalValue → StatusOr CanonicalValue
  ordered_object encoded = order_operands (is_commutative kind) encoded >>= λ ordered.
      ok (expression_object kind text integer truth ordered)

  ordered_object-Same :
      (vs ws : List CanonicalValue)
      → SameLists
          (order_operands (is_commutative kind) vs)
          (order_operands (is_commutative kind) ws)
      → Same (ordered_object vs) (ordered_object ws)
  ordered_object-Same vs ws same =
      let left = same.returns_left in
      let right = same.returns_right in
      record {
        left = expression_object kind text integer truth same.left;
        right = expression_object kind text integer truth same.right;
        returns_left = rw left refl;
        returns_right = rw right refl;
        written_alike =
            object_of-same _ _ (cc (array_of-same same.left same.right same.written_alike));
      }

  encode_expression-Same :
      (xs ys : Operands) (vs ws : List CanonicalValue)
      → encode_operands xs ≡ ok vs
      → encode_operands ys ≡ ok ws
      → SameLists
          (order_operands (is_commutative kind) vs)
          (order_operands (is_commutative kind) ws)
      → Same
          (encode_expression (expression kind text integer truth xs))
          (encode_expression (expression kind text integer truth ys))
  unfolding encode_expression
  encode_expression-Same xs ys vs ws left right same =
      rw (left, right) (ordered_object-Same vs ws same)

  commuted-Same :
      (xs ys : Operands)
      → is_commutative kind ≡ true
      → Permᴰ (operand_list xs) (operand_list ys)
      → Same
          (encode_expression (expression kind text integer truth xs))
          (encode_expression (expression kind text integer truth ys))
  unfolding order_operands operands_value
  commuted-Same xs ys commutes p =
      encode_expression-Same xs ys _ _ (encode_operands_lem xs) (encode_operands_lem ys) (
        rw commutes (
          sorted-SameLists (operands_value (operand_list xs)) (operands_value (operand_list ys))
            (ranks-Permᴰ (keyed no_key) (λ v. refl) (value_Permᴰ p))))
    where
      value_Permᴰ :
          {es fs : List Expression} → Permᴰ es fs → Permᴰ (operands_value es) (operands_value fs)
      value_Permᴰ nil = nil
      value_Permᴰ (cons e d) = cons (ap (λ x. (encode_expression-Returns x).0) e) (value_Permᴰ d)
      value_Permᴰ (swap e e') =
          swap (ap (λ x. (encode_expression-Returns x).0) e)
            (ap (λ x. (encode_expression-Returns x).0) e')
      value_Permᴰ (trans d d') = trans (value_Permᴰ d) (value_Permᴰ d')

mutual
  unfolding encode_operands

  Alike-Same : (e f : Expression) → Alike e f → Same (encode_expression e) (encode_expression f)
  Alike-Same e f (commuted {kind} {text} {integer} {truth} {xs} {ys} commutes p) =
      commuted-Same kind text integer truth xs ys commutes p
  Alike-Same e f (inside {kind} {text} {integer} {truth} {xs} {ys} h) =
      let same = AlikeOperands-SameLists xs ys h in
      encode_expression-Same kind text integer truth xs ys same.left same.right same.returns_left
        same.returns_right
        (order_operands-SameLists same.left same.right (is_commutative kind) same.written_alike)
  Alike-Same e f (in_turn {e = m} h h') = Same-in_turn (Alike-Same e m h) (Alike-Same m f h')

  AlikeOperands-SameLists :
      (xs ys : Operands) → AlikeOperands xs ys → SameLists (encode_operands xs) (encode_operands ys)
  AlikeOperands-SameLists xs ys ended = record {
    left = [];
    right = [];
    returns_left = refl;
    returns_right = refl;
    written_alike = refl;
  }
  AlikeOperands-SameLists xs ys (paired {e} {f} {es} {fs} h t) =
      let here = Alike-Same e f h in
      let there = AlikeOperands-SameLists es fs t in
      let l = here.returns_left in
      let r = here.returns_right in
      let l' = there.returns_left in
      let r' = there.returns_right in
      record {
        left = here.left ∷ there.left;
        right = here.right ∷ there.right;
        returns_left = rw (l, l') refl;
        returns_right = rw (r, r') refl;
        written_alike = cc (here.written_alike, there.written_alike);
      }

-- Two expressions that differ only in the order of the operands of `and` and `or`, at any depth,
-- are both encoded, as values that are written with the same bytes.
pub encode_expression-Alike :
    (e f : Expression) → Alike e f → Same (encode_expression e) (encode_expression f)
encode_expression-Alike e f h = Alike-Same e f h
