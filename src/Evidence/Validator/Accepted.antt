-- ===== src/Evidence/Validator/Accepted.antt =====
-- The validator's pass over expressions finds no issue in one that meets what it demands, and no
-- other.
use veritas.Common.{
  ℕ, suc, ◌+◌, ◌≤◌, Bool, true, false, not, List, [], ◌∷◌, ◌++◌, Bytes, ◌==◌, ==_iff, ltb, ◌≡◌, ◌≢◌,
  ◌⊎◌, inl, inr, refl, sym, ◌∙◌, ap, ◌↔◌, arith,
}
use veritas.Evidence.Case.Records.{
  ExpressionKind, Expression, expression, Operands, no_operands, operand,
}
use veritas.Evidence.Validator.{Issues, is_empty}
use veritas.Evidence.Validator.Passes.{none_of_both}
use veritas.Evidence.Validator.Expressions.{
  kind_of, arity, type_issue_if, check_operand, check_each_operand, check_arity, is_and, is_or,
  check_payload, check_connective, check_shape, is_unspecified, check_expression, check_operands,
}
use veritas.Evidence.Validator.Contract.{
  Payload, IsFormula, IsValue, AllOperands, Shape, WellFormed, AllWellFormed, depth, operands_depth,
  IsAbsent, not_literal, not_formula, not_and, not_or, some_text, compares,
}
use veritas.Evidence.Validator.Typing.{
  check_payload_sound, check_arity_sound, check_expression-WellFormed,
}

both_none {ℓ} : {A : Type ℓ} (xs ys : List A) → xs ≡ [] → ys ≡ [] → xs ++ ys ≡ []
both_none xs ys p q = rw (p, q) refl

none_is_empty : (text : Bytes) → text ≡ [] → is_empty text ≡ true
none_is_empty [] h = refl
none_is_empty (x ∷ text) h = cc h

module _ (owner : Bytes) where
  check_payload_complete :
      (kind : ExpressionKind) (text : Bytes) (n : ℕ) (b : Bool)
      → Payload kind text n b
      → check_payload owner kind text n b ≡ []
  unfolding check_payload
  check_payload_complete ExpressionKind.bool text n b h = let e = none_is_empty text in ground arith
  check_payload_complete _ text n b h = let e = none_is_empty text in ground arith

  check_each_operand_complete :
      (check : Expression → Issues) (P : Expression → Type 0)
      → ((e : Expression) → P e → check e ≡ [])
      → (xs : Operands) → AllOperands P xs
      → check_each_operand check xs ≡ []
  unfolding check_each_operand
  check_each_operand_complete check P complete no_operands h = refl
  check_each_operand_complete check P complete (operand e rest) (here, there) =
      both_none _ _ (complete e here) (check_each_operand_complete check P complete rest there)

  type_issue_none : (b : Bool) → b ≡ false → type_issue_if b owner ≡ []
  type_issue_none b h = rw h refl

  check_arity_complete : (xs : Operands) (k : ℕ) → arity xs ≡ k → check_arity owner xs k ≡ []
  check_arity_complete xs k h = type_issue_none _ (ap not ((==_iff _ _).1 h))

  formulas_complete :
      (xs : Operands)
      → AllOperands IsFormula xs
      → check_each_operand (check_operand owner true) xs ≡ []
  formulas_complete =
      check_each_operand_complete (check_operand owner true) IsFormula
        (λ e h. type_issue_none _ ((not_literal (kind_of e)).1 h))

  values_complete :
      (xs : Operands)
      → AllOperands IsValue xs
      → check_each_operand (check_operand owner false) xs ≡ []
  values_complete =
      check_each_operand_complete (check_operand owner false) IsValue
        (λ e h. type_issue_none _ ((not_formula (kind_of e)).1 h))

  check_connective_complete :
      (same_kind : ExpressionKind → Bool) (kind : ExpressionKind)
      → ((k : ExpressionKind) → (same_kind k ≡ false) ↔ (k ≢ kind))
      → (xs : Operands) → 2 ≤ arity xs
      → AllOperands (λ e. IsFormula e × (kind_of e ≢ kind)) xs
      → check_connective owner same_kind xs ≡ []
  unfolding check_connective
  check_connective_complete same_kind kind differs xs many operands =
      both_none _ _ (type_issue_none (ltb (arity xs) 2) (ground arith)) (
        check_each_operand_complete _ (λ e. IsFormula e × (kind_of e ≢ kind))
          (λ e (formula, other).
            both_none _ _ (type_issue_none _ ((not_literal (kind_of e)).1 formula))
              (type_issue_none _ ((differs (kind_of e)).1 other)))
          xs operands)

  check_shape_complete :
      (kind : ExpressionKind) (text : Bytes) (xs : Operands)
      → Shape kind text xs
      → check_shape owner kind text xs ≡ []
  unfolding check_shape
  check_shape_complete ExpressionKind.unspecified text xs h = refl
  check_shape_complete ExpressionKind.call text xs h = type_issue_none _ ((some_text text).1 h)
  check_shape_complete ExpressionKind.not text xs (one, formulas) =
      let decided : arity xs == 1 ≡ true = (==_iff _ _).1 one in
      both_none _ _ (check_arity_complete xs 1 one) (rw decided (formulas_complete xs formulas))
  check_shape_complete ExpressionKind.compare text xs (operator, (two, values)) =
      let decided : arity xs == 2 ≡ true = (==_iff _ _).1 two in
      both_none _ _
        (both_none _ _ (type_issue_none _ (ap not ((compares text).1 operator)))
          (check_arity_complete xs 2 two))
        (rw decided (values_complete xs values))
  check_shape_complete ExpressionKind.and text xs (many, operands) =
      check_connective_complete is_and ExpressionKind.and not_and xs many operands
  check_shape_complete ExpressionKind.or text xs (many, operands) =
      check_connective_complete is_or ExpressionKind.or not_or xs many operands
  check_shape_complete ExpressionKind.implies text xs (two, formulas) =
      both_none _ _ (check_arity_complete xs 2 two) (formulas_complete xs formulas)
  check_shape_complete ExpressionKind.for_all text xs (bound, two) =
      both_none _ _ (type_issue_none _ ((some_text text).1 bound)) (check_arity_complete xs 2 two)
  check_shape_complete ExpressionKind.exists text xs (bound, two) =
      both_none _ _ (type_issue_none _ ((some_text text).1 bound)) (check_arity_complete xs 2 two)
  check_shape_complete _ text xs h = check_arity_complete xs 0 h

  Shape-declared :
      (kind : ExpressionKind) (text : Bytes) (xs : Operands)
      → Shape kind text xs
      → is_unspecified kind ≡ false
  Shape-declared ExpressionKind.unspecified text xs h = absurd h
  Shape-declared _ text xs h = refl

  mutual
    unfolding check_expression check_operands WellFormed AllWellFormed depth operands_depth

    check_expression_none :
        (d : ℕ) (e : Expression)
        → WellFormed e
        → d + depth e ≤ 64
        → check_expression owner false d e ≡ []
    check_expression_none d (expression kind text n b xs) (payload, shape, typed) deep =
        let shallow : ltb 64 d ≡ false = ground arith in
        let below = check_operands_none d xs typed deep in
        let declared = Shape-declared kind text xs shape in
        rw (shallow, declared)
          (both_none _ _ (check_payload_complete kind text n b payload)
            (both_none _ _ (check_shape_complete kind text xs shape) below))

    check_operands_none :
        (d : ℕ) (xs : Operands)
        → AllWellFormed xs
        → d + operands_depth xs ≤ 64
        → check_operands owner (suc d) xs ≡ []
    check_operands_none d no_operands typed deep = refl
    check_operands_none d (operand e rest) (here, there) deep =
        both_none _ _ (check_expression_none (suc d) e here (omega (arith, deep)))
          (check_operands_none d rest there (omega (arith, deep)))

  -- That an expression may be left out matters to an absent one only.
  no_arity : (xs : Operands) → arity xs ≡ 0 → xs ≡ no_operands
  no_arity no_operands h = refl
  no_arity (operand x xs) h = absurd (omega (arith, h))

  optional_same :
      (kind : ExpressionKind) (text : Bytes) (n : ℕ) (b : Bool) (xs : Operands)
      → is_unspecified kind ≡ false
      → check_expression owner true 0 (expression kind text n b xs)
        ≡ check_expression owner false 0 (expression kind text n b xs)
  unfolding check_expression
  optional_same kind text n b xs present = rw present refl

  check_expression-IsAbsent :
      (text : Bytes) (n : ℕ) (b : Bool) (xs : Operands)
      → check_expression owner true 0 (expression ExpressionKind.unspecified text n b xs) ≡ []
      → IsAbsent (expression ExpressionKind.unspecified text n b xs)
  unfolding check_expression
  check_expression-IsAbsent text n b xs h =
      let (payload, rest) =
        none_of_both (check_payload owner ExpressionKind.unspecified text n b)
          (check_arity owner xs 0 ++ []) h in
      let (no_text, no_number, no_truth) =
        check_payload_sound owner ExpressionKind.unspecified text n b payload in
      let none_left =
        no_arity xs
          (check_arity_sound owner xs 0 (none_of_both (check_arity owner xs 0) [] rest).0) in
      rw (no_text, no_number, no_truth, none_left) refl

  IsAbsent-check_expression : (e : Expression) → IsAbsent e → check_expression owner true 0 e ≡ []
  unfolding check_expression check_payload
  IsAbsent-check_expression e absent = rw absent refl

  formed_none :
      (optional : Bool) (e : Expression)
      → WellFormed e
      → 0 + depth e ≤ 64
      → check_expression owner optional 0 e ≡ []
  unfolding WellFormed
  formed_none false e formed deep = check_expression_none 0 e formed deep
  formed_none true (expression kind text n b xs) formed deep =
      optional_same kind text n b xs (Shape-declared kind text xs formed.1)
      ∙ check_expression_none 0 (expression kind text n b xs) formed deep

  accepted :
      (optional : Bool) (e : Expression)
      → check_expression owner optional 0 e ≡ []
      → (WellFormed e × (depth e ≤ 64)) ⊎ ((optional ≡ true) × IsAbsent e)
  accepted false e h = inl (check_expression-WellFormed owner e h)
  accepted true (expression ExpressionKind.unspecified text n b xs) h =
      inr (refl, check_expression-IsAbsent text n b xs h)
  accepted true (expression kind text n b xs) h = inl (
      check_expression-WellFormed owner (expression kind text n b xs)
        (sym (optional_same kind text n b xs refl) ∙ h))

-- The pass finds no issue in an expression, from the depth 0 on, exactly where every part of it is
-- well formed as its kind demands and it is nested 64 deep at most, or where the expression may be
-- left out and is absent: of no kind, without payload and operands.
pub check_expression_iff :
    (owner : Bytes) (optional : Bool) (e : Expression)
    → (check_expression owner optional 0 e ≡ [])
      ↔ ((WellFormed e × (depth e ≤ 64)) ⊎ ((optional ≡ true) × IsAbsent e))
check_expression_iff owner optional e = (
  accepted owner optional e,
  λ well. elim well [
    | inl (formed, deep) ↦ formed_none owner optional e formed (omega (arith, deep))
    | inr (may_lack, absent) ↦ rw may_lack (IsAbsent-check_expression owner e absent)
  ],
)
