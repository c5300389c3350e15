-- ===== src/Evidence/Validator/Typing.antt =====
-- An expression in which the validator's pass finds no issue meets what it demands.
use veritas.Common.{
  ℕ, suc, ◌+◌, ◌≤◌, Bool, true, false, not, [], ◌∷◌, ◌++◌, Bytes, ◌==◌, ==_iff, ltb, if◌then◌else◌,
  ◌≡◌, ◌≢◌, ◌↔◌, refl, inl, inr, Bool-cases, arith,
}
use veritas.Evidence.Case.Records.{
  ExpressionKind, Expression, expression, Operands, no_operands, operand,
}
use veritas.Evidence.Validator.{expression_type, Issues, is_empty}
use veritas.Evidence.Validator.Expressions.{
  kind_of, arity, type_issue_if, check_operand, check_each_operand, check_arity, is_and, is_or,
  check_payload, check_connective, check_shape, is_unspecified, check_expression, check_operands,
}
use veritas.Evidence.Validator.Contract.{
  Payload, IsFormula, IsValue, AllOperands, Shape, WellFormed, AllWellFormed, depth, operands_depth,
  not_literal, not_formula, not_and, not_or, some_text, compares,
}
use veritas.Evidence.Validator.Passes.{none_of_both, issue_if-none}
use veritas.Evidence.Validator.Graph.{not_false}

is_empty-none : (text : Bytes) → is_empty text ≡ true → text ≡ []
is_empty-none [] h = refl
is_empty-none (x ∷ text) h = cc h

module _ (owner : Bytes) where
  pub check_payload_sound :
      (kind : ExpressionKind) (text : Bytes) (n : ℕ) (b : Bool)
      → check_payload owner kind text n b ≡ []
      → Payload kind text n b
  unfolding check_payload
  check_payload_sound ExpressionKind.bool text n b h = let e = is_empty-none text in ground arith
  check_payload_sound _ text n b h = let e = is_empty-none text in ground arith

  check_each_operand-AllOperands :
      (check : Expression → Issues) (P : Expression → Type 0)
      → ((e : Expression) → check e ≡ [] → P e)
      → (xs : Operands) → check_each_operand check xs ≡ []
      → AllOperands P xs
  unfolding check_each_operand
  check_each_operand-AllOperands check P sound no_operands h = tt
  check_each_operand-AllOperands check P sound (operand e rest) h =
      let (here, there) = none_of_both _ _ h in
      (sound e here, check_each_operand-AllOperands check P sound rest there)

  pub check_arity_sound : (xs : Operands) (k : ℕ) → check_arity owner xs k ≡ [] → arity xs ≡ k
  check_arity_sound xs k h = ground arith

  formulas_sound :
      (xs : Operands)
      → check_each_operand (check_operand owner true) xs ≡ []
      → AllOperands IsFormula xs
  formulas_sound =
      check_each_operand-AllOperands (check_operand owner true) IsFormula
        (λ e h. (not_literal (kind_of e)).0 (issue_if-none _ expression_type owner h))

  values_sound :
      (xs : Operands)
      → check_each_operand (check_operand owner false) xs ≡ []
      → AllOperands IsValue xs
  values_sound =
      check_each_operand-AllOperands (check_operand owner false) IsValue
        (λ e h. (not_formula (kind_of e)).0 (issue_if-none _ expression_type owner h))

  check_connective_sound :
      (same_kind : ExpressionKind → Bool) (kind : ExpressionKind)
      → ((k : ExpressionKind) → (same_kind k ≡ false) ↔ (k ≢ kind))
      → (xs : Operands) → check_connective owner same_kind xs ≡ []
      → (2 ≤ arity xs) × AllOperands (λ e. IsFormula e × (kind_of e ≢ kind)) xs
  unfolding check_connective
  check_connective_sound same_kind kind differs xs h =
      let (many, each_one) = none_of_both _ _ h in
      let enough : ltb (arity xs) 2 ≡ false = issue_if-none _ expression_type owner many in
      (
        ground arith,
        check_each_operand-AllOperands _ (λ e. IsFormula e × (kind_of e ≢ kind))
            (λ e g.
              let (formula, other) = none_of_both _ _ g in
              (
                (not_literal (kind_of e)).0 (issue_if-none _ expression_type owner formula),
                (differs (kind_of e)).0 (issue_if-none _ expression_type owner other),
              ))
            xs each_one,
      )

  check_shape_sound :
      (kind : ExpressionKind) (text : Bytes) (xs : Operands)
      → is_unspecified kind ≡ false
      → check_shape owner kind text xs ≡ []
      → Shape kind text xs
  unfolding check_shape check_connective
  check_shape_sound ExpressionKind.unspecified text xs s h = cc s
  check_shape_sound ExpressionKind.call text xs s h =
      (some_text text).0 (issue_if-none _ expression_type owner h)
  check_shape_sound ExpressionKind.not text xs s h =
      let (one, rest) = none_of_both _ _ h in
      let single = check_arity_sound xs 1 one in
      let decided : arity xs == 1 ≡ true = (==_iff _ _).1 single in
      (single, formulas_sound xs (rw decided at rest))
  check_shape_sound ExpressionKind.compare text xs s h =
      let (first, rest) = none_of_both _ _ h in
      let (operator, two) = none_of_both _ _ first in
      let pair = check_arity_sound xs 2 two in
      let decided : arity xs == 2 ≡ true = (==_iff _ _).1 pair in
      (
        (compares text).0 (not_false _ (issue_if-none _ expression_type owner operator)),
        (pair, values_sound xs (rw decided at rest)),
      )
  check_shape_sound ExpressionKind.and text xs s h =
      check_connective_sound is_and ExpressionKind.and not_and xs h
  check_shape_sound ExpressionKind.or text xs s h =
      check_connective_sound is_or ExpressionKind.or not_or xs h
  check_shape_sound ExpressionKind.implies text xs s h =
      let (two, rest) = none_of_both _ _ h in (check_arity_sound xs 2 two, formulas_sound xs rest)
  check_shape_sound ExpressionKind.for_all text xs s h =
      let (bound, two) = none_of_both _ _ h in
      ((some_text text).0 (issue_if-none _ expression_type owner bound), check_arity_sound xs 2 two)
  check_shape_sound ExpressionKind.exists text xs s h =
      let (bound, two) = none_of_both _ _ h in
      ((some_text text).0 (issue_if-none _ expression_type owner bound), check_arity_sound xs 2 two)
  check_shape_sound _ text xs s h = ground arith

  -- What the pass adds after the payload.
  abbrev later_issues : ℕ → ExpressionKind → Bytes → Operands → Issues
  later_issues d kind text xs =
      if is_unspecified kind
      then type_issue_if (not (arity xs == 0)) owner ++ type_issue_if true owner
      else check_shape owner kind text xs ++ check_operands owner (suc d) xs

  mutual
    unfolding check_expression check_operands WellFormed AllWellFormed depth operands_depth

    check_WellFormed :
        (d : ℕ) (e : Expression)
        → check_expression owner false d e ≡ []
        → WellFormed e × (d + depth e ≤ 64)
    check_WellFormed d (expression kind text n b xs) h = elim (Bool-cases (ltb 64 d)) [
      | inl deep ↦ cc (rw deep at h)
      | inr shallow ↦
          let below = check_AllWellFormed d (ground arith) xs in
          let (payload, rest) =
            none_of_both (check_payload owner kind text n b) (later_issues d kind text xs)
              (rw shallow at h) in
          elim (Bool-cases (is_unspecified kind)) [
            | inl missing ↦ cc (none_of_both _ (type_issue_if true owner) (rw missing at rest)).1
            | inr present ↦
                let (shape, inside) = none_of_both _ _ (rw present at rest) in
                let (typed, deep) = below inside in
                (
                  (
                    check_payload_sound kind text n b payload,
                    check_shape_sound kind text xs present shape,
                    typed,
                  ),
                  deep,
                )
          ]
    ]

    check_AllWellFormed :
        (d : ℕ)
        → d ≤ 64
        → (xs : Operands) → check_operands owner (suc d) xs ≡ []
        → AllWellFormed xs × (d + operands_depth xs ≤ 64)
    check_AllWellFormed d shallow no_operands h = (tt, omega arith)
    check_AllWellFormed d shallow (operand e rest) h =
        let (here, there) = none_of_both _ _ h in
        let (typed, deep) = check_WellFormed (suc d) e here in
        let (others, deep_others) = check_AllWellFormed d shallow rest there in
        ((typed, others), omega (arith, deep, deep_others))

-- From the depth 0 on, with an expression asked for.
pub check_expression-WellFormed :
    (owner : Bytes) (e : Expression)
    → check_expression owner false 0 e ≡ []
    → WellFormed e × (depth e ≤ 64)
check_expression-WellFormed owner e h =
    let (typed, deep) = check_WellFormed owner 0 e h in (typed, omega (arith, deep))
