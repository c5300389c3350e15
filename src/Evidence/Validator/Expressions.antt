-- ===== src/Evidence/Validator/Expressions.antt =====
-- src/evidence/EvidenceValidator.cpp: the contract of expressions. Every issue of an expression has the
-- code `expression_type`.
use veritas.Common.{
  ℕ, suc, Bool, true, false, not, ◌&&◌, ◌||◌, [], ◌++◌, Bytes, codes, bytes_eq, ◌==◌, ltb,
  if◌then◌else◌,
}
use veritas.Evidence.Case.Records.{
  ExpressionKind, Expression, expression, Operands, no_operands, operand, EvidenceCase,
}
use veritas.Evidence.Validator.{expression_type, Issues, issue, issue_if, each, is_empty}

-- `IsFormulaKind`
abbrev pub is_formula_kind : ExpressionKind → Bool
is_formula_kind ExpressionKind.bool = true
is_formula_kind ExpressionKind.not = true
is_formula_kind ExpressionKind.compare = true
is_formula_kind ExpressionKind.and = true
is_formula_kind ExpressionKind.or = true
is_formula_kind ExpressionKind.implies = true
is_formula_kind ExpressionKind.for_all = true
is_formula_kind ExpressionKind.exists = true
is_formula_kind _ = false

-- `IsLiteralKind`
abbrev pub is_literal_kind : ExpressionKind → Bool
is_literal_kind ExpressionKind.integer = true
is_literal_kind ExpressionKind.string = true
is_literal_kind _ = false

-- `IsComparisonOperator`
unfoldable pub is_comparison_operator : Bytes → Bool
is_comparison_operator text =
    bytes_eq text (codes "==")
    || bytes_eq text (codes "!=")
    || bytes_eq text (codes "<")
    || bytes_eq text (codes "<=")
    || bytes_eq text (codes ">")
    || bytes_eq text (codes ">=")

abbrev pub kind_of : Expression → ExpressionKind
kind_of (expression kind _ _ _ _) = kind

abbrev pub arity : Operands → ℕ
arity no_operands = 0
arity (operand e rest) = suc (arity rest)

abbrev pub type_issue_if : Bool → Bytes → Issues
type_issue_if b owner = issue_if b expression_type owner

-- `CheckOperand`, on the operand itself.
abbrev pub check_operand : Bytes → Bool → Expression → Issues
check_operand owner true e = type_issue_if (is_literal_kind (kind_of e)) owner
check_operand owner false e = type_issue_if (is_formula_kind (kind_of e)) owner

unfoldable pub check_each_operand : (Expression → Issues) → Operands → Issues
check_each_operand check no_operands = []
check_each_operand check (operand e rest) = check e ++ check_each_operand check rest

-- `CheckArity`
abbrev pub check_arity : Bytes → Operands → ℕ → Issues
check_arity owner operands expected = type_issue_if (not (arity operands == expected)) owner

abbrev pub is_and : ExpressionKind → Bool
is_and ExpressionKind.and = true
is_and _ = false

abbrev pub is_or : ExpressionKind → Bool
is_or ExpressionKind.or = true
is_or _ = false

-- `text_is_active`
abbrev pub text_is_active : ExpressionKind → Bool
text_is_active ExpressionKind.string = true
text_is_active ExpressionKind.symbol = true
text_is_active ExpressionKind.reference = true
text_is_active ExpressionKind.call = true
text_is_active ExpressionKind.compare = true
text_is_active ExpressionKind.for_all = true
text_is_active ExpressionKind.exists = true
text_is_active _ = false

abbrev pub is_bool : ExpressionKind → Bool
is_bool ExpressionKind.bool = true
is_bool _ = false

abbrev pub is_integer : ExpressionKind → Bool
is_integer ExpressionKind.integer = true
is_integer _ = false

-- The payloads that the kind does not use.
unfoldable pub check_payload : Bytes → ExpressionKind → Bytes → ℕ → Bool → Issues
check_payload owner kind text n b =
    type_issue_if (not (is_bool kind) && b) owner
    ++ type_issue_if (not (is_integer kind) && not (n == 0)) owner
    ++ type_issue_if (not (text_is_active kind) && not (is_empty text)) owner

-- The operands of `and` (`or`), none of them an `and` (an `or`).
unfoldable pub check_connective : Bytes → (ExpressionKind → Bool) → Operands → Issues
check_connective owner same_kind operands =
    type_issue_if (ltb (arity operands) 2) owner
    ++ check_each_operand
        (λ e. check_operand owner true e ++ type_issue_if (same_kind (kind_of e)) owner) operands

-- The `switch` of `CheckExpression`.
unfoldable pub check_shape : Bytes → ExpressionKind → Bytes → Operands → Issues
unfolding check_connective
check_shape owner ExpressionKind.unspecified text _ = []
check_shape owner ExpressionKind.bool text operands = check_arity owner operands 0
check_shape owner ExpressionKind.integer text operands = check_arity owner operands 0
check_shape owner ExpressionKind.string text operands = check_arity owner operands 0
check_shape owner ExpressionKind.symbol text operands = check_arity owner operands 0
check_shape owner ExpressionKind.reference text operands = check_arity owner operands 0
check_shape owner ExpressionKind.call text _ = type_issue_if (is_empty text) owner
check_shape owner ExpressionKind.not text operands =
    check_arity owner operands 1
    ++ (if arity operands == 1 then check_each_operand (check_operand owner true) operands else [])
check_shape owner ExpressionKind.compare text operands =
    type_issue_if (not (is_comparison_operator text)) owner
    ++ check_arity owner operands 2
    ++ (if arity operands == 2 then check_each_operand (check_operand owner false) operands else [])
check_shape owner ExpressionKind.and text operands = check_connective owner is_and operands
check_shape owner ExpressionKind.or text operands = check_connective owner is_or operands
check_shape owner ExpressionKind.implies text operands =
    check_arity owner operands 2 ++ check_each_operand (check_operand owner true) operands
check_shape owner ExpressionKind.for_all text operands =
    type_issue_if (is_empty text) owner ++ check_arity owner operands 2
check_shape owner ExpressionKind.exists text operands =
    type_issue_if (is_empty text) owner ++ check_arity owner operands 2

abbrev pub is_unspecified : ExpressionKind → Bool
is_unspecified ExpressionKind.unspecified = true
is_unspecified _ = false

-- `CheckExpression` with its loop on the operands; `kMaxExpressionDepth` is 64.
unfoldable mutual
  pub check_expression : Bytes → Bool → ℕ → Expression → Issues
  check_expression owner optional depth (expression kind text n b operands) =
      let inside = check_operands owner (suc depth) operands in
      if ltb 64 depth
      then issue expression_type owner
      else check_payload owner kind text n b
        ++ (if is_unspecified kind
            then type_issue_if (not (arity operands == 0)) owner
              ++ type_issue_if (not optional) owner
            else check_shape owner kind text operands ++ inside)

  pub check_operands : Bytes → ℕ → Operands → Issues
  check_operands owner depth no_operands = []
  check_operands owner depth (operand e rest) =
      check_expression owner false depth e ++ check_operands owner depth rest

-- `CheckExpressions`
unfoldable pub check_expressions : EvidenceCase → Issues
check_expressions value =
    check_expression value.primary_claim.id true 0 value.primary_claim.predicate
    ++ each (λ e. each (λ (name, property). check_expression e.id false 0 property) e.properties)
        value.entities
    ++ each (λ p. each (check_expression p.id false 0) p.conditions) value.paths
    ++ each (λ f. check_expression f.id false 0 f.predicate) value.facts
    ++ each (λ a. check_expression a.id false 0 a.predicate) value.assumptions
    ++ each (λ h. check_expression h.id false 0 h.predicate) value.hypotheses
    ++ each (λ u. check_expression u.id false 0 u.property) value.unknowns
    ++ each (λ c. check_expression c.id false 0 c.expression) value.constraints
    ++ each
        (λ o. check_expression o.id false 0 o.predicate ++ check_expression o.id true 0 o.budget)
        value.proof_obligations
