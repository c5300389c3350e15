-- ===== src/Evidence/Canonicalizer/Expressions.antt =====
-- src/evidence/EvidenceCanonicalizer.cpp: the values that encode expressions.
use veritas.Common.{Bool, true, false, ℕ, List, [], ◌∷◌, Bytes, codes}
use veritas.Core.Status.{StatusOr, ok, ◌>>=◌}
use veritas.Core.Canonical.{CanonicalValue, boolean, int, string}
use veritas.Core.Canonical.Build.{object_of}
use veritas.Evidence.Case.Records.{
  ExpressionKind, Expression, expression, Operands, no_operands, operand,
}
use veritas.Evidence.Canonicalizer.Elements.{ordered_array, sort_values_by_encoding}

-- `ExpressionKindName`
unfoldable pub expression_kind_name : ExpressionKind → Bytes
expression_kind_name ExpressionKind.unspecified = codes "unspecified"
expression_kind_name ExpressionKind.bool = codes "bool"
expression_kind_name ExpressionKind.integer = codes "integer"
expression_kind_name ExpressionKind.string = codes "string"
expression_kind_name ExpressionKind.symbol = codes "symbol"
expression_kind_name ExpressionKind.reference = codes "reference"
expression_kind_name ExpressionKind.call = codes "call"
expression_kind_name ExpressionKind.not = codes "not"
expression_kind_name ExpressionKind.compare = codes "compare"
expression_kind_name ExpressionKind.and = codes "and"
expression_kind_name ExpressionKind.or = codes "or"
expression_kind_name ExpressionKind.implies = codes "implies"
expression_kind_name ExpressionKind.for_all = codes "forall"
expression_kind_name ExpressionKind.exists = codes "exists"

-- `and` and `or`
abbrev pub is_commutative : ExpressionKind → Bool
is_commutative ExpressionKind.and = true
is_commutative ExpressionKind.or = true
is_commutative _ = false

-- The operands, as `EncodeExpression` orders them.
unfoldable pub order_operands : Bool → List CanonicalValue → StatusOr (List CanonicalValue)
order_operands true operands = sort_values_by_encoding operands
order_operands false operands = ok operands

abbrev pub expression_object :
    ExpressionKind → Bytes → ℕ → Bool → List CanonicalValue → CanonicalValue
expression_object kind text integer truth operands = object_of (
    (codes "boolean", boolean truth)
    ∷ (codes "integer", int integer)
    ∷ (codes "kind", string (expression_kind_name kind))
    ∷ (codes "operands", ordered_array operands)
    ∷ (codes "text", string text)
    ∷ [])

-- `EncodeExpression`, with its loop on the operands.
unfoldable mutual
  pub encode_expression : Expression → StatusOr CanonicalValue
  encode_expression (expression kind text integer truth operands) =
      encode_operands operands >>= λ encoded.
      order_operands (is_commutative kind) encoded >>= λ ordered.
      ok (expression_object kind text integer truth ordered)

  pub encode_operands : Operands → StatusOr (List CanonicalValue)
  encode_operands no_operands = ok []
  encode_operands (operand first others) =
      encode_expression first >>= λ encoded. encode_operands others >>= λ rest. ok (encoded ∷ rest)
