-- ===== src/Evidence/Validator/Domain.antt =====
-- What a predicate is that argues for its execution domain, independently of the validator's search
-- for it.
pub mod Search
use veritas.Common.{
  ℕ, Bool, true, false, Bytes, codes, bytes_eq, bytes_eq_iff, Option, none, some, ◌≡◌, refl, sym,
  subst, ◌∙◌, ◌⊎◌, inl, inr, Bool-cases, Option-cases, both_true, one_true,
}
use veritas.Evidence.Case.Records.{
  ExpressionKind, Expression, expression, Operands, no_operands, operand,
}
use veritas.Evidence.Case.Compare.{
  Ordering, less, equal, greater, is_equal, expression_eq, compare_operands_sound,
  compare_expressions_iff,
}
use veritas.Evidence.Validator.Authority.{
  kind_is, feasible_domain, last_domain, same_scope, is_nonempty, admits, any_operand,
  has_execution_domain_argument,
}

-- One of the operands.
abbrev pub InOperands : Expression → Operands → Type 0
InOperands e no_operands = ⊥
InOperands e (operand x rest) = (e ≡ x) ⊎ InOperands e rest

-- `name(args)`
pub data Calls (name : Bytes) (args : Operands) : Expression → Type 0 where
  call : {n : ℕ} {b : Bool} → Calls name args (expression ExpressionKind.call name n b args)

-- `forall x in domain: body`
pub data RangesOver (domain : Expression) : Expression → Type 0 where
  for_all :
      {x : Bytes} {n : ℕ} {b : Bool} {body : Expression}
      → RangesOver domain
          (expression ExpressionKind.for_all x n b (operand domain (operand body no_operands)))

-- `exists x in domain: true`
pub data Inhabits (domain : Expression) : Expression → Type 0 where
  exists :
      {x text : Bytes} {n m : ℕ} {b : Bool} {xs : Operands}
      → Inhabits domain (
          expression ExpressionKind.exists x n b
            (operand domain (operand (expression ExpressionKind.bool text m true xs) no_operands)))

-- `exists x in domain: true or entry_infeasible(args)`, in either order.
pub data Admits (domain : Expression) (args : Operands) : Expression → Type 0 where
  or :
      {text : Bytes} {n : ℕ} {b : Bool} {x y : Expression}
      → Inhabits domain x ⊎ Inhabits domain y
      → Calls (codes "entry_infeasible") args x ⊎ Calls (codes "entry_infeasible") args y
      → Admits domain args
          (expression ExpressionKind.or text n b (operand x (operand y no_operands)))

-- A conjunction of which one part ranges over `feasible_paths(source, sink)`, one says that the
-- domain of these two is complete, and one that it is inhabited or its entry infeasible.
pub record ArguesFor (terms : Operands) : Type 0 where
  pub source : Expression
  pub sink : Expression
  pub domain : Expression
  pub domain_is : Calls (codes "feasible_paths") (operand source (operand sink no_operands)) domain
  pub universal : Expression
  pub universal_in : InOperands universal terms
  pub universal_is : RangesOver domain universal
  pub complete : Expression
  pub complete_in : InOperands complete terms
  pub complete_is :
      Calls (codes "execution_domain_complete") (operand source (operand sink no_operands)) complete
  pub admitted : Expression
  pub admitted_in : InOperands admitted terms
  pub admitted_is : Admits domain (operand source (operand sink no_operands)) admitted

pub data HasDomain : Expression → Type 0 where
  and :
      {text : Bytes} {n : ℕ} {b : Bool} {terms : Operands}
      → ArguesFor terms
      → HasDomain (expression ExpressionKind.and text n b terms)
