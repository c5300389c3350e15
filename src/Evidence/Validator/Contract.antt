-- ===== src/Evidence/Validator/Contract.antt =====
-- What the validator demands of an expression: of the operand contract in
-- include/veritas/evidence/EvidenceCase.h, the payloads, the arities, the operators, and formulas and
-- values as operands of connectives and comparisons. It demands nothing of the text of a symbol or of
-- a reference, and of the domain and the body of a quantifier only that they are well formed.
use veritas.Common.{
  ℕ, suc, ◌≤◌, max, Bool, true, false, [], ◌∷◌, Bytes, codes, bytes_eq, bytes_eq_iff, ◌≡◌, ◌≢◌, ◌↔◌,
  refl, sym, subst, inl, inr, one_true,
}
use veritas.Evidence.Case.Records.{
  ExpressionKind, Expression, expression, Operands, no_operands, operand,
}
use veritas.Evidence.Validator.{is_empty}
use veritas.Evidence.Validator.Expressions.{
  is_formula_kind, is_literal_kind, is_comparison_operator, kind_of, arity, is_and, is_or,
}

-- The payloads that a kind does not use are at their defaults.
abbrev pub Payload : ExpressionKind → Bytes → ℕ → Bool → Type 0
Payload ExpressionKind.bool text n b = (text ≡ []) × (n ≡ 0)
Payload ExpressionKind.integer text n b = (text ≡ []) × (b ≡ false)
Payload ExpressionKind.string text n b = (n ≡ 0) × (b ≡ false)
Payload ExpressionKind.symbol text n b = (n ≡ 0) × (b ≡ false)
Payload ExpressionKind.reference text n b = (n ≡ 0) × (b ≡ false)
Payload ExpressionKind.call text n b = (n ≡ 0) × (b ≡ false)
Payload ExpressionKind.compare text n b = (n ≡ 0) × (b ≡ false)
Payload ExpressionKind.for_all text n b = (n ≡ 0) × (b ≡ false)
Payload ExpressionKind.exists text n b = (n ≡ 0) × (b ≡ false)
Payload _ text n b = (text ≡ []) × (n ≡ 0) × (b ≡ false)

pub data LiteralKind : ExpressionKind → Type 0 where
  integer : LiteralKind ExpressionKind.integer
  string : LiteralKind ExpressionKind.string

pub data FormulaKind : ExpressionKind → Type 0 where
  bool : FormulaKind ExpressionKind.bool
  not : FormulaKind ExpressionKind.not
  compare : FormulaKind ExpressionKind.compare
  and : FormulaKind ExpressionKind.and
  or : FormulaKind ExpressionKind.or
  implies : FormulaKind ExpressionKind.implies
  for_all : FormulaKind ExpressionKind.for_all
  exists : FormulaKind ExpressionKind.exists

-- The six operators of comparisons.
pub data ComparisonOperator : Bytes → Type 0 where
  equal : ComparisonOperator (codes "==")
  not_equal : ComparisonOperator (codes "!=")
  less : ComparisonOperator (codes "<")
  less_equal : ComparisonOperator (codes "<=")
  greater : ComparisonOperator (codes ">")
  greater_equal : ComparisonOperator (codes ">=")

-- An expression that may stand where a formula is asked for, and one that may where a value is.
abbrev pub IsFormula : Expression → Type 0
IsFormula e = ¬ (LiteralKind (kind_of e))

abbrev pub IsValue : Expression → Type 0
IsValue e = ¬ (FormulaKind (kind_of e))

abbrev pub AllOperands : (Expression → Type 0) → Operands → Type 0
AllOperands P no_operands = Unit
AllOperands P (operand e rest) = P e × AllOperands P rest

abbrev pub TwoOperands : (Expression → Type 0) → Operands → Type 0
TwoOperands P xs = (arity xs ≡ 2) × AllOperands P xs

-- The operands of each kind, and the text that it needs.
abbrev pub Shape : ExpressionKind → Bytes → Operands → Type 0
Shape ExpressionKind.unspecified text xs = ⊥
Shape ExpressionKind.call text xs = text ≢ []
Shape ExpressionKind.not text xs = (arity xs ≡ 1) × AllOperands IsFormula xs
Shape ExpressionKind.compare text xs = ComparisonOperator text × TwoOperands IsValue xs
Shape ExpressionKind.and text xs =
    (2 ≤ arity xs) × AllOperands (λ e. IsFormula e × (kind_of e ≢ ExpressionKind.and)) xs
Shape ExpressionKind.or text xs =
    (2 ≤ arity xs) × AllOperands (λ e. IsFormula e × (kind_of e ≢ ExpressionKind.or)) xs
Shape ExpressionKind.implies text xs = TwoOperands IsFormula xs
Shape ExpressionKind.for_all text xs = (text ≢ []) × (arity xs ≡ 2)
Shape ExpressionKind.exists text xs = (text ≢ []) × (arity xs ≡ 2)
Shape _ text xs = arity xs ≡ 0

unfoldable mutual
  pub WellFormed : Expression → Type 0
  WellFormed (expression kind text n b xs) =
      Payload kind text n b × Shape kind text xs × AllWellFormed xs

  pub AllWellFormed : Operands → Type 0
  AllWellFormed no_operands = Unit
  AllWellFormed (operand e rest) = WellFormed e × AllWellFormed rest

-- How deep operands are nested.
unfoldable mutual
  pub depth : Expression → ℕ
  depth (expression kind text n b xs) = operands_depth xs

  pub operands_depth : Operands → ℕ
  operands_depth no_operands = 0
  operands_depth (operand e rest) = max (suc (depth e)) (operands_depth rest)

-- No expression, as it may be left out where the pass is told so.
abbrev pub IsAbsent : Expression → Type 0
IsAbsent e = e ≡ expression ExpressionKind.unspecified [] 0 false no_operands

pub not_literal : (k : ExpressionKind) → (is_literal_kind k ≡ false) ↔ ¬ (LiteralKind k)
not_literal ExpressionKind.integer = (λ h. cc h, λ h. absurd (h integer))
not_literal ExpressionKind.string = (λ h. cc h, λ h. absurd (h string))
not_literal _ = (λ h l. elim l [ ], λ h. refl)

pub not_formula : (k : ExpressionKind) → (is_formula_kind k ≡ false) ↔ ¬ (FormulaKind k)
not_formula ExpressionKind.bool = (λ h. cc h, λ h. absurd (h bool))
not_formula ExpressionKind.not = (λ h. cc h, λ h. absurd (h not))
not_formula ExpressionKind.compare = (λ h. cc h, λ h. absurd (h compare))
not_formula ExpressionKind.and = (λ h. cc h, λ h. absurd (h and))
not_formula ExpressionKind.or = (λ h. cc h, λ h. absurd (h or))
not_formula ExpressionKind.implies = (λ h. cc h, λ h. absurd (h implies))
not_formula ExpressionKind.for_all = (λ h. cc h, λ h. absurd (h for_all))
not_formula ExpressionKind.exists = (λ h. cc h, λ h. absurd (h exists))
not_formula _ = (λ h l. elim l [ ], λ h. refl)

pub not_and : (k : ExpressionKind) → (is_and k ≡ false) ↔ (k ≢ ExpressionKind.and)
not_and ExpressionKind.and = (λ h. cc h, λ h. absurd (h refl))
not_and _ = (λ h e. cc e, λ h. refl)

pub not_or : (k : ExpressionKind) → (is_or k ≡ false) ↔ (k ≢ ExpressionKind.or)
not_or ExpressionKind.or = (λ h. cc h, λ h. absurd (h refl))
not_or _ = (λ h e. cc e, λ h. refl)

pub some_text : (text : Bytes) → (is_empty text ≡ false) ↔ (text ≢ [])
some_text [] = (λ h. cc h, λ h. absurd (h refl))
some_text (x ∷ text) = (λ h e. cc e, λ h. refl)

spelled :
    (text : Bytes) {operator : Bytes}
    → ComparisonOperator operator
    → bytes_eq text operator ≡ true
    → ComparisonOperator text
spelled text {operator} o h = subst ComparisonOperator (sym ((bytes_eq_iff text operator).0 h)) o

operator_accepted : {text : Bytes} → ComparisonOperator text → is_comparison_operator text ≡ true
unfolding is_comparison_operator bytes_eq
operator_accepted equal = refl
operator_accepted not_equal = refl
operator_accepted less = refl
operator_accepted less_equal = refl
operator_accepted greater = refl
operator_accepted greater_equal = refl

pub compares : (text : Bytes) → (is_comparison_operator text ≡ true) ↔ ComparisonOperator text
unfolding is_comparison_operator
compares text = (
  λ h. elim (one_true _ (bytes_eq text (codes ">=")) h) [
    | inr e ↦ spelled text greater_equal e
    | inl h4 ↦ elim (one_true _ (bytes_eq text (codes ">")) h4) [
      | inr e ↦ spelled text greater e
      | inl h3 ↦ elim (one_true _ (bytes_eq text (codes "<=")) h3) [
        | inr e ↦ spelled text less_equal e
        | inl h2 ↦ elim (one_true _ (bytes_eq text (codes "<")) h2) [
          | inr e ↦ spelled text less e
          | inl h1 ↦ elim (one_true _ (bytes_eq text (codes "!=")) h1) [
            | inr e ↦ spelled text not_equal e
            | inl e ↦ spelled text equal e
          ]
        ]
      ]
    ]
  ],
  operator_accepted,
)
