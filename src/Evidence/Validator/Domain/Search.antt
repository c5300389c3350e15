-- ===== src/Evidence/Validator/Domain/Search.antt =====
-- The validator's search for an argument for the execution domain finds nothing else.
use veritas.Common.{
  ℕ, Bool, true, false, Bytes, codes, bytes_eq, bytes_eq_iff, Option, none, some, ◌≡◌, refl, sym,
  subst, ◌∙◌, ◌⊎◌, inl, inr, Bool-cases, Option-cases, both_true, one_true,
}
use veritas.Evidence.Case.Records.{
  ExpressionKind, Expression, expression, Operands, no_operands, operand,
}
use veritas.Evidence.Case.Compare.{
  Ordering, less, equal, greater, is_equal, expression_eq, compare_operands_sound,
  compare_expressions_iff,
}
use veritas.Evidence.Validator.Authority.{
  kind_is, feasible_domain, last_domain, same_scope, is_nonempty, admits, any_operand,
  has_execution_domain_argument,
}
use veritas.Evidence.Validator.Domain.{
  InOperands, Calls, call, RangesOver, for_all, Inhabits, exists, Admits, or, ArguesFor, HasDomain,
  and,
}

is_equal_sound : (o : Ordering) → is_equal o ≡ true → o ≡ equal
is_equal_sound less h = cc h
is_equal_sound equal h = refl
is_equal_sound greater h = cc h

is_call : (k : ExpressionKind) → kind_is k ExpressionKind.call ≡ true → k ≡ ExpressionKind.call
is_call ExpressionKind.call h = refl
is_call _ h = cc h

is_and : (k : ExpressionKind) → kind_is k ExpressionKind.and ≡ true → k ≡ ExpressionKind.and
is_and ExpressionKind.and h = refl
is_and _ h = cc h

Calls-cong :
    {name text : Bytes} {args xs : Operands} {k : ExpressionKind} (n : ℕ) (b : Bool)
    → k ≡ ExpressionKind.call
    → text ≡ name
    → xs ≡ args
    → Calls name args (expression k text n b xs)
Calls-cong {name} {args} n b p q r = rw (p, q, r) call

same_scope_sound :
    (e : Expression) (k : ExpressionKind) (text : Bytes) (n : ℕ) (b : Bool) (args : Operands)
    (name : Bytes)
    → same_scope e (expression k text n b args) name ≡ true
    → Calls name args e
same_scope_sound (expression kind t m c xs) k text n b args name h =
    let (is, rest) = both_true _ _ h in
    let (named, same) = both_true _ _ rest in
    Calls-cong m c (is_call kind is) ((bytes_eq_iff t name).0 named)
      (compare_operands_sound xs args (is_equal_sound _ same))

any_operand_sound :
    (test : Expression → Bool) (P : Expression → Type 0)
    → ((e : Expression) → test e ≡ true → P e)
    → (xs : Operands) → any_operand test xs ≡ true
    → (e : Expression) × InOperands e xs × P e
unfolding any_operand
any_operand_sound test P sound no_operands h = cc h
any_operand_sound test P sound (operand x rest) h = elim (one_true (test x) _ h) [
  | inl here ↦ (x, inl refl, sound x here)
  | inr there ↦ let (e, m, p) = any_operand_sound test P sound rest there in (e, inr m, p)
]

is_nonempty_sound : (x domain : Expression) → is_nonempty x domain ≡ true → Inhabits domain x
is_nonempty_sound
      (expression ExpressionKind.exists t n b
        (operand d (operand (expression ExpressionKind.bool t' n' truth xs) no_operands)))
      domain h =
    let (same, is_true) = both_true (expression_eq d domain) truth h in
    let domain_is = (compare_expressions_iff d domain).0 (is_equal_sound _ same) in
    rw (domain_is, is_true) exists
is_nonempty_sound _ domain h = cc h

admits_sound :
    (e : Expression) (k : ExpressionKind) (text : Bytes) (n : ℕ) (b : Bool) (args : Operands)
    → admits e (expression k text n b args) ≡ true
    → Admits (expression k text n b args) args e
admits_sound (expression ExpressionKind.or t m c (operand x (operand y no_operands))) k text n b
      args h =
    let domain = expression k text n b args in
    let (nonempty, infeasible) = both_true _ _ h in
    or
      (elim (one_true (is_nonempty x domain) _ nonempty) [
        | inl first ↦ inl (is_nonempty_sound x domain first)
        | inr second ↦ inr (is_nonempty_sound y domain second)
      ])
      (elim (one_true (same_scope x domain (codes "entry_infeasible")) _ infeasible) [
        | inl first ↦ inl (same_scope_sound x k text n b args _ first)
        | inr second ↦ inr (same_scope_sound y k text n b args _ second)
      ])
admits_sound _ k text n b args h = cc h

-- A quantifier over `feasible_paths(source, sink)`.
record Feasible (e domain : Expression) : Type 0 where
  source : Expression
  sink : Expression
  domain_is : Calls (codes "feasible_paths") (operand source (operand sink no_operands)) domain
  universal_is : RangesOver domain e

not_found : {a : Expression} → ¬ (none ≡ some a)
not_found h = cc h

only : {a b : Expression} → some a ≡ some b → a ≡ b
only h = cc h

feasible_domain_sound :
    (e domain : Expression) → feasible_domain e ≡ some domain → Feasible e domain
feasible_domain_sound
      (expression ExpressionKind.for_all t n b (
        operand
          (expression ExpressionKind.call name n' b' (operand source (operand sink no_operands)))
          (operand body no_operands)))
      domain h =
    elim (Bool-cases (bytes_eq name (codes "feasible_paths"))) [
      | inr other ↦ cc (rw other at h)
      | inl same ↦
          let found = only (rw same at h) in
          subst
            (Feasible (
              expression ExpressionKind.for_all t n b (
                operand
                  (expression ExpressionKind.call name n' b'
                    (operand source (operand sink no_operands)))
                  (operand body no_operands))))
            found
            (record {
              source = source;
              sink = sink;
              domain_is = Calls-cong n' b' refl ((bytes_eq_iff name _).0 same) refl;
              universal_is = for_all;
            })
    ]
feasible_domain_sound _ domain h = cc h

last_domain_sound :
    (xs : Operands) (found : Option Expression) (domain : Expression)
    → last_domain xs found ≡ some domain
    → (found ≡ some domain) ⊎ ((e : Expression) × InOperands e xs × Feasible e domain)
unfolding last_domain
last_domain_sound no_operands found domain h = inl h
last_domain_sound (operand x rest) found domain h = elim (Option-cases (feasible_domain x)) [
  | inl none_here ↦ elim (last_domain_sound rest found domain (rw none_here at h)) [
    | inl before ↦ inl before
    | inr (e, m, f) ↦ inr (e, inr m, f)
  ]
  | inr (d, here) ↦ elim (last_domain_sound rest (some d) domain (rw here at h)) [
    | inl this ↦ inr (x, inl refl, feasible_domain_sound x domain (here ∙ this))
    | inr (e, m, f) ↦ inr (e, inr m, f)
  ]
]

args_of : Expression → Operands
args_of (expression _ _ _ _ args) = args

Calls-args :
    {name : Bytes} {args : Operands} {e : Expression} → Calls name args e → args_of e ≡ args
unfolding args_of
Calls-args call = refl

ArguesFor-domain :
    (terms : Operands) (domain : Expression)
    → ((e : Expression) × InOperands e terms × Feasible e domain)
    → any_operand (λ term. same_scope term domain (codes "execution_domain_complete")) terms ≡ true
    → any_operand (λ term. admits term domain) terms ≡ true
    → ArguesFor terms
unfolding args_of
ArguesFor-domain terms (expression k text n b args) (e, m, f) whole admitted =
    let domain = expression k text n b args in
    let same : args ≡ operand f.source (operand f.sink no_operands) = Calls-args f.domain_is in
    let (c, c_in, c_is) =
      any_operand_sound _ (Calls (codes "execution_domain_complete") args)
        (λ x. same_scope_sound x k text n b args _) terms whole in
    let (a, a_in, a_is) =
      any_operand_sound _ (Admits domain args) (λ x. admits_sound x k text n b args) terms
        admitted in
    record {
      source = f.source;
      sink = f.sink;
      domain = domain;
      domain_is = f.domain_is;
      universal = e;
      universal_in = m;
      universal_is = f.universal_is;
      complete = c;
      complete_in = c_in;
      complete_is = subst (λ xs. Calls (codes "execution_domain_complete") xs c) same c_is;
      admitted = a;
      admitted_in = a_in;
      admitted_is = subst (λ xs. Admits domain xs a) same a_is;
    }

-- What `HasExecutionDomainArgument` accepts argues for its execution domain.
pub has_execution_domain_argument-HasDomain :
    (e : Expression) → has_execution_domain_argument e ≡ true → HasDomain e
unfolding has_execution_domain_argument
has_execution_domain_argument-HasDomain (expression kind t n b terms) h =
    let (conjunction, argued) = both_true _ _ h in
    let shown : ArguesFor terms = elim (Option-cases (last_domain terms none)) [
      | inl nothing ↦ let absent : false ≡ true = rw nothing at argued in cc absent
      | inr (domain, found) ↦
          let (whole, admitted) = both_true _ _ (rw found at argued) in
          elim (last_domain_sound terms none domain found) [
            | inl before ↦ absurd (not_found before)
            | inr universal ↦ ArguesFor-domain terms domain universal whole admitted
          ]
    ] in
    subst (λ k. HasDomain (expression k t n b terms)) (sym (is_and kind conjunction)) (and shown)
