-- ===== src/Evidence/Completion/Certificate.antt =====
-- What a descriptor is that `ValidateDescriptor` accepts.
use mathlib.Core.List.{Memᴰ}
use mathlib.Core.List.Memᴰ.{head, tail}
use veritas.Common.{
  ℕ, ◌<◌, Bool, true, false, not, ◌&&◌, if◌then◌else◌, List, [], ◌∷◌, All, length, ◌==◌, ◌≡◌, ◌≢◌,
  ◌↔◌, refl, sym, ap, ◌∙◌, subst, inl, inr, Bool-cases, both_true, one_true, ==_iff, arith,
}
use Prim.Native.String.{String}
use veritas.Core.Status.{Status, StatusCode, ok, err, require, ◌>>◌}
use veritas.Evidence.Case.Enums.{QueryCompleteness, TruncationReason}
use veritas.Evidence.Completion.{
  EvidenceQueryBudget, QueryCompletionDescriptor, completeness_value, reason_value, is_repeated,
  has_duplicate, all_specified, validate_evidence_query_budget, validate_descriptor,
}

-- A chain of checks passes exactly if each of them does.
checked_then :
    (before : Status) (test : Bool) (code : StatusCode) (message : String)
    → ((before >> require test code message) ≡ ok tt) ↔ ((before ≡ ok tt) × (test ≡ true))
checked_then (ok tt) true code message = (λ h. (refl, refl), λ h. refl)
checked_then (ok tt) false code message = (λ h. cc h, λ (a, b). cc b)
checked_then (err c m) test code message = (λ h. cc h, λ (a, b). cc a)

both_ok : (a b : Status) → (a >> b) ≡ ok tt → (a ≡ ok tt) × (b ≡ ok tt)
both_ok (ok tt) b h = (refl, h)
both_ok (err c m) b h = cc h

abbrev reason_of : ℕ → TruncationReason
reason_of n =
    if n == 1
    then TruncationReason.max_depth
    else if n == 2
    then TruncationReason.max_nodes
    else if n == 3
    then TruncationReason.max_paths
    else if n == 4
    then TruncationReason.max_facts
    else if n == 5
    then TruncationReason.max_provenance_depth
    else if n == 6
    then TruncationReason.max_fact_work
    else if n == 7
    then TruncationReason.max_fact_bytes
    else TruncationReason.unspecified

reason_of-reason_value : (r : TruncationReason) → reason_of (reason_value r) ≡ r
unfolding reason_value
reason_of-reason_value TruncationReason.unspecified = refl
reason_of-reason_value TruncationReason.max_depth = refl
reason_of-reason_value TruncationReason.max_nodes = refl
reason_of-reason_value TruncationReason.max_paths = refl
reason_of-reason_value TruncationReason.max_facts = refl
reason_of-reason_value TruncationReason.max_provenance_depth = refl
reason_of-reason_value TruncationReason.max_fact_work = refl
reason_of-reason_value TruncationReason.max_fact_bytes = refl

reason_value-injective : (r s : TruncationReason) → reason_value r ≡ reason_value s → r ≡ s
reason_value-injective r s h =
    sym (reason_of-reason_value r) ∙ ap reason_of h ∙ reason_of-reason_value s

-- No reason stands in the list twice.
abbrev pub NoRepetition : List TruncationReason → Type 0
NoRepetition [] = Unit
NoRepetition (reason ∷ rest) = ¬ (Memᴰ reason rest) × NoRepetition rest

is_repeated-Memᴰ :
    (r : TruncationReason) (rest : List TruncationReason)
    → (is_repeated r rest ≡ true) ↔ Memᴰ r rest
unfolding is_repeated
is_repeated-Memᴰ r [] = (λ h. cc h, λ m. elim m [ ])
is_repeated-Memᴰ r (s ∷ rest) = (
  λ h. elim (one_true (reason_value r == reason_value s) _ h) [
    | inl same ↦ head (reason_value-injective r s ((==_iff _ _).0 same))
    | inr later ↦ tail ((is_repeated-Memᴰ r rest).0 later)
  ],
  λ m. elim m [
    | head e ↦
        let same = (==_iff (reason_value r) (reason_value s)).1 (ap reason_value e) in ground arith
    | tail m' ↦ let later = (is_repeated-Memᴰ r rest).1 m' in ground arith
  ],
)

has_duplicate-NoRepetition :
    (rs : List TruncationReason) → (not (has_duplicate rs) ≡ true) ↔ NoRepetition rs
unfolding has_duplicate
has_duplicate-NoRepetition [] = (λ h. tt, λ h. refl)
has_duplicate-NoRepetition (r ∷ rest) =
    let here = is_repeated-Memᴰ r rest in
    let further = has_duplicate-NoRepetition rest in
    (
      λ h. (λ m. let found = here.1 m in ground arith, further.0 ground arith),
      λ (fresh, later).
          let rest_ok = further.1 later in
          elim (Bool-cases (is_repeated r rest)) [
            | inl found ↦ absurd (fresh (here.0 found))
            | inr not_found ↦ ground arith
          ],
    )

-- Every reason is a named one.
abbrev pub Specified : List TruncationReason → Type 0
Specified rs = All (λ r. r ≢ TruncationReason.unspecified) rs

is_specified :
    (r : TruncationReason) → (not (reason_value r == 0) ≡ true) ↔ (r ≢ TruncationReason.unspecified)
unfolding reason_value
is_specified r = (
  λ h e. cc (subst (λ s. not (reason_value s == 0) ≡ true) e h),
  λ other. elim (Bool-cases (reason_value r == 0)) [
    | inl zero_value ↦ absurd (
        other (
          reason_value-injective r TruncationReason.unspecified
            ((==_iff (reason_value r) 0).0 zero_value)))
    | inr named ↦ ap not named
  ],
)

all_specified-Specified : (rs : List TruncationReason) → (all_specified rs ≡ true) ↔ Specified rs
unfolding all_specified
all_specified-Specified [] = (λ h. tt, λ h. refl)
all_specified-Specified (r ∷ rest) =
    let first = is_specified r in
    let further = all_specified-Specified rest in
    (
      λ h. let (a, b) = both_true (not (reason_value r == 0)) _ h in (first.0 a, further.0 b),
      λ (a, b). rw (first.1 a, further.1 b) refl,
    )

-- The reasons that a certificate of this completeness may carry.
abbrev pub Fits : QueryCompleteness → List TruncationReason → Type 0
Fits QueryCompleteness.unspecified rs = ⊥
Fits QueryCompleteness.complete rs = rs ≡ []
Fits QueryCompleteness.truncated rs = rs ≢ []

-- The three checks that compare the completeness with the reasons.
abbrev ChecksPass : ℕ → List TruncationReason → Type 0
ChecksPass stated rs =
    (not (stated == 0) ≡ true)
    × (not (stated == 1 && not (length rs == 0)) ≡ true)
    × (not (stated == 2 && length rs == 0) ≡ true)

ChecksPass-Fits :
    (c : QueryCompleteness) (rs : List TruncationReason)
    → ChecksPass (completeness_value c) rs ↔ Fits c rs
unfolding completeness_value
ChecksPass-Fits QueryCompleteness.unspecified rs = (λ (a, b, c). cc a, λ h. elim h [ ])
ChecksPass-Fits QueryCompleteness.complete [] = (λ h. refl, λ h. (refl, refl, refl))
ChecksPass-Fits QueryCompleteness.complete (r ∷ rs) =
    (λ (a, b, c). absurd (ground arith), λ h. cc h)
ChecksPass-Fits QueryCompleteness.truncated [] = (λ (a, b, c). cc c, λ h. absurd (h refl))
ChecksPass-Fits QueryCompleteness.truncated (r ∷ rs) =
    (λ h e. cc e, λ h. (refl, refl, ground arith))

-- Every limit is positive.
pub record HasLimits (b : EvidenceQueryBudget) : Type 0 where
  pub max_depth : 0 < b.max_depth
  pub max_nodes : 0 < b.max_nodes
  pub max_paths : 0 < b.max_paths
  pub max_facts_per_query : 0 < b.max_facts_per_query
  pub max_provenance_depth : 0 < b.max_provenance_depth

positive : (n : ℕ) → (not (n == 0) ≡ true) ↔ (0 < n)
positive n = ground arith

required :
    (test : Bool) (code : StatusCode) (message : String)
    → (require test code message ≡ ok tt) ↔ (test ≡ true)
required true code message = (λ h. refl, λ h. refl)
required false code message = (λ h. cc h, λ h. cc h)

validate_evidence_query_budget-HasLimits :
    (b : EvidenceQueryBudget) → (validate_evidence_query_budget b ≡ ok tt) ↔ HasLimits b
unfolding validate_evidence_query_budget
validate_evidence_query_budget-HasLimits b = (
  λ h.
      let (h4, t5) = (checked_then _ _ _ _).0 h in
      let (h3, t4) = (checked_then _ _ _ _).0 h4 in
      let (h2, t3) = (checked_then _ _ _ _).0 h3 in
      let (h1, t2) = (checked_then _ _ _ _).0 h2 in
      let t1 = (required _ _ _).0 h1 in
      record {
        max_depth = (positive b.max_depth).0 t1;
        max_nodes = (positive b.max_nodes).0 t2;
        max_paths = (positive b.max_paths).0 t3;
        max_facts_per_query = (positive b.max_facts_per_query).0 t4;
        max_provenance_depth = (positive b.max_provenance_depth).0 t5;
      },
  λ limits.
      let t1 = (positive b.max_depth).1 limits.max_depth in
      let t2 = (positive b.max_nodes).1 limits.max_nodes in
      let t3 = (positive b.max_paths).1 limits.max_paths in
      let t4 = (positive b.max_facts_per_query).1 limits.max_facts_per_query in
      let t5 = (positive b.max_provenance_depth).1 limits.max_provenance_depth in
      rw (t1, t2, t3, t4, t5) refl,
)

-- A canonical certificate of what a query answered.
pub record IsCertificate (d : QueryCompletionDescriptor) : Type 0 where
  pub limits : HasLimits d.budget
  pub reasons_fit : Fits d.completeness d.ordered_truncation_reasons
  pub specified : Specified d.ordered_truncation_reasons
  pub no_repetition : NoRepetition d.ordered_truncation_reasons

-- A descriptor is accepted exactly if every limit of its budget is positive, its completeness is
-- specified, a complete one has no truncation reasons and a truncated one has some, and its reasons
-- are specified and stand in the list only once.
pub validate_descriptor_iff :
    (d : QueryCompletionDescriptor) → (validate_descriptor d ≡ ok tt) ↔ IsCertificate d
unfolding validate_descriptor
validate_descriptor_iff d = (
  λ h.
      let (h5, t6) = (checked_then _ _ _ _).0 h in
      let (h4, t5) = (checked_then _ _ _ _).0 h5 in
      let (h3, t4) = (checked_then _ _ _ _).0 h4 in
      let (h2, t3) = (checked_then _ _ _ _).0 h3 in
      let (h1, t2) = both_ok _ _ h2 in
      let t1 = (required _ _ _).0 h1 in
      record {
        limits = (validate_evidence_query_budget-HasLimits d.budget).0 t2;
        reasons_fit = (ChecksPass-Fits d.completeness d.ordered_truncation_reasons).0 (t1, t3, t4);
        specified = (all_specified-Specified d.ordered_truncation_reasons).0 t5;
        no_repetition = (has_duplicate-NoRepetition d.ordered_truncation_reasons).0 t6;
      },
  λ c.
      let (t1, t3, t4) =
        (ChecksPass-Fits d.completeness d.ordered_truncation_reasons).1 c.reasons_fit in
      let t2 = (validate_evidence_query_budget-HasLimits d.budget).1 c.limits in
      let t5 = (all_specified-Specified d.ordered_truncation_reasons).1 c.specified in
      let t6 = (has_duplicate-NoRepetition d.ordered_truncation_reasons).1 c.no_repetition in
      rw (t1, t2, t3, t4, t5, t6) refl,
)
