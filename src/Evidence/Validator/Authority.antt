-- ===== src/Evidence/Validator/Authority.antt =====
-- src/evidence/EvidenceValidator.cpp: the provenance of facts and interrupted queries, and the authority
-- of proof results.
use veritas.Common.{
  ℕ, suc, Bool, true, false, not, ◌&&◌, ◌||◌, List, [], ◌∷◌, ◌++◌, Bytes, codes, bytes_eq, ◌==◌,
  if◌then◌else◌, Option, none, some,
}
use veritas.Core.Ids.{StableId, id_eq}
use veritas.Evidence.Case.Enums.{VerificationState, ProofStatus, ProofGoalKind, UnknownReasonCode}
use veritas.Evidence.Case.Records.{
  ExpressionKind, Expression, expression, Operands, no_operands, operand, Fact, Provenance,
  ProofObligation, EvidenceCase,
}
use veritas.Evidence.Case.Compare.{compare_operands, expression_eq, is_equal}
use veritas.Evidence.Validator.{
  missing_provenance, mixed_program_context, verification_producer, Issues, issue, issue_if, each,
  is_empty,
}

-- `IsInterruptedQuery`
abbrev pub is_interrupted_query : UnknownReasonCode → Bool
is_interrupted_query UnknownReasonCode.analysis_timeout = true
is_interrupted_query UnknownReasonCode.state_explosion = true
is_interrupted_query _ = false

-- `IsVerifiedState`
abbrev pub is_verified_state : VerificationState → Bool
is_verified_state VerificationState.verified_defect = true
is_verified_state VerificationState.verified_safe = true
is_verified_state _ = false

-- `provenance_.find(id) != provenance_.end()`
unfoldable pub declares_provenance : Bytes → List Provenance → Bool
declares_provenance id [] = false
declares_provenance id (p ∷ rest) = bytes_eq id p.id || declares_provenance id rest

-- The loop of `CheckProvenance` on the facts.
unfoldable pub check_derived_fact : List Provenance → Fact → Issues
unfolding declares_provenance
check_derived_fact records fact =
    if not fact.derived
    then []
    else if is_empty fact.provenance_id
    then issue missing_provenance fact.id
    else issue_if (not (declares_provenance fact.provenance_id records)) missing_provenance fact.id

-- `b.has_value() && a != *b`
abbrev pub differs : StableId → Option StableId → Bool
differs a none = false
differs a (some b) = not (id_eq a b)

-- The run of a provenance record against that of the program.
abbrev pub check_record_run : Option StableId → Option StableId → Bytes → Issues
check_record_run none program_run member_id = issue missing_provenance member_id
check_record_run (some run) program_run member_id =
    issue_if (differs run program_run) mixed_program_context member_id

-- `kQueryCompletionProducerId` and `kQueryCompletionRuleId`
abbrev pub certifies_query : Provenance → Bool
certifies_query p =
    bytes_eq p.producer (codes "evidence-query")
    && bytes_eq p.rule (codes "evidence.query_completion.v1")

-- `query_provenance`: the last record that certifies a query.
unfoldable pub last_query_provenance : List Provenance → Option Provenance → Option Provenance
last_query_provenance [] found = found
last_query_provenance (p ∷ rest) found =
    last_query_provenance rest (if certifies_query p then some p else found)

abbrev pub check_certificate : Option Provenance → Option StableId → Bytes → Issues
check_certificate none program_run member_id = issue missing_provenance member_id
check_certificate (some p) program_run member_id =
    check_record_run p.analysis_run_id program_run member_id

-- `CheckProvenance`
unfoldable pub check_provenance : EvidenceCase → Issues
check_provenance value =
    each (check_derived_fact value.provenance) value.facts
    ++ each (λ p. check_record_run p.analysis_run_id value.program.analysis_run_id p.id)
        value.provenance
    ++ each
        (λ u.
          if is_interrupted_query u.reason_code
          then check_certificate (last_query_provenance value.provenance none)
              value.program.analysis_run_id u.id
          else [])
        value.unknowns

-- `status == ProofStatus::kProved` and `status == ProofStatus::kRefuted`
abbrev pub is_decided : ProofStatus → Bool
is_decided ProofStatus.proved = true
is_decided ProofStatus.refuted = true
is_decided _ = false

abbrev pub is_proved : ProofStatus → Bool
is_proved ProofStatus.proved = true
is_proved _ = false

abbrev pub is_prove_goal : ProofGoalKind → Bool
is_prove_goal ProofGoalKind.prove = true
is_prove_goal _ = false

abbrev pub is_verified_safe : VerificationState → Bool
is_verified_safe VerificationState.verified_safe = true
is_verified_safe _ = false

-- A result with its identifier and its producer.
abbrev pub names_result : ProofObligation → Bool
names_result o = not (is_empty o.result_id || is_empty o.verification_producer)

-- The `switch` of `CheckProofAuthority`.
unfoldable pub check_obligation : ProofObligation → Issues
check_obligation o = elim o.status [
  | ProofStatus.unspecified ↦ []
  | ProofStatus.pending ↦
      issue_if (not (is_empty o.result_id) || not (is_empty o.verification_producer))
        verification_producer o.id
  | ProofStatus.unknown ↦ []
  | ProofStatus.proved ↦ issue_if (not (names_result o)) verification_producer o.id
  | ProofStatus.refuted ↦ issue_if (not (names_result o)) verification_producer o.id
  | ProofStatus.timeout ↦ issue_if (not (names_result o)) verification_producer o.id
  | ProofStatus.unsupported ↦ issue_if (not (names_result o)) verification_producer o.id
]

-- `conclusive_results`
unfoldable pub conclusive_results : List ProofObligation → ℕ
conclusive_results [] = 0
conclusive_results (o ∷ rest) =
    if is_decided o.status && names_result o
    then suc (conclusive_results rest)
    else conclusive_results rest

abbrev pub kind_is : ExpressionKind → ExpressionKind → Bool
kind_is ExpressionKind.and ExpressionKind.and = true
kind_is ExpressionKind.or ExpressionKind.or = true
kind_is ExpressionKind.call ExpressionKind.call = true
kind_is ExpressionKind.for_all ExpressionKind.for_all = true
kind_is ExpressionKind.exists ExpressionKind.exists = true
kind_is ExpressionKind.bool ExpressionKind.bool = true
kind_is _ _ = false

-- The domain of `forall ... feasible_paths(source, sink) ...`: the operands of the call.
abbrev pub feasible_domain : Expression → Option Expression
feasible_domain
      (expression ExpressionKind.for_all t n b (
        operand
          (expression ExpressionKind.call name n' b' (operand source (operand sink no_operands)))
          (operand body no_operands))) =
    if bytes_eq name (codes "feasible_paths")
    then some
        (expression ExpressionKind.call name n' b' (operand source (operand sink no_operands)))
    else none
feasible_domain _ = none

-- `universal`: the last such operand, by its domain.
unfoldable pub last_domain : Operands → Option Expression → Option Expression
last_domain no_operands found = found
last_domain (operand e rest) found =
    last_domain rest (elim (feasible_domain e) [ some domain ↦ some domain | none ↦ found ])

-- `same_scope`
abbrev pub same_scope : Expression → Expression → Bytes → Bool
same_scope (expression kind text n b xs) (expression kind' text' n' b' ys) name =
    kind_is kind ExpressionKind.call && (bytes_eq text name && is_equal (compare_operands xs ys))

-- `exists` over the domain with the body `true`.
abbrev pub is_nonempty : Expression → Expression → Bool
is_nonempty
      (expression ExpressionKind.exists t n b
        (operand d (operand (expression ExpressionKind.bool t' n' truth xs) no_operands)))
      domain =
    expression_eq d domain && truth
is_nonempty _ domain = false

-- An `or` of two operands, of which one says that the domain is not empty and one that the entry is
-- infeasible.
abbrev pub admits : Expression → Expression → Bool
admits (expression ExpressionKind.or t n b (operand x (operand y no_operands))) domain =
    (is_nonempty x domain || is_nonempty y domain)
    && (same_scope x domain (codes "entry_infeasible")
        || same_scope y domain (codes "entry_infeasible"))
admits _ domain = false

unfoldable pub any_operand : (Expression → Bool) → Operands → Bool
any_operand test no_operands = false
any_operand test (operand e rest) = test e || any_operand test rest

-- `HasExecutionDomainArgument`
unfoldable pub has_execution_domain_argument : Expression → Bool
has_execution_domain_argument (expression kind t n b terms) =
    kind_is kind ExpressionKind.and && elim (last_domain terms none) [
      | none ↦ false
      | some domain ↦
          any_operand (λ term. same_scope term domain (codes "execution_domain_complete")) terms
          && any_operand (λ term. admits term domain) terms
    ]

-- The test of the loop that sets `admitted_domain`.
unfoldable pub admits_execution : ProofObligation → Bool
admits_execution o =
    is_prove_goal o.goal_kind
    && is_proved o.status
    && not (is_empty o.result_id)
    && not (is_empty o.verification_producer)
    && has_execution_domain_argument o.predicate

-- `admitted_domain`
unfoldable pub admits_domain : List ProofObligation → Bool
unfolding admits_execution
admits_domain [] = false
admits_domain (o ∷ rest) = admits_execution o || admits_domain rest

-- `CheckProofAuthority`
unfoldable pub check_proof_authority : EvidenceCase → Issues
check_proof_authority value =
    each check_obligation value.proof_obligations
    ++ issue_if
        (is_verified_safe value.verification_state && not (admits_domain value.proof_obligations))
        verification_producer []
    ++ issue_if
        (is_verified_state value.verification_state
          && conclusive_results value.proof_obligations == 0)
        verification_producer []
