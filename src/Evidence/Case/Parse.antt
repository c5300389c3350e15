-- ===== src/Evidence/Case/Parse.antt =====
-- src/evidence/EvidenceCase.cpp and SliceTypes.cpp: the parsers of the spellings. An error's message
-- is given without the text that was not recognized.
use veritas.Common.{Bytes, codes, bytes_eq, List, [], ◌∷◌, if◌then◌else◌}
use veritas.Core.Status.{StatusOr, ok, err, invalid_argument}
use Prim.Native.String.{String}
use veritas.Evidence.Case.Enums.{
  EvidenceLevel, VerificationState, EntityKind, RelationKind, PathKind, EpistemicState, Confidence,
  ProofStatus, DependencyKind, Feasibility, ProofGoalKind, UnknownReasonCode, QueryCompleteness,
  TruncationReason, ClaimKind, Severity,
}

-- `if (text == "...") return ...;` for each pair in order, then the error.
unfoldable pub first_spelling {ℓ} :
    {Value : Type ℓ} → List (Bytes × Value) → Bytes → String → StatusOr Value
first_spelling [] text message = err invalid_argument message
first_spelling ((spelling, value) ∷ rest) text message =
    if bytes_eq text spelling then ok value else first_spelling rest text message

abbrev pub evidence_level_spellings : List (Bytes × EvidenceLevel)
evidence_level_spellings =
    (codes "l0", EvidenceLevel.l0)
    ∷ (codes "l1", EvidenceLevel.l1)
    ∷ (codes "l2", EvidenceLevel.l2)
    ∷ []

unfoldable pub parse_evidence_level : Bytes → StatusOr EvidenceLevel
unfolding first_spelling
parse_evidence_level text =
    first_spelling evidence_level_spellings text "unrecognized evidence level spelling"

abbrev pub verification_state_spellings : List (Bytes × VerificationState)
verification_state_spellings =
    (codes "UNREVIEWED", VerificationState.unreviewed)
    ∷ (codes "POSSIBLE_DEFECT", VerificationState.possible_defect)
    ∷ (codes "LIKELY_DEFECT", VerificationState.likely_defect)
    ∷ (codes "VERIFIED_DEFECT", VerificationState.verified_defect)
    ∷ (codes "LIKELY_FALSE_POSITIVE", VerificationState.likely_false_positive)
    ∷ (codes "VERIFIED_SAFE", VerificationState.verified_safe)
    ∷ (codes "INCONCLUSIVE", VerificationState.inconclusive)
    ∷ []

unfoldable pub parse_verification_state : Bytes → StatusOr VerificationState
unfolding first_spelling
parse_verification_state text =
    first_spelling verification_state_spellings text "unrecognized verification state spelling"

abbrev pub entity_kind_spellings : List (Bytes × EntityKind)
entity_kind_spellings =
    (codes "function", EntityKind.function)
    ∷ (codes "callsite", EntityKind.call_site)
    ∷ (codes "value", EntityKind.value)
    ∷ (codes "memory_object", EntityKind.memory_object)
    ∷ (codes "basic_block", EntityKind.basic_block)
    ∷ []

unfoldable pub parse_entity_kind : Bytes → StatusOr EntityKind
unfolding first_spelling
parse_entity_kind text =
    first_spelling entity_kind_spellings text "unrecognized entity kind spelling"

abbrev pub relation_kind_spellings : List (Bytes × RelationKind)
relation_kind_spellings =
    (codes "CALLS", RelationKind.calls)
    ∷ (codes "FLOWS_TO", RelationKind.flows_to)
    ∷ (codes "READS", RelationKind.reads)
    ∷ (codes "WRITES", RelationKind.writes)
    ∷ (codes "DOMINATES", RelationKind.dominates)
    ∷ (codes "MAY_ALIAS", RelationKind.may_alias)
    ∷ []

unfoldable pub parse_relation_kind : Bytes → StatusOr RelationKind
unfolding first_spelling
parse_relation_kind text =
    first_spelling relation_kind_spellings text "unrecognized relation kind spelling"

abbrev pub path_kind_spellings : List (Bytes × PathKind)
path_kind_spellings =
    (codes "call", PathKind.call)
    ∷ (codes "value_flow", PathKind.value_flow)
    ∷ (codes "control", PathKind.control)
    ∷ []

unfoldable pub parse_path_kind : Bytes → StatusOr PathKind
unfolding first_spelling
parse_path_kind text = first_spelling path_kind_spellings text "unrecognized path kind spelling"

abbrev pub epistemic_state_spellings : List (Bytes × EpistemicState)
epistemic_state_spellings =
    (codes "must", EpistemicState.must)
    ∷ (codes "may", EpistemicState.may)
    ∷ (codes "must_not", EpistemicState.must_not)
    ∷ (codes "inferred", EpistemicState.inferred)
    ∷ (codes "assumed", EpistemicState.assumed)
    ∷ (codes "unknown", EpistemicState.unknown)
    ∷ []

unfoldable pub parse_epistemic_state : Bytes → StatusOr EpistemicState
unfolding first_spelling
parse_epistemic_state text =
    first_spelling epistemic_state_spellings text "unrecognized epistemic state spelling"

abbrev pub confidence_spellings : List (Bytes × Confidence)
confidence_spellings =
    (codes "exact", Confidence.exact)
    ∷ (codes "high", Confidence.high)
    ∷ (codes "medium", Confidence.medium)
    ∷ (codes "low", Confidence.low)
    ∷ (codes "unknown", Confidence.unknown)
    ∷ []

unfoldable pub parse_confidence : Bytes → StatusOr Confidence
unfolding first_spelling
parse_confidence text = first_spelling confidence_spellings text "unrecognized confidence spelling"

abbrev pub proof_status_spellings : List (Bytes × ProofStatus)
proof_status_spellings =
    (codes "PENDING", ProofStatus.pending)
    ∷ (codes "PROVED", ProofStatus.proved)
    ∷ (codes "REFUTED", ProofStatus.refuted)
    ∷ (codes "UNKNOWN", ProofStatus.unknown)
    ∷ (codes "TIMEOUT", ProofStatus.timeout)
    ∷ (codes "UNSUPPORTED", ProofStatus.unsupported)
    ∷ []

unfoldable pub parse_proof_status : Bytes → StatusOr ProofStatus
unfolding first_spelling
parse_proof_status text =
    first_spelling proof_status_spellings text "unrecognized proof status spelling"

abbrev pub dependency_kind_spellings : List (Bytes × DependencyKind)
dependency_kind_spellings =
    (codes "summary", DependencyKind.summary)
    ∷ (codes "fact", DependencyKind.fact)
    ∷ (codes "type_layout", DependencyKind.type_layout)
    ∷ (codes "configuration", DependencyKind.configuration)
    ∷ (codes "specification", DependencyKind.specification)
    ∷ []

unfoldable pub parse_dependency_kind : Bytes → StatusOr DependencyKind
unfolding first_spelling
parse_dependency_kind text =
    first_spelling dependency_kind_spellings text "unrecognized dependency kind spelling"

abbrev pub feasibility_spellings : List (Bytes × Feasibility)
feasibility_spellings =
    (codes "PROVED_FEASIBLE", Feasibility.proved_feasible)
    ∷ (codes "SAT", Feasibility.sat)
    ∷ (codes "MAYBE", Feasibility.maybe)
    ∷ (codes "UNTESTED", Feasibility.untested)
    ∷ (codes "UNSAT", Feasibility.unsat)
    ∷ (codes "PROVED_INFEASIBLE", Feasibility.proved_infeasible)
    ∷ (codes "UNKNOWN", Feasibility.unknown)
    ∷ []

unfoldable pub parse_feasibility : Bytes → StatusOr Feasibility
unfolding first_spelling
parse_feasibility text =
    first_spelling feasibility_spellings text "unrecognized feasibility spelling"

abbrev pub proof_goal_kind_spellings : List (Bytes × ProofGoalKind)
proof_goal_kind_spellings =
    (codes "prove", ProofGoalKind.prove)
    ∷ (codes "refute", ProofGoalKind.refute)
    ∷ (codes "check", ProofGoalKind.check)
    ∷ []

unfoldable pub parse_proof_goal_kind : Bytes → StatusOr ProofGoalKind
unfolding first_spelling
parse_proof_goal_kind text =
    first_spelling proof_goal_kind_spellings text "unrecognized proof goal kind spelling"

abbrev pub unknown_reason_code_spellings : List (Bytes × UnknownReasonCode)
unknown_reason_code_spellings =
    (codes "UNRESOLVED_CALL", UnknownReasonCode.unresolved_call)
    ∷ (codes "UNKNOWN_ALIAS", UnknownReasonCode.unknown_alias)
    ∷ (codes "EXTERNAL_FUNCTION", UnknownReasonCode.external_function)
    ∷ (codes "MISSING_SPECIFICATION", UnknownReasonCode.missing_specification)
    ∷ (codes "ANALYSIS_TIMEOUT", UnknownReasonCode.analysis_timeout)
    ∷ (codes "STATE_EXPLOSION", UnknownReasonCode.state_explosion)
    ∷ (codes "UNSUPPORTED_LANGUAGE_FEATURE", UnknownReasonCode.unsupported_language_feature)
    ∷ (codes "INLINE_ASSEMBLY", UnknownReasonCode.inline_assembly)
    ∷ (codes "DYNAMIC_LOADING", UnknownReasonCode.dynamic_loading)
    ∷ (codes "UNKNOWN_BUILD_CONFIGURATION", UnknownReasonCode.unknown_build_configuration)
    ∷ []

unfoldable pub parse_unknown_reason_code : Bytes → StatusOr UnknownReasonCode
unfolding first_spelling
parse_unknown_reason_code text =
    first_spelling unknown_reason_code_spellings text "unrecognized unknown reason code spelling"

abbrev pub query_completeness_spellings : List (Bytes × QueryCompleteness)
query_completeness_spellings =
    (codes "unspecified", QueryCompleteness.unspecified)
    ∷ (codes "complete", QueryCompleteness.complete)
    ∷ (codes "truncated", QueryCompleteness.truncated)
    ∷ []

unfoldable pub parse_query_completeness : Bytes → StatusOr QueryCompleteness
unfolding first_spelling
parse_query_completeness text =
    first_spelling query_completeness_spellings text "unrecognized completeness"

abbrev pub truncation_reason_spellings : List (Bytes × TruncationReason)
truncation_reason_spellings =
    (codes "unspecified", TruncationReason.unspecified)
    ∷ (codes "max_depth", TruncationReason.max_depth)
    ∷ (codes "max_nodes", TruncationReason.max_nodes)
    ∷ (codes "max_paths", TruncationReason.max_paths)
    ∷ (codes "max_facts", TruncationReason.max_facts)
    ∷ (codes "max_provenance_depth", TruncationReason.max_provenance_depth)
    ∷ (codes "max_fact_work", TruncationReason.max_fact_work)
    ∷ (codes "max_fact_bytes", TruncationReason.max_fact_bytes)
    ∷ []

unfoldable pub parse_truncation_reason : Bytes → StatusOr TruncationReason
unfolding first_spelling
parse_truncation_reason text =
    first_spelling truncation_reason_spellings text "unrecognized truncation reason"

abbrev pub claim_kind_spellings : List (Bytes × ClaimKind)
claim_kind_spellings =
    (codes "unspecified", ClaimKind.unspecified)
    ∷ (codes "buffer_overflow", ClaimKind.buffer_overflow)
    ∷ []

unfoldable pub parse_claim_kind : Bytes → StatusOr ClaimKind
unfolding first_spelling
parse_claim_kind text = first_spelling claim_kind_spellings text "unrecognized claim kind"

abbrev pub severity_spellings : List (Bytes × Severity)
severity_spellings =
    (codes "unspecified", Severity.unspecified)
    ∷ (codes "critical", Severity.critical)
    ∷ (codes "high", Severity.high)
    ∷ (codes "medium", Severity.medium)
    ∷ (codes "low", Severity.low)
    ∷ (codes "info", Severity.info)
    ∷ []

unfoldable pub parse_severity : Bytes → StatusOr Severity
unfolding first_spelling
parse_severity text = first_spelling severity_spellings text "unrecognized severity"
