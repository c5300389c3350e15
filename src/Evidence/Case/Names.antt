-- ===== src/Evidence/Case/Names.antt =====
-- src/evidence/EvidenceCase.cpp and SliceTypes.cpp: the spellings of the enumerators, `ToString`.
use veritas.Common.{Bytes, codes}
use veritas.Evidence.Case.Enums.{
  EvidenceLevel, VerificationState, EntityKind, RelationKind, PathKind, EpistemicState, Confidence,
  ProofStatus, DependencyKind, Feasibility, ProofGoalKind, UnknownReasonCode, QueryCompleteness,
  TruncationReason, ClaimKind, Severity,
}

unfoldable pub evidence_level_to_string : EvidenceLevel → Bytes
evidence_level_to_string EvidenceLevel.unspecified = codes "unspecified"
evidence_level_to_string EvidenceLevel.l0 = codes "l0"
evidence_level_to_string EvidenceLevel.l1 = codes "l1"
evidence_level_to_string EvidenceLevel.l2 = codes "l2"

unfoldable pub verification_state_to_string : VerificationState → Bytes
verification_state_to_string VerificationState.unspecified = codes "unspecified"
verification_state_to_string VerificationState.unreviewed = codes "UNREVIEWED"
verification_state_to_string VerificationState.possible_defect = codes "POSSIBLE_DEFECT"
verification_state_to_string VerificationState.likely_defect = codes "LIKELY_DEFECT"
verification_state_to_string VerificationState.verified_defect = codes "VERIFIED_DEFECT"
verification_state_to_string VerificationState.likely_false_positive = codes "LIKELY_FALSE_POSITIVE"
verification_state_to_string VerificationState.verified_safe = codes "VERIFIED_SAFE"
verification_state_to_string VerificationState.inconclusive = codes "INCONCLUSIVE"

unfoldable pub entity_kind_to_string : EntityKind → Bytes
entity_kind_to_string EntityKind.unspecified = codes "unspecified"
entity_kind_to_string EntityKind.function = codes "function"
entity_kind_to_string EntityKind.call_site = codes "callsite"
entity_kind_to_string EntityKind.value = codes "value"
entity_kind_to_string EntityKind.memory_object = codes "memory_object"
entity_kind_to_string EntityKind.basic_block = codes "basic_block"

unfoldable pub relation_kind_to_string : RelationKind → Bytes
relation_kind_to_string RelationKind.unspecified = codes "unspecified"
relation_kind_to_string RelationKind.calls = codes "CALLS"
relation_kind_to_string RelationKind.flows_to = codes "FLOWS_TO"
relation_kind_to_string RelationKind.reads = codes "READS"
relation_kind_to_string RelationKind.writes = codes "WRITES"
relation_kind_to_string RelationKind.dominates = codes "DOMINATES"
relation_kind_to_string RelationKind.may_alias = codes "MAY_ALIAS"

unfoldable pub path_kind_to_string : PathKind → Bytes
path_kind_to_string PathKind.unspecified = codes "unspecified"
path_kind_to_string PathKind.call = codes "call"
path_kind_to_string PathKind.value_flow = codes "value_flow"
path_kind_to_string PathKind.control = codes "control"

unfoldable pub epistemic_state_to_string : EpistemicState → Bytes
epistemic_state_to_string EpistemicState.unspecified = codes "unspecified"
epistemic_state_to_string EpistemicState.must = codes "must"
epistemic_state_to_string EpistemicState.may = codes "may"
epistemic_state_to_string EpistemicState.must_not = codes "must_not"
epistemic_state_to_string EpistemicState.inferred = codes "inferred"
epistemic_state_to_string EpistemicState.assumed = codes "assumed"
epistemic_state_to_string EpistemicState.unknown = codes "unknown"

unfoldable pub confidence_to_string : Confidence → Bytes
confidence_to_string Confidence.unspecified = codes "unspecified"
confidence_to_string Confidence.exact = codes "exact"
confidence_to_string Confidence.high = codes "high"
confidence_to_string Confidence.medium = codes "medium"
confidence_to_string Confidence.low = codes "low"
confidence_to_string Confidence.unknown = codes "unknown"

unfoldable pub proof_status_to_string : ProofStatus → Bytes
proof_status_to_string ProofStatus.unspecified = codes "unspecified"
proof_status_to_string ProofStatus.pending = codes "PENDING"
proof_status_to_string ProofStatus.proved = codes "PROVED"
proof_status_to_string ProofStatus.refuted = codes "REFUTED"
proof_status_to_string ProofStatus.unknown = codes "UNKNOWN"
proof_status_to_string ProofStatus.timeout = codes "TIMEOUT"
proof_status_to_string ProofStatus.unsupported = codes "UNSUPPORTED"

unfoldable pub dependency_kind_to_string : DependencyKind → Bytes
dependency_kind_to_string DependencyKind.unspecified = codes "unspecified"
dependency_kind_to_string DependencyKind.summary = codes "summary"
dependency_kind_to_string DependencyKind.fact = codes "fact"
dependency_kind_to_string DependencyKind.type_layout = codes "type_layout"
dependency_kind_to_string DependencyKind.configuration = codes "configuration"
dependency_kind_to_string DependencyKind.specification = codes "specification"

unfoldable pub feasibility_to_string : Feasibility → Bytes
feasibility_to_string Feasibility.unspecified = codes "unspecified"
feasibility_to_string Feasibility.proved_feasible = codes "PROVED_FEASIBLE"
feasibility_to_string Feasibility.sat = codes "SAT"
feasibility_to_string Feasibility.maybe = codes "MAYBE"
feasibility_to_string Feasibility.untested = codes "UNTESTED"
feasibility_to_string Feasibility.unsat = codes "UNSAT"
feasibility_to_string Feasibility.proved_infeasible = codes "PROVED_INFEASIBLE"
feasibility_to_string Feasibility.unknown = codes "UNKNOWN"

unfoldable pub proof_goal_kind_to_string : ProofGoalKind → Bytes
proof_goal_kind_to_string ProofGoalKind.unspecified = codes "unspecified"
proof_goal_kind_to_string ProofGoalKind.prove = codes "prove"
proof_goal_kind_to_string ProofGoalKind.refute = codes "refute"
proof_goal_kind_to_string ProofGoalKind.check = codes "check"

unfoldable pub unknown_reason_code_to_string : UnknownReasonCode → Bytes
unknown_reason_code_to_string UnknownReasonCode.unspecified = codes "unspecified"
unknown_reason_code_to_string UnknownReasonCode.unresolved_call = codes "UNRESOLVED_CALL"
unknown_reason_code_to_string UnknownReasonCode.unknown_alias = codes "UNKNOWN_ALIAS"
unknown_reason_code_to_string UnknownReasonCode.external_function = codes "EXTERNAL_FUNCTION"
unknown_reason_code_to_string UnknownReasonCode.missing_specification =
    codes "MISSING_SPECIFICATION"
unknown_reason_code_to_string UnknownReasonCode.analysis_timeout = codes "ANALYSIS_TIMEOUT"
unknown_reason_code_to_string UnknownReasonCode.state_explosion = codes "STATE_EXPLOSION"
unknown_reason_code_to_string UnknownReasonCode.unsupported_language_feature =
    codes "UNSUPPORTED_LANGUAGE_FEATURE"
unknown_reason_code_to_string UnknownReasonCode.inline_assembly = codes "INLINE_ASSEMBLY"
unknown_reason_code_to_string UnknownReasonCode.dynamic_loading = codes "DYNAMIC_LOADING"
unknown_reason_code_to_string UnknownReasonCode.unknown_build_configuration =
    codes "UNKNOWN_BUILD_CONFIGURATION"

unfoldable pub query_completeness_to_string : QueryCompleteness → Bytes
query_completeness_to_string QueryCompleteness.unspecified = codes "unspecified"
query_completeness_to_string QueryCompleteness.complete = codes "complete"
query_completeness_to_string QueryCompleteness.truncated = codes "truncated"

unfoldable pub truncation_reason_to_string : TruncationReason → Bytes
truncation_reason_to_string TruncationReason.unspecified = codes "unspecified"
truncation_reason_to_string TruncationReason.max_depth = codes "max_depth"
truncation_reason_to_string TruncationReason.max_nodes = codes "max_nodes"
truncation_reason_to_string TruncationReason.max_paths = codes "max_paths"
truncation_reason_to_string TruncationReason.max_facts = codes "max_facts"
truncation_reason_to_string TruncationReason.max_provenance_depth = codes "max_provenance_depth"
truncation_reason_to_string TruncationReason.max_fact_work = codes "max_fact_work"
truncation_reason_to_string TruncationReason.max_fact_bytes = codes "max_fact_bytes"

unfoldable pub claim_kind_to_string : ClaimKind → Bytes
claim_kind_to_string ClaimKind.unspecified = codes "unspecified"
claim_kind_to_string ClaimKind.buffer_overflow = codes "buffer_overflow"

unfoldable pub severity_to_string : Severity → Bytes
severity_to_string Severity.unspecified = codes "unspecified"
severity_to_string Severity.critical = codes "critical"
severity_to_string Severity.high = codes "high"
severity_to_string Severity.medium = codes "medium"
severity_to_string Severity.low = codes "low"
severity_to_string Severity.info = codes "info"
