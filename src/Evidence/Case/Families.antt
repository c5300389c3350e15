-- ===== src/Evidence/Case/Families.antt =====
-- The enumerations of the evidence model as one family.
use veritas.Common.{Bytes, codes, bytes_eq, Bool, true, false, not, if◌then◌else◌}
use veritas.Core.Status.{StatusOr}
use veritas.Evidence.Case.Enums.{
  EvidenceLevel, VerificationState, EntityKind, RelationKind, PathKind, EpistemicState, Confidence,
  ProofStatus, DependencyKind, Feasibility, ProofGoalKind, UnknownReasonCode, QueryCompleteness,
  TruncationReason, ClaimKind, Severity,
}
use veritas.Evidence.Case.Names.{
  evidence_level_to_string, verification_state_to_string, entity_kind_to_string,
  relation_kind_to_string, path_kind_to_string, epistemic_state_to_string, confidence_to_string,
  proof_status_to_string, dependency_kind_to_string, feasibility_to_string,
  proof_goal_kind_to_string, unknown_reason_code_to_string, query_completeness_to_string,
  truncation_reason_to_string, claim_kind_to_string, severity_to_string,
}
use veritas.Evidence.Case.Parse.{
  parse_evidence_level, parse_verification_state, parse_entity_kind, parse_relation_kind,
  parse_path_kind, parse_epistemic_state, parse_confidence, parse_proof_status,
  parse_dependency_kind, parse_feasibility, parse_proof_goal_kind, parse_unknown_reason_code,
  parse_query_completeness, parse_truncation_reason, parse_claim_kind, parse_severity,
}

-- The enumerations of the evidence model.
pub data Family : Type 0 where
  evidence_level verification_state entity_kind relation_kind path_kind epistemic_state confidence
        proof_status dependency_kind feasibility proof_goal_kind unknown_reason_code
        query_completeness truncation_reason claim_kind severity :
      Family

abbrev pub Enumerator : Family → Type 0
Enumerator evidence_level = EvidenceLevel
Enumerator verification_state = VerificationState
Enumerator entity_kind = EntityKind
Enumerator relation_kind = RelationKind
Enumerator path_kind = PathKind
Enumerator epistemic_state = EpistemicState
Enumerator confidence = Confidence
Enumerator proof_status = ProofStatus
Enumerator dependency_kind = DependencyKind
Enumerator feasibility = Feasibility
Enumerator proof_goal_kind = ProofGoalKind
Enumerator unknown_reason_code = UnknownReasonCode
Enumerator query_completeness = QueryCompleteness
Enumerator truncation_reason = TruncationReason
Enumerator claim_kind = ClaimKind
Enumerator severity = Severity

-- `ToString`, by the enumeration it is applied to.
unfoldable pub enumerator_to_string : (f : Family) → Enumerator f → Bytes
enumerator_to_string evidence_level = evidence_level_to_string
enumerator_to_string verification_state = verification_state_to_string
enumerator_to_string entity_kind = entity_kind_to_string
enumerator_to_string relation_kind = relation_kind_to_string
enumerator_to_string path_kind = path_kind_to_string
enumerator_to_string epistemic_state = epistemic_state_to_string
enumerator_to_string confidence = confidence_to_string
enumerator_to_string proof_status = proof_status_to_string
enumerator_to_string dependency_kind = dependency_kind_to_string
enumerator_to_string feasibility = feasibility_to_string
enumerator_to_string proof_goal_kind = proof_goal_kind_to_string
enumerator_to_string unknown_reason_code = unknown_reason_code_to_string
enumerator_to_string query_completeness = query_completeness_to_string
enumerator_to_string truncation_reason = truncation_reason_to_string
enumerator_to_string claim_kind = claim_kind_to_string
enumerator_to_string severity = severity_to_string

-- The parser of an enumeration.
unfoldable pub parse_enumerator : (f : Family) → Bytes → StatusOr (Enumerator f)
parse_enumerator evidence_level = parse_evidence_level
parse_enumerator verification_state = parse_verification_state
parse_enumerator entity_kind = parse_entity_kind
parse_enumerator relation_kind = parse_relation_kind
parse_enumerator path_kind = parse_path_kind
parse_enumerator epistemic_state = parse_epistemic_state
parse_enumerator confidence = parse_confidence
parse_enumerator proof_status = parse_proof_status
parse_enumerator dependency_kind = parse_dependency_kind
parse_enumerator feasibility = parse_feasibility
parse_enumerator proof_goal_kind = parse_proof_goal_kind
parse_enumerator unknown_reason_code = parse_unknown_reason_code
parse_enumerator query_completeness = parse_query_completeness
parse_enumerator truncation_reason = parse_truncation_reason
parse_enumerator claim_kind = parse_claim_kind
parse_enumerator severity = parse_severity

-- The parsers of EvidenceCase.cpp refuse the spelling of the invalid default, those of
-- SliceTypes.cpp read it.
unfoldable pub reads_default : Family → Bool
reads_default query_completeness = true
reads_default truncation_reason = true
reads_default claim_kind = true
reads_default severity = true
reads_default _ = false

unfoldable pub is_readable : (f : Family) → Enumerator f → Bool
unfolding enumerator_to_string reads_default
is_readable f enumerator =
    if reads_default f
    then true
    else not (bytes_eq (enumerator_to_string f enumerator) (codes "unspecified"))
