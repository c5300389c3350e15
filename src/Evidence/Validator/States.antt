-- ===== src/Evidence/Validator/States.antt =====
-- src/evidence/EvidenceValidator.cpp: the header, the program, the claim and the declared states.
use veritas.Common.{
  Bool, true, false, not, [], ◌∷◌, ◌++◌, Bytes, codes, bytes_eq, if◌then◌else◌, Option, none, some,
}
use veritas.Core.Status.{ok, err}
use veritas.Core.Ids.{StableId, IdKind, to_string, parse_stable_id}
use veritas.Evidence.Case.Enums.{
  EvidenceLevel, VerificationState, EntityKind, RelationKind, PathKind, EpistemicState, Confidence,
  ProofStatus, DependencyKind, Feasibility, ProofGoalKind, UnknownReasonCode, ClaimKind, Severity,
}
use veritas.Evidence.Case.Records.{ProgramBinding, Claim, SummaryReference, EvidenceCase}
use veritas.Evidence.Validator.{
  schema_version, missing_program_context, primary_claim_count, missing_epistemic,
  invalid_stable_id, Issues, issue, issue_if, each, is_empty,
}

-- `== ...::kUnspecified`, for each enumeration.
abbrev pub evidence_level_is_unspecified : EvidenceLevel → Bool
evidence_level_is_unspecified EvidenceLevel.unspecified = true
evidence_level_is_unspecified _ = false

abbrev pub verification_state_is_unspecified : VerificationState → Bool
verification_state_is_unspecified VerificationState.unspecified = true
verification_state_is_unspecified _ = false

abbrev pub entity_kind_is_unspecified : EntityKind → Bool
entity_kind_is_unspecified EntityKind.unspecified = true
entity_kind_is_unspecified _ = false

abbrev pub relation_kind_is_unspecified : RelationKind → Bool
relation_kind_is_unspecified RelationKind.unspecified = true
relation_kind_is_unspecified _ = false

abbrev pub path_kind_is_unspecified : PathKind → Bool
path_kind_is_unspecified PathKind.unspecified = true
path_kind_is_unspecified _ = false

abbrev pub epistemic_state_is_unspecified : EpistemicState → Bool
epistemic_state_is_unspecified EpistemicState.unspecified = true
epistemic_state_is_unspecified _ = false

abbrev pub confidence_is_unspecified : Confidence → Bool
confidence_is_unspecified Confidence.unspecified = true
confidence_is_unspecified _ = false

abbrev pub proof_status_is_unspecified : ProofStatus → Bool
proof_status_is_unspecified ProofStatus.unspecified = true
proof_status_is_unspecified _ = false

abbrev pub dependency_kind_is_unspecified : DependencyKind → Bool
dependency_kind_is_unspecified DependencyKind.unspecified = true
dependency_kind_is_unspecified _ = false

abbrev pub feasibility_is_unspecified : Feasibility → Bool
feasibility_is_unspecified Feasibility.unspecified = true
feasibility_is_unspecified _ = false

abbrev pub proof_goal_kind_is_unspecified : ProofGoalKind → Bool
proof_goal_kind_is_unspecified ProofGoalKind.unspecified = true
proof_goal_kind_is_unspecified _ = false

abbrev pub unknown_reason_code_is_unspecified : UnknownReasonCode → Bool
unknown_reason_code_is_unspecified UnknownReasonCode.unspecified = true
unknown_reason_code_is_unspecified _ = false

abbrev pub claim_kind_is_unspecified : ClaimKind → Bool
claim_kind_is_unspecified ClaimKind.unspecified = true
claim_kind_is_unspecified _ = false

abbrev pub severity_is_unspecified : Severity → Bool
severity_is_unspecified Severity.unspecified = true
severity_is_unspecified _ = false

-- `IsCanonicalStableId`
unfoldable pub is_canonical_stable_id : StableId → Bool
is_canonical_stable_id id =
    if is_empty id.digest_hex
    then false
    else elim (parse_stable_id (to_string id)) [ ok _ ↦ true | err _ _ ↦ false ]

-- `CheckHeader`, with `kEvidenceSchemaVersion`.
unfoldable pub check_header : EvidenceCase → Issues
check_header value =
    issue_if (not (bytes_eq value.schema_version (codes "eir.v1"))) schema_version
      (codes "schema_version")
    ++ issue_if (evidence_level_is_unspecified value.level) schema_version (codes "level")

abbrev pub check_run : Option StableId → Issues
check_run none = issue missing_program_context (codes "program")
check_run (some run) =
    issue_if (not (is_canonical_stable_id run)) invalid_stable_id (codes "program")

-- `CheckProgramBinding`
unfoldable pub check_program_binding : ProgramBinding → Issues
check_program_binding program =
    each (λ text. issue_if (is_empty text) missing_program_context (codes "program"))
      (program.repository_id ∷ program.revision_id ∷ program.build_variant_id
        ∷ program.target_triple ∷ program.analysis_configuration_id ∷ program.type_layout_id ∷ [])
    ++ check_run program.analysis_run_id

-- `CheckPrimaryClaim`
unfoldable pub check_primary_claim : Claim → Issues
check_primary_claim claim = issue_if (is_empty claim.id) primary_claim_count []

-- `CheckRequiredStates`
unfoldable pub check_required_states : EvidenceCase → Issues
check_required_states value =
    issue_if (claim_kind_is_unspecified value.primary_claim.kind) missing_epistemic
      value.primary_claim.id
    ++ issue_if (severity_is_unspecified value.primary_claim.severity) missing_epistemic
        value.primary_claim.id
    ++ issue_if (verification_state_is_unspecified value.verification_state) missing_epistemic []
    ++ each (λ e. issue_if (entity_kind_is_unspecified e.kind) missing_epistemic e.id)
        value.entities
    ++ each
        (λ e.
          issue_if (relation_kind_is_unspecified e.kind) missing_epistemic e.id
          ++ issue_if (epistemic_state_is_unspecified e.epistemic) missing_epistemic e.id)
        value.edges
    ++ each
        (λ p.
          issue_if (path_kind_is_unspecified p.kind) missing_epistemic p.id
          ++ issue_if (feasibility_is_unspecified p.feasibility) missing_epistemic p.id)
        value.paths
    ++ each
        (λ f.
          issue_if (epistemic_state_is_unspecified f.epistemic) missing_epistemic f.id
          ++ issue_if (confidence_is_unspecified f.confidence) missing_epistemic f.id)
        value.facts
    ++ each
        (λ u. issue_if (unknown_reason_code_is_unspecified u.reason_code) missing_epistemic u.id)
        value.unknowns
    ++ each (λ c. issue_if (epistemic_state_is_unspecified c.epistemic) missing_epistemic c.id)
        value.constraints
    ++ each
        (λ p.
          issue_if (proof_goal_kind_is_unspecified p.goal_kind) missing_epistemic p.id
          ++ issue_if (proof_status_is_unspecified p.status) missing_epistemic p.id)
        value.proof_obligations
    ++ each (λ d. issue_if (dependency_kind_is_unspecified d.kind) missing_epistemic d.id)
        value.dependencies

-- `CheckStableIds`
unfoldable pub check_stable_ids : EvidenceCase → Issues
check_stable_ids value =
    each (λ e. check_optional_id e.stable_id e.id) value.entities
    ++ each (λ f. check_optional_id f.stable_id f.id) value.facts
    ++ each check_summary_id value.summaries
    ++ each (λ d. issue_if (not (is_canonical_stable_id d.stable_id)) invalid_stable_id d.id)
        value.dependencies
  where
    check_optional_id : Option StableId → Bytes → Issues
    check_optional_id none member_id = []
    check_optional_id (some id) member_id =
        issue_if (not (is_canonical_stable_id id)) invalid_stable_id member_id

    check_summary_id : SummaryReference → Issues
    check_summary_id summary =
        if not (is_canonical_stable_id summary.summary_id)
        then issue invalid_stable_id summary.id
        else issue_if (not (is_function_summary summary.summary_id.kind)) invalid_stable_id
            summary.id
      where
        is_function_summary : IdKind → Bool
        is_function_summary IdKind.function_summary = true
        is_function_summary _ = false
