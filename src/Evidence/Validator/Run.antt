-- ===== src/Evidence/Validator/Run.antt =====
-- src/evidence/EvidenceValidator.cpp: `ValidateEvidenceCase` and `RequireValidEvidenceCase`.
use veritas.Common.{[], ◌∷◌, ◌++◌}
use veritas.Core.Status.{Status, ok, err, invalid_argument}
use veritas.Evidence.Case.Records.{EvidenceCase}
use veritas.Evidence.Validator.{Issues}
use veritas.Evidence.Validator.Index.{index_members, check_duplicates}
use veritas.Evidence.Validator.States.{
  check_header, check_program_binding, check_primary_claim, check_required_states, check_stable_ids,
}
use veritas.Evidence.Validator.Authority.{check_provenance, check_proof_authority}
use veritas.Evidence.Validator.References.{check_references}
use veritas.Evidence.Validator.Expressions.{check_expressions}
use veritas.Evidence.Validator.Structure.{
  check_paths, check_hypothesis_isolation, check_omission_visibility,
}

-- `CaseValidator::Run` and `ValidateEvidenceCase`
unfoldable pub validate_evidence_case : EvidenceCase → Issues
validate_evidence_case value =
    let members = index_members value in
    check_header value
    ++ check_program_binding value.program
    ++ check_primary_claim value.primary_claim
    ++ check_duplicates [] members
    ++ check_required_states value
    ++ check_provenance value
    ++ check_stable_ids value
    ++ check_proof_authority value
    ++ check_references members value
    ++ check_expressions value
    ++ check_paths value
    ++ check_hypothesis_isolation value
    ++ check_omission_visibility members value

-- The status of a report.
abbrev pub status_of : Issues → Status
status_of [] = ok tt
status_of (_ ∷ _) = err invalid_argument "invalid evidence case"

-- `RequireValidEvidenceCase`, without what the message says of the first issue.
unfoldable pub require_valid_evidence_case : EvidenceCase → Status
unfolding validate_evidence_case
require_valid_evidence_case value = status_of (validate_evidence_case value)
