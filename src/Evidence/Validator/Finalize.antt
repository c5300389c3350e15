-- ===== src/Evidence/Validator/Finalize.antt =====
-- `FinalizeEvidenceIdentity` with the validator of the program.
use veritas.Common.{some, [], ◌∷◌, ◌≡◌, refl, ap, ◌∙◌, subst}
use veritas.Core.Status.{ok}
use veritas.Core.Ids.{StableId}
use veritas.Evidence.Case.Records.{EvidenceCase}
use veritas.Evidence.Canonicalizer.Root.{with_evidence_id, finalize_evidence_identity}
use veritas.Evidence.Canonicalizer.Finalize.{finalize-ok, finalize-idempotent}
use veritas.Evidence.Validator.{Issues}
use veritas.Evidence.Validator.Index.{index_members}
use veritas.Evidence.Validator.States.{check_header, check_required_states, check_stable_ids}
use veritas.Evidence.Validator.Authority.{check_provenance, check_proof_authority}
use veritas.Evidence.Validator.References.{check_references}
use veritas.Evidence.Validator.Expressions.{check_expressions}
use veritas.Evidence.Validator.Structure.{
  check_paths, check_hypothesis_isolation, check_omission_visibility,
}
use veritas.Evidence.Validator.Run.{status_of, validate_evidence_case, require_valid_evidence_case}

-- The validator does not read the identity.
validate_evidence_case-with_evidence_id :
    (id : StableId) (value : EvidenceCase)
    → validate_evidence_case (with_evidence_id id value) ≡ validate_evidence_case value
unfolding validate_evidence_case check_header check_required_states check_provenance
    check_stable_ids check_proof_authority check_references check_expressions check_paths
    check_hypothesis_isolation check_omission_visibility index_members
validate_evidence_case-with_evidence_id id value = refl

status_of-ok : (issues : Issues) → status_of issues ≡ ok tt → issues ≡ []
status_of-ok [] h = refl
status_of-ok (_ ∷ _) h = cc h

-- A case that `FinalizeEvidenceIdentity` has given its identity has no issues, and a second call
-- returns it as it is.
pub finalize_validated :
    (value result : EvidenceCase)
    → finalize_evidence_identity require_valid_evidence_case (some value) ≡ (ok tt, some result)
    → (validate_evidence_case result ≡ [])
      × (finalize_evidence_identity require_valid_evidence_case (some result)
          ≡ (ok tt, some result))
unfolding require_valid_evidence_case
finalize_validated value result first =
    let (id, computed, same, accepted) =
      finalize-ok require_valid_evidence_case value result first in
    let again : require_valid_evidence_case result ≡ ok tt =
      subst (λ r. require_valid_evidence_case r ≡ ok tt) same
        (ap status_of (validate_evidence_case-with_evidence_id id value) ∙ accepted) in
    (
      status_of-ok (validate_evidence_case result) again,
      finalize-idempotent require_valid_evidence_case value result first again,
    )
