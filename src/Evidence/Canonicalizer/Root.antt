-- ===== src/Evidence/Canonicalizer/Root.antt =====
-- src/evidence/EvidenceCanonicalizer.cpp: the value, the bytes and the identity of a case.
use veritas.Common.{[], ◌∷◌, Bytes, codes, Option, none, some}
use veritas.Core.Status.{StatusOr, Status, ok, err, invalid_argument, ◌>>=◌}
use veritas.Core.Ids.{StableId, IdKind, make_stable_id}
use veritas.Core.Canonical.{CanonicalValue, string, canonical_encode}
use veritas.Core.Canonical.Build.{object_of}
use veritas.Evidence.Case.Records.{EvidenceCase}
use veritas.Evidence.Case.Names.{evidence_level_to_string, verification_state_to_string}
use veritas.Evidence.Canonicalizer.Records.{encode_program_binding, encode_claim}
use veritas.Evidence.Canonicalizer.Collections.{
  encode_entities, encode_edges, encode_paths, encode_facts, encode_assumptions, encode_hypotheses,
  encode_unknowns, encode_constraints, encode_provenance_records, encode_proof_obligations,
  encode_summaries, encode_dependencies, encode_omissions,
}

-- `CanonicalEvidenceValue`
unfoldable pub canonical_evidence_value : EvidenceCase → StatusOr CanonicalValue
canonical_evidence_value value = do
  program ← encode_program_binding value.program
  claim ← encode_claim value.primary_claim
  entities ← encode_entities value.entities
  edges ← encode_edges value.edges
  paths ← encode_paths value.paths
  facts ← encode_facts value.facts
  assumptions ← encode_assumptions value.assumptions
  hypotheses ← encode_hypotheses value.hypotheses
  unknowns ← encode_unknowns value.unknowns
  constraints ← encode_constraints value.constraints
  provenance ← encode_provenance_records value.provenance
  obligations ← encode_proof_obligations value.proof_obligations
  summaries ← encode_summaries value.summaries
  dependencies ← encode_dependencies value.dependencies
  omissions ← encode_omissions value.omissions
  ok (
      object_of (
        (codes "schema", string value.schema_version)
        ∷ (codes "level", string (evidence_level_to_string value.level))
        ∷ (codes "state", string (verification_state_to_string value.verification_state))
        ∷ (codes "program", program)
        ∷ (codes "claim", claim)
        ∷ (codes "entities", entities)
        ∷ (codes "edges", edges)
        ∷ (codes "paths", paths)
        ∷ (codes "facts", facts)
        ∷ (codes "assumptions", assumptions)
        ∷ (codes "hypotheses", hypotheses)
        ∷ (codes "unknowns", unknowns)
        ∷ (codes "constraints", constraints)
        ∷ (codes "provenance", provenance)
        ∷ (codes "proof_obligations", obligations)
        ∷ (codes "summaries", summaries)
        ∷ (codes "dependencies", dependencies)
        ∷ (codes "omissions", omissions)
        ∷ []))

-- `CanonicalEvidenceBytes`
unfoldable pub canonical_evidence_bytes : EvidenceCase → StatusOr Bytes
unfolding canonical_evidence_value
canonical_evidence_bytes value =
    canonical_evidence_value value >>= λ canonical. canonical_encode canonical

-- `ComputeEvidenceId`
unfoldable pub compute_evidence_id : EvidenceCase → StatusOr StableId
compute_evidence_id value = do
  bytes ← canonical_evidence_bytes value
  ok (make_stable_id IdKind.evidence bytes)

abbrev pub with_evidence_id : StableId → EvidenceCase → EvidenceCase
with_evidence_id id value = record value { evidence_id = some id }

-- The identity is assigned where every earlier step has succeeded.
abbrev pub assign_identity : StatusOr StableId → EvidenceCase → Status × Option EvidenceCase
assign_identity (ok computed) value = (ok tt, some (with_evidence_id computed value))
assign_identity (err code message) value = (err code message, some value)

-- `FinalizeEvidenceIdentity` on a pointer, with the status it returns and what the pointer's case is
-- afterwards. The validator `RequireValidEvidenceCase` is an argument.
unfoldable pub finalize_evidence_identity :
    (EvidenceCase → Status) → Option EvidenceCase → Status × Option EvidenceCase
finalize_evidence_identity require_valid none =
    (err invalid_argument "FinalizeEvidenceIdentity requires a case to finalize", none)
finalize_evidence_identity require_valid (some value) =
    assign_identity (require_valid value >>= λ _. compute_evidence_id value) value
