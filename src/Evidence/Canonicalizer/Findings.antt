-- ===== src/Evidence/Canonicalizer/Findings.antt =====
-- src/evidence/EvidenceCanonicalizer.cpp: the values that encode a case's hypotheses, unknowns,
-- constraints, provenance, obligations and references.
use veritas.Common.{[], ◌∷◌, codes}
use veritas.Core.Status.{StatusOr, ok, ◌>>=◌}
use veritas.Core.Canonical.{CanonicalValue, boolean, string}
use veritas.Core.Canonical.Build.{object_of}
use veritas.Evidence.Case.Records.{
  Hypothesis, Unknown, Constraint, Provenance, ProofObligation, SummaryReference, Dependency,
  Omission,
}
use veritas.Evidence.Case.Names.{
  epistemic_state_to_string, confidence_to_string, proof_status_to_string,
  dependency_kind_to_string, proof_goal_kind_to_string, unknown_reason_code_to_string,
}
use veritas.Evidence.Canonicalizer.Elements.{
  encode_optional_stable_id, encode_required_stable_id, encode_sorted_strings,
}
use veritas.Evidence.Canonicalizer.Expressions.{encode_expression}

-- `EncodeHypothesis`
unfoldable pub encode_hypothesis : Hypothesis → StatusOr CanonicalValue
encode_hypothesis hypothesis = do
  predicate ← encode_expression hypothesis.predicate
  ok (
      object_of (
        (codes "confidence", string (confidence_to_string hypothesis.confidence))
        ∷ (codes "id", string hypothesis.id)
        ∷ (codes "predicate", predicate)
        ∷ (codes "producer", string hypothesis.producer)
        ∷ (codes "reason", string hypothesis.reason)
        ∷ []))

-- `EncodeUnknown`
unfoldable pub encode_unknown : Unknown → StatusOr CanonicalValue
encode_unknown unknown = do
  property ← encode_expression unknown.property
  ok (
      object_of (
        (codes "blocking_ids", encode_sorted_strings unknown.blocking_ids)
        ∷ (codes "id", string unknown.id)
        ∷ (codes "property", property)
        ∷ (codes "reason", string unknown.reason)
        ∷ (codes "reason_code", string (unknown_reason_code_to_string unknown.reason_code))
        ∷ (codes "suggested_resolution", string unknown.suggested_resolution)
        ∷ []))

-- `EncodeConstraint`
unfoldable pub encode_constraint : Constraint → StatusOr CanonicalValue
encode_constraint constraint = do
  expression ← encode_expression constraint.expression
  ok (
      object_of (
        (codes "epistemic", string (epistemic_state_to_string constraint.epistemic))
        ∷ (codes "expression", expression)
        ∷ (codes "id", string constraint.id)
        ∷ (codes "provenance_id", string constraint.provenance_id)
        ∷ (codes "scope", string constraint.scope)
        ∷ []))

-- `EncodeProvenance`
unfoldable pub encode_provenance : Provenance → CanonicalValue
encode_provenance provenance = object_of (
    (codes "analysis_run_id", encode_optional_stable_id provenance.analysis_run_id)
    ∷ (codes "configuration", string provenance.configuration)
    ∷ (codes "id", string provenance.id)
    ∷ (codes "input_fact_ids", encode_sorted_strings provenance.input_fact_ids)
    ∷ (codes "producer", string provenance.producer)
    ∷ (codes "rule", string provenance.rule)
    ∷ (codes "source_anchor_id", string provenance.source_anchor_id)
    ∷ (codes "version", string provenance.version)
    ∷ [])

-- `EncodeProofObligation`
unfoldable pub encode_proof_obligation : ProofObligation → StatusOr CanonicalValue
encode_proof_obligation obligation = do
  budget ← encode_expression obligation.budget
  predicate ← encode_expression obligation.predicate
  ok (
      object_of (
        (codes "budget", budget)
        ∷ (codes "goal_kind", string (proof_goal_kind_to_string obligation.goal_kind))
        ∷ (codes "id", string obligation.id)
        ∷ (codes "predicate", predicate)
        ∷ (codes "result_id", string obligation.result_id)
        ∷ (codes "status", string (proof_status_to_string obligation.status))
        ∷ (codes "verification_producer", string obligation.verification_producer)
        ∷ (codes "verifier_kinds", encode_sorted_strings obligation.verifier_kinds)
        ∷ []))

-- `EncodeSummaryReference`
unfoldable pub encode_summary_reference : SummaryReference → CanonicalValue
encode_summary_reference summary = object_of (
    (codes "components", encode_sorted_strings summary.components)
    ∷ (codes "function_id", string summary.function_id)
    ∷ (codes "id", string summary.id)
    ∷ (codes "summary_id", encode_required_stable_id summary.summary_id)
    ∷ [])

-- `EncodeDependency`
unfoldable pub encode_dependency : Dependency → CanonicalValue
encode_dependency dependency = object_of (
    (codes "id", string dependency.id)
    ∷ (codes "kind", string (dependency_kind_to_string dependency.kind))
    ∷ (codes "stable_id", encode_required_stable_id dependency.stable_id)
    ∷ [])

-- `EncodeOmission`
unfoldable pub encode_omission : Omission → CanonicalValue
encode_omission omission = object_of (
    (codes "expandable", boolean omission.expandable)
    ∷ (codes "id", string omission.id)
    ∷ (codes "kind", string omission.kind)
    ∷ (codes "reason", string omission.reason)
    ∷ (codes "subject", string omission.subject)
    ∷ [])
