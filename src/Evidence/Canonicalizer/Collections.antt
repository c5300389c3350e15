-- ===== src/Evidence/Canonicalizer/Collections.antt =====
-- src/evidence/EvidenceCanonicalizer.cpp: the arrays that encode the member collections of a case.
use veritas.Common.{List, []}
use veritas.Core.Status.{StatusOr, ok, ◌>>=◌}
use veritas.Core.Canonical.{CanonicalValue}
use veritas.Evidence.Case.Records.{
  Entity, Edge, EvidencePath, Fact, Assumption, Hypothesis, Unknown, Constraint, Provenance,
  ProofObligation, SummaryReference, Dependency, Omission,
}
use veritas.Evidence.Case.Names.{
  entity_kind_to_string, relation_kind_to_string, path_kind_to_string, proof_goal_kind_to_string,
  dependency_kind_to_string,
}
use veritas.Evidence.Canonicalizer.Elements.{
  KeyedElement, sort_key, make_keyed_element, collect, sorted_array, stable_id_component,
}
use veritas.Evidence.Canonicalizer.Records.{
  encode_entity, encode_edge, encode_path, encode_fact, encode_assumption,
}
use veritas.Evidence.Canonicalizer.Findings.{
  encode_hypothesis, encode_unknown, encode_constraint, encode_provenance, encode_proof_obligation,
  encode_summary_reference, encode_dependency, encode_omission,
}

-- The elements in their sorted array, or the first error.
unfoldable pub sorted_elements {ℓ} :
    {A : Type ℓ} → (A → StatusOr KeyedElement) → List A → StatusOr CanonicalValue
sorted_elements make members = do elements ← collect make members; ok (sorted_array elements)

-- The body of the loop of `EncodeEntities`.
unfoldable pub entity_element : Entity → StatusOr KeyedElement
entity_element entity = do
  encoded ← encode_entity entity
  make_keyed_element
      (sort_key (entity_kind_to_string entity.kind) (stable_id_component entity.stable_id)
        entity.id)
      encoded

-- `EncodeEntities`
unfoldable pub encode_entities : List Entity → StatusOr CanonicalValue
encode_entities entities = sorted_elements entity_element entities

-- The body of the loop of `EncodeEdges`.
unfoldable pub edge_element : Edge → StatusOr KeyedElement
edge_element edge =
    make_keyed_element (sort_key (relation_kind_to_string edge.kind) [] edge.id) (encode_edge edge)

-- `EncodeEdges`
unfoldable pub encode_edges : List Edge → StatusOr CanonicalValue
encode_edges edges = sorted_elements edge_element edges

-- The body of the loop of `EncodePaths`.
unfoldable pub path_element : EvidencePath → StatusOr KeyedElement
path_element path = do
  encoded ← encode_path path
  make_keyed_element (sort_key (path_kind_to_string path.kind) [] path.id) encoded

-- `EncodePaths`
unfoldable pub encode_paths : List EvidencePath → StatusOr CanonicalValue
encode_paths paths = sorted_elements path_element paths

-- The body of the loop of `EncodeFacts`.
unfoldable pub fact_element : Fact → StatusOr KeyedElement
fact_element fact = do
  encoded ← encode_fact fact
  make_keyed_element (sort_key [] (stable_id_component fact.stable_id) fact.id) encoded

-- `EncodeFacts`
unfoldable pub encode_facts : List Fact → StatusOr CanonicalValue
encode_facts facts = sorted_elements fact_element facts

-- The body of the loop of `EncodeAssumptions`.
unfoldable pub assumption_element : Assumption → StatusOr KeyedElement
assumption_element assumption = do
  encoded ← encode_assumption assumption
  make_keyed_element (sort_key [] [] assumption.id) encoded

-- `EncodeAssumptions`
unfoldable pub encode_assumptions : List Assumption → StatusOr CanonicalValue
encode_assumptions assumptions = sorted_elements assumption_element assumptions

-- The body of the loop of `EncodeHypotheses`.
unfoldable pub hypothesis_element : Hypothesis → StatusOr KeyedElement
hypothesis_element hypothesis = do
  encoded ← encode_hypothesis hypothesis
  make_keyed_element (sort_key [] [] hypothesis.id) encoded

-- `EncodeHypotheses`
unfoldable pub encode_hypotheses : List Hypothesis → StatusOr CanonicalValue
encode_hypotheses hypotheses = sorted_elements hypothesis_element hypotheses

-- The body of the loop of `EncodeUnknowns`.
unfoldable pub unknown_element : Unknown → StatusOr KeyedElement
unknown_element unknown = do
  encoded ← encode_unknown unknown
  make_keyed_element (sort_key [] [] unknown.id) encoded

-- `EncodeUnknowns`
unfoldable pub encode_unknowns : List Unknown → StatusOr CanonicalValue
encode_unknowns unknowns = sorted_elements unknown_element unknowns

-- The body of the loop of `EncodeConstraints`.
unfoldable pub constraint_element : Constraint → StatusOr KeyedElement
constraint_element constraint = do
  encoded ← encode_constraint constraint
  make_keyed_element (sort_key [] [] constraint.id) encoded

-- `EncodeConstraints`
unfoldable pub encode_constraints : List Constraint → StatusOr CanonicalValue
encode_constraints constraints = sorted_elements constraint_element constraints

-- The body of the loop of `EncodeProvenanceRecords`.
unfoldable pub provenance_element : Provenance → StatusOr KeyedElement
provenance_element provenance =
    make_keyed_element (sort_key [] [] provenance.id) (encode_provenance provenance)

-- `EncodeProvenanceRecords`
unfoldable pub encode_provenance_records : List Provenance → StatusOr CanonicalValue
encode_provenance_records records = sorted_elements provenance_element records

-- The body of the loop of `EncodeProofObligations`.
unfoldable pub proof_obligation_element : ProofObligation → StatusOr KeyedElement
proof_obligation_element obligation = do
  encoded ← encode_proof_obligation obligation
  make_keyed_element (sort_key (proof_goal_kind_to_string obligation.goal_kind) [] obligation.id)
      encoded

-- `EncodeProofObligations`
unfoldable pub encode_proof_obligations : List ProofObligation → StatusOr CanonicalValue
encode_proof_obligations obligations = sorted_elements proof_obligation_element obligations

-- The body of the loop of `EncodeSummaries`.
unfoldable pub summary_reference_element : SummaryReference → StatusOr KeyedElement
summary_reference_element summary =
    make_keyed_element (sort_key [] [] summary.id) (encode_summary_reference summary)

-- `EncodeSummaries`
unfoldable pub encode_summaries : List SummaryReference → StatusOr CanonicalValue
encode_summaries summaries = sorted_elements summary_reference_element summaries

-- The body of the loop of `EncodeDependencies`.
unfoldable pub dependency_element : Dependency → StatusOr KeyedElement
dependency_element dependency =
    make_keyed_element (sort_key (dependency_kind_to_string dependency.kind) [] dependency.id)
      (encode_dependency dependency)

-- `EncodeDependencies`
unfoldable pub encode_dependencies : List Dependency → StatusOr CanonicalValue
encode_dependencies dependencies = sorted_elements dependency_element dependencies

-- The body of the loop of `EncodeOmissions`.
unfoldable pub omission_element : Omission → StatusOr KeyedElement
omission_element omission =
    make_keyed_element (sort_key [] [] omission.id) (encode_omission omission)

-- `EncodeOmissions`
unfoldable pub encode_omissions : List Omission → StatusOr CanonicalValue
encode_omissions omissions = sorted_elements omission_element omissions
