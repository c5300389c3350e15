-- ===== src/Evidence/Canonicalizer/Records.antt =====
-- src/evidence/EvidenceCanonicalizer.cpp: the values that encode the records of a case.
use veritas.Common.{List, [], ◌∷◌, map, Bytes, codes}
use veritas.Core.Status.{StatusOr, ok, ◌>>=◌}
use veritas.Core.Canonical.{CanonicalValue, boolean, string, object, CanonicalObject, no_entries}
use veritas.Core.Canonical.Build.{emplace, object_of}
use veritas.Evidence.Case.Records.{
  Expression, AnalyzerVersion, ProgramBinding, Entity, Edge, EvidencePath, Claim, Fact, Assumption,
}
use veritas.Evidence.Case.Names.{
  entity_kind_to_string, relation_kind_to_string, path_kind_to_string, epistemic_state_to_string,
  confidence_to_string, feasibility_to_string, claim_kind_to_string, severity_to_string,
}
use veritas.Evidence.Canonicalizer.Elements.{
  KeyedElement, no_key, make_keyed_element, sorted_array, ordered_array, collect,
  sort_values_by_encoding, encode_optional_stable_id,
}
use veritas.Evidence.Canonicalizer.Expressions.{encode_expression}

-- `EncodeAnalyzerVersion`
unfoldable pub encode_analyzer_version : AnalyzerVersion → CanonicalValue
encode_analyzer_version version = object_of (
    (codes "configuration", string version.configuration)
    ∷ (codes "producer", string version.producer)
    ∷ (codes "version", string version.version)
    ∷ [])

abbrev pub version_element : AnalyzerVersion → StatusOr KeyedElement
version_element version = make_keyed_element no_key (encode_analyzer_version version)

-- `EncodeProgramBinding`
unfoldable pub encode_program_binding : ProgramBinding → StatusOr CanonicalValue
encode_program_binding program = do
  versions ← collect version_element program.analyzer_versions
  ok (
      object_of (
        (codes "analysis_configuration_id", string program.analysis_configuration_id)
        ∷ (codes "analysis_run_id", encode_optional_stable_id program.analysis_run_id)
        ∷ (codes "analyzer_versions", sorted_array versions)
        ∷ (codes "build_variant_id", string program.build_variant_id)
        ∷ (codes "repository_id", string program.repository_id)
        ∷ (codes "revision_id", string program.revision_id)
        ∷ (codes "target_triple", string program.target_triple)
        ∷ (codes "type_layout_id", string program.type_layout_id)
        ∷ []))

-- The loop of `EncodeEntity` on the properties, in the order of their keys.
unfoldable pub encode_properties :
    List (Bytes × Expression) → CanonicalObject → StatusOr CanonicalObject
encode_properties [] properties = ok properties
encode_properties ((name, property) ∷ rest) properties = do
  value ← encode_expression property
  encode_properties rest (emplace name value properties)

-- `EncodeEntity`
unfoldable pub encode_entity : Entity → StatusOr CanonicalValue
encode_entity entity = do
  properties ← encode_properties entity.properties no_entries
  ok (
      object_of (
        (codes "id", string entity.id)
        ∷ (codes "kind", string (entity_kind_to_string entity.kind))
        ∷ (codes "properties", object properties)
        ∷ (codes "stable_id", encode_optional_stable_id entity.stable_id)
        ∷ []))

-- `EncodeEdge`
unfoldable pub encode_edge : Edge → CanonicalValue
encode_edge edge = object_of (
    (codes "epistemic", string (epistemic_state_to_string edge.epistemic))
    ∷ (codes "expandable", boolean edge.expandable)
    ∷ (codes "from", string edge.from)
    ∷ (codes "id", string edge.id)
    ∷ (codes "kind", string (relation_kind_to_string edge.kind))
    ∷ (codes "provenance_id", string edge.provenance_id)
    ∷ (codes "summarized_by", string edge.summarized_by)
    ∷ (codes "to", string edge.to)
    ∷ [])

-- `EncodePath`
unfoldable pub encode_path : EvidencePath → StatusOr CanonicalValue
encode_path path = do
  conditions ← collect encode_expression path.conditions
  sorted_conditions ← sort_values_by_encoding conditions
  ok (
      object_of (
        (codes "conditions", ordered_array sorted_conditions)
        ∷ (codes "entity_ids", ordered_array (map string path.entity_ids))
        ∷ (codes "feasibility", string (feasibility_to_string path.feasibility))
        ∷ (codes "id", string path.id)
        ∷ (codes "kind", string (path_kind_to_string path.kind))
        ∷ (codes "provenance_id", string path.provenance_id)
        ∷ []))

-- `EncodeClaim`
unfoldable pub encode_claim : Claim → StatusOr CanonicalValue
encode_claim claim = do
  predicate ← encode_expression claim.predicate
  ok (
      object_of (
        (codes "description", string claim.description)
        ∷ (codes "id", string claim.id)
        ∷ (codes "kind", string (claim_kind_to_string claim.kind))
        ∷ (codes "predicate", predicate)
        ∷ (codes "severity", string (severity_to_string claim.severity))
        ∷ (codes "subject", string claim.subject)
        ∷ []))

-- `EncodeFact`
unfoldable pub encode_fact : Fact → StatusOr CanonicalValue
encode_fact fact = do
  predicate ← encode_expression fact.predicate
  ok (
      object_of (
        (codes "confidence", string (confidence_to_string fact.confidence))
        ∷ (codes "derived", boolean fact.derived)
        ∷ (codes "epistemic", string (epistemic_state_to_string fact.epistemic))
        ∷ (codes "id", string fact.id)
        ∷ (codes "predicate", predicate)
        ∷ (codes "producer", string fact.producer)
        ∷ (codes "provenance_id", string fact.provenance_id)
        ∷ (codes "stable_id", encode_optional_stable_id fact.stable_id)
        ∷ []))

-- `EncodeAssumption`
unfoldable pub encode_assumption : Assumption → StatusOr CanonicalValue
encode_assumption assumption = do
  predicate ← encode_expression assumption.predicate
  ok (
      object_of (
        (codes "id", string assumption.id)
        ∷ (codes "predicate", predicate)
        ∷ (codes "scope", string assumption.scope)
        ∷ (codes "source", string assumption.source)
        ∷ []))
