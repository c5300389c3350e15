-- ===== src/Evidence/Canonicalizer/Reorder.antt =====
-- The identity of a case does not depend on the order of its members, nor on the identity it had.
use mathlib.Core.List.{Permᴰ}
use veritas.Common.{List, map, Bytes, ◌≡◌, refl, sym, ap, ◌∙◌, subst}
use veritas.Core.Status.{StatusOr, ok, ◌>>=◌}
use veritas.Core.Ids.{StableId, IdKind, make_stable_id}
use veritas.Core.Canonical.{CanonicalValue, canonical_encode}
use veritas.Core.Canonical.Build.{object_of, written, object_of-same}
use veritas.Core.Canonical.Written.{bytes, encode_value_lem}
use veritas.Evidence.Case.Records.{AnalyzerVersion, ProgramBinding, Claim, EvidenceCase}
use veritas.Evidence.Canonicalizer.Elements.{KeyedElement, no_key, collect}
use veritas.Evidence.Canonicalizer.Records.{
  encode_analyzer_version, version_element, encode_program_binding, encode_claim,
}
use veritas.Evidence.Canonicalizer.Collections.{
  encode_entities, entity_element, encode_edges, edge_element, encode_paths, path_element,
  encode_facts, fact_element, encode_assumptions, assumption_element, encode_hypotheses,
  hypothesis_element, encode_unknowns, unknown_element, encode_constraints, constraint_element,
  encode_provenance_records, provenance_element, encode_proof_obligations, proof_obligation_element,
  encode_summaries, summary_reference_element, encode_dependencies, dependency_element,
  encode_omissions, omission_element,
}
use veritas.Evidence.Canonicalizer.Root.{
  canonical_evidence_value, canonical_evidence_bytes, compute_evidence_id,
}
use veritas.Evidence.Canonicalizer.Order.{
  keyed, make_keyed_element_lem, sorted_array-ranks, ranks-Permᴰ,
}
use veritas.Evidence.Canonicalizer.Total.{
  Returns, Returns-bind, collect_lem, encode_expression-Returns,
}
use veritas.Evidence.Canonicalizer.Encoders.{
  Same, sorted_elements-Permᴰ, entity_element-Encoder, edge_element-Encoder, path_element-Encoder,
  fact_element-Encoder, assumption_element-Encoder, hypothesis_element-Encoder,
  unknown_element-Encoder, constraint_element-Encoder, provenance_element-Encoder,
  proof_obligation_element-Encoder, summary_reference_element-Encoder, dependency_element-Encoder,
  omission_element-Encoder,
}

-- Two cases that have the same members in any order, and any two identities.
pub record Reordered (c d : EvidenceCase) : Type 0 where
  pub schema_version : c.schema_version ≡ d.schema_version
  pub level : c.level ≡ d.level
  pub program : record c.program { analyzer_versions = d.program.analyzer_versions } ≡ d.program
  pub analyzer_versions : Permᴰ c.program.analyzer_versions d.program.analyzer_versions
  pub primary_claim : c.primary_claim ≡ d.primary_claim
  pub entities : Permᴰ c.entities d.entities
  pub edges : Permᴰ c.edges d.edges
  pub paths : Permᴰ c.paths d.paths
  pub facts : Permᴰ c.facts d.facts
  pub assumptions : Permᴰ c.assumptions d.assumptions
  pub hypotheses : Permᴰ c.hypotheses d.hypotheses
  pub unknowns : Permᴰ c.unknowns d.unknowns
  pub constraints : Permᴰ c.constraints d.constraints
  pub provenance : Permᴰ c.provenance d.provenance
  pub proof_obligations : Permᴰ c.proof_obligations d.proof_obligations
  pub summaries : Permᴰ c.summaries d.summaries
  pub dependencies : Permᴰ c.dependencies d.dependencies
  pub omissions : Permᴰ c.omissions d.omissions
  pub verification_state : c.verification_state ≡ d.verification_state

Same-bind :
    {r s : StatusOr CanonicalValue} (k l : CanonicalValue → StatusOr CanonicalValue)
    → Same r s
    → ((v w : CanonicalValue) → bytes v ≡ bytes w → Same (k v) (l w))
    → Same (r >>= k) (s >>= l)
Same-bind {r} {s} k l same next =
    let later = next same.left same.right same.written_alike in
    record {
      left = later.left;
      right = later.right;
      returns_left = rw same.returns_left later.returns_left;
      returns_right = rw same.returns_right later.returns_right;
      written_alike = later.written_alike;
    }

Same-Returns : {r : StatusOr CanonicalValue} → Returns r → Same r r
Same-Returns (v, e) = record {
  left = v;
  right = v;
  returns_left = e;
  returns_right = e;
  written_alike = refl;
}

Same-object_of :
    (es fs : List (Bytes × CanonicalValue))
    → map written es ≡ map written fs
    → Same (ok (object_of es)) (ok (object_of fs))
Same-object_of es fs e = record {
  left = object_of es;
  right = object_of fs;
  returns_left = refl;
  returns_right = refl;
  written_alike = object_of-same es fs e;
}

encode_claim-Same : (c d : Claim) → c ≡ d → Same (encode_claim c) (encode_claim d)
unfolding encode_claim
encode_claim-Same c d e =
    subst (λ d. Same (encode_claim c) (encode_claim d)) e
      (Same-Returns (Returns-bind _ (encode_expression-Returns c.predicate) (λ v. (_, refl))))

abbrev version_keyed : AnalyzerVersion → KeyedElement
version_keyed version = keyed no_key (encode_analyzer_version version)

versions_lem : (vs : List AnalyzerVersion) → collect version_element vs ≡ ok (map version_keyed vs)
versions_lem vs =
    collect_lem version_element version_keyed
      (λ version. make_keyed_element_lem no_key (encode_analyzer_version version)) vs

encode_program_binding-Same :
    (p : ProgramBinding) (versions : List AnalyzerVersion)
    → Permᴰ p.analyzer_versions versions
    → Same
        (encode_program_binding p)
        (encode_program_binding (record p { analyzer_versions = versions }))
unfolding encode_program_binding
encode_program_binding-Same p versions perm =
    let before = versions_lem p.analyzer_versions in
    let after = versions_lem versions in
    let alike =
      sorted_array-ranks version_keyed (λ v. refl) p.analyzer_versions versions
        (ranks-Permᴰ version_keyed (λ v. refl) perm) in
    rw (before, after) (Same-object_of _ _ (cc alike))

module _ (c d : EvidenceCase) (re : Reordered c d) where
  canonical_evidence_value-Same : Same (canonical_evidence_value c) (canonical_evidence_value d)
  unfolding canonical_evidence_value encode_entities encode_edges encode_paths encode_facts
      encode_assumptions encode_hypotheses encode_unknowns encode_constraints
      encode_provenance_records encode_proof_obligations encode_summaries encode_dependencies
      encode_omissions
  canonical_evidence_value-Same = Same-bind _ _ program_Same (λ v0 w0 h0.
      Same-bind _ _ (encode_claim-Same c.primary_claim d.primary_claim re.primary_claim)
        (λ v1 w1 h1.
          Same-bind _ _ (sorted_elements-Permᴰ entity_element entity_element-Encoder re.entities)
            (λ v2 w2 h2.
              Same-bind _ _ (sorted_elements-Permᴰ edge_element edge_element-Encoder re.edges)
                (λ v3 w3 h3.
                  Same-bind _ _ (sorted_elements-Permᴰ path_element path_element-Encoder re.paths)
                    (λ v4 w4 h4.
                      Same-bind _ _
                        (sorted_elements-Permᴰ fact_element fact_element-Encoder re.facts)
                        (λ v5 w5 h5.
                          Same-bind _ _
                            (sorted_elements-Permᴰ assumption_element assumption_element-Encoder
                              re.assumptions)
                            (λ v6 w6 h6.
                              Same-bind _ _
                                (sorted_elements-Permᴰ hypothesis_element hypothesis_element-Encoder
                                  re.hypotheses)
                                (λ v7 w7 h7.
                                  Same-bind _ _
                                    (sorted_elements-Permᴰ unknown_element unknown_element-Encoder
                                      re.unknowns)
                                    (λ v8 w8 h8.
                                      Same-bind _ _
                                        (sorted_elements-Permᴰ constraint_element
                                          constraint_element-Encoder re.constraints)
                                        (λ v9 w9 h9.
                                          Same-bind _ _
                                            (sorted_elements-Permᴰ provenance_element
                                              provenance_element-Encoder re.provenance)
                                            (λ v10 w10 h10.
                                              Same-bind _ _
                                                (sorted_elements-Permᴰ proof_obligation_element
                                                  proof_obligation_element-Encoder
                                                  re.proof_obligations)
                                                (λ v11 w11 h11.
                                                  Same-bind _ _
                                                    (sorted_elements-Permᴰ summary_reference_element
                                                      summary_reference_element-Encoder
                                                      re.summaries)
                                                    (λ v12 w12 h12.
                                                      Same-bind _ _
                                                        (sorted_elements-Permᴰ dependency_element
                                                          dependency_element-Encoder
                                                          re.dependencies)
                                                        (λ v13 w13 h13.
                                                          Same-bind _ _
                                                            (sorted_elements-Permᴰ omission_element
                                                            omission_element-Encoder re.omissions)
                                                            (λ v14 w14 h14. Same-object_of _ _ (
                                                            cc (
                                                            re.schema_version, re.level,
                                                            re.verification_state, h0, h1, h2, h3,
                                                            h4, h5, h6, h7, h8, h9, h10, h11, h12,
                                                            h13, h14,
                                                            )))))))))))))))))
    where
      program_Same : Same (encode_program_binding c.program) (encode_program_binding d.program)
      program_Same =
          subst (λ p. Same (encode_program_binding c.program) (encode_program_binding p)) re.program
            (encode_program_binding-Same c.program d.program.analyzer_versions re.analyzer_versions)

  -- Both cases have the same canonical bytes, and those are returned.
  canonical_evidence_bytes-Reordered :
      (b : Bytes) × (canonical_evidence_bytes c ≡ ok b) × (canonical_evidence_bytes d ≡ ok b)
  unfolding canonical_evidence_bytes canonical_encode
  canonical_evidence_bytes-Reordered =
      let same = canonical_evidence_value-Same in
      let left = same.returns_left in
      let right = same.returns_right in
      (
        bytes same.left,
        rw left (encode_value_lem same.left),
        rw right (encode_value_lem same.right ∙ ap ok (sym same.written_alike)),
      )

-- Two cases that differ only in the order of their members, in the order of the analyzer versions of
-- their program and in the identity they had get one and the same identity, and the computation
-- succeeds for both.
pub compute_evidence_id-Reordered :
    (c d : EvidenceCase)
    → Reordered c d
    → (id : StableId) × (compute_evidence_id c ≡ ok id) × (compute_evidence_id d ≡ ok id)
unfolding compute_evidence_id
compute_evidence_id-Reordered c d re =
    let (b, left, right) = canonical_evidence_bytes-Reordered c d re in
    (make_stable_id IdKind.evidence b, rw left refl, rw right refl)
