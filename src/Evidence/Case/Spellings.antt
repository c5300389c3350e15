-- ===== src/Evidence/Case/Spellings.antt =====
-- The spellings of the enumerators are read back, and nothing else is.
use veritas.Common.{
  Bytes, bytes_eq, bytes_eq_iff, Bool, true, List, [], ◌∷◌, ◌≡◌, refl, sym, ap, ◌∙◌, ◌↔◌, ◌&&◌,
  Bool-cases, inl, inr, arith,
}
use veritas.Core.Status.{ok, ok-injective}
use Prim.Native.String.{String}
use veritas.Evidence.Case.Enums.{
  EvidenceLevel, VerificationState, EntityKind, RelationKind, PathKind, EpistemicState, Confidence,
  ProofStatus, DependencyKind, Feasibility, ProofGoalKind, UnknownReasonCode, QueryCompleteness,
  TruncationReason, ClaimKind, Severity,
}
use veritas.Evidence.Case.Names.{
  evidence_level_to_string, verification_state_to_string, entity_kind_to_string,
  relation_kind_to_string, path_kind_to_string, epistemic_state_to_string, confidence_to_string,
  proof_status_to_string, dependency_kind_to_string, feasibility_to_string,
  proof_goal_kind_to_string, unknown_reason_code_to_string, query_completeness_to_string,
  truncation_reason_to_string, claim_kind_to_string, severity_to_string,
}
use veritas.Evidence.Case.Parse.{
  first_spelling, evidence_level_spellings, parse_evidence_level, verification_state_spellings,
  parse_verification_state, entity_kind_spellings, parse_entity_kind, relation_kind_spellings,
  parse_relation_kind, path_kind_spellings, parse_path_kind, epistemic_state_spellings,
  parse_epistemic_state, confidence_spellings, parse_confidence, proof_status_spellings,
  parse_proof_status, dependency_kind_spellings, parse_dependency_kind, feasibility_spellings,
  parse_feasibility, proof_goal_kind_spellings, parse_proof_goal_kind,
  unknown_reason_code_spellings, parse_unknown_reason_code, query_completeness_spellings,
  parse_query_completeness, truncation_reason_spellings, parse_truncation_reason,
  claim_kind_spellings, parse_claim_kind, severity_spellings, parse_severity,
}
use veritas.Evidence.Case.Families.{
  Family, evidence_level, verification_state, entity_kind, relation_kind, path_kind,
  epistemic_state, confidence, proof_status, dependency_kind, feasibility, proof_goal_kind,
  unknown_reason_code, query_completeness, truncation_reason, claim_kind, severity, Enumerator,
  enumerator_to_string, parse_enumerator, reads_default, is_readable,
}

module _ {ℓ} {Value : Type ℓ} (spell : Value → Bytes) (readable : Value → Bool) where
  -- Every text of the table is the spelling of its readable value.
  abbrev spells : List (Bytes × Value) → Bool
  spells [] = true
  spells ((text, entry) ∷ rest) = bytes_eq text (spell entry) && (readable entry && spells rest)

  first_spelling_sound :
      (table : List (Bytes × Value)) (text : Bytes) (message : String) (result : Value)
      → spells table ≡ true
      → first_spelling table text message ≡ ok result
      → (readable result ≡ true) × (text ≡ spell result)
  unfolding first_spelling
  first_spelling_sound [] text message result entries h = cc h
  first_spelling_sound ((s, v) ∷ rest) text message result entries h =
      let later = first_spelling_sound rest text message result in
      let spelled = (bytes_eq_iff s (spell v)).0 in
      let s_spelled : bytes_eq s (spell v) ≡ true = ground arith in
      let v_readable : readable v ≡ true = ground arith in
      elim (Bool-cases (bytes_eq text s)) [
        | inl same ↦
            let found : v ≡ result = ok-injective (rw same at h) in
            (
              ap readable (sym found) ∙ v_readable,
              (bytes_eq_iff text s).0 same ∙ spelled s_spelled ∙ ap spell found,
            )
        | inr other ↦ later (ground arith) (rw other at h)
      ]

pub parse_enumerator_sound :
    (f : Family) (text : Bytes) (enumerator : Enumerator f)
    → parse_enumerator f text ≡ ok enumerator
    → (is_readable f enumerator ≡ true) × (text ≡ enumerator_to_string f enumerator)
unfolding parse_enumerator is_readable reads_default enumerator_to_string bytes_eq
    parse_evidence_level parse_verification_state parse_entity_kind parse_relation_kind
    parse_path_kind parse_epistemic_state parse_confidence parse_proof_status parse_dependency_kind
    parse_feasibility parse_proof_goal_kind parse_unknown_reason_code parse_query_completeness
    parse_truncation_reason parse_claim_kind parse_severity evidence_level_to_string
    verification_state_to_string entity_kind_to_string relation_kind_to_string path_kind_to_string
    epistemic_state_to_string confidence_to_string proof_status_to_string dependency_kind_to_string
    feasibility_to_string proof_goal_kind_to_string unknown_reason_code_to_string
    query_completeness_to_string truncation_reason_to_string claim_kind_to_string severity_to_string
parse_enumerator_sound evidence_level text _ h =
    first_spelling_sound evidence_level_to_string (is_readable evidence_level)
      evidence_level_spellings text _ _ refl h
parse_enumerator_sound verification_state text _ h =
    first_spelling_sound verification_state_to_string (is_readable verification_state)
      verification_state_spellings text _ _ refl h
parse_enumerator_sound entity_kind text _ h =
    first_spelling_sound entity_kind_to_string (is_readable entity_kind) entity_kind_spellings text
      _ _ refl h
parse_enumerator_sound relation_kind text _ h =
    first_spelling_sound relation_kind_to_string (is_readable relation_kind) relation_kind_spellings
      text _ _ refl h
parse_enumerator_sound path_kind text _ h =
    first_spelling_sound path_kind_to_string (is_readable path_kind) path_kind_spellings text _ _
      refl h
parse_enumerator_sound epistemic_state text _ h =
    first_spelling_sound epistemic_state_to_string (is_readable epistemic_state)
      epistemic_state_spellings text _ _ refl h
parse_enumerator_sound confidence text _ h =
    first_spelling_sound confidence_to_string (is_readable confidence) confidence_spellings text _ _
      refl h
parse_enumerator_sound proof_status text _ h =
    first_spelling_sound proof_status_to_string (is_readable proof_status) proof_status_spellings
      text _ _ refl h
parse_enumerator_sound dependency_kind text _ h =
    first_spelling_sound dependency_kind_to_string (is_readable dependency_kind)
      dependency_kind_spellings text _ _ refl h
parse_enumerator_sound feasibility text _ h =
    first_spelling_sound feasibility_to_string (is_readable feasibility) feasibility_spellings text
      _ _ refl h
parse_enumerator_sound proof_goal_kind text _ h =
    first_spelling_sound proof_goal_kind_to_string (is_readable proof_goal_kind)
      proof_goal_kind_spellings text _ _ refl h
parse_enumerator_sound unknown_reason_code text _ h =
    first_spelling_sound unknown_reason_code_to_string (is_readable unknown_reason_code)
      unknown_reason_code_spellings text _ _ refl h
parse_enumerator_sound query_completeness text _ h =
    first_spelling_sound query_completeness_to_string (is_readable query_completeness)
      query_completeness_spellings text _ _ refl h
parse_enumerator_sound truncation_reason text _ h =
    first_spelling_sound truncation_reason_to_string (is_readable truncation_reason)
      truncation_reason_spellings text _ _ refl h
parse_enumerator_sound claim_kind text _ h =
    first_spelling_sound claim_kind_to_string (is_readable claim_kind) claim_kind_spellings text _ _
      refl h
parse_enumerator_sound severity text _ h =
    first_spelling_sound severity_to_string (is_readable severity) severity_spellings text _ _ refl
      h

pub parse_enumerator-enumerator_to_string :
    (f : Family) (enumerator : Enumerator f)
    → is_readable f enumerator ≡ true
    → parse_enumerator f (enumerator_to_string f enumerator) ≡ ok enumerator
unfolding parse_enumerator is_readable reads_default enumerator_to_string bytes_eq first_spelling
    parse_evidence_level parse_verification_state parse_entity_kind parse_relation_kind
    parse_path_kind parse_epistemic_state parse_confidence parse_proof_status parse_dependency_kind
    parse_feasibility parse_proof_goal_kind parse_unknown_reason_code parse_query_completeness
    parse_truncation_reason parse_claim_kind parse_severity evidence_level_to_string
    verification_state_to_string entity_kind_to_string relation_kind_to_string path_kind_to_string
    epistemic_state_to_string confidence_to_string proof_status_to_string dependency_kind_to_string
    feasibility_to_string proof_goal_kind_to_string unknown_reason_code_to_string
    query_completeness_to_string truncation_reason_to_string claim_kind_to_string severity_to_string
parse_enumerator-enumerator_to_string evidence_level EvidenceLevel.unspecified h = cc h
parse_enumerator-enumerator_to_string evidence_level _ h = refl
parse_enumerator-enumerator_to_string verification_state VerificationState.unspecified h = cc h
parse_enumerator-enumerator_to_string verification_state _ h = refl
parse_enumerator-enumerator_to_string entity_kind EntityKind.unspecified h = cc h
parse_enumerator-enumerator_to_string entity_kind _ h = refl
parse_enumerator-enumerator_to_string relation_kind RelationKind.unspecified h = cc h
parse_enumerator-enumerator_to_string relation_kind _ h = refl
parse_enumerator-enumerator_to_string path_kind PathKind.unspecified h = cc h
parse_enumerator-enumerator_to_string path_kind _ h = refl
parse_enumerator-enumerator_to_string epistemic_state EpistemicState.unspecified h = cc h
parse_enumerator-enumerator_to_string epistemic_state _ h = refl
parse_enumerator-enumerator_to_string confidence Confidence.unspecified h = cc h
parse_enumerator-enumerator_to_string confidence _ h = refl
parse_enumerator-enumerator_to_string proof_status ProofStatus.unspecified h = cc h
parse_enumerator-enumerator_to_string proof_status _ h = refl
parse_enumerator-enumerator_to_string dependency_kind DependencyKind.unspecified h = cc h
parse_enumerator-enumerator_to_string dependency_kind _ h = refl
parse_enumerator-enumerator_to_string feasibility Feasibility.unspecified h = cc h
parse_enumerator-enumerator_to_string feasibility _ h = refl
parse_enumerator-enumerator_to_string proof_goal_kind ProofGoalKind.unspecified h = cc h
parse_enumerator-enumerator_to_string proof_goal_kind _ h = refl
parse_enumerator-enumerator_to_string unknown_reason_code UnknownReasonCode.unspecified h = cc h
parse_enumerator-enumerator_to_string unknown_reason_code _ h = refl
parse_enumerator-enumerator_to_string query_completeness QueryCompleteness.unspecified h = refl
parse_enumerator-enumerator_to_string query_completeness _ h = refl
parse_enumerator-enumerator_to_string truncation_reason TruncationReason.unspecified h = refl
parse_enumerator-enumerator_to_string truncation_reason _ h = refl
parse_enumerator-enumerator_to_string claim_kind ClaimKind.unspecified h = refl
parse_enumerator-enumerator_to_string claim_kind _ h = refl
parse_enumerator-enumerator_to_string severity Severity.unspecified h = refl
parse_enumerator-enumerator_to_string severity _ h = refl

-- A parser returns an enumerator exactly where the text is the enumerator's spelling and the
-- enumerator is readable: it is not the invalid default, or its enumeration reads that too.
pub parse_enumerator_iff :
    (f : Family) (text : Bytes) (enumerator : Enumerator f)
    → (parse_enumerator f text ≡ ok enumerator)
      ↔ ((is_readable f enumerator ≡ true) × (text ≡ enumerator_to_string f enumerator))
parse_enumerator_iff f text enumerator = (
  parse_enumerator_sound f text enumerator,
  λ (readable, e).
      ap (parse_enumerator f) e ∙ parse_enumerator-enumerator_to_string f enumerator readable,
)
