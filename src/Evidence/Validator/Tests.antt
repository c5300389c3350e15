-- ===== src/Evidence/Validator/Tests.antt =====
-- Tests and examples of the validator: a case that claims to be verified safe.
use mathlib.Core.List.Memᴰ.{head}
use veritas.Common.{
  ◌⊎◌, ◌≤◌, true, false, [], ◌∷◌, Bytes, codes, bytes_eq, bytes_lt, length, none, some, ◌≡◌, refl,
  ap, ◌∙◌, ◌↔◌, arith,
}
use veritas.Core.Status.{ok}
use veritas.Core.Ids.{
  StableId, IdKind, make_stable_id, IsCanonical, parse_stable_id-to_string,
  make_stable_id-IsCanonical,
}
use veritas.Evidence.Case.Enums.{
  EvidenceLevel, VerificationState, EntityKind, RelationKind, PathKind, EpistemicState, Feasibility,
  ClaimKind, Severity, ProofGoalKind, ProofStatus,
}
use veritas.Evidence.Case.Records.{
  ExpressionKind, Expression, expression, Operands, no_operands, operand, ProgramBinding, Claim,
  Entity, Edge, EvidencePath, ProofObligation, EvidenceCase,
}
use veritas.Evidence.Case.Compare.{
  compare_numbers, compare_texts, compare_integers, compare_expressions, equal,
  compare_expressions_iff,
}
use veritas.Evidence.Validator.{path_disconnected, issue, each, is_empty}
use veritas.Evidence.Validator.Index.{
  declare_each, index_members, find_member, is_seen, check_duplicates,
}
use veritas.Evidence.Validator.States.{
  is_canonical_stable_id, check_header, check_program_binding, check_primary_claim,
  check_required_states, check_stable_ids,
}
use veritas.Evidence.Validator.Authority.{
  declares_provenance, check_derived_fact, check_provenance, check_obligation, conclusive_results,
  last_domain, any_operand, has_execution_domain_argument, admits_execution, admits_domain,
  check_proof_authority,
}
use veritas.Evidence.Validator.References.{
  resolve_entity, resolve_provenance, resolve_member, resolve_reference, resolve_expression,
  check_edge, check_path_references, check_references,
}
use veritas.Evidence.Validator.Expressions.{
  check_each_operand, check_payload, check_connective, check_shape, check_expression,
  check_expressions,
}
use veritas.Evidence.Validator.Structure.{
  has_segment, check_segments, check_path, check_paths, check_hypothesis_isolation,
  check_expandable_edge, check_withheld_summary, check_interrupted_query, check_omission_visibility,
}
use veritas.Evidence.Validator.Run.{status_of, validate_evidence_case, require_valid_evidence_case}
use veritas.Evidence.Validator.Finalize.{finalize_validated}
use veritas.Evidence.Canonicalizer.Root.{
  compute_evidence_id, with_evidence_id, finalize_evidence_identity,
}
use veritas.Evidence.Canonicalizer.Finalize.{finalized, finalize_evidence_identity_lem}
use veritas.Evidence.Validator.Members.{
  Distinct, named, local_ids, DeclaresEntity, validate_evidence_case-Distinct,
}
use veritas.Evidence.Validator.Graph.{
  Connected, validate_evidence_case-edges, validate_evidence_case-Connected,
}
use veritas.Evidence.Validator.Contract.{WellFormed, IsAbsent, depth}
use veritas.Evidence.Validator.Accepted.{check_expression_iff}
use veritas.Evidence.Validator.Verified.{
  DecidedObligation, AdmittedDomain, validate_evidence_case-DecidedObligation,
  validate_evidence_case-AdmittedDomain,
}

abbrev run_id : StableId
run_id = make_stable_id IdKind.analysis_run (codes "run")

run_id-IsCanonical : IsCanonical run_id
run_id-IsCanonical = make_stable_id-IsCanonical IdKind.analysis_run (codes "run")

long_text : (text : Bytes) → length text ≡ 64 → is_empty text ≡ false
long_text [] h = absurd (omega arith)
long_text (x ∷ text) h = refl

run_id-canonical : is_canonical_stable_id run_id ≡ true
unfolding is_canonical_stable_id
run_id-canonical =
    let parsed = parse_stable_id-to_string run_id run_id-IsCanonical in
    let long = long_text run_id.digest_hex run_id-IsCanonical.size in rw (long, parsed) refl

abbrev leaf : ExpressionKind → Bytes → Expression
leaf kind text = expression kind text 0 false no_operands

abbrev pair : Expression → Expression → Operands
pair x y = operand x (operand y no_operands)

abbrev ends : Operands
ends =
    pair (leaf ExpressionKind.reference (codes "E_in"))
      (leaf ExpressionKind.reference (codes "E_len"))

abbrev call : Bytes → Expression
call name = expression ExpressionKind.call name 0 false ends

abbrev truth : Expression
truth = expression ExpressionKind.bool [] 0 true no_operands

abbrev absent : Expression
absent = leaf ExpressionKind.unspecified []

abbrev domain : Expression
domain = call (codes "feasible_paths")

-- forall p in feasible_paths(...): true, with the completeness of the domain and its other half.
abbrev safety : Expression
safety = expression ExpressionKind.and [] 0 false (
    operand (expression ExpressionKind.for_all (codes "p") 0 false (pair domain truth)) (
      pair (call (codes "execution_domain_complete")) (
        expression ExpressionKind.or [] 0 false (
          pair (expression ExpressionKind.exists (codes "p") 0 false (pair domain truth))
            (call (codes "entry_infeasible"))))))

abbrev program : ProgramBinding
program = record {
  repository_id = codes "repo";
  revision_id = codes "r1";
  build_variant_id = codes "debug";
  target_triple = codes "x86_64";
  analysis_configuration_id = codes "default";
  type_layout_id = codes "layout";
  analysis_run_id = some run_id;
  analyzer_versions = [];
}

abbrev claim : Claim
claim = record {
  id = codes "C1";
  kind = ClaimKind.buffer_overflow;
  subject = codes "E_len";
  predicate = absent;
  severity = Severity.high;
  description = codes "write past the end";
}

abbrev entity : Bytes → Entity
entity id = record { id = id; kind = EntityKind.value; stable_id = none; properties = [] }

abbrev flow : Edge
flow = record {
  id = codes "D1";
  from = codes "E_in";
  to = codes "E_len";
  kind = RelationKind.flows_to;
  epistemic = EpistemicState.may;
  provenance_id = [];
  summarized_by = [];
  expandable = false;
}

abbrev route : EvidencePath
route = record {
  id = codes "P1";
  kind = PathKind.value_flow;
  entity_ids = codes "E_in" ∷ codes "E_len" ∷ [];
  conditions = [];
  feasibility = Feasibility.unknown;
  provenance_id = [];
}

abbrev obligation : ProofObligation
obligation = record {
  id = codes "O1";
  goal_kind = ProofGoalKind.prove;
  predicate = safety;
  verifier_kinds = [];
  budget = absent;
  status = ProofStatus.proved;
  result_id = codes "R1";
  verification_producer = codes "solver";
}

abbrev safe_case : EvidenceCase
safe_case = record {
  evidence_id = none;
  schema_version = codes "eir.v1";
  level = EvidenceLevel.l1;
  program = program;
  primary_claim = claim;
  entities = entity (codes "E_in") ∷ entity (codes "E_len") ∷ [];
  edges = flow ∷ [];
  paths = route ∷ [];
  facts = [];
  assumptions = [];
  hypotheses = [];
  unknowns = [];
  constraints = [];
  provenance = [];
  proof_obligations = obligation ∷ [];
  summaries = [];
  dependencies = [];
  verification_state = VerificationState.verified_safe;
  omissions = [];
}

safe_case-valid : validate_evidence_case safe_case ≡ []
unfolding validate_evidence_case each declare_each index_members find_member is_seen
    check_duplicates check_header check_program_binding check_primary_claim check_required_states
    check_stable_ids declares_provenance check_derived_fact check_provenance check_obligation
    conclusive_results last_domain any_operand has_execution_domain_argument admits_execution
    admits_domain check_proof_authority resolve_entity resolve_provenance resolve_member
    resolve_reference resolve_expression check_edge check_path_references check_references
    check_each_operand check_payload check_connective check_shape check_expression check_expressions
    has_segment check_segments check_path check_paths check_hypothesis_isolation
    check_expandable_edge check_withheld_summary check_interrupted_query check_omission_visibility
    bytes_eq compare_expressions compare_numbers compare_texts bytes_lt compare_integers
safe_case-valid = rw run_id-canonical refl

validate_evidence_case-Distinct_example : Distinct (named (local_ids safe_case))
validate_evidence_case-Distinct_example = validate_evidence_case-Distinct safe_case safe_case-valid

validate_evidence_case-edges_example :
    DeclaresEntity safe_case (codes "E_in") × DeclaresEntity safe_case (codes "E_len")
validate_evidence_case-edges_example =
    validate_evidence_case-edges safe_case flow safe_case-valid (head refl)

validate_evidence_case-Connected_example :
    (2 ≤ length route.entity_ids) × Connected safe_case.edges PathKind.value_flow route.entity_ids
validate_evidence_case-Connected_example =
    validate_evidence_case-Connected safe_case route safe_case-valid (head refl)

validate_evidence_case-DecidedObligation_example : DecidedObligation (obligation ∷ [])
validate_evidence_case-DecidedObligation_example =
    validate_evidence_case-DecidedObligation safe_case safe_case-valid refl

validate_evidence_case-AdmittedDomain_example : AdmittedDomain (obligation ∷ [])
validate_evidence_case-AdmittedDomain_example =
    validate_evidence_case-AdmittedDomain safe_case safe_case-valid refl

compare_expressions_iff_example : (compare_expressions safety truth ≡ equal) ↔ (safety ≡ truth)
compare_expressions_iff_example = compare_expressions_iff safety truth

-- A path that no edge follows is an issue.
abbrev unjoined : EvidencePath
unjoined = record route { kind = PathKind.call }

unjoined_refused : check_path (flow ∷ []) unjoined ≡ issue path_disconnected (codes "P1")
unfolding check_path check_segments has_segment bytes_eq
unjoined_refused = refl

abbrev identity :
    (id : StableId) × (compute_evidence_id safe_case ≡ ok id)
    × (finalize_evidence_identity require_valid_evidence_case (some safe_case)
        ≡ finalized (require_valid_evidence_case safe_case) id safe_case)
identity = finalize_evidence_identity_lem require_valid_evidence_case safe_case

abbrev identified : EvidenceCase
identified = with_evidence_id identity.0 safe_case

identified_once :
    finalize_evidence_identity require_valid_evidence_case (some safe_case)
    ≡ (ok tt, some identified)
unfolding require_valid_evidence_case
identified_once =
    identity.2 ∙ ap (λ issues. finalized (status_of issues) identity.0 safe_case) safe_case-valid

finalize_validated_example :
    (validate_evidence_case identified ≡ [])
    × (finalize_evidence_identity require_valid_evidence_case (some identified)
        ≡ (ok tt, some identified))
finalize_validated_example = finalize_validated safe_case identified identified_once

check_expression_iff_example :
    (check_expression (codes "O1") false 0 safety ≡ [])
    ↔ ((WellFormed safety × (depth safety ≤ 64)) ⊎ ((false ≡ true) × IsAbsent safety))
check_expression_iff_example = check_expression_iff (codes "O1") false safety

-- A formula as the domain of a quantifier and a number as its body are no issue.
mixed_sorts :
    check_expression (codes "O1") false 0 (
      expression ExpressionKind.for_all (codes "x") 0 false (
        pair
          (expression ExpressionKind.not [] 0 false (operand truth no_operands))
          (expression ExpressionKind.integer [] 5 false no_operands)))
    ≡ []
unfolding check_expression check_payload check_shape check_each_operand
mixed_sorts = refl
