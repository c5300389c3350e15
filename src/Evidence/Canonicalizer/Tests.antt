-- ===== src/Evidence/Canonicalizer/Tests.antt =====
-- Tests and examples of the evidence model: two cases that differ in the order of their members.
use mathlib.Core.List.Permᴰ as Permᴰ
use mathlib.Core.List.Permᴰ.{swap}
use veritas.Common.{true, false, [], ◌∷◌, List, codes, bytes_eq, none, some, ◌≡◌, refl, ◌↔◌}
use veritas.Core.Status.{Status, ok, err, invalid_argument}
use veritas.Core.Ids.{StableId}
use veritas.Evidence.Case.Enums.{
  EvidenceLevel, VerificationState, EntityKind, ClaimKind, Severity, Confidence,
}
use veritas.Evidence.Case.Records.{
  ExpressionKind, Expression, expression, no_operands, operand, ProgramBinding, Claim, Entity,
  EvidenceCase,
}
use veritas.Evidence.Case.Parse.{parse_confidence}
use veritas.Evidence.Case.Families.{confidence, parse_enumerator, is_readable, enumerator_to_string}
use veritas.Evidence.Case.Spellings.{parse_enumerator_iff}
use veritas.Evidence.Canonicalizer.Expressions.{encode_expression}
use veritas.Evidence.Canonicalizer.Root.{
  compute_evidence_id, with_evidence_id, finalize_evidence_identity,
}
use veritas.Evidence.Canonicalizer.Encoders.{Same}
use veritas.Evidence.Canonicalizer.Reorder.{Reordered, compute_evidence_id-Reordered}
use veritas.Evidence.Canonicalizer.Alike.{Alike, encode_expression-Alike}
use veritas.Evidence.Canonicalizer.Finalize.{finalized, finalize_evidence_identity_lem}

parse_enumerator_iff_example :
    (parse_enumerator confidence (codes "exact") ≡ ok Confidence.exact) ↔ (
      (is_readable confidence Confidence.exact ≡ true)
      × (codes "exact" ≡ enumerator_to_string confidence Confidence.exact))
parse_enumerator_iff_example = parse_enumerator_iff confidence (codes "exact") Confidence.exact

-- The spelling of the invalid default is refused.
default_refused :
    parse_confidence (codes "unspecified") ≡ err invalid_argument "unrecognized confidence spelling"
unfolding parse_confidence bytes_eq
default_refused = refl

abbrev symbol_named : Expression
symbol_named = expression ExpressionKind.symbol (codes "n") 0 false no_operands

abbrev positive : Expression
positive = expression ExpressionKind.bool [] 0 true no_operands

abbrev both_orders : Expression × Expression
both_orders = (
  expression ExpressionKind.and [] 0 false (operand symbol_named (operand positive no_operands)),
  expression ExpressionKind.and [] 0 false (operand positive (operand symbol_named no_operands)),
)

encode_expression-Alike_example :
    Same (encode_expression both_orders.0) (encode_expression both_orders.1)
encode_expression-Alike_example =
    encode_expression-Alike both_orders.0 both_orders.1 (Alike.commuted refl (swap refl refl))

abbrev program : ProgramBinding
program = record {
  repository_id = codes "repo";
  revision_id = codes "r1";
  build_variant_id = codes "debug";
  target_triple = codes "x86_64";
  analysis_configuration_id = codes "default";
  type_layout_id = codes "layout";
  analysis_run_id = none;
  analyzer_versions = [];
}

abbrev claim : Claim
claim = record {
  id = codes "C1";
  kind = ClaimKind.buffer_overflow;
  subject = codes "E_len";
  predicate = both_orders.0;
  severity = Severity.high;
  description = codes "write past the end";
}

abbrev entity : EntityKind → Entity
entity kind = record { id = codes "E_len"; kind = kind; stable_id = none; properties = [] }

abbrev case_of : List Entity → EvidenceCase
case_of entities = record {
  evidence_id = none;
  schema_version = codes "eir.v1";
  level = EvidenceLevel.l1;
  program = program;
  primary_claim = claim;
  entities = entities;
  edges = [];
  paths = [];
  facts = [];
  assumptions = [];
  hypotheses = [];
  unknowns = [];
  constraints = [];
  provenance = [];
  proof_obligations = [];
  summaries = [];
  dependencies = [];
  verification_state = VerificationState.unreviewed;
  omissions = [];
}

abbrev first_case : EvidenceCase
first_case = case_of (entity EntityKind.value ∷ entity EntityKind.memory_object ∷ [])

abbrev second_case : EvidenceCase
second_case = case_of (entity EntityKind.memory_object ∷ entity EntityKind.value ∷ [])

cases-Reordered : Reordered first_case second_case
cases-Reordered = record {
  schema_version = refl;
  level = refl;
  program = refl;
  analyzer_versions = Permᴰ.refl _;
  primary_claim = refl;
  entities = swap refl refl;
  edges = Permᴰ.refl _;
  paths = Permᴰ.refl _;
  facts = Permᴰ.refl _;
  assumptions = Permᴰ.refl _;
  hypotheses = Permᴰ.refl _;
  unknowns = Permᴰ.refl _;
  constraints = Permᴰ.refl _;
  provenance = Permᴰ.refl _;
  proof_obligations = Permᴰ.refl _;
  summaries = Permᴰ.refl _;
  dependencies = Permᴰ.refl _;
  omissions = Permᴰ.refl _;
  verification_state = refl;
}

compute_evidence_id-Reordered_example :
    (id : StableId) × (compute_evidence_id first_case ≡ ok id)
    × (compute_evidence_id second_case ≡ ok id)
compute_evidence_id-Reordered_example =
    compute_evidence_id-Reordered first_case second_case cases-Reordered

abbrev accept_all : EvidenceCase → Status
accept_all value = ok tt

finalize_evidence_identity_lem_example :
    (id : StableId) × (compute_evidence_id first_case ≡ ok id)
    × (finalize_evidence_identity accept_all (some first_case) ≡ finalized (ok tt) id first_case)
finalize_evidence_identity_lem_example = finalize_evidence_identity_lem accept_all first_case

abbrev first_identity :
    (id : StableId) × (compute_evidence_id first_case ≡ ok id)
    × (finalize_evidence_identity accept_all (some first_case) ≡ finalized (ok tt) id first_case)
first_identity = finalize_evidence_identity_lem accept_all first_case

abbrev identified : EvidenceCase
identified = with_evidence_id first_identity.0 first_case
