-- ===== src/Evidence/Case/Records.antt =====
-- include/veritas/evidence/EvidenceCase.h: the records of an evidence case. `Path` is called
-- `EvidencePath` here. An `int64_t` is given by its bits, and the entries of a `std::map` stand in
-- the order of its iteration.
use veritas.Common.{ℕ, Bool, List, Option, Bytes}
use veritas.Core.Ids.{StableId}
use veritas.Evidence.Case.Enums.{
  EvidenceLevel, VerificationState, EntityKind, RelationKind, PathKind, EpistemicState, Confidence,
  ProofStatus, DependencyKind, Feasibility, ProofGoalKind, UnknownReasonCode, ClaimKind, Severity,
}

pub data ExpressionKind : Type 0 where
  unspecified bool integer string symbol reference call not compare and or implies for_all exists :
      ExpressionKind

-- `Expression`: its kind, text, integer, boolean and operands.
mutual
  pub data Expression : Type 0 where
    expression : ExpressionKind → Bytes → ℕ → Bool → Operands → Expression

  pub data Operands : Type 0 where
    no_operands : Operands
    operand : Expression → Operands → Operands

pub record AnalyzerVersion : Type 0 where
  pub producer : Bytes
  pub version : Bytes
  pub configuration : Bytes

pub record ProgramBinding : Type 0 where
  pub repository_id : Bytes
  pub revision_id : Bytes
  pub build_variant_id : Bytes
  pub target_triple : Bytes
  pub analysis_configuration_id : Bytes
  pub type_layout_id : Bytes
  pub analysis_run_id : Option StableId
  pub analyzer_versions : List AnalyzerVersion

pub record Entity : Type 0 where
  pub id : Bytes
  pub kind : EntityKind
  pub stable_id : Option StableId
  pub properties : List (Bytes × Expression)

pub record Edge : Type 0 where
  pub id : Bytes
  pub from : Bytes
  pub to : Bytes
  pub kind : RelationKind
  pub epistemic : EpistemicState
  pub provenance_id : Bytes
  pub summarized_by : Bytes
  pub expandable : Bool

pub record EvidencePath : Type 0 where
  pub id : Bytes
  pub kind : PathKind
  pub entity_ids : List Bytes
  pub conditions : List Expression
  pub feasibility : Feasibility
  pub provenance_id : Bytes

pub record Claim : Type 0 where
  pub id : Bytes
  pub kind : ClaimKind
  pub subject : Bytes
  pub predicate : Expression
  pub severity : Severity
  pub description : Bytes

pub record Fact : Type 0 where
  pub id : Bytes
  pub stable_id : Option StableId
  pub predicate : Expression
  pub epistemic : EpistemicState
  pub confidence : Confidence
  pub producer : Bytes
  pub provenance_id : Bytes
  pub derived : Bool

pub record Assumption : Type 0 where
  pub id : Bytes
  pub predicate : Expression
  pub source : Bytes
  pub scope : Bytes

pub record Hypothesis : Type 0 where
  pub id : Bytes
  pub predicate : Expression
  pub producer : Bytes
  pub reason : Bytes
  pub confidence : Confidence

pub record Unknown : Type 0 where
  pub id : Bytes
  pub property : Expression
  pub reason_code : UnknownReasonCode
  pub reason : Bytes
  pub blocking_ids : List Bytes
  pub suggested_resolution : Bytes

pub record Constraint : Type 0 where
  pub id : Bytes
  pub expression : Expression
  pub scope : Bytes
  pub epistemic : EpistemicState
  pub provenance_id : Bytes

pub record Provenance : Type 0 where
  pub id : Bytes
  pub producer : Bytes
  pub rule : Bytes
  pub input_fact_ids : List Bytes
  pub source_anchor_id : Bytes
  pub analysis_run_id : Option StableId
  pub version : Bytes
  pub configuration : Bytes

pub record ProofObligation : Type 0 where
  pub id : Bytes
  pub goal_kind : ProofGoalKind
  pub predicate : Expression
  pub verifier_kinds : List Bytes
  pub budget : Expression
  pub status : ProofStatus
  pub result_id : Bytes
  pub verification_producer : Bytes

pub record SummaryReference : Type 0 where
  pub id : Bytes
  pub function_id : Bytes
  pub summary_id : StableId
  pub components : List Bytes

pub record Dependency : Type 0 where
  pub id : Bytes
  pub kind : DependencyKind
  pub stable_id : StableId

pub record Omission : Type 0 where
  pub id : Bytes
  pub kind : Bytes
  pub subject : Bytes
  pub reason : Bytes
  pub expandable : Bool

pub record EvidenceCase : Type 0 where
  pub evidence_id : Option StableId
  pub schema_version : Bytes
  pub level : EvidenceLevel
  pub program : ProgramBinding
  pub primary_claim : Claim
  pub entities : List Entity
  pub edges : List Edge
  pub paths : List EvidencePath
  pub facts : List Fact
  pub assumptions : List Assumption
  pub hypotheses : List Hypothesis
  pub unknowns : List Unknown
  pub constraints : List Constraint
  pub provenance : List Provenance
  pub proof_obligations : List ProofObligation
  pub summaries : List SummaryReference
  pub dependencies : List Dependency
  pub verification_state : VerificationState
  pub omissions : List Omission
