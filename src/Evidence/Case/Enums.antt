-- ===== src/Evidence/Case/Enums.antt =====
-- include/veritas/evidence/EvidenceCase.h and SliceTypes.h: the enumerations of a case.

pub data EvidenceLevel : Type 0 where
  unspecified l0 l1 l2 : EvidenceLevel

pub data VerificationState : Type 0 where
  unspecified unreviewed possible_defect likely_defect verified_defect likely_false_positive
        verified_safe inconclusive :
      VerificationState

pub data EntityKind : Type 0 where
  unspecified function call_site value memory_object basic_block : EntityKind

pub data RelationKind : Type 0 where
  unspecified calls flows_to reads writes dominates may_alias : RelationKind

pub data PathKind : Type 0 where
  unspecified call value_flow control : PathKind

pub data EpistemicState : Type 0 where
  unspecified must may must_not inferred assumed unknown : EpistemicState

pub data Confidence : Type 0 where
  unspecified exact high medium low unknown : Confidence

pub data ProofStatus : Type 0 where
  unspecified pending proved refuted unknown timeout unsupported : ProofStatus

pub data DependencyKind : Type 0 where
  unspecified summary fact type_layout configuration specification : DependencyKind

pub data Feasibility : Type 0 where
  unspecified proved_feasible sat maybe untested unsat proved_infeasible unknown : Feasibility

pub data ProofGoalKind : Type 0 where
  unspecified prove refute check : ProofGoalKind

pub data UnknownReasonCode : Type 0 where
  unspecified unresolved_call unknown_alias external_function missing_specification analysis_timeout
        state_explosion unsupported_language_feature inline_assembly dynamic_loading
        unknown_build_configuration :
      UnknownReasonCode

pub data QueryCompleteness : Type 0 where
  unspecified complete truncated : QueryCompleteness

pub data TruncationReason : Type 0 where
  unspecified max_depth max_nodes max_paths max_facts max_provenance_depth max_fact_work
        max_fact_bytes :
      TruncationReason

pub data ClaimKind : Type 0 where
  unspecified buffer_overflow : ClaimKind

pub data Severity : Type 0 where
  unspecified critical high medium low info : Severity
