-- ===== src/Evidence/Completion.antt =====
-- src/evidence/QueryCompletion.cpp: the validation of a completion certificate, with the one of a
-- query's budget from src/evidence/SliceTypes.cpp.
pub mod Certificate
pub mod Tests
use Prim.Native.String.{String}
use veritas.Common.{ℕ, Bool, true, false, not, ◌&&◌, ◌||◌, List, [], ◌∷◌, Bytes, length, ◌==◌}
use veritas.Core.Status.{Status, invalid_argument, require, ◌>>◌}
use veritas.Core.Ids.{StableId}
use veritas.Evidence.Case.Enums.{QueryCompleteness, TruncationReason}

pub record EvidenceQueryBudget : Type 0 where
  pub max_depth : ℕ
  pub max_nodes : ℕ
  pub max_paths : ℕ
  pub max_facts_per_query : ℕ
  pub max_provenance_depth : ℕ

pub record QueryCompletionDescriptor : Type 0 where
  pub query_kind : Bytes
  pub ordered_scope_refs : List StableId
  pub budget : EvidenceQueryBudget
  pub query_implementation_version : Bytes
  pub input_snapshot_fingerprint : Bytes
  pub completeness : QueryCompleteness
  pub ordered_truncation_reasons : List TruncationReason
  pub examined_items : ℕ
  pub returned_member_digest : Bytes

-- The values of the enumerators, which `==` compares.
unfoldable pub completeness_value : QueryCompleteness → ℕ
completeness_value QueryCompleteness.unspecified = 0
completeness_value QueryCompleteness.complete = 1
completeness_value QueryCompleteness.truncated = 2

unfoldable pub reason_value : TruncationReason → ℕ
reason_value TruncationReason.unspecified = 0
reason_value TruncationReason.max_depth = 1
reason_value TruncationReason.max_nodes = 2
reason_value TruncationReason.max_paths = 3
reason_value TruncationReason.max_facts = 4
reason_value TruncationReason.max_provenance_depth = 5
reason_value TruncationReason.max_fact_work = 6
reason_value TruncationReason.max_fact_bytes = 7

-- The inner loop of `HasDuplicate`.
unfoldable pub is_repeated : TruncationReason → List TruncationReason → Bool
unfolding reason_value
is_repeated reason [] = false
is_repeated reason (other ∷ rest) =
    reason_value reason == reason_value other || is_repeated reason rest

-- `HasDuplicate`
unfoldable pub has_duplicate : List TruncationReason → Bool
unfolding is_repeated
has_duplicate [] = false
has_duplicate (reason ∷ rest) = is_repeated reason rest || has_duplicate rest

-- The loop of `ValidateDescriptor`.
unfoldable pub all_specified : List TruncationReason → Bool
unfolding reason_value
all_specified [] = true
all_specified (reason ∷ rest) = not (reason_value reason == 0) && all_specified rest

abbrev invalid_unless : Bool → String → Status
invalid_unless test message = require test invalid_argument message

-- `ValidateEvidenceQueryBudget`
unfoldable pub validate_evidence_query_budget : EvidenceQueryBudget → Status
validate_evidence_query_budget budget =
    invalid_unless (not (budget.max_depth == 0)) "max_depth is zero"
    >> invalid_unless (not (budget.max_nodes == 0)) "max_nodes is zero"
    >> invalid_unless (not (budget.max_paths == 0)) "max_paths is zero"
    >> invalid_unless (not (budget.max_facts_per_query == 0)) "max_facts_per_query is zero"
    >> invalid_unless (not (budget.max_provenance_depth == 0)) "max_provenance_depth is zero"

-- `ValidateDescriptor`
unfoldable pub validate_descriptor : QueryCompletionDescriptor → Status
unfolding completeness_value has_duplicate all_specified validate_evidence_query_budget
validate_descriptor descriptor =
    let stated = completeness_value descriptor.completeness in
    let reasons = descriptor.ordered_truncation_reasons in
    let no_reasons = length reasons == 0 in
    invalid_unless (not (stated == 0)) "completion certificate is unspecified"
    >> validate_evidence_query_budget descriptor.budget
    >> invalid_unless (not (stated == 1 && not no_reasons)) "complete certificate carries reasons"
    >> invalid_unless (not (stated == 2 && no_reasons)) "truncated certificate carries no reason"
    >> invalid_unless (all_specified reasons) "unspecified truncation reason"
    >> invalid_unless (not (has_duplicate reasons)) "duplicate truncation reason"
