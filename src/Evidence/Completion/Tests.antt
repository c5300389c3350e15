-- ===== src/Evidence/Completion/Tests.antt =====
-- Examples of src/evidence/QueryCompletion.cpp: a truncated certificate.
use veritas.Common.{[], ◌∷◌, codes, ◌≡◌, ◌↔◌, refl}
use veritas.Core.Status.{ok, err, invalid_argument}
use veritas.Evidence.Case.Enums.{QueryCompleteness, TruncationReason}
use veritas.Evidence.Completion.{
  EvidenceQueryBudget, QueryCompletionDescriptor, validate_descriptor, completeness_value,
  reason_value, is_repeated, has_duplicate, all_specified, validate_evidence_query_budget,
}
use veritas.Evidence.Completion.Certificate.{IsCertificate, validate_descriptor_iff}

abbrev small_budget : EvidenceQueryBudget
small_budget = record {
  max_depth = 4;
  max_nodes = 100;
  max_paths = 10;
  max_facts_per_query = 50;
  max_provenance_depth = 3;
}

abbrev truncated_twice : QueryCompletionDescriptor
truncated_twice = record {
  query_kind = codes "reachability";
  ordered_scope_refs = [];
  budget = small_budget;
  query_implementation_version = codes "1";
  input_snapshot_fingerprint = codes "f00d";
  completeness = QueryCompleteness.truncated;
  ordered_truncation_reasons = TruncationReason.max_depth ∷ TruncationReason.max_paths ∷ [];
  examined_items = 12;
  returned_member_digest = codes "beef";
}

-- The same reason twice.
abbrev repeated : QueryCompletionDescriptor
repeated = record {
  query_kind = codes "reachability";
  ordered_scope_refs = [];
  budget = small_budget;
  query_implementation_version = codes "1";
  input_snapshot_fingerprint = codes "f00d";
  completeness = QueryCompleteness.truncated;
  ordered_truncation_reasons = TruncationReason.max_depth ∷ TruncationReason.max_depth ∷ [];
  examined_items = 12;
  returned_member_digest = codes "beef";
}

repeated_refused : validate_descriptor repeated ≡ err invalid_argument "duplicate truncation reason"
unfolding validate_descriptor completeness_value reason_value is_repeated has_duplicate
    all_specified validate_evidence_query_budget
repeated_refused = refl

validate_descriptor_iff_example :
    (validate_descriptor truncated_twice ≡ ok tt) ↔ IsCertificate truncated_twice
validate_descriptor_iff_example = validate_descriptor_iff truncated_twice
