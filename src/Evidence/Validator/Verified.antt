-- ===== src/Evidence/Validator/Verified.antt =====
-- What backs the verification state of a case without issues, and what its hypotheses may feed.
use mathlib.Core.List.{Memᴰ}
use mathlib.Core.List.Memᴰ.{head, tail}
use veritas.Common.{
  true, false, not, ◌&&◌, List, [], ◌∷◌, Bytes, ◌==◌, ◌≡◌, refl, inl, inr, Bool-cases, both_true,
  one_true, arith,
}
use veritas.Evidence.Case.Records.{ProofObligation, EvidenceCase}
use veritas.Evidence.Validator.{verification_producer, is_empty}
use veritas.Evidence.Validator.Authority.{
  is_decided, is_proved, is_prove_goal, is_verified_safe, is_verified_state, names_result,
  conclusive_results, admits_execution, admits_domain, check_proof_authority,
}
use veritas.Evidence.Case.Enums.{ProofStatus, ProofGoalKind}
use veritas.Evidence.Validator.Domain.{HasDomain}
use veritas.Evidence.Validator.Domain.Search.{has_execution_domain_argument-HasDomain}
use veritas.Evidence.Validator.Run.{validate_evidence_case}
use veritas.Evidence.Validator.Graph.{not_false}
use veritas.Evidence.Validator.Passes.{none_of_both, issue_if-none, validate_evidence_case-Passes}

-- A proved or refuted obligation that names its result and the producer of its verification.
abbrev pub DecidedObligation : List ProofObligation → Type 0
DecidedObligation obligations =
    (o : ProofObligation) × Memᴰ o obligations
    × (is_decided o.status ≡ true)
    × ¬ (o.result_id ≡ [])
    × ¬ (o.verification_producer ≡ [])

not_empty : (text : Bytes) → is_empty text ≡ false → ¬ (text ≡ [])
not_empty [] h e = cc h
not_empty (x ∷ text) h e = cc e

names_result_sound :
    (o : ProofObligation)
    → names_result o ≡ true
    → ¬ (o.result_id ≡ []) × ¬ (o.verification_producer ≡ [])
names_result_sound o h =
    (not_empty o.result_id (ground arith), not_empty o.verification_producer (ground arith))

conclusive_results-DecidedObligation :
    (obligations : List ProofObligation)
    → conclusive_results obligations == 0 ≡ false
    → DecidedObligation obligations
unfolding conclusive_results
conclusive_results-DecidedObligation [] h = cc h
conclusive_results-DecidedObligation (o ∷ rest) h =
    let later = conclusive_results-DecidedObligation rest in
    elim (Bool-cases (is_decided o.status && names_result o)) [
      | inl here ↦
          let (decided, names) = both_true _ _ here in
          let (result, producer) = names_result_sound o names in
          (o, head refl, decided, result, producer)
      | inr other ↦
          let (d, m, decided, result, producer) = later (rw other at h) in
          (d, tail m, decided, result, producer)
    ]

-- A case without issues that claims to be verified, as a defect or as safe, has an obligation that is
-- proved or refuted, with a result and a producer of its verification.
pub validate_evidence_case-DecidedObligation :
    (value : EvidenceCase)
    → validate_evidence_case value ≡ []
    → is_verified_state value.verification_state ≡ true
    → DecidedObligation value.proof_obligations
unfolding check_proof_authority
validate_evidence_case-DecidedObligation value h verified =
    let (_, backed) = none_of_both _ _ (validate_evidence_case-Passes value h).authority in
    let tested : is_verified_state value.verification_state
          && conclusive_results value.proof_obligations == 0
        ≡ false =
      issue_if-none _ verification_producer [] backed in
    conclusive_results-DecidedObligation value.proof_obligations (rw verified at tested)

-- A proved obligation with a named result, whose predicate argues for its execution domain.
abbrev pub AdmittedDomain : List ProofObligation → Type 0
AdmittedDomain obligations =
    (o : ProofObligation) × Memᴰ o obligations
    × (o.goal_kind ≡ ProofGoalKind.prove)
    × (o.status ≡ ProofStatus.proved)
    × ¬ (o.result_id ≡ [])
    × ¬ (o.verification_producer ≡ [])
    × HasDomain o.predicate

is_prove : (k : ProofGoalKind) → is_prove_goal k ≡ true → k ≡ ProofGoalKind.prove
is_prove ProofGoalKind.prove h = refl
is_prove _ h = cc h

is_proved_sound : (s : ProofStatus) → is_proved s ≡ true → s ≡ ProofStatus.proved
is_proved_sound ProofStatus.proved h = refl
is_proved_sound _ h = cc h

admits_execution_sound :
    (o : ProofObligation)
    → admits_execution o ≡ true
    → (o.goal_kind ≡ ProofGoalKind.prove)
      × (o.status ≡ ProofStatus.proved)
      × ¬ (o.result_id ≡ [])
      × ¬ (o.verification_producer ≡ [])
      × HasDomain o.predicate
unfolding admits_execution
admits_execution_sound o h = (
  is_prove o.goal_kind (ground arith),
  is_proved_sound o.status (ground arith),
  not_empty o.result_id (ground arith),
  not_empty o.verification_producer (ground arith),
  has_execution_domain_argument-HasDomain o.predicate (ground arith),
)

admits_domain-AdmittedDomain :
    (obligations : List ProofObligation)
    → admits_domain obligations ≡ true
    → AdmittedDomain obligations
unfolding admits_domain
admits_domain-AdmittedDomain [] h = cc h
admits_domain-AdmittedDomain (o ∷ rest) h =
    elim (one_true (admits_execution o) (admits_domain rest) h) [
      | inl here ↦
          let (goal, proved, result, producer, domain) = admits_execution_sound o here in
          (o, head refl, goal, proved, result, producer, domain)
      | inr there ↦
          let (p, m, goal, proved, result, producer, domain) =
            admits_domain-AdmittedDomain rest there in
          (p, tail m, goal, proved, result, producer, domain)
    ]

-- A case without issues that claims to be verified safe has an obligation to prove a predicate that is
-- proved, with a result and a producer of its verification, and whose predicate is a conjunction
-- that has among its parts, for the same source and sink, a quantifier over `feasible_paths`, the
-- call `execution_domain_complete`, and the disjunction of `exists` over that domain and of the call
-- `entry_infeasible`.
pub validate_evidence_case-AdmittedDomain :
    (value : EvidenceCase)
    → validate_evidence_case value ≡ []
    → is_verified_safe value.verification_state ≡ true
    → AdmittedDomain value.proof_obligations
unfolding check_proof_authority
validate_evidence_case-AdmittedDomain value h safe =
    let (r1, _) = none_of_both _ _ (validate_evidence_case-Passes value h).authority in
    let (_, domain) = none_of_both _ _ r1 in
    let tested : is_verified_safe value.verification_state
          && not (admits_domain value.proof_obligations)
        ≡ false =
      issue_if-none _ verification_producer [] domain in
    admits_domain-AdmittedDomain value.proof_obligations (not_false _ (rw safe at tested))
