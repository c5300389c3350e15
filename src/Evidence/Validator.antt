-- ===== src/Evidence/Validator.antt =====
-- src/evidence/EvidenceValidator.cpp: what makes an evidence case well formed. An issue is its code
-- and the member it is about; its message is left out.
pub mod Index
pub mod States
pub mod Authority
pub mod References
pub mod Structure
pub mod Expressions
pub mod Run
pub mod Passes
pub mod Members
pub mod Graph
pub mod Domain
pub mod Verified
pub mod Contract
pub mod Typing
pub mod Accepted
pub mod Finalize
pub mod Tests
use veritas.Common.{Bool, true, false, not, List, [], ◌∷◌, ◌++◌, Bytes, if◌then◌else◌}

pub data EvidenceValidationCode : Type 0 where
  schema_version missing_program_context primary_claim_count duplicate_local_id :
      EvidenceValidationCode
  dangling_reference missing_epistemic missing_provenance expression_type : EvidenceValidationCode
  path_disconnected invalid_stable_id mixed_program_context : EvidenceValidationCode
  hypothesis_authority verification_producer hidden_omission : EvidenceValidationCode

pub record EvidenceValidationIssue : Type 0 where
  pub code : EvidenceValidationCode
  pub member_id : Bytes

abbrev pub Issues : Type 0
Issues = List EvidenceValidationIssue

-- `Add`
abbrev pub issue : EvidenceValidationCode → Bytes → Issues
issue code member_id = record { code = code; member_id = member_id } ∷ []

-- `if (b) Add(...)`
abbrev pub issue_if : Bool → EvidenceValidationCode → Bytes → Issues
issue_if true code member_id = issue code member_id
issue_if false code member_id = []

-- The issues of each element of a loop, in order.
unfoldable pub each {ℓ} : {A : Type ℓ} → (A → Issues) → List A → Issues
each check [] = []
each check (a ∷ rest) = check a ++ each check rest

-- `empty()`
abbrev pub is_empty : Bytes → Bool
is_empty [] = true
is_empty (_ ∷ _) = false
