-- ===== src/Evidence/Validator/Passes.antt =====
-- A case without issues passes every check.
use mathlib.Core.List.{Memᴰ}
use mathlib.Core.List.Memᴰ.{head, tail}
use veritas.Common.{Bool, true, false, List, [], ◌∷◌, ◌++◌, Bytes, ◌≡◌, refl, ap, ◌∙◌}
use veritas.Evidence.Case.Records.{EvidenceCase}
use veritas.Evidence.Validator.{EvidenceValidationCode, Issues, issue_if, each}
use veritas.Evidence.Validator.Index.{index_members, check_duplicates}
use veritas.Evidence.Validator.States.{
  check_header, check_program_binding, check_primary_claim, check_required_states, check_stable_ids,
}
use veritas.Evidence.Validator.Authority.{check_provenance, check_proof_authority}
use veritas.Evidence.Validator.References.{check_references}
use veritas.Evidence.Validator.Expressions.{check_expressions}
use veritas.Evidence.Validator.Structure.{
  check_paths, check_hypothesis_isolation, check_omission_visibility,
}
use veritas.Evidence.Validator.Run.{validate_evidence_case}

pub none_of_both {ℓ} : {A : Type ℓ} (xs ys : List A) → xs ++ ys ≡ [] → (xs ≡ []) × (ys ≡ [])
none_of_both [] ys h = (refl, h)
none_of_both (x ∷ xs) ys h = cc h

pub issue_if-none :
    (b : Bool) (code : EvidenceValidationCode) (owner : Bytes)
    → issue_if b code owner ≡ []
    → b ≡ false
issue_if-none true code owner h = cc h
issue_if-none false code owner h = refl

pub each-none {ℓ} :
    {A : Type ℓ} (check : A → Issues) {a : A} {xs : List A}
    → each check xs ≡ []
    → Memᴰ a xs
    → check a ≡ []
unfolding each
each-none check {xs = []} h m = elim m [ ]
each-none check {xs = x ∷ xs} h (head e) = ap check e ∙ (none_of_both (check x) (each check xs) h).0
each-none check {xs = x ∷ xs} h (tail m) =
    each-none check (none_of_both (check x) (each check xs) h).1 m

pub record Passes (value : EvidenceCase) : Type 0 where
  pub header : check_header value ≡ []
  pub program : check_program_binding value.program ≡ []
  pub claim : check_primary_claim value.primary_claim ≡ []
  pub duplicates : check_duplicates [] (index_members value) ≡ []
  pub states : check_required_states value ≡ []
  pub provenance : check_provenance value ≡ []
  pub stable_ids : check_stable_ids value ≡ []
  pub authority : check_proof_authority value ≡ []
  pub references : check_references (index_members value) value ≡ []
  pub expressions : check_expressions value ≡ []
  pub paths : check_paths value ≡ []
  pub isolation : check_hypothesis_isolation value ≡ []
  pub omissions : check_omission_visibility (index_members value) value ≡ []

pub validate_evidence_case-Passes :
    (value : EvidenceCase) → validate_evidence_case value ≡ [] → Passes value
unfolding validate_evidence_case
validate_evidence_case-Passes value h =
    let (r_omissions, omissions) = none_of_both _ _ h in
    let (r_isolation, isolation) = none_of_both _ _ r_omissions in
    let (r_paths, paths) = none_of_both _ _ r_isolation in
    let (r_expressions, expressions) = none_of_both _ _ r_paths in
    let (r_references, references) = none_of_both _ _ r_expressions in
    let (r_authority, authority) = none_of_both _ _ r_references in
    let (r_stable_ids, stable_ids) = none_of_both _ _ r_authority in
    let (r_provenance, provenance) = none_of_both _ _ r_stable_ids in
    let (r_states, states) = none_of_both _ _ r_provenance in
    let (r_duplicates, duplicates) = none_of_both _ _ r_states in
    let (r_claim, claim) = none_of_both _ _ r_duplicates in
    let (header, program) = none_of_both _ _ r_claim in
    record {
      header = header;
      program = program;
      claim = claim;
      duplicates = duplicates;
      states = states;
      provenance = provenance;
      stable_ids = stable_ids;
      authority = authority;
      references = references;
      expressions = expressions;
      paths = paths;
      isolation = isolation;
      omissions = omissions;
    }
