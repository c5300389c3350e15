-- ===== src/Evidence/Canonicalizer/Finalize.antt =====
-- `FinalizeEvidenceIdentity`: the identity is set only where every step succeeds.
use mathlib.Core.List.Permᴰ as Permᴰ
use mathlib.Core.Option.{some-injective}
use veritas.Common.{Option, some, ◌≡◌, refl, sym, ap, ◌∙◌, subst, inl, inr}
use veritas.Core.Status.{Status, ok, err, StatusOr-cases, ◌>>=◌}
use veritas.Core.Ids.{StableId}
use veritas.Evidence.Case.Records.{EvidenceCase}
use veritas.Evidence.Canonicalizer.Root.{
  canonical_evidence_value, canonical_evidence_bytes, compute_evidence_id, with_evidence_id,
  finalize_evidence_identity, assign_identity,
}
use veritas.Evidence.Canonicalizer.Reorder.{Reordered, compute_evidence_id-Reordered}

-- What the call leaves behind, for each answer of the validator.
abbrev pub finalized : Status → StableId → EvidenceCase → Status × Option EvidenceCase
finalized (ok _) id value = (ok tt, some (with_evidence_id id value))
finalized (err code message) id value = (err code message, some value)

Reordered-refl : (value : EvidenceCase) → Reordered value value
Reordered-refl value = record {
  schema_version = refl;
  level = refl;
  program = refl;
  analyzer_versions = Permᴰ.refl _;
  primary_claim = refl;
  entities = Permᴰ.refl _;
  edges = Permᴰ.refl _;
  paths = Permᴰ.refl _;
  facts = Permᴰ.refl _;
  assumptions = Permᴰ.refl _;
  hypotheses = Permᴰ.refl _;
  unknowns = Permᴰ.refl _;
  constraints = Permᴰ.refl _;
  provenance = Permᴰ.refl _;
  proof_obligations = Permᴰ.refl _;
  summaries = Permᴰ.refl _;
  dependencies = Permᴰ.refl _;
  omissions = Permᴰ.refl _;
  verification_state = refl;
}

finalize_of_id :
    (require_valid : EvidenceCase → Status) (value : EvidenceCase) (id : StableId)
    → compute_evidence_id value ≡ ok id
    → finalize_evidence_identity require_valid (some value)
      ≡ finalized (require_valid value) id value
unfolding finalize_evidence_identity
finalize_of_id require_valid value id computed =
    ap (λ r. assign_identity (require_valid value >>= λ _. r) value) computed
    ∙ answered (require_valid value)
  where
    answered :
        (answer : Status)
        → assign_identity (answer >>= λ _. ok id) value ≡ finalized answer id value
    answered (ok _) = refl
    answered (err code message) = refl

-- For every validator and every case, the computation of the identity succeeds; the call assigns that
-- identity and changes nothing else where the validator accepts the case, and otherwise returns the
-- validator's error and leaves the case as it was.
pub finalize_evidence_identity_lem :
    (require_valid : EvidenceCase → Status) (value : EvidenceCase)
    → (id : StableId) × (compute_evidence_id value ≡ ok id)
      × (finalize_evidence_identity require_valid (some value)
          ≡ finalized (require_valid value) id value)
finalize_evidence_identity_lem require_valid value =
    let (id, computed, again) = compute_evidence_id-Reordered value value (Reordered-refl value) in
    (id, computed, finalize_of_id require_valid value id computed)

compute_evidence_id-with_evidence_id :
    (id : StableId) (value : EvidenceCase)
    → compute_evidence_id (with_evidence_id id value) ≡ compute_evidence_id value
unfolding compute_evidence_id canonical_evidence_bytes canonical_evidence_value
compute_evidence_id-with_evidence_id id value = refl

finalized-some :
    (answer : Status) (id : StableId) (value result : EvidenceCase)
    → answer ≡ ok tt
    → finalized answer id value ≡ (ok tt, some result)
    → with_evidence_id id value ≡ result
finalized-some (ok _) id value result h e = some-injective _ _ (ap (λ p. p.1) e)
finalized-some (err code message) id value result h e = cc h

-- A call that succeeds leaves the case with an identity that is computed, and only a case that the
-- validator accepts.
pub finalize-ok :
    (require_valid : EvidenceCase → Status) (value result : EvidenceCase)
    → finalize_evidence_identity require_valid (some value) ≡ (ok tt, some result)
    → (id : StableId) × (compute_evidence_id value ≡ ok id)
      × (with_evidence_id id value ≡ result)
      × (require_valid value ≡ ok tt)
finalize-ok require_valid value result first =
    let (id, computed, e) = finalize_evidence_identity_lem require_valid value in
    elim (StatusOr-cases (require_valid value)) [
      | inl (_, accepted) ↦ (
        id,
        computed,
        finalized-some (require_valid value) id value result accepted (sym e ∙ first),
        accepted,
      )
      | inr (code, message, refused) ↦ cc (rw refused at (sym e ∙ first))
    ]

-- Where the validator accepts a case and also the case that has the assigned identity, a second
-- call returns what the first one did.
pub finalize-idempotent :
    (require_valid : EvidenceCase → Status) (value : EvidenceCase) (result : EvidenceCase)
    → finalize_evidence_identity require_valid (some value) ≡ (ok tt, some result)
    → require_valid result ≡ ok tt
    → finalize_evidence_identity require_valid (some result) ≡ (ok tt, some result)
finalize-idempotent require_valid value result first valid =
    let (id, computed, same, accepted) = finalize-ok require_valid value result first in
    subst
      (λ r.
        require_valid r ≡ ok tt
        → finalize_evidence_identity require_valid (some r) ≡ (ok tt, some r))
      same
      (λ v.
        finalize_of_id require_valid (with_evidence_id id value) id
          (compute_evidence_id-with_evidence_id id value ∙ computed)
        ∙ ap (λ a. finalized a id (with_evidence_id id value)) v)
      valid
