-- ===== src/Evidence/Validator/Members.antt =====
-- The index of a case: identifiers are declared once, and what is found is a member.
use mathlib.Core.List.{Memᴰ}
use mathlib.Core.List.Memᴰ.{head, tail}
use mathlib.Core.Option.{some-injective}
use veritas.Common.{
  true, false, List, [], ◌∷◌, map, Bytes, bytes_eq, bytes_eq_iff, some, ◌≡◌, refl, sym, ap, subst,
  ◌++◌, if◌then◌else◌, ◌⊎◌, ◌≢◌, inl, inr, Bool-cases, arith,
}
use veritas.Evidence.Case.Records.{Entity, EvidenceCase}
use veritas.Evidence.Validator.{is_empty}
use veritas.Evidence.Validator.Index.{
  MemberKind, entity, edge, path, fact, assumption, hypothesis, unknown, constraint, provenance,
  proof_obligation, summary, dependency, omission, Declarations, declare_each, index_members,
  find_member, is_seen, check_duplicates,
}
use veritas.Evidence.Validator.Run.{validate_evidence_case}
use veritas.Evidence.Validator.Passes.{validate_evidence_case-Passes}

-- No identifier stands in the list twice.
abbrev pub Distinct : List Bytes → Type 0
Distinct [] = Unit
Distinct (id ∷ rest) = ¬ (Memᴰ id rest) × Distinct rest

-- The identifiers in a list that are not empty.
abbrev pub named : List Bytes → List Bytes
named [] = []
named (id ∷ rest) = if is_empty id then named rest else id ∷ named rest

-- The identifiers of all members of a case, of the claim and of every collection.
abbrev pub local_ids : EvidenceCase → List Bytes
local_ids value =
    value.primary_claim.id
    ∷ (map (λ e. e.id) value.entities
        ++ (map (λ e. e.id) value.edges
            ++ (map (λ p. p.id) value.paths
                ++ (map (λ f. f.id) value.facts
                    ++ (map (λ a. a.id) value.assumptions
                        ++ (map (λ h. h.id) value.hypotheses
                            ++ (map (λ u. u.id) value.unknowns
                                ++ (map (λ c. c.id) value.constraints
                                    ++ (map (λ p. p.id) value.provenance
                                        ++ (map (λ p. p.id) value.proof_obligations
                                            ++ (map (λ s. s.id) value.summaries
                                                ++ (map (λ d. d.id) value.dependencies
                                                    ++ (map (λ o. o.id) value.omissions
                                                        ++ [])))))))))))))

is_seen-Memᴰ : (id : Bytes) (seen : List Bytes) → Memᴰ id seen → is_seen id seen ≡ true
unfolding is_seen
is_seen-Memᴰ id [] m = elim m [ ]
is_seen-Memᴰ id (x ∷ seen) (head e) = let same = (bytes_eq_iff id x).1 e in ground arith
is_seen-Memᴰ id (x ∷ seen) (tail m) = let later = is_seen-Memᴰ id seen m in ground arith

abbrev ids_of : Declarations → List Bytes
ids_of ds = map (λ d. d.0) ds

abbrev Apart : List Bytes → List Bytes → Type 0
Apart ids seen = (id : Bytes) → Memᴰ id ids → ¬ (Memᴰ id seen)

Apart-cons :
    (name : Bytes) (ids seen : List Bytes)
    → is_seen name seen ≡ false
    → Apart ids (name ∷ seen)
    → Apart (name ∷ ids) seen
Apart-cons name ids seen fresh apart id (head e) s =
    let found = is_seen-Memᴰ name seen (subst (λ x. Memᴰ x seen) e s) in cc (fresh, found)
Apart-cons name ids seen fresh apart id (tail m) s = apart id m (tail s)

-- What the duplicates pass leaves without an issue is distinct, and apart from what was seen.
check_duplicates_sound :
    (seen : List Bytes) (ds : Declarations)
    → check_duplicates seen ds ≡ []
    → Distinct (ids_of ds) × Apart (ids_of ds) seen
unfolding check_duplicates
check_duplicates_sound seen [] h = (tt, λ id m. elim m [ ])
check_duplicates_sound seen ((name, kind) ∷ rest) h = elim (Bool-cases (is_seen name seen)) [
  | inl found ↦ cc (rw found at h)
  | inr fresh ↦
      let (distinct, apart) = check_duplicates_sound (name ∷ seen) rest (rw fresh at h) in
      ((λ m. apart name m (head refl), distinct), Apart-cons name (ids_of rest) seen fresh apart)
]

-- A declared family adds its identifiers, in front of those of the later families.
ids_of-declare_each {ℓ} :
    {A : Type ℓ} (kind : MemberKind) (id_of : A → Bytes) (xs : List A) (later : Declarations)
    (rest : List Bytes)
    → ids_of later ≡ named rest
    → ids_of (declare_each kind id_of xs later) ≡ named (map id_of xs ++ rest)
unfolding declare_each
ids_of-declare_each kind id_of [] later rest e = e
ids_of-declare_each kind id_of (x ∷ xs) later rest e =
    let further = ids_of-declare_each kind id_of xs later rest e in
    elim (Bool-cases (is_empty (id_of x))) [
      | inl none ↦ rw none further
      | inr some_id ↦ rw some_id (ap (λ ids. id_of x ∷ ids) further)
    ]

ids_of-index_members :
    (value : EvidenceCase) → ids_of (index_members value) ≡ named (local_ids value)
unfolding index_members
ids_of-index_members value =
    let all =
      ids_of-declare_each entity (λ e. e.id) value.entities _ _
        (ids_of-declare_each edge (λ e. e.id) value.edges _ _
          (ids_of-declare_each path (λ p. p.id) value.paths _ _
            (ids_of-declare_each fact (λ f. f.id) value.facts _ _
              (ids_of-declare_each assumption (λ a. a.id) value.assumptions _ _
                (ids_of-declare_each hypothesis (λ h. h.id) value.hypotheses _ _
                  (ids_of-declare_each unknown (λ u. u.id) value.unknowns _ _
                    (ids_of-declare_each constraint (λ c. c.id) value.constraints _ _
                      (ids_of-declare_each provenance (λ p. p.id) value.provenance _ _
                        (ids_of-declare_each proof_obligation (λ p. p.id) value.proof_obligations _
                          _
                          (ids_of-declare_each summary (λ s. s.id) value.summaries _ _
                            (ids_of-declare_each dependency (λ d. d.id) value.dependencies _ _
                              (ids_of-declare_each omission (λ o. o.id) value.omissions _ _
                                refl)))))))))))) in
    elim (Bool-cases (is_empty value.primary_claim.id)) [
      | inl none ↦ rw none all
      | inr some_id ↦ rw some_id (ap (λ ids. value.primary_claim.id ∷ ids) all)
    ]

-- In a case without issues the identifiers of the claim and of the members of all thirteen
-- collections, as far as they are not empty, are different.
pub validate_evidence_case-Distinct :
    (value : EvidenceCase) → validate_evidence_case value ≡ [] → Distinct (named (local_ids value))
validate_evidence_case-Distinct value h =
    subst Distinct (ids_of-index_members value)
      (check_duplicates_sound [] (index_members value)
        (validate_evidence_case-Passes value h).duplicates).0

module _ {ℓ} {A : Type ℓ} (kind found : MemberKind) (id_of : A → Bytes) (later : Declarations)
    (id : Bytes) where
  -- What one loop of the index declares, or what a later one does.
  abbrev DeclaredBy : List A → Type ℓ
  DeclaredBy xs =
      ((a : A) × Memᴰ a xs × (id_of a ≡ id) × (kind ≡ found)) ⊎ (find_member id later ≡ some found)

  further : (a : A) (rest : List A) → DeclaredBy rest → DeclaredBy (a ∷ rest)
  further a rest (inl (b, m, e, k)) = inl (b, tail m, e, k)
  further a rest (inr l) = inr l

  find_member-declare_each :
      (xs : List A) → find_member id (declare_each kind id_of xs later) ≡ some found → DeclaredBy xs
  unfolding declare_each find_member
  find_member-declare_each [] h = inr h
  find_member-declare_each (a ∷ rest) h =
      let next = find_member-declare_each rest in
      elim (Bool-cases (is_empty (id_of a))) [
        | inl empty ↦ further a rest (next (rw empty at h))
        | inr named ↦ elim (Bool-cases (bytes_eq id (id_of a))) [
          | inl same ↦ inl (
            a,
            head refl,
            sym ((bytes_eq_iff id (id_of a)).0 same),
            some-injective _ _ (rw (named, same) at h),
          )
          | inr other ↦ further a rest (next (rw (named, other) at h))
        ]
      ]

  -- A loop that declares members of another kind is passed over.
  find_member-other :
      (xs : List A)
      → kind ≢ found
      → find_member id (declare_each kind id_of xs later) ≡ some found
      → find_member id later ≡ some found
  find_member-other xs other h = elim (find_member-declare_each xs h) [
    | inl (a, m, e, same) ↦ absurd (other same)
    | inr l ↦ l
  ]

nothing_found : (id : Bytes) (found : MemberKind) → ¬ (find_member id [] ≡ some found)
unfolding find_member
nothing_found id found h = cc h

abbrev pub DeclaresEntity : EvidenceCase → Bytes → Type 0
DeclaresEntity value id = (e : Entity) × Memᴰ e value.entities × (e.id ≡ id)

-- An identifier that is found as an entity's is the identifier of an entity of the case.
pub find_member-DeclaresEntity :
    (value : EvidenceCase) (id : Bytes)
    → find_member id (index_members value) ≡ some MemberKind.entity
    → DeclaresEntity value id
unfolding index_members declare_each
find_member-DeclaresEntity value id h =
    let past_claim =
      find_member-other MemberKind.claim MemberKind.entity (λ c. c.id) _ id
        (value.primary_claim ∷ []) (λ e. cc e) h in
    elim (find_member-declare_each MemberKind.entity MemberKind.entity (λ e. e.id) _ id
      value.entities past_claim) [
        | inl (e, m, same, _) ↦ (e, m, same)
        | inr h0 ↦
            let h1 =
              find_member-other MemberKind.edge MemberKind.entity (λ m. m.id) _ id value.edges
                (λ e. cc e) h0 in
            let h2 =
              find_member-other MemberKind.path MemberKind.entity (λ m. m.id) _ id value.paths
                (λ e. cc e) h1 in
            let h3 =
              find_member-other MemberKind.fact MemberKind.entity (λ m. m.id) _ id value.facts
                (λ e. cc e) h2 in
            let h4 =
              find_member-other MemberKind.assumption MemberKind.entity (λ m. m.id) _ id
                value.assumptions (λ e. cc e) h3 in
            let h5 =
              find_member-other MemberKind.hypothesis MemberKind.entity (λ m. m.id) _ id
                value.hypotheses (λ e. cc e) h4 in
            let h6 =
              find_member-other MemberKind.unknown MemberKind.entity (λ m. m.id) _ id value.unknowns
                (λ e. cc e) h5 in
            let h7 =
              find_member-other MemberKind.constraint MemberKind.entity (λ m. m.id) _ id
                value.constraints (λ e. cc e) h6 in
            let h8 =
              find_member-other MemberKind.provenance MemberKind.entity (λ m. m.id) _ id
                value.provenance (λ e. cc e) h7 in
            let h9 =
              find_member-other MemberKind.proof_obligation MemberKind.entity (λ m. m.id) _ id
                value.proof_obligations (λ e. cc e) h8 in
            let h10 =
              find_member-other MemberKind.summary MemberKind.entity (λ m. m.id) _ id
                value.summaries (λ e. cc e) h9 in
            let h11 =
              find_member-other MemberKind.dependency MemberKind.entity (λ m. m.id) _ id
                value.dependencies (λ e. cc e) h10 in
            let h12 =
              find_member-other MemberKind.omission MemberKind.entity (λ m. m.id) _ id
                value.omissions (λ e. cc e) h11 in
            absurd (nothing_found id MemberKind.entity h12)
      ]
