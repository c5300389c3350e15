-- ===== src/Evidence/Validator/Index.antt =====
-- src/evidence/EvidenceValidator.cpp: the index of the declared members, and the duplicates in it.
use veritas.Common.{
  Bool, false, ◌||◌, List, [], ◌∷◌, ◌++◌, Bytes, bytes_eq, if◌then◌else◌, Option, none, some,
}
use veritas.Evidence.Case.Records.{EvidenceCase}
use veritas.Evidence.Validator.{duplicate_local_id, Issues, issue, is_empty}

pub data MemberKind : Type 0 where
  claim entity edge path fact assumption hypothesis unknown constraint provenance : MemberKind
  proof_obligation summary dependency omission : MemberKind

abbrev pub Declarations : Type 0
Declarations = List (Bytes × MemberKind)

-- `Declare`
abbrev pub declare : MemberKind → Bytes → Declarations → Declarations
declare kind id later = if is_empty id then later else (id, kind) ∷ later

-- One loop of `IndexMembers`, with what the later loops declare.
unfoldable pub declare_each {ℓ} :
    {A : Type ℓ} → MemberKind → (A → Bytes) → List A → Declarations → Declarations
declare_each kind id_of [] later = later
declare_each kind id_of (a ∷ rest) later =
    declare kind (id_of a) (declare_each kind id_of rest later)

-- `IndexMembers`: `declarations_`. The map `members_` keeps the first declaration of each identifier.
unfoldable pub index_members : EvidenceCase → Declarations
index_members value = declare claim value.primary_claim.id (
    declare_each entity (λ e. e.id) value.entities
      (declare_each edge (λ e. e.id) value.edges
        (declare_each path (λ p. p.id) value.paths
          (declare_each fact (λ f. f.id) value.facts
            (declare_each assumption (λ a. a.id) value.assumptions
              (declare_each hypothesis (λ h. h.id) value.hypotheses
                (declare_each unknown (λ u. u.id) value.unknowns
                  (declare_each constraint (λ c. c.id) value.constraints
                    (declare_each provenance (λ p. p.id) value.provenance
                      (declare_each proof_obligation (λ p. p.id) value.proof_obligations
                        (declare_each summary (λ s. s.id) value.summaries
                          (declare_each dependency (λ d. d.id) value.dependencies
                            (declare_each omission (λ o. o.id) value.omissions [])))))))))))))

-- `members_.find(id)`
unfoldable pub find_member : Bytes → Declarations → Option MemberKind
find_member id [] = none
find_member id ((name, kind) ∷ rest) = if bytes_eq id name then some kind else find_member id rest

-- `seen.emplace(...)` finds the identifier that is there already.
unfoldable pub is_seen : Bytes → List Bytes → Bool
is_seen id [] = false
is_seen id (name ∷ rest) = bytes_eq id name || is_seen id rest

-- `CheckDuplicateLocalIds`, on the identifiers that are seen.
unfoldable pub check_duplicates : List Bytes → Declarations → Issues
unfolding is_seen
check_duplicates seen [] = []
check_duplicates seen ((id, kind) ∷ rest) =
    let later = check_duplicates (id ∷ seen) rest in
    if is_seen id seen then issue duplicate_local_id id ++ later else later
