-- ===== src/Evidence/Validator/Graph.antt =====
-- Edges join declared entities, and paths follow edges of their relation.
use mathlib.Core.List.{Memᴰ}
use mathlib.Core.List.Memᴰ.{head, tail}
use veritas.Common.{
  ◌≤◌, Bool, true, false, not, List, [], ◌∷◌, Bytes, length, get_or, bytes_eq_iff, ==_iff, ltb,
  some, ◌≡◌, refl, sym, ap, ◌∙◌, inl, inr, Bool-cases, both_true, one_true, arith,
}
use veritas.Evidence.Case.Enums.{RelationKind, PathKind}
use veritas.Evidence.Case.Records.{Edge, EvidencePath, EvidenceCase}
use veritas.Evidence.Validator.{missing_epistemic, path_disconnected, each}
use veritas.Evidence.Validator.Index.{MemberKind, Declarations, index_members, find_member}
use veritas.Evidence.Validator.States.{path_kind_is_unspecified, check_required_states}
use veritas.Evidence.Validator.References.{resolve_entity, check_edge, check_references}
use veritas.Evidence.Validator.Structure.{
  relation_value, relation_for_path_kind, is_required, has_segment, check_segments, check_path,
  check_paths,
}
use veritas.Evidence.Validator.Run.{validate_evidence_case}
use veritas.Evidence.Validator.Passes.{
  none_of_both, issue_if-none, each-none, validate_evidence_case-Passes,
}
use veritas.Evidence.Validator.Members.{DeclaresEntity, find_member-DeclaresEntity}

pub not_false : (b : Bool) → not b ≡ false → b ≡ true
not_false true h = refl
not_false false h = cc h

resolve_entity_sound :
    (members : Declarations) (id owner : Bytes)
    → resolve_entity members id owner ≡ []
    → find_member id members ≡ some MemberKind.entity
unfolding resolve_entity
resolve_entity_sound members id owner h = ground arith

check_references-edges :
    (members : Declarations) (value : EvidenceCase)
    → check_references members value ≡ []
    → each (check_edge members) value.edges ≡ []
unfolding check_references
check_references-edges members value h =
    let (r1, _) = none_of_both _ _ h in
    let (r2, _) = none_of_both _ _ r1 in
    let (r3, _) = none_of_both _ _ r2 in
    let (r4, _) = none_of_both _ _ r3 in
    let (r5, _) = none_of_both _ _ r4 in
    let (r6, _) = none_of_both _ _ r5 in
    let (r7, _) = none_of_both _ _ r6 in
    let (r8, _) = none_of_both _ _ r7 in
    let (r9, _) = none_of_both _ _ r8 in
    let (r10, _) = none_of_both _ _ r9 in (none_of_both _ _ r10).1

check_edge-ends :
    (members : Declarations) (e : Edge)
    → check_edge members e ≡ []
    → (find_member e.from members ≡ some MemberKind.entity)
      × (find_member e.to members ≡ some MemberKind.entity)
unfolding check_edge
check_edge-ends members e h =
    let (r1, _) = none_of_both _ _ h in
    let (r2, _) = none_of_both _ _ r1 in
    let (from, to) = none_of_both _ _ r2 in
    (resolve_entity_sound members e.from e.id from, resolve_entity_sound members e.to e.id to)

-- In a case without issues both ends of every edge are identifiers of entities of the case.
pub validate_evidence_case-edges :
    (value : EvidenceCase) (e : Edge)
    → validate_evidence_case value ≡ []
    → Memᴰ e value.edges
    → DeclaresEntity value e.from × DeclaresEntity value e.to
validate_evidence_case-edges value e h m =
    let passes = validate_evidence_case-Passes value h in
    let members = index_members value in
    let checked = check_references-edges members value passes.references in
    let (from, to) = check_edge-ends members e (each-none (check_edge members) checked m) in
    (find_member-DeclaresEntity value e.from from, find_member-DeclaresEntity value e.to to)

abbrev relations : List RelationKind
relations =
    RelationKind.unspecified ∷ RelationKind.calls ∷ RelationKind.flows_to ∷ RelationKind.reads
    ∷ RelationKind.writes ∷ RelationKind.dominates ∷ RelationKind.may_alias ∷ []

relations-relation_value :
    (k : RelationKind) → get_or relations (relation_value k) RelationKind.unspecified ≡ k
relations-relation_value RelationKind.unspecified = refl
relations-relation_value _ = refl

relation_value-injective : (k l : RelationKind) → relation_value k ≡ relation_value l → k ≡ l
relation_value-injective k l h =
    sym (relations-relation_value k)
    ∙ ap (λ n. get_or relations n RelationKind.unspecified) h
    ∙ relations-relation_value l

-- An edge of the case leads from one entity to the other, of the relation that paths of the kind follow.
abbrev pub Joined : List Edge → PathKind → Bytes → Bytes → Type 0
Joined edges kind from to =
    (e : Edge) × Memᴰ e edges
    × (e.from ≡ from)
    × (e.to ≡ to)
    × (relation_for_path_kind kind ≡ some e.kind)

-- Each of the identifiers is joined to the next one.
abbrev pub Connected : List Edge → PathKind → List Bytes → Type 0
Connected edges kind [] = Unit
Connected edges kind (from ∷ []) = Unit
Connected edges kind (from ∷ to ∷ rest) =
    Joined edges kind from to × Connected edges kind (to ∷ rest)

is_required_sound :
    (kind : PathKind) (k : RelationKind)
    → path_kind_is_unspecified kind ≡ false
    → is_required (relation_for_path_kind kind) k ≡ true
    → relation_for_path_kind kind ≡ some k
is_required_sound PathKind.unspecified k declared h = cc declared
is_required_sound PathKind.call k declared h =
    ap some (sym (relation_value-injective k RelationKind.calls ((==_iff _ _).0 h)))
is_required_sound PathKind.value_flow k declared h =
    ap some (sym (relation_value-injective k RelationKind.flows_to ((==_iff _ _).0 h)))
is_required_sound PathKind.control k declared h =
    ap some (sym (relation_value-injective k RelationKind.dominates ((==_iff _ _).0 h)))

module _ (kind : PathKind) (declared : path_kind_is_unspecified kind ≡ false) where
  has_segment_sound :
      (edges : List Edge) (from to : Bytes)
      → has_segment edges kind from to ≡ true
      → Joined edges kind from to
  unfolding has_segment
  has_segment_sound [] from to h = cc h
  has_segment_sound (e ∷ rest) from to h = elim (one_true _ _ h) [
    | inl here ↦
        let (ends, required) = both_true _ _ here in
        let (source, target) = both_true _ _ ends in
        (
          e,
          head refl,
          (bytes_eq_iff e.from from).0 source,
          (bytes_eq_iff e.to to).0 target,
          is_required_sound kind e.kind declared required,
        )
    | inr there ↦
        let (f, m, source, target, required) = has_segment_sound rest from to there in
        (f, tail m, source, target, required)
  ]

  check_segments_sound :
      (edges : List Edge) (p : EvidencePath) (ids : List Bytes)
      → p.kind ≡ kind
      → check_segments edges p ids ≡ []
      → Connected edges kind ids
  unfolding check_segments
  check_segments_sound edges p [] same h = tt
  check_segments_sound edges p (from ∷ []) same h = tt
  check_segments_sound edges p (from ∷ to ∷ rest) same h =
      let (here, there) = none_of_both _ _ h in
      let found =
        not_false (has_segment edges p.kind from to)
          (issue_if-none _ path_disconnected p.id here) in
      (
        has_segment_sound edges from to (ap (λ k. has_segment edges k from to) (sym same) ∙ found),
        check_segments_sound edges p (to ∷ rest) same there,
      )

check_path_sound :
    (edges : List Edge) (p : EvidencePath)
    → path_kind_is_unspecified p.kind ≡ false
    → check_path edges p ≡ []
    → (2 ≤ length p.entity_ids) × Connected edges p.kind p.entity_ids
unfolding check_path
check_path_sound edges p declared h = elim (Bool-cases (ltb (length p.entity_ids) 2)) [
  | inl short ↦ cc (rw short at h)
  | inr long ↦
      (ground arith, check_segments_sound p.kind declared edges p p.entity_ids refl (rw long at h))
]

check_required_states-path :
    (value : EvidenceCase) (p : EvidencePath)
    → check_required_states value ≡ []
    → Memᴰ p value.paths
    → path_kind_is_unspecified p.kind ≡ false
unfolding check_required_states
check_required_states-path value p h m =
    let (r1, _) = none_of_both _ _ h in
    let (r2, _) = none_of_both _ _ r1 in
    let (r3, _) = none_of_both _ _ r2 in
    let (r4, _) = none_of_both _ _ r3 in
    let (r5, _) = none_of_both _ _ r4 in
    let (_, paths) = none_of_both _ _ r5 in
    let (kind, _) = none_of_both _ _ (each-none _ paths m) in
    issue_if-none _ missing_epistemic p.id kind

-- In a case without issues every path has two entities at least, and each of its entities is joined
-- to the next one by an edge of the case, of the relation that the path's kind follows.
pub validate_evidence_case-Connected :
    (value : EvidenceCase) (p : EvidencePath)
    → validate_evidence_case value ≡ []
    → Memᴰ p value.paths
    → (2 ≤ length p.entity_ids) × Connected value.edges p.kind p.entity_ids
unfolding check_paths
validate_evidence_case-Connected value p h m =
    let passes = validate_evidence_case-Passes value h in
    check_path_sound value.edges p (check_required_states-path value p passes.states m)
      (each-none (check_path value.edges) passes.paths m)
