-- ===== src/Evidence/Validator/Structure.antt =====
-- src/evidence/EvidenceValidator.cpp: the segments of paths, the isolation of hypotheses, and the
-- visibility of omissions.
use veritas.Common.{
  ℕ, Bool, true, false, not, ◌&&◌, ◌||◌, List, [], ◌∷◌, ◌++◌, Bytes, length, bytes_eq, ◌==◌, ltb,
  if◌then◌else◌, Option, none, some,
}
use veritas.Evidence.Case.Enums.{RelationKind, PathKind}
use veritas.Evidence.Case.Records.{Edge, EvidencePath, Hypothesis, Unknown, Omission, EvidenceCase}
use veritas.Evidence.Validator.{
  path_disconnected, hypothesis_authority, hidden_omission, Issues, issue, issue_if, each, is_empty,
}
use veritas.Evidence.Validator.Index.{MemberKind, Declarations, find_member}
use veritas.Evidence.Validator.Authority.{is_interrupted_query}

-- The enumerators' numbers, by which they are compared.
abbrev pub relation_value : RelationKind → ℕ
relation_value RelationKind.unspecified = 0
relation_value RelationKind.calls = 1
relation_value RelationKind.flows_to = 2
relation_value RelationKind.reads = 3
relation_value RelationKind.writes = 4
relation_value RelationKind.dominates = 5
relation_value RelationKind.may_alias = 6

-- `RelationForPathKind`
abbrev pub relation_for_path_kind : PathKind → Option RelationKind
relation_for_path_kind PathKind.unspecified = none
relation_for_path_kind PathKind.call = some RelationKind.calls
relation_for_path_kind PathKind.value_flow = some RelationKind.flows_to
relation_for_path_kind PathKind.control = some RelationKind.dominates

-- `!required.has_value() || edge.kind == *required`
abbrev pub is_required : Option RelationKind → RelationKind → Bool
is_required none kind = true
is_required (some required) kind = relation_value kind == relation_value required

-- `HasSegment`
unfoldable pub has_segment : List Edge → PathKind → Bytes → Bytes → Bool
has_segment [] kind from to = false
has_segment (e ∷ rest) kind from to =
    (bytes_eq e.from from && bytes_eq e.to to && is_required (relation_for_path_kind kind) e.kind)
    || has_segment rest kind from to

-- The loop of `CheckPaths` on the segments of a path.
unfoldable pub check_segments : List Edge → EvidencePath → List Bytes → Issues
check_segments edges p [] = []
check_segments edges p (from ∷ []) = []
check_segments edges p (from ∷ to ∷ rest) =
    issue_if (not (has_segment edges p.kind from to)) path_disconnected p.id
    ++ check_segments edges p (to ∷ rest)

-- The body of `CheckPaths`.
unfoldable pub check_path : List Edge → EvidencePath → Issues
unfolding check_segments has_segment
check_path edges p =
    if ltb (length p.entity_ids) 2
    then issue path_disconnected p.id
    else check_segments edges p p.entity_ids

-- `CheckPaths`
unfoldable pub check_paths : EvidenceCase → Issues
check_paths value = each (check_path value.edges) value.paths

-- `hypothesis_ids.count(id) != 0`
unfoldable pub is_hypothesis : List Hypothesis → Bytes → Bool
is_hypothesis [] id = false
is_hypothesis (h ∷ rest) id = (not (is_empty h.id) && bytes_eq h.id id) || is_hypothesis rest id

-- `CheckHypothesisIsolation`. Without hypotheses no identifier is one, so that the early return
-- changes nothing.
unfoldable pub check_hypothesis_isolation : EvidenceCase → Issues
unfolding is_hypothesis
check_hypothesis_isolation value =
    each
      (λ p.
        each (λ input. issue_if (is_hypothesis value.hypotheses input) hypothesis_authority p.id)
          p.input_fact_ids)
      value.provenance
    ++ each
        (λ u.
          each
            (λ blocked. issue_if (is_hypothesis value.hypotheses blocked) hypothesis_authority u.id)
            u.blocking_ids)
        value.unknowns

-- The loop of `OmissionDeclaring`.
unfoldable pub first_omission : List Omission → Bytes → Option Omission
first_omission [] local_id = none
first_omission (o ∷ rest) local_id =
    if bytes_eq o.subject local_id then some o else first_omission rest local_id

-- `OmissionDeclaring`
unfoldable pub omission_declaring : List Omission → Bytes → Option Omission
unfolding first_omission
omission_declaring omissions local_id =
    if is_empty local_id then none else first_omission omissions local_id

-- The loop of `CheckOmissionVisibility` on the edges.
unfoldable pub check_expandable_edge : Declarations → List Omission → Edge → Issues
check_expandable_edge members omissions e =
    if not e.expandable
    then []
    else if is_empty e.summarized_by
    then issue hidden_omission e.id
    else elim (find_member e.summarized_by members) [
      | some MemberKind.summary ↦ elim (omission_declaring omissions e.summarized_by) [
        | none ↦ issue hidden_omission e.id
        | some _ ↦ []
      ]
      | _ ↦ issue hidden_omission e.id
    ]

-- The loop of `CheckOmissionVisibility` on the omissions.
unfoldable pub check_withheld_summary : Declarations → Omission → Issues
check_withheld_summary members o = elim (find_member o.subject members) [
  | some MemberKind.summary ↦ issue_if (not o.expandable) hidden_omission o.id
  | _ ↦ []
]

-- The loop of `CheckOmissionVisibility` on the unknowns.
unfoldable pub check_interrupted_query : List Omission → Unknown → Issues
check_interrupted_query omissions u =
    if not (is_interrupted_query u.reason_code)
    then []
    else elim (omission_declaring omissions u.id) [
      | none ↦ issue hidden_omission u.id
      | some o ↦ issue_if (not o.expandable) hidden_omission u.id
    ]

-- `CheckOmissionVisibility`
unfoldable pub check_omission_visibility : Declarations → EvidenceCase → Issues
check_omission_visibility members value =
    each (check_expandable_edge members value.omissions) value.edges
    ++ each (check_withheld_summary members) value.omissions
    ++ each (check_interrupted_query value.omissions) value.unknowns
