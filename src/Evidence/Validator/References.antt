-- ===== src/Evidence/Validator/References.antt =====
-- src/evidence/EvidenceValidator.cpp: the references to members, the segments of paths, hypotheses and
-- omissions.
use veritas.Common.{Bool, true, false, not, ◌&&◌, [], ◌++◌, Bytes, if◌then◌else◌, none, some}
use veritas.Evidence.Case.Records.{
  ExpressionKind, Expression, expression, Operands, no_operands, operand, Edge, EvidencePath,
  EvidenceCase,
}
use veritas.Evidence.Validator.{dangling_reference, Issues, issue, each, is_empty}
use veritas.Evidence.Validator.Index.{MemberKind, Declarations, find_member}

-- `ResolveEntity`
unfoldable pub resolve_entity : Declarations → Bytes → Bytes → Issues
resolve_entity members id owner =
    if is_empty id then issue dangling_reference owner else elim (find_member id members) [
      | some MemberKind.entity ↦ []
      | _ ↦ issue dangling_reference owner
    ]

-- `ResolveProvenance`
unfoldable pub resolve_provenance : Declarations → Bytes → Bytes → Issues
resolve_provenance members id owner = if is_empty id then [] else elim (find_member id members) [
  | some MemberKind.provenance ↦ []
  | _ ↦ issue dangling_reference owner
]

-- `ResolveMember`
unfoldable pub resolve_member : Declarations → Bytes → Bytes → Issues
resolve_member members id owner = elim (find_member id members) [
  | none ↦ issue dangling_reference owner
  | some _ ↦ []
]

-- `ResolveReference`
unfoldable pub resolve_reference : Declarations → Bytes → Bytes → Issues
unfolding resolve_member
resolve_reference members text owner =
    if is_empty text then issue dangling_reference owner else resolve_member members text owner

abbrev pub is_reference : ExpressionKind → Bool
is_reference ExpressionKind.reference = true
is_reference _ = false

-- `ResolveExpression`, with its loop on the operands.
unfoldable mutual
  pub resolve_expression : Declarations → Bytes → Expression → Issues
  resolve_expression members owner (expression kind text n b operands) =
      (if is_reference kind then resolve_reference members text owner else [])
      ++ resolve_operands members owner operands

  pub resolve_operands : Declarations → Bytes → Operands → Issues
  resolve_operands members owner no_operands = []
  resolve_operands members owner (operand e rest) =
      resolve_expression members owner e ++ resolve_operands members owner rest

-- `CheckReferences`, on the edges.
unfoldable pub check_edge : Declarations → Edge → Issues
check_edge members e =
    resolve_entity members e.from e.id
    ++ resolve_entity members e.to e.id
    ++ resolve_provenance members e.provenance_id e.id
    ++ (if not e.expandable && not (is_empty e.summarized_by)
        then resolve_member members e.summarized_by e.id
        else [])

-- `CheckReferences`, on the paths.
unfoldable pub check_path_references : Declarations → EvidencePath → Issues
check_path_references members p =
    each (λ id. resolve_entity members id p.id) p.entity_ids
    ++ each (resolve_expression members p.id) p.conditions
    ++ resolve_provenance members p.provenance_id p.id

-- `CheckReferences`
unfoldable pub check_references : Declarations → EvidenceCase → Issues
check_references members value =
    resolve_entity members value.primary_claim.subject value.primary_claim.id
    ++ resolve_expression members value.primary_claim.id value.primary_claim.predicate
    ++ each (λ e. each (λ (name, property). resolve_expression members e.id property) e.properties)
        value.entities
    ++ each (check_edge members) value.edges
    ++ each (check_path_references members) value.paths
    ++ each
        (λ f.
          resolve_expression members f.id f.predicate
          ++ resolve_provenance members f.provenance_id f.id)
        value.facts
    ++ each (λ a. resolve_expression members a.id a.predicate) value.assumptions
    ++ each (λ h. resolve_expression members h.id h.predicate) value.hypotheses
    ++ each
        (λ u.
          resolve_expression members u.id u.property
          ++ each (λ blocked. resolve_member members blocked u.id) u.blocking_ids)
        value.unknowns
    ++ each
        (λ c.
          resolve_expression members c.id c.expression
          ++ resolve_provenance members c.provenance_id c.id)
        value.constraints
    ++ each (λ p. each (λ input. resolve_member members input p.id) p.input_fact_ids)
        value.provenance
    ++ each
        (λ o.
          resolve_expression members o.id o.predicate ++ resolve_expression members o.id o.budget)
        value.proof_obligations
    ++ each (λ s. resolve_entity members s.function_id s.id) value.summaries
    ++ each (λ o. resolve_member members o.subject o.id) value.omissions
