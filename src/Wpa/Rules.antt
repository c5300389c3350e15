-- ===== src/Wpa/Rules.antt =====
-- src/wpa/CppRuleEvaluator.cpp: the closures that the native rule evaluator computes. The tuples
-- that are derived are modelled, not the witness edges that are recorded beside them, which no
-- step of a closure reads.
pub mod Weakness
pub mod Member
pub mod Insert
pub mod Universe
pub mod Closure
pub mod Model
pub mod Datalog
use veritas.Common.{
  ℕ, zero, suc, ◌+◌, Bool, true, false, ◌&&◌, ◌||◌, List, [], ◌∷◌, ◌++◌, length, map, leb,
  if◌then◌else◌, ◌==◌, Option, none, some,
}
use veritas.Core.Ids.{StableId, id_eq}
use veritas.Facts.Epistemic.{EpistemicState, must, may, must_not, inferred, assumed, unknown}

-- `WeaknessRank`
unfoldable pub weakness_rank : EpistemicState → Option ℕ
weakness_rank must = some 0
weakness_rank may = some 1
weakness_rank inferred = some 2
weakness_rank assumed = some 3
weakness_rank unknown = some 4
weakness_rank must_not = none

abbrev weaker : EpistemicState → EpistemicState → Option ℕ → Option ℕ → Option EpistemicState
weaker left right (some left_rank) (some right_rank) =
    some (if leb right_rank left_rank then left else right)
weaker left right _ _ = none

-- `Weaken`
unfoldable pub weaken : EpistemicState → EpistemicState → Option EpistemicState
unfolding weakness_rank
weaken left right = weaker left right (weakness_rank left) (weakness_rank right)

-- `DerivedTuple`, and of `CallEdgeTuple` the caller, the callee and the state.
pub record DerivedTuple : Type 0 where
  pub subject : StableId
  pub object : StableId
  pub epistemic : EpistemicState

-- The enumerators' values.
abbrev enumerator : EpistemicState → ℕ
enumerator must = 0
enumerator may = 1
enumerator must_not = 2
enumerator inferred = 3
enumerator assumed = 4
enumerator unknown = 5

-- `operator==` on tuples.
unfoldable pub tuple_eq : DerivedTuple → DerivedTuple → Bool
tuple_eq a b =
    id_eq a.subject b.subject
    && id_eq a.object b.object
    && enumerator a.epistemic == enumerator b.epistemic

-- `derived`, and `changed`: what a round of the loop updates. The set is a list without an order.
pub record Progress : Type 0 where
  pub derived : List DerivedTuple
  pub changed : Bool

unfoldable pub contains : DerivedTuple → List DerivedTuple → Bool
unfolding tuple_eq id_eq
contains t [] = false
contains t (x ∷ xs) = tuple_eq t x || contains t xs

-- `if (derived.insert(next).second) changed = true;`
unfoldable pub insert : DerivedTuple → Progress → Progress
insert next p =
    if contains next p.derived then p else record { derived = next ∷ p.derived; changed = true }

abbrev composed : DerivedTuple → DerivedTuple → Option EpistemicState → Progress → Progress
composed a b none p = p
composed a b (some combined) p =
    insert (record { subject = a.subject; object = b.object; epistemic = combined }) p

-- The body of a double loop, for a call edge or a flow `a` and a tuple `b`.
unfoldable pub compose : DerivedTuple → DerivedTuple → Progress → Progress
unfolding weaken insert id_eq
compose a b p =
    if id_eq b.subject a.object then composed a b (weaken a.epistemic b.epistemic) p else p

unfoldable pub compose_with : DerivedTuple → List DerivedTuple → Progress → Progress
compose_with a [] p = p
compose_with a (b ∷ bs) p = compose_with a bs (compose a b p)

-- A double loop.
unfoldable pub compose_all : List DerivedTuple → List DerivedTuple → Progress → Progress
unfolding compose_with
compose_all [] bs p = p
compose_all (a ∷ as_) bs p = compose_all as_ bs (compose_with a bs p)

-- The first loop, over the rows of the base relation: a row without a rank is passed over.
unfoldable pub seed : List DerivedTuple → Progress → Progress
seed [] p = p
seed (row ∷ rows) p = elim (weakness_rank row.epistemic) [
  | none ↦ seed rows p
  | some _ ↦ seed rows (insert row p)
]

-- What a closure composes the derived tuples with: the call edges (`Evaluate`), or themselves
-- (`EvaluateFlow`).
pub data Steps : Type 0 where
  calls : List DerivedTuple → Steps
  flows : Steps

unfoldable pub lefts : Steps → List DerivedTuple → List DerivedTuple
lefts (calls edges) snapshot = edges
lefts flows snapshot = snapshot

-- A round of `while (changed)`.
unfoldable pub round : Steps → List DerivedTuple → List DerivedTuple → Progress
unfolding compose_all lefts
round steps support_rows snapshot =
    compose_all (lefts steps snapshot) support_rows
      (compose_all (lefts steps snapshot) snapshot (record { derived = snapshot; changed = false }))

-- `while (changed)`; `none` when the fuel runs out.
unfoldable pub close :
    ℕ → Steps → List DerivedTuple → List DerivedTuple → Option (List DerivedTuple)
close zero steps support_rows derived = none
close (suc fuel) steps support_rows derived =
    let p = round steps support_rows derived in
    let rest = close fuel steps support_rows p.derived in if p.changed then rest else some p.derived

-- Every tuple that may be derived; their number bounds the rounds.
abbrev pub states : List EpistemicState
states = must ∷ may ∷ must_not ∷ inferred ∷ assumed ∷ unknown ∷ []

abbrev pub call_edges : Steps → List DerivedTuple
call_edges (calls edges) = edges
call_edges flows = []

unfoldable pub for_states : StableId → StableId → List EpistemicState → List DerivedTuple
for_states s o [] = []
for_states s o (e ∷ es) = record { subject = s; object = o; epistemic = e } ∷ for_states s o es

unfoldable pub for_objects : StableId → List DerivedTuple → List DerivedTuple
unfolding for_states
for_objects s [] = []
for_objects s (t ∷ ts) = for_states s t.object states ++ for_objects s ts

unfoldable pub universe : List DerivedTuple → List DerivedTuple → List DerivedTuple
unfolding for_objects
universe [] ts = []
universe (s ∷ ss) ts = for_objects s.subject ts ++ universe ss ts

-- A domain of `Evaluate` with the call edges, or `EvaluateFlow`, on the rows of its relations.
unfoldable pub evaluate : Steps → List DerivedTuple → List DerivedTuple → Option (List DerivedTuple)
unfolding close seed contains compose universe round
evaluate steps base_rows support_rows =
    let candidates = universe (base_rows ++ call_edges steps) (base_rows ++ support_rows) in
    close (length candidates + 1) steps support_rows
      (seed base_rows (record { derived = []; changed = false })).derived
