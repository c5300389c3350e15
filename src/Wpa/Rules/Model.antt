-- ===== src/Wpa/Rules/Model.antt =====
-- The seed of a closure, and the theorem on the whole of it.
use mathlib.Core.List.{Memᴰ}
use mathlib.Core.List.Memᴰ.{head, tail, append_left, append_right}
use veritas.Common.{
  ℕ, ◌+◌, false, List, [], ◌∷◌, ◌++◌, length, some, ◌≡◌, refl, sym, ◌∙◌, subst, inl, inr, ◌↔◌,
  Option-cases, arith,
}
use veritas.Wpa.Rules.Insert.{Adds, Adds-refl, Adds-trans, insert-Adds, insert-Mem}
use veritas.Wpa.Rules.Universe.{missing-le_length, universe-Mem}
use veritas.Wpa.Rules.Closure.{
  Derives, direct, call_transitive, call_support, flow_transitive, flow_support, Closed,
  close-Result,
}
use veritas.Wpa.Rules.{
  weakness_rank, DerivedTuple, Progress, insert, seed, Steps, calls, flows, lefts, call_edges,
  universe, evaluate,
}

abbrev Ranked : List DerivedTuple → DerivedTuple → Type 0
Ranked rows t = Memᴰ t rows × ((r : ℕ) × weakness_rank t.epistemic ≡ some r)

seed-Adds :
    (P : DerivedTuple → Type 0) (rows : List DerivedTuple) (p : Progress)
    → ((t : DerivedTuple) → Ranked rows t → P t)
    → Adds P p (seed rows p)
unfolding seed
seed-Adds P [] p h = Adds-refl P p
seed-Adds P (row ∷ rows) p h = elim (Option-cases (weakness_rank row.epistemic)) [
  | inl nothing ↦ rw (nothing, seed) (seed-Adds P rows p λ t x. h t (tail x.0, x.1))
  | inr (r, e) ↦
      rw (e, seed)
        (Adds-trans P p (insert row p) (seed rows (insert row p))
          (insert-Adds P row p (h row (head refl, (r, e))))
          (seed-Adds P rows (insert row p) λ t x. h t (tail x.0, x.1)))
]

seed-kept :
    (rows : List DerivedTuple) (p : Progress) (t : DerivedTuple)
    → Memᴰ t p.derived
    → Memᴰ t (seed rows p).derived
seed-kept rows p t m = (seed-Adds (λ _. Unit) rows p λ _ _. tt).kept t m

seed-Mem :
    (rows : List DerivedTuple) (p : Progress) (t : DerivedTuple) (r : ℕ)
    → Memᴰ t rows
    → weakness_rank t.epistemic ≡ some r
    → Memᴰ t (seed rows p).derived
unfolding seed
seed-Mem [] p t r m e = elim m [ ]
seed-Mem (row ∷ rows) p t r (head same) e =
    let ranked = subst (λ y. weakness_rank y.epistemic ≡ some r) same e in
    rw (ranked, seed)
      (seed-kept rows (insert row p) t
        (subst (λ y. Memᴰ y (insert row p).derived) (sym same) (insert-Mem row p)))
seed-Mem (row ∷ rows) p t r (tail m) e = elim (Option-cases (weakness_rank row.epistemic)) [
  | inl nothing ↦ rw (nothing, seed) (seed-Mem rows p t r m e)
  | inr (r', e') ↦ rw (e', seed) (seed-Mem rows (insert row p) t r m e)
]

module _ (steps : Steps) (base_rows support_rows : List DerivedTuple) where
  -- The subject and the object of a derived tuple are those of rows.
  record Covered (t : DerivedTuple) : Type 0 where
    subject_row : DerivedTuple
    object_row : DerivedTuple
    subject_in : Memᴰ subject_row (base_rows ++ call_edges steps)
    object_in : Memᴰ object_row (base_rows ++ support_rows)
    subject_is : t.subject ≡ subject_row.subject
    object_is : t.object ≡ object_row.object

  edge_in :
      {edges : List DerivedTuple} {a : DerivedTuple}
      → steps ≡ calls edges
      → Memᴰ a edges
      → Memᴰ a (base_rows ++ call_edges steps)
  edge_in {a} e m = append_right base_rows (subst (λ s. Memᴰ a (call_edges s)) (sym e) m)

  Derives-Covered : (t : DerivedTuple) → Derives steps base_rows support_rows t → Covered t
  Derives-Covered t (direct m _) = record {
    subject_row = t;
    object_row = t;
    subject_in = append_left (call_edges steps) m;
    object_in = append_left support_rows m;
    subject_is = refl;
    object_is = refl;
  }
  Derives-Covered t (call_transitive {a} {b} e m d c) =
      let r = Derives-Covered b d in
      record {
        subject_row = a;
        object_row = r.object_row;
        subject_in = edge_in e m;
        object_in = r.object_in;
        subject_is = c.subject_is;
        object_is = c.object_is ∙ r.object_is;
      }
  Derives-Covered t (call_support {a} {b} e m m' c) = record {
    subject_row = a;
    object_row = b;
    subject_in = edge_in e m;
    object_in = append_right base_rows m';
    subject_is = c.subject_is;
    object_is = c.object_is;
  }
  Derives-Covered t (flow_transitive {a} {b} e d d' c) =
      let r = Derives-Covered a d in
      let r' = Derives-Covered b d' in
      record {
        subject_row = r.subject_row;
        object_row = r'.object_row;
        subject_in = r.subject_in;
        object_in = r'.object_in;
        subject_is = c.subject_is ∙ r.subject_is;
        object_is = c.object_is ∙ r'.object_is;
      }
  Derives-Covered t (flow_support {a} {b} e d m c) =
      let r = Derives-Covered a d in
      record {
        subject_row = r.subject_row;
        object_row = b;
        subject_in = r.subject_in;
        object_in = append_right base_rows m;
        subject_is = c.subject_is ∙ r.subject_is;
        object_is = c.object_is;
      }

  left_call :
      (xs : List DerivedTuple) {edges : List DerivedTuple} {a : DerivedTuple}
      → steps ≡ calls edges
      → Memᴰ a edges
      → Memᴰ a (lefts steps xs)
  unfolding lefts
  left_call xs {a} e m = subst (λ s. Memᴰ a (lefts s xs)) (sym e) m

  left_flow :
      (xs : List DerivedTuple) {a : DerivedTuple}
      → steps ≡ flows
      → Memᴰ a xs
      → Memᴰ a (lefts steps xs)
  unfolding lefts
  left_flow xs {a} e m = subst (λ s. Memᴰ a (lefts s xs)) (sym e) m

  -- A closed set that has the ranked base rows has all that the rules derive.
  Derives-Mem :
      (xs : List DerivedTuple)
      → ((t : DerivedTuple) (r : ℕ)
          → Memᴰ t base_rows
          → weakness_rank t.epistemic ≡ some r
          → Memᴰ t xs)
      → Closed steps base_rows support_rows xs
      → (t : DerivedTuple) → Derives steps base_rows support_rows t
      → Memᴰ t xs
  Derives-Mem xs seeds closed t (direct {r} m e) = seeds t r m e
  Derives-Mem xs seeds closed t (call_transitive {a} {b} e m d c) =
      closed a b t (left_call xs e m) (inl (Derives-Mem xs seeds closed b d)) c
  Derives-Mem xs seeds closed t (call_support {a} {b} e m m' c) =
      closed a b t (left_call xs e m) (inr m') c
  Derives-Mem xs seeds closed t (flow_transitive {a} {b} e d d' c) =
      closed a b t (left_flow xs e (Derives-Mem xs seeds closed a d))
        (inl (Derives-Mem xs seeds closed b d')) c
  Derives-Mem xs seeds closed t (flow_support {a} {b} e d m c) =
      closed a b t (left_flow xs e (Derives-Mem xs seeds closed a d)) (inr m) c

-- For all call edges or flows, base rows and support rows, a closure ends (the model returns a
-- list), and a tuple is among those it returns exactly when the rules derive it: it is a base row
-- whose state has a rank, or the composition of a call edge (in a flow closure: a derived flow)
-- with a derived tuple or a support row, at the weaker of the two states.
pub evaluate-model :
    (steps : Steps) (base_rows support_rows : List DerivedTuple)
    → (derived : List DerivedTuple) × (evaluate steps base_rows support_rows ≡ some derived)
      × ((t : DerivedTuple) → Memᴰ t derived ↔ Derives steps base_rows support_rows t)
unfolding evaluate
evaluate-model steps base_rows support_rows =
    let start : Progress = record { derived = []; changed = false } in
    let seeds = seed base_rows start in
    let us = universe (base_rows ++ call_edges steps) (base_rows ++ support_rows) in
    let adds =
      seed-Adds (Derives steps base_rows support_rows) base_rows start λ t x. direct x.0 x.1.1 in
    let covered = λ (t : DerivedTuple) (d : Derives steps base_rows support_rows t).
      let c = Derives-Covered steps base_rows support_rows t d in
      universe-Mem t c.subject_row c.object_row (base_rows ++ call_edges steps)
        (base_rows ++ support_rows) c.subject_in c.subject_is c.object_in c.object_is in
    let r =
      close-Result steps base_rows support_rows us covered (length us + 1) seeds.derived
        (λ t m. elim (adds.only t m) [ inl m' ↦ elim m' [ ] | inr d ↦ d ])
        (omega (arith, missing-le_length us seeds.derived)) in
    (
      r.derived,
      r.returns,
      λ t. (
        r.sound t,
        Derives-Mem steps base_rows support_rows r.derived
            (λ t r' m e. r.kept t (seed-Mem base_rows start t r' m e)) r.closed t,
      ),
    )
