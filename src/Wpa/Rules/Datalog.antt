-- ===== src/Wpa/Rules/Datalog.antt =====
-- The closures against the Datalog rules under logic/ (reachability.v2.dl, may_read.v2.dl,
-- may_write.v2.dl, global_flow.v2.dl and epistemic.dl), which the evaluator stands in for.
use mathlib.Core.List.{Memᴰ}
use veritas.Common.{
  ℕ, ◌≤◌, ◌<◌, List, leb, some, none, ◌≡◌, ◌≢◌, ◌↔◌, ◌⊎◌, inl, inr, refl, sym, subst, ap, ◌∙◌,
  Bool-cases, if◌then◌else◌, arith,
}
use veritas.Facts.Epistemic.{EpistemicState, must, may, must_not, inferred, assumed, unknown}
use veritas.Wpa.Rules.{weakness_rank, weaken, DerivedTuple, Steps, calls, flows, evaluate}
use veritas.Wpa.Rules.Insert.{Composes}
use veritas.Wpa.Rules.Closure.{
  Derives, direct, call_transitive, call_support, flow_transitive, flow_support,
}
use veritas.Wpa.Rules.Model.{evaluate-model}

-- The facts `EpistemicRank` of epistemic.dl.
pub data EpistemicRank : EpistemicState → ℕ → Type 0 where
  rank_must : EpistemicRank must 0
  rank_may : EpistemicRank may 1
  rank_inferred : EpistemicRank inferred 2
  rank_assumed : EpistemicRank assumed 3
  rank_unknown : EpistemicRank unknown 4

-- The rules of `WeakenEpistemic`.
pub data WeakenEpistemic (l r : EpistemicState) : EpistemicState → Type 0 where
  to_left : {lr rr : ℕ} → EpistemicRank l lr → EpistemicRank r rr → rr ≤ lr → WeakenEpistemic l r l
  to_right : {lr rr : ℕ} → EpistemicRank l lr → EpistemicRank r rr → lr < rr → WeakenEpistemic l r r

-- The join of the bodies of the recursive rules, and their head `t`.
pub record Joins (a b t : DerivedTuple) : Type 0 where
  pub meets : a.object ≡ b.subject
  pub subject_is : t.subject ≡ a.subject
  pub object_is : t.object ≡ b.object
  pub warrant : WeakenEpistemic a.epistemic b.epistemic t.epistemic

-- The derived relation. `ReachableCall`, `MayRead` and `MayWrite` extend a derived or a support tuple
-- by a call edge, `GlobalFlow` composes a derived flow with a derived or a support flow. Every base
-- row is derived.
pub data Infers (steps : Steps) (base_rows support_rows : List DerivedTuple)
    : DerivedTuple → Type 0 where
  base : {t : DerivedTuple} → Memᴰ t base_rows → Infers steps base_rows support_rows t
  call_derived :
      {edges : List DerivedTuple} {a b t : DerivedTuple}
      → steps ≡ calls edges
      → Memᴰ a edges
      → Infers steps base_rows support_rows b
      → Joins a b t
      → Infers steps base_rows support_rows t
  call_supported :
      {edges : List DerivedTuple} {a b t : DerivedTuple}
      → steps ≡ calls edges
      → Memᴰ a edges
      → Memᴰ b support_rows
      → Joins a b t
      → Infers steps base_rows support_rows t
  flow_derived :
      {a b t : DerivedTuple}
      → steps ≡ flows
      → Infers steps base_rows support_rows a
      → Infers steps base_rows support_rows b
      → Joins a b t
      → Infers steps base_rows support_rows t
  flow_supported :
      {a b t : DerivedTuple}
      → steps ≡ flows
      → Infers steps base_rows support_rows a
      → Memᴰ b support_rows
      → Joins a b t
      → Infers steps base_rows support_rows t

EpistemicRank-rank : {s : EpistemicState} {n : ℕ} → EpistemicRank s n → weakness_rank s ≡ some n
unfolding weakness_rank
EpistemicRank-rank rank_must = refl
EpistemicRank-rank rank_may = refl
EpistemicRank-rank rank_inferred = refl
EpistemicRank-rank rank_assumed = refl
EpistemicRank-rank rank_unknown = refl

-- A state is `must_not` or has a rank.
ranked : (s : EpistemicState) → (s ≡ must_not) ⊎ ((n : ℕ) × EpistemicRank s n)
ranked must = inr (0, rank_must)
ranked may = inr (1, rank_may)
ranked must_not = inl refl
ranked inferred = inr (2, rank_inferred)
ranked assumed = inr (3, rank_assumed)
ranked unknown = inr (4, rank_unknown)

some_only : {a b : EpistemicState} → some a ≡ some b → a ≡ b
some_only h = cc h

must_not-unranked : {s : EpistemicState} {n : ℕ} → EpistemicRank s n → s ≢ must_not
unfolding weakness_rank
must_not-unranked r e = cc (sym (EpistemicRank-rank r) ∙ ap weakness_rank e)

WeakenEpistemic-weaken : {l r e : EpistemicState} → WeakenEpistemic l r e → weaken l r ≡ some e
unfolding weaken
WeakenEpistemic-weaken (to_left p q h) =
    rw (EpistemicRank-rank p, EpistemicRank-rank q) ground arith
WeakenEpistemic-weaken (to_right p q h) =
    rw (EpistemicRank-rank p, EpistemicRank-rank q) ground arith

weaken-WeakenEpistemic : (l r e : EpistemicState) → weaken l r ≡ some e → WeakenEpistemic l r e
unfolding weaken weakness_rank
weaken-WeakenEpistemic l r e h = elim (ranked l) [
  | inl l_none ↦ let none_left : weaken l r ≡ none = rw l_none refl in cc (sym none_left ∙ h)
  | inr (m, p) ↦ elim (ranked r) [
    | inl r_none ↦
        let none_right : weaken l r ≡ none = rw (r_none, EpistemicRank-rank p) refl in
        cc (sym none_right ∙ h)
    | inr (n, q) ↦
        let result : some (if leb n m then l else r) ≡ some e =
          rw (EpistemicRank-rank p, EpistemicRank-rank q) at h in
        elim (Bool-cases (leb n m)) [
          | inl low ↦
              let same : l ≡ e = some_only (rw low at result) in
              subst (WeakenEpistemic l r) same (to_left p q (ground arith))
          | inr high ↦
              let same : r ≡ e = some_only (rw high at result) in
              subst (WeakenEpistemic l r) same (to_right p q (ground arith))
        ]
  ]
]

Joins-Composes : {a b t : DerivedTuple} → Joins a b t → Composes a b t
Joins-Composes j = record {
  meets = sym j.meets;
  subject_is = j.subject_is;
  object_is = j.object_is;
  warrant_is = WeakenEpistemic-weaken j.warrant;
}

Composes-Joins : {a b t : DerivedTuple} → Composes a b t → Joins a b t
Composes-Joins {a} {b} {t} c = record {
  meets = sym c.meets;
  subject_is = c.subject_is;
  object_is = c.object_is;
  warrant = weaken-WeakenEpistemic a.epistemic b.epistemic t.epistemic c.warrant_is;
}

-- What is joined has a rank, and so has the head.
WeakenEpistemic-ranked :
    {l r e : EpistemicState}
    → WeakenEpistemic l r e
    → (l ≢ must_not) × (r ≢ must_not) × (e ≢ must_not)
WeakenEpistemic-ranked (to_left p q h) =
    (must_not-unranked p, must_not-unranked q, must_not-unranked p)
WeakenEpistemic-ranked (to_right p q h) =
    (must_not-unranked p, must_not-unranked q, must_not-unranked q)

unranked : (r : ℕ) → weakness_rank must_not ≢ some r
unfolding weakness_rank
unranked r h = cc h

module _ (steps : Steps) (base_rows support_rows : List DerivedTuple) where
  Derives-Infers :
      {t : DerivedTuple}
      → Derives steps base_rows support_rows t
      → Infers steps base_rows support_rows t × (t.epistemic ≢ must_not)
  Derives-Infers {t} (direct {r} m e) =
      (base m, λ same. unranked r (ap weakness_rank (sym same) ∙ e))
  Derives-Infers (call_transitive e m d c) =
      let j = Composes-Joins c in
      (call_derived e m (Derives-Infers d).0 j, (WeakenEpistemic-ranked j.warrant).2)
  Derives-Infers (call_support e m m' c) =
      let j = Composes-Joins c in (call_supported e m m' j, (WeakenEpistemic-ranked j.warrant).2)
  Derives-Infers (flow_transitive e d d' c) =
      let j = Composes-Joins c in
      (
        flow_derived e (Derives-Infers d).0 (Derives-Infers d').0 j,
        (WeakenEpistemic-ranked j.warrant).2,
      )
  Derives-Infers (flow_support e d m c) =
      let j = Composes-Joins c in
      (flow_supported e (Derives-Infers d).0 m j, (WeakenEpistemic-ranked j.warrant).2)

  Infers-Derives :
      {t : DerivedTuple}
      → Infers steps base_rows support_rows t
      → t.epistemic ≢ must_not
      → Derives steps base_rows support_rows t
  Infers-Derives {t} (base m) other = elim (ranked t.epistemic) [
    | inl none_such ↦ absurd (other none_such)
    | inr (n, r) ↦ direct m (EpistemicRank-rank r)
  ]
  Infers-Derives (call_derived e m d j) other =
      let (left, right, head) = WeakenEpistemic-ranked j.warrant in
      call_transitive e m (Infers-Derives d right) (Joins-Composes j)
  Infers-Derives (call_supported e m m' j) other = call_support e m m' (Joins-Composes j)
  Infers-Derives (flow_derived e d d' j) other =
      let (left, right, head) = WeakenEpistemic-ranked j.warrant in
      flow_transitive e (Infers-Derives d left) (Infers-Derives d' right) (Joins-Composes j)
  Infers-Derives (flow_supported e d m j) other =
      let (left, right, head) = WeakenEpistemic-ranked j.warrant in
      flow_support e (Infers-Derives d left) m (Joins-Composes j)

-- For all call edges or flows, base rows and support rows, a closure ends (the model returns a
-- list), and a tuple is among those it returns exactly when the Datalog rules derive it and its state
-- is not MUST_NOT. (A base row in that state is derived by the Datalog rules and not by the closure.)
pub evaluate-Infers :
    (steps : Steps) (base_rows support_rows : List DerivedTuple)
    → (derived : List DerivedTuple) × (evaluate steps base_rows support_rows ≡ some derived)
      × ((t : DerivedTuple)
          → Memᴰ t derived ↔ (Infers steps base_rows support_rows t × (t.epistemic ≢ must_not)))
evaluate-Infers steps base_rows support_rows =
    let (derived, returns, exact) = evaluate-model steps base_rows support_rows in
    (
      derived,
      returns,
      λ t. (
        λ m. Derives-Infers steps base_rows support_rows ((exact t).0 m),
        λ (inferred_by, other).
            (exact t).1 (Infers-Derives steps base_rows support_rows inferred_by other),
      ),
    )
