-- ===== src/Wpa/Rules/Closure.antt =====
-- A closure ends, with the tuples that its rules derive and no others.
use mathlib.Core.List.{Memᴰ}
use veritas.Common.{
  ℕ, zero, suc, ◌<◌, false, List, Option, some, ◌≡◌, refl, sym, ap, subst, ◌⊎◌, inl, inr,
  Bool-cases, arith,
}
use veritas.Wpa.Rules.Insert.{
  Adds, Adds-trans, Composes, compose_all-Adds, compose_all-kept, compose_all-Mem,
}
use veritas.Wpa.Rules.Universe.{missing, missing-lt}
use veritas.Wpa.Rules.{
  weakness_rank, DerivedTuple, Progress, compose_all, Steps, calls, flows, lefts, round, close,
}

-- The rules that the loops of the evaluator follow: a base row that has a rank, a call edge composed with a derived tuple or
-- with a support row, a derived flow composed with a derived flow or with a support row.
pub data Derives (steps : Steps) (base_rows support_rows : List DerivedTuple)
    : DerivedTuple → Type 0 where
  direct :
      {t : DerivedTuple} {r : ℕ}
      → Memᴰ t base_rows
      → weakness_rank t.epistemic ≡ some r
      → Derives steps base_rows support_rows t
  call_transitive :
      {edges : List DerivedTuple} {a b t : DerivedTuple}
      → steps ≡ calls edges
      → Memᴰ a edges
      → Derives steps base_rows support_rows b
      → Composes a b t
      → Derives steps base_rows support_rows t
  call_support :
      {edges : List DerivedTuple} {a b t : DerivedTuple}
      → steps ≡ calls edges
      → Memᴰ a edges
      → Memᴰ b support_rows
      → Composes a b t
      → Derives steps base_rows support_rows t
  flow_transitive :
      {a b t : DerivedTuple}
      → steps ≡ flows
      → Derives steps base_rows support_rows a
      → Derives steps base_rows support_rows b
      → Composes a b t
      → Derives steps base_rows support_rows t
  flow_support :
      {a b t : DerivedTuple}
      → steps ≡ flows
      → Derives steps base_rows support_rows a
      → Memᴰ b support_rows
      → Composes a b t
      → Derives steps base_rows support_rows t

module _ (steps : Steps) (base_rows support_rows : List DerivedTuple) where
  abbrev pub Sound : List DerivedTuple → Type 0
  Sound xs = (t : DerivedTuple) → Memᴰ t xs → Derives steps base_rows support_rows t

  -- Nothing is left to derive.
  abbrev pub Closed : List DerivedTuple → Type 0
  Closed xs =
      (a b t : DerivedTuple)
      → Memᴰ a (lefts steps xs)
      → Memᴰ b xs ⊎ Memᴰ b support_rows
      → Composes a b t
      → Memᴰ t xs

  Derives-round :
      (st : Steps)
      → steps ≡ st
      → (xs : List DerivedTuple) → Sound xs
      → (a b t : DerivedTuple) → Memᴰ a (lefts st xs)
      → Memᴰ b xs ⊎ Memᴰ b support_rows
      → Composes a b t
      → Derives steps base_rows support_rows t
  unfolding lefts
  Derives-round (calls edges) e xs s a b t m (inl m') c = call_transitive e m (s b m') c
  Derives-round (calls edges) e xs s a b t m (inr m') c = call_support e m m' c
  Derives-round flows e xs s a b t m (inl m') c = flow_transitive e (s a m) (s b m') c
  Derives-round flows e xs s a b t m (inr m') c = flow_support e (s a m) m' c

  round-Adds :
      (xs : List DerivedTuple)
      → Sound xs
      → Adds
          (Derives steps base_rows support_rows)
          (record { derived = xs; changed = false })
          (round steps support_rows xs)
  unfolding round
  round-Adds xs s =
      let start : Progress = record { derived = xs; changed = false } in
      let middle = compose_all (lefts steps xs) xs start in
      Adds-trans (Derives steps base_rows support_rows) start middle
        (compose_all (lefts steps xs) support_rows middle)
        (compose_all-Adds (Derives steps base_rows support_rows) (lefts steps xs) xs start
          λ a b t m m' c. Derives-round steps refl xs s a b t m (inl m') c)
        (compose_all-Adds (Derives steps base_rows support_rows) (lefts steps xs) support_rows
          middle λ a b t m m' c. Derives-round steps refl xs s a b t m (inr m') c)

  round-Mem :
      (xs : List DerivedTuple) (a b t : DerivedTuple)
      → Memᴰ a (lefts steps xs)
      → Memᴰ b xs ⊎ Memᴰ b support_rows
      → Composes a b t
      → Memᴰ t (round steps support_rows xs).derived
  unfolding round
  round-Mem xs a b t m (inl m') c =
      let start : Progress = record { derived = xs; changed = false } in
      compose_all-kept (lefts steps xs) support_rows (compose_all (lefts steps xs) xs start) t
        (compose_all-Mem a b t (lefts steps xs) xs start m m' c)
  round-Mem xs a b t m (inr m') c =
      let start : Progress = record { derived = xs; changed = false } in
      compose_all-Mem a b t (lefts steps xs) support_rows (compose_all (lefts steps xs) xs start) m
        m' c

  -- What the loop is to return, from the tuples `xs` on.
  pub record Result (xs : List DerivedTuple) (r : Option (List DerivedTuple)) : Type 0 where
    pub derived : List DerivedTuple
    pub returns : r ≡ some derived
    pub sound : Sound derived
    pub closed : Closed derived
    pub kept : (t : DerivedTuple) → Memᴰ t xs → Memᴰ t derived

  module _ (us : List DerivedTuple)
      (covered : (t : DerivedTuple) → Derives steps base_rows support_rows t → Memᴰ t us) where
    -- A round that changes the set derives one of the missing candidates.
    pub close-Result :
        (fuel : ℕ) (xs : List DerivedTuple)
        → Sound xs
        → missing us xs < fuel
        → Result xs (close fuel steps support_rows xs)
    unfolding close
    close-Result zero xs s h = absurd (omega arith)
    close-Result (suc fuel) xs s h =
        let p = round steps support_rows xs in
        let adds = round-Adds xs s in
        let sound : Sound p.derived = λ t m. elim (adds.only t m) [ inl m' ↦ s t m' | inr d ↦ d ] in
        elim (Bool-cases p.changed) [
          | inl changed ↦
              let new = adds.grew refl changed in
              let fewer =
                missing-lt us xs p.derived new.0 adds.kept (covered new.0 new.1) new.2 new.3 in
              let r = close-Result fuel p.derived sound (omega (arith, fewer)) in
              rw changed (record {
                derived = r.derived;
                returns = r.returns;
                sound = r.sound;
                closed = r.closed;
                kept = λ t m. r.kept t (adds.kept t m);
              })
          | inr same ↦
              let e : p.derived ≡ xs = ap (λ q. q.derived) (adds.same same) in
              rw same (record {
                derived = p.derived;
                returns = refl;
                sound = sound;
                closed =
                    subst Closed (sym e)
                      λ a b t m m' c. subst (Memᴰ t) e (round-Mem xs a b t m m' c);
                kept = adds.kept;
              })
        ]
