-- ===== src/Wpa/Rules/Universe.antt =====
-- The tuples that can be derived are finitely many, and a round that changes the set takes one of
-- them away.
use mathlib.Core.List.{Memᴰ}
use mathlib.Core.List.Memᴰ.{head, tail, append_left, append_right}
use veritas.Common.{
  ℕ, suc, ◌≤◌, ◌<◌, true, false, List, [], ◌∷◌, if◌then◌else◌, length, ◌≡◌, refl, ap, ◌∙◌, subst,
  inl, inr, Bool-cases, arith,
}
use veritas.Core.Ids.{StableId}
use veritas.Facts.Epistemic.{EpistemicState, must, may, must_not, inferred, assumed, unknown}
use veritas.Wpa.Rules.Member.{tuple_of, contains-Mem, Mem-contains}
use veritas.Wpa.Rules.{DerivedTuple, contains, states, for_states, for_objects, universe}

-- How many of the candidates have not been derived.
abbrev pub missing : List DerivedTuple → List DerivedTuple → ℕ
missing [] xs = 0
missing (u ∷ us) xs = if contains u xs then missing us xs else suc (missing us xs)

pub missing-le_length : (us xs : List DerivedTuple) → missing us xs ≤ length us
missing-le_length [] xs = omega arith
missing-le_length (u ∷ us) xs = elim (Bool-cases (contains u xs)) [
  | inl in_ ↦ rw in_ (omega (arith, missing-le_length us xs))
  | inr out ↦ rw out (omega (arith, missing-le_length us xs))
]

contains_mono :
    (u : DerivedTuple) (xs ys : List DerivedTuple)
    → ((t : DerivedTuple) → Memᴰ t xs → Memᴰ t ys)
    → contains u xs ≡ true
    → contains u ys ≡ true
contains_mono u xs ys f h = Mem-contains u ys (f u (contains-Mem u xs h))

missing-le :
    (us xs ys : List DerivedTuple)
    → ((t : DerivedTuple) → Memᴰ t xs → Memᴰ t ys)
    → missing us ys ≤ missing us xs
missing-le [] xs ys f = omega arith
missing-le (u ∷ us) xs ys f = elim (Bool-cases (contains u xs)) [
  | inl in_ ↦ rw (in_, contains_mono u xs ys f in_) (missing-le us xs ys f)
  | inr out ↦ elim (Bool-cases (contains u ys)) [
    | inl in_ ↦ rw (in_, out) (omega (arith, missing-le us xs ys f))
    | inr out' ↦ rw (out, out') (omega (arith, missing-le us xs ys f))
  ]
]

pub missing-lt :
    (us xs ys : List DerivedTuple) (t : DerivedTuple)
    → ((t : DerivedTuple) → Memᴰ t xs → Memᴰ t ys)
    → Memᴰ t us
    → Memᴰ t ys
    → contains t xs ≡ false
    → missing us ys < missing us xs
missing-lt [] xs ys t f m m' h = elim m [ ]
missing-lt (u ∷ us) xs ys t f (head e) m' h =
    let out = subst (λ u. contains u xs ≡ false) e h in
    let in_ = Mem-contains u ys (subst (λ u. Memᴰ u ys) e m') in
    rw (out, in_) (omega (arith, missing-le us xs ys f))
missing-lt (u ∷ us) xs ys t f (tail m) m' h = elim (Bool-cases (contains u xs)) [
  | inl in_ ↦ rw (in_, contains_mono u xs ys f in_) (missing-lt us xs ys t f m m' h)
  | inr out ↦ elim (Bool-cases (contains u ys)) [
    | inl in_ ↦ rw (in_, out) (omega (arith, missing-lt us xs ys t f m m' h))
    | inr out' ↦ rw (out, out') (omega (arith, missing-lt us xs ys t f m m' h))
  ]
]

states-Mem : (e : EpistemicState) → Memᴰ e states
states-Mem must = head refl
states-Mem may = tail (head refl)
states-Mem must_not = tail (tail (head refl))
states-Mem inferred = tail (tail (tail (head refl)))
states-Mem assumed = tail (tail (tail (tail (head refl))))
states-Mem unknown = tail (tail (tail (tail (tail (head refl)))))

for_states-Mem :
    (s o : StableId) (t : DerivedTuple) (es : List EpistemicState)
    → t.subject ≡ s
    → t.object ≡ o
    → Memᴰ t.epistemic es
    → Memᴰ t (for_states s o es)
unfolding for_states
for_states-Mem s o t [] p q m = elim m [ ]
for_states-Mem s o t (e ∷ es) p q (head r) = head (tuple_of p q r)
for_states-Mem s o t (e ∷ es) p q (tail m) = tail (for_states-Mem s o t es p q m)

for_objects-Mem :
    (s : StableId) (t o : DerivedTuple) (ts : List DerivedTuple)
    → t.subject ≡ s
    → Memᴰ o ts
    → t.object ≡ o.object
    → Memᴰ t (for_objects s ts)
unfolding for_objects
for_objects-Mem s t o [] p m q = elim m [ ]
for_objects-Mem s t o (x ∷ ts) p (head e) q =
    append_left (for_objects s ts)
      (for_states-Mem s x.object t states p (q ∙ ap (λ y. y.object) e) (states-Mem t.epistemic))
for_objects-Mem s t o (x ∷ ts) p (tail m) q =
    append_right (for_states s x.object states) (for_objects-Mem s t o ts p m q)

pub universe-Mem :
    (t s o : DerivedTuple) (ss ts : List DerivedTuple)
    → Memᴰ s ss
    → t.subject ≡ s.subject
    → Memᴰ o ts
    → t.object ≡ o.object
    → Memᴰ t (universe ss ts)
unfolding universe
universe-Mem t s o [] ts m p m' q = elim m [ ]
universe-Mem t s o (x ∷ ss) ts (head e) p m' q =
    append_left (universe ss ts) (for_objects-Mem x.subject t o ts (p ∙ ap (λ y. y.subject) e) m' q)
universe-Mem t s o (x ∷ ss) ts (tail m) p m' q =
    append_right (for_objects x.subject ts) (universe-Mem t s o ss ts m p m' q)
