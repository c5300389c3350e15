-- ===== src/Wpa/Rules/Insert.antt =====
-- What the loops of a round add to the derived tuples.
use mathlib.Core.List.{Memᴰ}
use mathlib.Core.List.Memᴰ.{head, tail}
use veritas.Common.{
  true, false, List, [], ◌∷◌, some, ◌≡◌, refl, sym, ap, ◌∙◌, subst, ◌⊎◌, inl, inr, Bool-cases,
  Option-cases,
}
use veritas.Core.Ids.{id_eq, id_eq_iff}
use veritas.Wpa.Rules.Member.{tuple_of, contains-Mem}
use veritas.Wpa.Rules.{
  weaken, DerivedTuple, Progress, contains, insert, compose, compose_with, compose_all,
}

-- `q` has the tuples of `p` and some for which `P` holds, and `changed` says whether there are any.
pub record Adds (P : DerivedTuple → Type 0) (p q : Progress) : Type 0 where
  pub kept : (t : DerivedTuple) → Memᴰ t p.derived → Memᴰ t q.derived
  pub only : (t : DerivedTuple) → Memᴰ t q.derived → Memᴰ t p.derived ⊎ P t
  pub same : q.changed ≡ false → q ≡ p
  pub grew :
      p.changed ≡ false
      → q.changed ≡ true
      → (t : DerivedTuple) × P t × Memᴰ t q.derived × contains t p.derived ≡ false

pub Adds-refl : (P : DerivedTuple → Type 0) (p : Progress) → Adds P p p
Adds-refl P p = record {
  kept = λ t m. m;
  only = λ t m. inl m;
  same = λ h. refl;
  grew = λ h h'. cc (h, h');
}

pub Adds-trans :
    (P : DerivedTuple → Type 0) (p q r : Progress) → Adds P p q → Adds P q r → Adds P p r
Adds-trans P p q r f g = record {
  kept = λ t m. g.kept t (f.kept t m);
  only = λ t m. elim (g.only t m) [ inl m' ↦ f.only t m' | inr x ↦ inr x ];
  same = λ h. let e = g.same h in e ∙ f.same (sym (ap (λ x. x.changed) e) ∙ h);
  grew = λ h h'. elim (Bool-cases q.changed) [
    | inl c ↦ let w = f.grew h c in (w.0, w.1, g.kept w.0 w.2, w.3)
    | inr c ↦
        let w = g.grew c h' in
        (w.0, w.1, w.2, subst (λ x. contains w.0 x.derived ≡ false) (f.same c) w.3)
  ];
}

pub insert-Adds :
    (P : DerivedTuple → Type 0) (next : DerivedTuple) (p : Progress)
    → P next
    → Adds P p (insert next p)
unfolding insert
insert-Adds P next p x = elim (Bool-cases (contains next p.derived)) [
  | inl old ↦ rw old (Adds-refl P p)
  | inr new ↦ rw new (record {
    kept = λ t m. tail m;
    only = λ t m. elim m [ head e ↦ inr (subst P (sym e) x) | tail m' ↦ inl m' ];
    same = λ h. cc h;
    grew = λ h h'. (next, x, head refl, new);
  })
]

pub insert-Mem : (next : DerivedTuple) (p : Progress) → Memᴰ next (insert next p).derived
unfolding insert
insert-Mem next p = elim (Bool-cases (contains next p.derived)) [
  | inl old ↦ rw old (contains-Mem next p.derived old)
  | inr new ↦ rw new (head refl)
]

-- The conclusion of a rule with the premises `a` and `b`.
pub record Composes (a b t : DerivedTuple) : Type 0 where
  pub meets : b.subject ≡ a.object
  pub subject_is : t.subject ≡ a.subject
  pub object_is : t.object ≡ b.object
  pub warrant_is : weaken a.epistemic b.epistemic ≡ some t.epistemic

compose-Adds :
    (P : DerivedTuple → Type 0) (a b : DerivedTuple) (p : Progress)
    → ((t : DerivedTuple) → Composes a b t → P t)
    → Adds P p (compose a b p)
unfolding compose
compose-Adds P a b p h = elim (Bool-cases (id_eq b.subject a.object)) [
  | inr apart ↦ rw apart (Adds-refl P p)
  | inl meets ↦ elim (Option-cases (weaken a.epistemic b.epistemic)) [
    | inl nothing ↦ rw (meets, nothing) (Adds-refl P p)
    | inr (e, warrant) ↦
        let t : DerivedTuple = record { subject = a.subject; object = b.object; epistemic = e } in
        rw (meets, warrant)
          (insert-Adds P t p (
            h t (record {
              meets = (id_eq_iff b.subject a.object).0 meets;
              subject_is = refl;
              object_is = refl;
              warrant_is = warrant;
            })))
  ]
]

compose-Mem :
    (a b t : DerivedTuple) (p : Progress) → Composes a b t → Memᴰ t (compose a b p).derived
unfolding compose
compose-Mem a b t p c =
    let next : DerivedTuple = record {
      subject = a.subject;
      object = b.object;
      epistemic = t.epistemic;
    } in
    let same : t ≡ next = tuple_of c.subject_is c.object_is refl in
    rw ((id_eq_iff b.subject a.object).1 c.meets, c.warrant_is)
      (subst (λ x. Memᴰ x (insert next p).derived) (sym same) (insert-Mem next p))

compose_with-Adds :
    (P : DerivedTuple → Type 0) (a : DerivedTuple) (bs : List DerivedTuple) (p : Progress)
    → ((b t : DerivedTuple) → Memᴰ b bs → Composes a b t → P t)
    → Adds P p (compose_with a bs p)
unfolding compose_with
compose_with-Adds P a [] p h = Adds-refl P p
compose_with-Adds P a (b ∷ bs) p h =
    Adds-trans P p (compose a b p) (compose_with a bs (compose a b p))
      (compose-Adds P a b p λ t c. h b t (head refl) c)
      (compose_with-Adds P a bs (compose a b p) λ b' t m c. h b' t (tail m) c)

compose_with-kept :
    (a : DerivedTuple) (bs : List DerivedTuple) (p : Progress) (t : DerivedTuple)
    → Memᴰ t p.derived
    → Memᴰ t (compose_with a bs p).derived
compose_with-kept a bs p t m = (compose_with-Adds (λ _. Unit) a bs p λ _ _ _ _. tt).kept t m

compose_with-Mem :
    (a b t : DerivedTuple) (bs : List DerivedTuple) (p : Progress)
    → Memᴰ b bs
    → Composes a b t
    → Memᴰ t (compose_with a bs p).derived
unfolding compose_with
compose_with-Mem a b t [] p m c = elim m [ ]
compose_with-Mem a b t (x ∷ xs) p (head e) c =
    compose_with-kept a xs (compose a x p) t
      (subst (λ y. Memᴰ t (compose a y p).derived) e (compose-Mem a b t p c))
compose_with-Mem a b t (x ∷ xs) p (tail m) c = compose_with-Mem a b t xs (compose a x p) m c

pub compose_all-Adds :
    (P : DerivedTuple → Type 0) (as_ bs : List DerivedTuple) (p : Progress)
    → ((a b t : DerivedTuple) → Memᴰ a as_ → Memᴰ b bs → Composes a b t → P t)
    → Adds P p (compose_all as_ bs p)
unfolding compose_all
compose_all-Adds P [] bs p h = Adds-refl P p
compose_all-Adds P (a ∷ as_) bs p h =
    Adds-trans P p (compose_with a bs p) (compose_all as_ bs (compose_with a bs p))
      (compose_with-Adds P a bs p λ b t m c. h a b t (head refl) m c)
      (compose_all-Adds P as_ bs (compose_with a bs p) λ a' b t m m' c. h a' b t (tail m) m' c)

pub compose_all-kept :
    (as_ bs : List DerivedTuple) (p : Progress) (t : DerivedTuple)
    → Memᴰ t p.derived
    → Memᴰ t (compose_all as_ bs p).derived
compose_all-kept as_ bs p t m = (compose_all-Adds (λ _. Unit) as_ bs p λ _ _ _ _ _ _. tt).kept t m

pub compose_all-Mem :
    (a b t : DerivedTuple) (as_ bs : List DerivedTuple) (p : Progress)
    → Memᴰ a as_
    → Memᴰ b bs
    → Composes a b t
    → Memᴰ t (compose_all as_ bs p).derived
unfolding compose_all
compose_all-Mem a b t [] bs p m m' c = elim m [ ]
compose_all-Mem a b t (x ∷ xs) bs p (head e) m c =
    compose_all-kept xs bs (compose_with x bs p) t
      (subst (λ y. Memᴰ t (compose_with y bs p).derived) e (compose_with-Mem a b t bs p m c))
compose_all-Mem a b t (x ∷ xs) bs p (tail m) m' c =
    compose_all-Mem a b t xs bs (compose_with x bs p) m m' c
