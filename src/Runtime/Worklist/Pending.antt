-- ===== src/Runtime/Worklist/Pending.antt =====
-- What `Enqueue` and `PopNext` do to the items that wait.
use mathlib.Core.List.{Permᴰ}
use mathlib.Core.List.Permᴰ.{cons, trans, swap, middle, append-nil}
use mathlib.Core.List.Permᴰ as Permᴰ
use veritas.Common.{
  Bool, true, false, ◌||◌, List, [], ◌∷◌, ◌++◌, Bytes, bytes_eq, if◌then◌else◌, Option, none, some,
  All, ◌≡◌, refl, sym, ap, ◌∙◌, inl, inr, Bool-cases,
}
use veritas.Core.Ids.{StableId, id_eq, id_eq_iff}
use veritas.Runtime.Worklist.{
  WorkItem, Worklist, has_id, merge_ids, merge_item, precedes, select, pop_next,
}
use veritas.Runtime.Worklist.Order.{precedes_trans, precedes-asym}

abbrev Entry : Type 0
Entry = Bytes × WorkItem

-- No entry of the list precedes `best`.
abbrev Least : Entry → Worklist → Type 0
Least best w = All (λ x. precedes x best ≡ false) w

Least-of : (x best : Entry) (w : Worklist) → precedes x best ≡ true → Least best w → Least x w
Least-of x best [] h a = a
Least-of x best (y ∷ w) h a = (
  elim (Bool-cases (precedes y x)) [
    | inl before ↦ cc (sym (precedes_trans y x best before h) ∙ a.0)
    | inr after ↦ after
  ],
  Least-of x best w h a.1,
)

select-Perm :
    (best : Entry) (passed rest : Worklist)
    → Permᴰ ((select best passed rest).0 ∷ (select best passed rest).1) (best ∷ (passed ++ rest))
unfolding select
select-Perm best passed [] = cons refl (Permᴰ.symm (append-nil passed))
select-Perm best passed (x ∷ rest) = elim (Bool-cases (precedes x best)) [
  | inl before ↦ rw before (
      trans (select-Perm x (best ∷ passed) rest)
        (trans (swap refl refl) (cons refl (Permᴰ.symm (middle x passed rest)))))
  | inr after ↦
      rw after
        (trans (select-Perm best (x ∷ passed) rest) (cons refl (Permᴰ.symm (middle x passed rest))))
]

select-Least :
    (best : Entry) (passed rest : Worklist)
    → Least best passed
    → Least (select best passed rest).0 (select best passed rest).1
unfolding select
select-Least best passed [] a = a
select-Least best passed (x ∷ rest) a = elim (Bool-cases (precedes x best)) [
  | inl before ↦ rw before (
      select-Least x (best ∷ passed) rest
        (precedes-asym x best before, Least-of x best passed before a))
  | inr after ↦ rw after (select-Least best (x ∷ passed) rest (after, a))
]

-- On a worklist that is not empty, `PopNext` returns the item of an entry and leaves all others;
-- none of these has a lower priority, or the same priority and a smaller key.
pub pop_next-least :
    (first : Bytes × WorkItem) (rest : Worklist)
    → (best : Bytes × WorkItem) × (others : Worklist) × (pop_next (first ∷ rest)
        ≡ some (best.1, others))
      × Permᴰ (best ∷ others) (first ∷ rest)
      × All (λ x. precedes x best ≡ false) others
unfolding pop_next
pop_next-least first rest = (
  (select first [] rest).0,
  (select first [] rest).1,
  refl,
  select-Perm first [] rest,
  select-Least first [] rest tt,
)

-- The worklist as a map.
unfoldable pub find_item : Bytes → Worklist → Option WorkItem
find_item key [] = none
find_item key ((k, x) ∷ rest) = if bytes_eq k key then some x else find_item key rest

abbrev pub enqueued : WorkItem → Option WorkItem → WorkItem
enqueued item none = item
enqueued item (some existing) = merge_item existing item

has_id-append :
    (id x : StableId) (xs : List StableId) → has_id id (xs ++ x ∷ []) ≡ (has_id id xs || id_eq x id)
unfolding has_id
has_id-append id x [] = elim (Bool-cases (id_eq x id)) [ inl h ↦ rw h refl | inr h ↦ rw h refl ]
has_id-append id x (y ∷ ys) = elim (Bool-cases (id_eq y id)) [
  | inl h ↦ rw h refl
  | inr h ↦ rw h (has_id-append id x ys)
]

or-absorb : (a b c : Bool) → (b ≡ true → a ≡ true) → (a || c) ≡ (a || (b || c))
or-absorb true b c h = refl
or-absorb false true c h = cc (h refl)
or-absorb false false c h = refl

or_assoc : (a b c : Bool) → ((a || b) || c) ≡ (a || (b || c))
or_assoc true b c = refl
or_assoc false b c = refl

-- The merged list of triggering deltas has the ids of both lists and no others.
pub has_id-merge_ids :
    (id : StableId) (existing ids : List StableId)
    → has_id id (merge_ids existing ids) ≡ (has_id id existing || has_id id ids)
unfolding merge_ids has_id
has_id-merge_ids id existing [] = elim (Bool-cases (has_id id existing)) [
  | inl h ↦ rw h refl
  | inr h ↦ rw h refl
]
has_id-merge_ids id existing (x ∷ xs) = elim (Bool-cases (has_id x existing)) [
  | inl old ↦ rw old (
      has_id-merge_ids id existing xs
      ∙ or-absorb (has_id id existing) (id_eq x id) (has_id id xs)
          λ h. sym (ap (λ y. has_id y existing) ((id_eq_iff x id).0 h)) ∙ old)
  | inr new ↦ rw new (
      has_id-merge_ids id (existing ++ x ∷ []) xs
      ∙ ap (λ b. b || has_id id xs) (has_id-append id x existing)
      ∙ or_assoc (has_id id existing) (id_eq x id) (has_id id xs))
]
