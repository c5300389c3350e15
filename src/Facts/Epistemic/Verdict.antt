-- ===== src/Facts/Epistemic/Verdict.antt =====
-- When `JoinEpistemic` returns UNKNOWN, and when it returns MUST.
use mathlib.Core.List.{Memᴰ}
use mathlib.Core.List.Memᴰ
use veritas.Common.{
  ℕ, ◌≤◌, Bool, true, false, ◌||◌, List, [], ◌∷◌, leb, if◌then◌else◌, ◌≡◌, ◌≢◌, refl, sym, subst,
  ◌∙◌, arith, All, ◌⊎◌, inl, inr, ◌↔◌, Bool-cases, leb→le,
}
use veritas.Facts.Epistemic.{
  EpistemicState, must, must_not, unknown, RuleSoundness, sound, may_producing, rank, is_must,
  is_must_not, is_unknown, conclude, join_epistemic, from_rank, cap,
}
use veritas.Facts.Epistemic.Meet.{
  occurs, least_rank, clash, Summary, join_epistemic_lem, least_rank-All, weakest_input,
  join_epistemic-IsMeet,
}

All-map :
    {P Q : EpistemicState → Type 0} (es : List EpistemicState)
    → ((e : EpistemicState) → P e → Q e)
    → All P es
    → All Q es
All-map [] f h = tt
All-map (e ∷ es) f h = (f e h.0, All-map es f h.1)

occurs-mem :
    (p : EpistemicState → Bool) (es : List EpistemicState)
    → occurs p es ≡ true
    → (e : EpistemicState) × Memᴰ e es × (p e ≡ true)
occurs-mem p [] h = cc
occurs-mem p (e ∷ es) h = elim (Bool-cases (p e)) [
  | inl here ↦ (e, Memᴰ.head refl, here)
  | inr next ↦ let (d, m, at) = occurs-mem p es (rw next at h) in (d, Memᴰ.tail m, at)
]

mem-occurs :
    (p : EpistemicState → Bool) (d : EpistemicState) (es : List EpistemicState)
    → p d ≡ true
    → Memᴰ d es
    → occurs p es ≡ true
mem-occurs p d [] at m = absurd (Memᴰ.not-nil m)
mem-occurs p d (e ∷ es) at m = elim (Memᴰ.cases_cons m) [
  | inl here ↦ rw (← here) (rw at)
  | inr there ↦ ground (arith, mem-occurs p d es at there)
]

-- The inputs establish nothing: there is none, one is UNKNOWN, or they are all definite and
-- contradict one another.
abbrev pub EstablishesNothing : List EpistemicState → Type 0
EstablishesNothing es =
    (es ≡ [])
    ⊎ (Memᴰ unknown es ⊎ (Memᴰ must es × Memᴰ must_not es × All (λ e. rank must_not ≤ rank e) es))

definite_bound :
    (e : EpistemicState) (es : List EpistemicState)
    → All (λ d. 4 ≤ rank d) (e ∷ es)
    → 4 ≤ least_rank 5 (e ∷ es)
definite_bound e es all =
    let (d, m, at) = weakest_input e es in subst (λ n. 4 ≤ n) at (bound (e ∷ es) all m)
  where
    bound :
        {d : EpistemicState} (es : List EpistemicState)
        → All (λ d. 4 ≤ rank d) es
        → Memᴰ d es
        → 4 ≤ rank d
    bound [] all m = absurd (Memᴰ.not-nil m)
    bound (e ∷ es) all m = elim (Memᴰ.cases_cons m) [
      | inl here ↦ rw here all.0
      | inr there ↦ bound es all.1 there
    ]

cap-unknown : (s : RuleSoundness) (e : EpistemicState) → cap s e ≡ unknown → e ≡ unknown
unfolding cap
cap-unknown sound e h = h
cap-unknown may_producing must h = cc
cap-unknown may_producing must_not h = cc
cap-unknown may_producing _ h = h

from_rank-known : (r : ℕ) → from_rank r ≢ unknown
unfolding from_rank
from_rank-known r = ground arith

is_must-eq : (d : EpistemicState) → is_must d ≡ true → d ≡ must
is_must-eq d h = ground arith

is_must_not-eq : (d : EpistemicState) → is_must_not d ≡ true → d ≡ must_not
is_must_not-eq d h = ground arith

is_unknown-eq : (d : EpistemicState) → is_unknown d ≡ true → d ≡ unknown
is_unknown-eq d h = ground arith

clash-mem : (es : List EpistemicState) → clash es ≡ true → EstablishesNothing es
unfolding rank
clash-mem es h = inr (
    inr (
      (let (d, m, at) = occurs-mem is_must es (ground arith) in
          subst (λ z. Memᴰ z es) (is_must-eq d at) m),
      (let (d, m, at) = occurs-mem is_must_not es (ground arith) in
          subst (λ z. Memᴰ z es) (is_must_not-eq d at) m),
      All-map es
          (λ e. λ (le : least_rank 5 es ≤ rank e).
            omega (arith, leb→le 4 (least_rank 5 es) (ground arith)))
          (least_rank-All 5 es),
    ))

-- What follows the loop, for every rule.
conclude-cap :
    (es : List EpistemicState) (s : RuleSoundness)
    → conclude (Summary es) s ≡ (if clash es then unknown else cap s (from_rank (least_rank 5 es)))
unfolding conclude
conclude-cap es s = elim (Bool-cases (clash es)) [ inl c ↦ rw c | inr c ↦ rw c ]

verdict :
    (e : EpistemicState) (es : List EpistemicState) (s : RuleSoundness)
    → join_epistemic (e ∷ es) s ≡ (
        if occurs is_unknown (e ∷ es) || clash (e ∷ es)
        then unknown
        else cap s (from_rank (least_rank 5 (e ∷ es))))
verdict e es s = elim (Bool-cases (occurs is_unknown (e ∷ es))) [
  | inl u ↦ join_epistemic_lem e es s ∙ rw u
  | inr k ↦ join_epistemic_lem e es s ∙ rw k (conclude-cap (e ∷ es) s)
]

nothing-bad :
    (e : EpistemicState) (es : List EpistemicState)
    → EstablishesNothing (e ∷ es)
    → (occurs is_unknown (e ∷ es) || clash (e ∷ es)) ≡ true
unfolding rank
nothing-bad e es (inl h) = cc
nothing-bad e es (inr (inl m)) = rw (mem-occurs is_unknown unknown (e ∷ es) refl m)
nothing-bad e es (inr (inr (t, f, all))) =
    let has_must = mem-occurs is_must must (e ∷ es) refl t in
    let has_must_not = mem-occurs is_must_not must_not (e ∷ es) refl f in
    let bound : leb 4 (least_rank 5 (e ∷ es)) ≡ true = le→leb _ _ (definite_bound e es all) in
    or_true (occurs is_unknown (e ∷ es)) (rw (has_must, has_must_not, bound))
  where
    or_true : (b : Bool) {c : Bool} → c ≡ true → (b || c) ≡ true
    or_true true h = refl
    or_true false h = h

    le→leb : (a b : ℕ) → a ≤ b → leb a b ≡ true
    le→leb a b h = ground arith

-- `JoinEpistemic` returns UNKNOWN exactly on no input, on an UNKNOWN input, and on a contradiction
-- of definite inputs with no weaker one, whatever the soundness of the rule.
pub join_epistemic-unknown :
    (es : List EpistemicState) (s : RuleSoundness)
    → (join_epistemic es s ≡ unknown) ↔ EstablishesNothing es
join_epistemic-unknown [] s = (λ _. inl refl, λ _. unfold join_epistemic in refl)
join_epistemic-unknown (e ∷ es) s = (
  λ h. elim (Bool-cases (occurs is_unknown (e ∷ es))) [
    | inl u ↦
        let (d, m, at) = occurs-mem is_unknown (e ∷ es) u in
        inr (inl (subst (λ z. Memᴰ z (e ∷ es)) (is_unknown-eq d at) m))
    | inr k ↦ elim (Bool-cases (clash (e ∷ es))) [
      | inl c ↦ clash-mem (e ∷ es) c
      | inr c ↦ absurd (
          from_rank-known (least_rank 5 (e ∷ es))
            (cap-unknown s _ (sym (verdict e es s ∙ rw (k, c)) ∙ h)))
    ]
  ],
  λ n. verdict e es s ∙ rw (nothing-bad e es n),
)

five_must : (d : EpistemicState) → rank must ≤ rank d → d ≡ must
unfolding rank
five_must must h = refl
five_must unknown h = absurd (omega arith)
five_must _ h = absurd (omega arith)

All-must :
    (es : List EpistemicState)
    → All (λ e. e ≡ must) es
    → (least_rank 5 es ≡ 5) × (occurs is_unknown es ≡ false) × (occurs is_must_not es ≡ false)
unfolding rank
All-must [] h = (refl, refl, refl)
All-must (e ∷ es) h = rw h.0 (All-must es h.1)

may_producing-ne-must : (e : EpistemicState) → cap may_producing e ≢ must
unfolding cap
may_producing-ne-must must h = cc
may_producing-ne-must _ h = cc

nil-ne-must : (s : RuleSoundness) → join_epistemic [] s ≢ must
unfolding join_epistemic
nil-ne-must s h = cc

may_producing-ne :
    (e : EpistemicState) (es : List EpistemicState) → join_epistemic (e ∷ es) may_producing ≢ must
may_producing-ne e es h = elim (Bool-cases (occurs is_unknown (e ∷ es) || clash (e ∷ es))) [
  | inl bad ↦ cc (rw bad at (verdict e es may_producing))
  | inr good ↦ may_producing-ne-must _ (sym (rw good at (verdict e es may_producing)) ∙ h)
]

All-must-must :
    (e : EpistemicState) (es : List EpistemicState)
    → All (λ d. d ≡ must) (e ∷ es)
    → join_epistemic (e ∷ es) sound ≡ must
unfolding cap from_rank
All-must-must e es h =
    let (least, known, positive) = All-must (e ∷ es) h in
    verdict e es sound ∙ rw (known, positive, least) (ground arith)

-- `JoinEpistemic` returns MUST exactly for a sound rule with at least one input, all of them MUST.
pub join_epistemic-must :
    (es : List EpistemicState) (s : RuleSoundness)
    → (join_epistemic es s ≡ must) ↔ ((es ≢ []) × All (λ e. e ≡ must) es × (s ≡ sound))
join_epistemic-must [] s = (λ h. absurd (nil-ne-must s h), λ h. absurd (h.0 refl))
join_epistemic-must (e ∷ es) may_producing = (λ h. absurd (may_producing-ne e es h), λ h. cc)
join_epistemic-must (e ∷ es) sound = (
  λ h.
      let meet = join_epistemic-IsMeet (e ∷ es) (λ u. cc) in
      let all : All (λ d. rank must ≤ rank d) (e ∷ es) =
        subst (λ z. All (λ d. rank z ≤ rank d) (e ∷ es)) h meet.1 in
      (λ n. cc, All-map (e ∷ es) five_must all, refl),
  λ h. All-must-must e es h.1,
)
