-- ===== src/Facts/Epistemic/Meet.antt =====
-- `JoinEpistemic` as a meet: which inputs give which state.
use mathlib.Core.List.{Memᴰ}
use mathlib.Core.List.Memᴰ
use veritas.Common.{
  ℕ, ◌≤◌, min, Bool, true, false, ◌&&◌, ◌||◌, List, [], ◌∷◌, leb, if◌then◌else◌, none, some, ◌≡◌,
  ◌≢◌, refl, sym, ap, subst, ◌∙◌, arith, All, ◌⊎◌, inl, inr, Bool-cases,
}
use veritas.Facts.Epistemic.{
  EpistemicState, must, unknown, RuleSoundness, sound, rank, Scan, is_must, is_must_not, is_unknown,
  scan, conclude, start, join_epistemic, from_rank, cap,
}

-- The state occurs among the inputs.
abbrev pub occurs : (EpistemicState → Bool) → List EpistemicState → Bool
occurs p [] = false
occurs p (e ∷ es) = p e || occurs p es

-- The least rank of the inputs, and at most `r`.
abbrev pub least_rank : ℕ → List EpistemicState → ℕ
least_rank r [] = r
least_rank r (e ∷ es) = least_rank (min r (rank e)) es

-- The loop computes the three facts, unless an input is UNKNOWN.
scan_lem :
    (s : Scan) (es : List EpistemicState)
    → scan s es ≡ (
        if occurs is_unknown es
        then none
        else some (record {
          weakest_rank = least_rank s.weakest_rank es;
          has_must = s.has_must || occurs is_must es;
          has_must_not = s.has_must_not || occurs is_must_not es;
        }))
unfolding scan
scan_lem s [] = ground arith
scan_lem s (e ∷ es) = ground (
  arith,
  scan_lem
      (record {
        weakest_rank = min s.weakest_rank (rank e);
        has_must = s.has_must || is_must e;
        has_must_not = s.has_must_not || is_must_not e;
      })
      es,
)

abbrev pub Summary : List EpistemicState → Scan
Summary es = record {
  weakest_rank = least_rank 5 es;
  has_must = occurs is_must es;
  has_must_not = occurs is_must_not es;
}

-- The function without its loop.
pub join_epistemic_lem :
    (e : EpistemicState) (es : List EpistemicState) (s : RuleSoundness)
    → join_epistemic (e ∷ es) s
      ≡ (if occurs is_unknown (e ∷ es) then unknown else conclude (Summary (e ∷ es)) s)
unfolding join_epistemic
join_epistemic_lem e es s = elim (Bool-cases (occurs is_unknown (e ∷ es))) [
  | inl u ↦ rw (scan_lem start (e ∷ es), u)
  | inr k ↦ rw (scan_lem start (e ∷ es), k)
]

pub least_rank-le : (r : ℕ) (es : List EpistemicState) → least_rank r es ≤ r
least_rank-le r [] = omega arith
least_rank-le r (e ∷ es) = omega (arith, least_rank-le (min r (rank e)) es)

pub least_rank-All : (r : ℕ) (es : List EpistemicState) → All (λ e. least_rank r es ≤ rank e) es
least_rank-All r [] = tt
least_rank-All r (e ∷ es) =
    (omega (arith, least_rank-le (min r (rank e)) es), least_rank-All (min r (rank e)) es)

-- The least rank is the bound or the rank of an input.
least_rank_attained :
    (r : ℕ) (es : List EpistemicState)
    → (least_rank r es ≡ r) ⊎ ((e : EpistemicState) × Memᴰ e es × (rank e ≡ least_rank r es))
least_rank_attained r [] = inl refl
least_rank_attained r (e ∷ es) = elim (least_rank_attained (min r (rank e)) es) [
  | inl same ↦ elim (Bool-cases (leb r (rank e))) [
    | inl below ↦ inl (same ∙ ground arith)
    | inr above ↦ inr (e, Memᴰ.head refl, ground arith)
  ]
  | inr (d, m, at) ↦ inr (d, Memᴰ.tail m, at)
]

pub rank-le-five : (e : EpistemicState) → rank e ≤ 5
unfolding rank
rank-le-five must = omega arith
rank-le-five _ = omega arith

-- Some input has the least rank.
pub weakest_input :
    (e : EpistemicState) (es : List EpistemicState)
    → (d : EpistemicState) × Memᴰ d (e ∷ es) × (rank d ≡ least_rank 5 (e ∷ es))
weakest_input e es = elim (least_rank_attained 5 (e ∷ es)) [
  | inl five ↦ (e, Memᴰ.head refl, omega (arith, rank-le-five e, (least_rank-All 5 (e ∷ es)).0))
  | inr found ↦ found
]

from_rank-rank : (e : EpistemicState) → e ≢ unknown → from_rank (rank e) ≡ e
unfolding from_rank rank
from_rank-rank unknown h = absurd (h refl)
from_rank-rank _ h = refl

-- An input that is UNKNOWN is seen.
pub occurs_unknown : (es : List EpistemicState) → Memᴰ unknown es → occurs is_unknown es ≡ true
occurs_unknown [] m = absurd (Memᴰ.not-nil m)
occurs_unknown (e ∷ es) m = elim (Memᴰ.cases_cons m) [
  | inl here ↦ rw (← here) refl
  | inr there ↦ ground (arith, occurs_unknown es there)
]

-- With no input UNKNOWN, the weakest input is the state of the least rank.
pub weakest_state :
    (e : EpistemicState) (es : List EpistemicState)
    → occurs is_unknown (e ∷ es) ≡ false
    → Memᴰ (from_rank (least_rank 5 (e ∷ es))) (e ∷ es)
      × (rank (from_rank (least_rank 5 (e ∷ es))) ≡ least_rank 5 (e ∷ es))
weakest_state e es none_unknown =
    let (d, m, at) = weakest_input e es in
    let known : d ≢ unknown =
      λ is. cc (occurs_unknown (e ∷ es) (subst (λ z. Memᴰ z (e ∷ es)) is m)) in
    let state : from_rank (least_rank 5 (e ∷ es)) ≡ d =
      ap from_rank (sym at) ∙ from_rank-rank d known in
    (subst (λ z. Memᴰ z (e ∷ es)) (sym state) m, ap rank state ∙ at)

-- MUST and MUST_NOT together, with no weaker input.
abbrev pub clash : List EpistemicState → Bool
clash es = occurs is_must es && occurs is_must_not es && leb 4 (least_rank 5 es)

conclude_sound :
    (es : List EpistemicState)
    → conclude (Summary es) sound ≡ (if clash es then unknown else from_rank (least_rank 5 es))
unfolding conclude
conclude_sound es = elim (Bool-cases (clash es)) [
  | inl c ↦ rw c
  | inr c ↦ rw c (unfold cap in refl)
]

-- The function for a sound rule.
join_epistemic_sound :
    (e : EpistemicState) (es : List EpistemicState)
    → join_epistemic (e ∷ es) sound ≡ (
        if occurs is_unknown (e ∷ es) || clash (e ∷ es)
        then unknown
        else from_rank (least_rank 5 (e ∷ es)))
join_epistemic_sound e es = elim (Bool-cases (occurs is_unknown (e ∷ es))) [
  | inl u ↦ join_epistemic_lem e es sound ∙ rw u
  | inr k ↦ join_epistemic_lem e es sound ∙ rw k (conclude_sound (e ∷ es))
]

abbrev pub IsMeet : List EpistemicState → EpistemicState → Type 0
IsMeet es r = Memᴰ r es × All (λ e. rank r ≤ rank e) es

-- For a sound rule, a state that `JoinEpistemic` returns and that is not UNKNOWN is one of the
-- inputs, and its rank is the least among theirs.
pub join_epistemic-IsMeet :
    (es : List EpistemicState)
    → join_epistemic es sound ≢ unknown
    → IsMeet es (join_epistemic es sound)
join_epistemic-IsMeet [] h = absurd (h (unfold join_epistemic in refl))
join_epistemic-IsMeet (e ∷ es) h =
    elim (Bool-cases (occurs is_unknown (e ∷ es) || clash (e ∷ es))) [
      | inl bad ↦ absurd (h (join_epistemic_sound e es ∙ rw bad))
      | inr good ↦
          let (m, at) = weakest_state e es (ground arith) in
          subst (IsMeet (e ∷ es)) (sym (join_epistemic_sound e es ∙ rw good))
            (m, subst (λ n. All (λ d. n ≤ rank d) (e ∷ es)) (sym at) (least_rank-All 5 (e ∷ es)))
    ]
