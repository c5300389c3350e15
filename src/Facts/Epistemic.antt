-- ===== src/Facts/Epistemic.antt =====
-- src/facts/Epistemic.cpp: the epistemic state of a derived fact.
pub mod Meet
pub mod Verdict
use veritas.Common.{
  ℕ, ◌≤◌, min, Bool, true, false, ◌&&◌, ◌||◌, List, [], ◌∷◌, ◌++◌, ◌==◌, leb, ltb, if◌then◌else◌,
  Option, none, some, ◌≡◌, ◌≢◌, refl, ◌∙◌, arith, All, ◌⊎◌, inl, inr, ◌↔◌,
}

-- `analysis::semantic::EpistemicState`
pub data EpistemicState : Type 0 where
  must may must_not inferred assumed unknown : EpistemicState

pub data RuleSoundness : Type 0 where
  sound may_producing : RuleSoundness

-- `Rank`: evidence strength, the weakest first.
unfoldable pub rank : EpistemicState → ℕ
rank unknown = 0
rank inferred = 1
rank assumed = 2
rank may = 3
rank must_not = 4
rank must = 5

-- The variables of the loop; the loop returns early at UNKNOWN.
pub record Scan : Type 0 where
  pub weakest_rank : ℕ
  pub has_must : Bool
  pub has_must_not : Bool

abbrev is_must : EpistemicState → Bool
is_must must = true
is_must _ = false

abbrev is_must_not : EpistemicState → Bool
is_must_not must_not = true
is_must_not _ = false

abbrev is_unknown : EpistemicState → Bool
is_unknown unknown = true
is_unknown _ = false

-- The loop over the inputs; `none` is its early return.
pub scan : Scan → List EpistemicState → Option Scan
scan s [] = some s
scan s (e ∷ es) =
    if is_unknown e
    then none
    else scan
        (record {
          weakest_rank = min s.weakest_rank (rank e);
          has_must = s.has_must || is_must e;
          has_must_not = s.has_must_not || is_must_not e;
        })
        es

-- `switch (weakest_rank)`
pub from_rank : ℕ → EpistemicState
from_rank r =
    if r == 1
    then inferred
    else if r == 2
    then assumed
    else if r == 3
    then may
    else if r == 4
    then must_not
    else must

-- The cap of an over-approximating rule.
pub cap : RuleSoundness → EpistemicState → EpistemicState
cap may_producing must = may
cap may_producing must_not = may
cap _ e = e

-- What follows the loop.
unfoldable pub conclude : Scan → RuleSoundness → EpistemicState
unfolding rank from_rank cap
conclude s soundness =
    if s.has_must && s.has_must_not && leb (rank must_not) s.weakest_rank
    then unknown
    else cap soundness (from_rank s.weakest_rank)

abbrev start : Scan
start = record { weakest_rank = 5; has_must = false; has_must_not = false }

abbrev finish : RuleSoundness → Option Scan → EpistemicState
finish soundness none = unknown
finish soundness (some s) = conclude s soundness

unfoldable pub join_epistemic : List EpistemicState → RuleSoundness → EpistemicState
unfolding conclude scan
join_epistemic [] soundness = unknown
join_epistemic (e ∷ es) soundness = finish soundness (scan start (e ∷ es))
