-- ===== src/Wpa/Rules/Weakness.antt =====
-- The order of `WeaknessRank` against that of `Rank` in src/facts/Epistemic.cpp.
use veritas.Common.{[], ◌∷◌, none, some, ◌≡◌, refl}
use veritas.Facts.Epistemic.{
  EpistemicState, must, may, must_not, inferred, assumed, unknown, sound, join_epistemic,
}
use veritas.Wpa.Rules.{weaken}

-- How the two combinations of a pair of states compare.
pub data Comparison : Type 0 where
  without_rank opposite same : Comparison

abbrev pub compare_orders : EpistemicState → EpistemicState → Comparison
compare_orders must_not b = without_rank
compare_orders a must_not = without_rank
compare_orders inferred assumed = opposite
compare_orders assumed inferred = opposite
compare_orders a b = same

abbrev pub Compares : Comparison → EpistemicState → EpistemicState → Type 0
Compares without_rank a b = weaken a b ≡ none
Compares opposite a b = (weaken a b ≡ some assumed) × (join_epistemic (a ∷ b ∷ []) sound ≡ inferred)
Compares same a b = weaken a b ≡ some (join_epistemic (a ∷ b ∷ []) sound)

-- For each two states, `Weaken` gives the state that `JoinEpistemic` gives for a sound rule, with
-- two exceptions: with MUST_NOT among them `Weaken` gives nothing, and of INFERRED and ASSUMED,
-- in both orders, it gives ASSUMED where `JoinEpistemic` gives INFERRED.
pub weaken-join_epistemic : (a b : EpistemicState) → Compares (compare_orders a b) a b
unfolding weaken join_epistemic
weaken-join_epistemic must must = refl
weaken-join_epistemic must may = refl
weaken-join_epistemic must must_not = refl
weaken-join_epistemic must inferred = refl
weaken-join_epistemic must assumed = refl
weaken-join_epistemic must unknown = refl
weaken-join_epistemic may must = refl
weaken-join_epistemic may may = refl
weaken-join_epistemic may must_not = refl
weaken-join_epistemic may inferred = refl
weaken-join_epistemic may assumed = refl
weaken-join_epistemic may unknown = refl
weaken-join_epistemic must_not must = refl
weaken-join_epistemic must_not may = refl
weaken-join_epistemic must_not must_not = refl
weaken-join_epistemic must_not inferred = refl
weaken-join_epistemic must_not assumed = refl
weaken-join_epistemic must_not unknown = refl
weaken-join_epistemic inferred must = refl
weaken-join_epistemic inferred may = refl
weaken-join_epistemic inferred must_not = refl
weaken-join_epistemic inferred inferred = refl
weaken-join_epistemic inferred assumed = (refl, refl)
weaken-join_epistemic inferred unknown = refl
weaken-join_epistemic assumed must = refl
weaken-join_epistemic assumed may = refl
weaken-join_epistemic assumed must_not = refl
weaken-join_epistemic assumed inferred = (refl, refl)
weaken-join_epistemic assumed assumed = refl
weaken-join_epistemic assumed unknown = refl
weaken-join_epistemic unknown must = refl
weaken-join_epistemic unknown may = refl
weaken-join_epistemic unknown must_not = refl
weaken-join_epistemic unknown inferred = refl
weaken-join_epistemic unknown assumed = refl
weaken-join_epistemic unknown unknown = refl
