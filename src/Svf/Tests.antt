-- ===== src/Svf/Tests.antt =====
-- Examples of src/analysis/svf: a budget that is used up.
use veritas.Common.{ℕ, false, true, List, [], ◌∷◌, ◌++◌, replicate, ◌≡◌, refl, ◌↔◌}
use veritas.Svf.Budget.{SvfConfig, svf_budget, over, Call, checks, emits, queries, run}
use veritas.Svf.Budget.Limits.{IsWithin, facts_granted, pairs_granted, run-counts}
use veritas.Svf.Budget.Stops.{run-stops}

abbrev config : SvfConfig
config = record {
  max_graph_nodes = 100;
  soft_analysis_budget = 10;
  max_emitted_facts = 1;
  max_alias_pairs = 1;
}

abbrev history : List Call
history = checks 50 12 ∷ emits ∷ queries 13 ∷ emits ∷ queries 14 ∷ []

run-counts_example :
    ((run history (svf_budget config 10)).1.state.emitted_facts
      ≡ facts_granted history (run history (svf_budget config 10)).0)
    × ((run history (svf_budget config 10)).1.state.alias_pairs_examined
        ≡ pairs_granted history (run history (svf_budget config 10)).0)
    × IsWithin (run history (svf_budget config 10)).1
run-counts_example = run-counts config 10 history

run-stops_example :
    (n m : ℕ) × ((run history (svf_budget config 10)).0 ≡ replicate n true ++ replicate m false)
    × ((over (run history (svf_budget config 10)).1.state.reason ≡ false) ↔ (m ≡ 0))
unfolding svf_budget
run-stops_example = run-stops history (svf_budget config 10) refl
