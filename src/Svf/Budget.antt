-- ===== src/Svf/Budget.antt =====
-- src/analysis/svf/SvfBudget.cpp: the limits on an analysis run.
pub mod Limits
pub mod Stops
use Prim.Native.String.{String}
use veritas.Common.{ℕ, ◌+◌, ◌-◌, Bool, true, false, List, [], ◌∷◌, leb, ltb, if◌then◌else◌}

pub data BudgetReason : Type 0 where
  no_reason time_limit graph_node_limit fact_limit alias_pair_limit : BudgetReason

-- `BudgetReasonName`
unfoldable pub budget_reason_name : BudgetReason → String
budget_reason_name no_reason = "none"
budget_reason_name time_limit = "time_limit"
budget_reason_name graph_node_limit = "graph_node_limit"
budget_reason_name fact_limit = "fact_limit"
budget_reason_name alias_pair_limit = "alias_pair_limit"

-- The limits of `SvfConfig` that the budget reads; times are in ticks of the clock.
pub record SvfConfig : Type 0 where
  pub max_graph_nodes : ℕ
  pub soft_analysis_budget : ℕ
  pub max_emitted_facts : ℕ
  pub max_alias_pairs : ℕ

pub record SvfBudgetState : Type 0 where
  pub reason : BudgetReason
  pub observed_graph_nodes : ℕ
  pub emitted_facts : ℕ
  pub alias_pairs_examined : ℕ
  pub elapsed : ℕ

-- `SvfBudget`: `now_` is an argument of the operations that read the clock. The clock is steady, so
-- no reading is before `started`.
pub record SvfBudget : Type 0 where
  pub config : SvfConfig
  pub started : ℕ
  pub state : SvfBudgetState

unfoldable pub svf_budget : SvfConfig → ℕ → SvfBudget
svf_budget config now = record {
  config = config;
  started = now;
  state = record {
    reason = no_reason;
    observed_graph_nodes = 0;
    emitted_facts = 0;
    alias_pairs_examined = 0;
    elapsed = 0;
  };
}

-- `state_.reason != BudgetReason::kNone`
abbrev pub over : BudgetReason → Bool
over no_reason = false
over _ = true

abbrev stop : SvfBudget → BudgetReason → Bool × SvfBudget
stop b reason = (false, record b { state = record b.state { reason = reason } })

abbrev with_state : SvfBudget → SvfBudgetState → SvfBudget
with_state b state = record b { state = state }

-- `Checkpoint`
unfoldable pub checkpoint : ℕ → ℕ → SvfBudget → Bool × SvfBudget
checkpoint observed now b =
    let s = record b.state { observed_graph_nodes = observed; elapsed = now - b.started } in
    let b' = with_state b s in
    if over b.state.reason
    then (false, b)
    else if ltb b.config.max_graph_nodes observed
    then stop b' graph_node_limit
    else if ltb b.config.soft_analysis_budget s.elapsed
    then stop b' time_limit
    else (true, b')

-- `TryEmit`
unfoldable pub try_emit : SvfBudget → Bool × SvfBudget
try_emit b =
    if over b.state.reason
    then (false, b)
    else if leb b.config.max_emitted_facts b.state.emitted_facts
    then stop b fact_limit
    else (true, with_state b (record b.state { emitted_facts = b.state.emitted_facts + 1 }))

-- `TryAliasQuery`
unfoldable pub try_alias_query : ℕ → SvfBudget → Bool × SvfBudget
try_alias_query now b =
    let s = record b.state { elapsed = now - b.started } in
    let b' = with_state b s in
    if over b.state.reason
    then (false, b)
    else if ltb b.config.soft_analysis_budget s.elapsed
    then stop b' time_limit
    else if leb b.config.max_alias_pairs s.alias_pairs_examined
    then stop b' alias_pair_limit
    else (true, with_state b (record s { alias_pairs_examined = s.alias_pairs_examined + 1 }))

-- A call of the budget, with the reading of the clock.
pub data Call : Type 0 where
  checks : ℕ → ℕ → Call
  emits : Call
  queries : ℕ → Call

abbrev pub perform : Call → SvfBudget → Bool × SvfBudget
perform (checks observed now) b = checkpoint observed now b
perform emits b = try_emit b
perform (queries now) b = try_alias_query now b

-- The answers to a sequence of calls, and the state behind it.
unfoldable pub run : List Call → SvfBudget → List Bool × SvfBudget
unfolding checkpoint try_emit try_alias_query
run [] b = ([], b)
run (c ∷ cs) b = let r = perform c b in let rest = run cs r.1 in (r.0 ∷ rest.0, rest.1)
