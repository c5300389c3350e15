-- ===== src/Svf/Budget/Limits.antt =====
-- What the limits promise over a sequence of calls.
use veritas.Common.{
  ℕ, ◌+◌, ◌-◌, ◌≤◌, Bool, true, false, not, List, [], ◌∷◌, leb, ltb, ◌≡◌, refl, inl, inr,
  Bool-cases, arith,
}
use veritas.Svf.Budget.{
  SvfConfig, SvfBudget, svf_budget, over, checkpoint, try_emit, try_alias_query, Call, checks,
  emits, queries, perform, run,
}

-- The counters are within the limits.
pub record IsWithin (b : SvfBudget) : Type 0 where
  pub facts_le : b.state.emitted_facts ≤ b.config.max_emitted_facts
  pub pairs_le : b.state.alias_pairs_examined ≤ b.config.max_alias_pairs

-- What a call adds to the counters, if it is answered with true.
abbrev fact_of : Bool → Call → ℕ
fact_of false c = 0
fact_of true emits = 1
fact_of true _ = 0

abbrev pair_of : Bool → Call → ℕ
pair_of false c = 0
pair_of true (queries _) = 1
pair_of true _ = 0

abbrev pub facts_granted : List Call → List Bool → ℕ
facts_granted (c ∷ cs) (a ∷ as_) = fact_of a c + facts_granted cs as_
facts_granted _ _ = 0

abbrev pub pairs_granted : List Call → List Bool → ℕ
pairs_granted (c ∷ cs) (a ∷ as_) = pair_of a c + pairs_granted cs as_
pairs_granted _ _ = 0

-- What one call does: the answer, the counters, the limits.
pub record Keeps (c : Call) (b : SvfBudget) (r : Bool × SvfBudget) : Type 0 where
  pub answer : r.0 ≡ not (over r.1.state.reason)
  pub frozen : over b.state.reason ≡ true → r ≡ (false, b)
  facts : r.1.state.emitted_facts ≡ b.state.emitted_facts + fact_of r.0 c
  pairs : r.1.state.alias_pairs_examined ≡ b.state.alias_pairs_examined + pair_of r.0 c
  within : IsWithin b → IsWithin r.1

stopped : (c : Call) (b : SvfBudget) → over b.state.reason ≡ true → Keeps c b (false, b)
stopped c b h = record {
  answer = rw h refl;
  frozen = λ _. refl;
  facts = omega arith;
  pairs = omega arith;
  within = λ w. w;
}

try_emit-Keeps : (b : SvfBudget) → Keeps emits b (try_emit b)
unfolding try_emit
try_emit-Keeps b = elim (Bool-cases (over b.state.reason)) [
  | inl h ↦ rw h (stopped emits b h)
  | inr h ↦ elim (Bool-cases (leb b.config.max_emitted_facts b.state.emitted_facts)) [
    | inl full ↦
        rw (h, full)
          (record {
            answer = refl;
            frozen = λ o. cc (o, h);
            facts = omega arith;
            pairs = omega arith;
            within = λ w. record { facts_le = w.facts_le; pairs_le = w.pairs_le };
          })
    | inr free ↦
        rw (h, free)
          (record {
            answer = rw h refl;
            frozen = λ o. cc (o, h);
            facts = omega arith;
            pairs = omega arith;
            within = λ w. record { facts_le = ground arith; pairs_le = w.pairs_le };
          })
  ]
]

checkpoint-Keeps :
    (observed now : ℕ) (b : SvfBudget) → Keeps (checks observed now) b (checkpoint observed now b)
unfolding checkpoint
checkpoint-Keeps observed now b = elim (Bool-cases (over b.state.reason)) [
  | inl h ↦ rw h (stopped (checks observed now) b h)
  | inr h ↦ elim (Bool-cases (ltb b.config.max_graph_nodes observed)) [
    | inl large ↦
        rw (h, large)
          (record {
            answer = refl;
            frozen = λ o. cc (o, h);
            facts = omega arith;
            pairs = omega arith;
            within = λ w. record { facts_le = w.facts_le; pairs_le = w.pairs_le };
          })
    | inr small ↦ elim (Bool-cases (ltb b.config.soft_analysis_budget (now - b.started))) [
      | inl late ↦
          rw (h, small, late)
            (record {
              answer = refl;
              frozen = λ o. cc (o, h);
              facts = omega arith;
              pairs = omega arith;
              within = λ w. record { facts_le = w.facts_le; pairs_le = w.pairs_le };
            })
      | inr early ↦
          rw (h, small, early)
            (record {
              answer = rw h refl;
              frozen = λ o. cc (o, h);
              facts = omega arith;
              pairs = omega arith;
              within = λ w. record { facts_le = w.facts_le; pairs_le = w.pairs_le };
            })
    ]
  ]
]

try_alias_query-Keeps : (now : ℕ) (b : SvfBudget) → Keeps (queries now) b (try_alias_query now b)
unfolding try_alias_query
try_alias_query-Keeps now b = elim (Bool-cases (over b.state.reason)) [
  | inl h ↦ rw h (stopped (queries now) b h)
  | inr h ↦ elim (Bool-cases (ltb b.config.soft_analysis_budget (now - b.started))) [
    | inl late ↦
        rw (h, late)
          (record {
            answer = refl;
            frozen = λ o. cc (o, h);
            facts = omega arith;
            pairs = omega arith;
            within = λ w. record { facts_le = w.facts_le; pairs_le = w.pairs_le };
          })
    | inr early ↦ elim (Bool-cases (leb b.config.max_alias_pairs b.state.alias_pairs_examined)) [
      | inl full ↦
          rw (h, early, full)
            (record {
              answer = refl;
              frozen = λ o. cc (o, h);
              facts = omega arith;
              pairs = omega arith;
              within = λ w. record { facts_le = w.facts_le; pairs_le = w.pairs_le };
            })
      | inr free ↦
          rw (h, early, free)
            (record {
              answer = rw h refl;
              frozen = λ o. cc (o, h);
              facts = omega arith;
              pairs = omega arith;
              within = λ w. record { facts_le = w.facts_le; pairs_le = ground arith };
            })
    ]
  ]
]

pub perform-Keeps : (c : Call) (b : SvfBudget) → Keeps c b (perform c b)
perform-Keeps (checks observed now) b = checkpoint-Keeps observed now b
perform-Keeps emits b = try_emit-Keeps b
perform-Keeps (queries now) b = try_alias_query-Keeps now b

run-facts :
    (cs : List Call) (b : SvfBudget)
    → (run cs b).1.state.emitted_facts ≡ b.state.emitted_facts + facts_granted cs (run cs b).0
unfolding run
run-facts [] b = omega arith
run-facts (c ∷ cs) b = omega (arith, run-facts cs (perform c b).1, (perform-Keeps c b).facts)

run-pairs :
    (cs : List Call) (b : SvfBudget)
    → (run cs b).1.state.alias_pairs_examined
      ≡ b.state.alias_pairs_examined + pairs_granted cs (run cs b).0
unfolding run
run-pairs [] b = omega arith
run-pairs (c ∷ cs) b = omega (arith, run-pairs cs (perform c b).1, (perform-Keeps c b).pairs)

run-IsWithin : (cs : List Call) (b : SvfBudget) → IsWithin b → IsWithin (run cs b).1
unfolding run
run-IsWithin [] b w = w
run-IsWithin (c ∷ cs) b w = run-IsWithin cs (perform c b).1 ((perform-Keeps c b).within w)

-- Whatever calls are made of a new budget, in whatever order and at whatever times, the counters
-- are the numbers of the emissions and of the alias queries that were answered with true, and
-- neither is above its limit.
pub run-counts :
    (config : SvfConfig) (now : ℕ) (cs : List Call)
    → ((run cs (svf_budget config now)).1.state.emitted_facts
        ≡ facts_granted cs (run cs (svf_budget config now)).0)
      × ((run cs (svf_budget config now)).1.state.alias_pairs_examined
          ≡ pairs_granted cs (run cs (svf_budget config now)).0)
      × IsWithin (run cs (svf_budget config now)).1
unfolding svf_budget
run-counts config now cs =
    let b = svf_budget config now in
    (
      omega (arith, run-facts cs b),
      omega (arith, run-pairs cs b),
      run-IsWithin cs b (record { facts_le = omega arith; pairs_le = omega arith }),
    )
