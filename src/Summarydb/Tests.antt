-- ===== src/Summarydb/Tests.antt =====
-- Examples of src/summarydb: a summary that depends on itself.
use veritas.Common.{ℕ, ◌≤◌, [], ◌∷◌, codes, length, All, replicate, ◌≡◌, refl}
use veritas.Core.Status.{ok}
use veritas.Core.Ids.{StableId, function_summary}
use veritas.Summarydb.Impact.{
  semantic, ConsumerRef, ImpactBudget, ImpactGraph, SummaryDelta, UsersOf, get_impact_set,
}
use veritas.Summarydb.Impact.Sound.{Affects}
use veritas.Summarydb.Impact.Result.{get_impact_set-Affects}

abbrev summary : StableId
summary = record { kind = function_summary; digest_hex = replicate 64 b'1' }

abbrev itself : ConsumerRef
itself = record { consumer_id = summary; consumer_component = 1; sensitivity = semantic }

abbrev loop : UsersOf
loop id component = ok (itself ∷ [])

abbrev change : SummaryDelta
change = record {
  old_summary_id = summary;
  changed_components =
      record { component_kind = 1; old_semantic_hash = codes "a"; new_semantic_hash = codes "b" }
      ∷ [];
}

abbrev budget : ImpactBudget
budget = record { max_consumers = 10; max_depth = 2 }

get_impact_set-Affects_example :
    (g : ImpactGraph) × (get_impact_set loop change budget ≡ ok g)
    × (length g.consumers ≤ budget.max_consumers)
    × All
        (λ c.
          (n : ℕ) × (n ≤ budget.max_depth)
          × Affects loop change n c.sensitivity c.consumer_id c.consumer_component)
        g.consumers
get_impact_set-Affects_example =
    get_impact_set-Affects loop change budget (λ id component. (itself ∷ [], refl))
