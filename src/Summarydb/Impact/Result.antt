-- ===== src/Summarydb/Impact/Result.antt =====
-- The traversal returns, and what it returns.
use veritas.Common.{
  ℕ, zero, suc, ◌+◌, ◌≤◌, true, false, ◌||◌, List, [], ◌∷◌, length, All, ◌≡◌, refl, ap, ◌∙◌, inl,
  inr, Bool-cases, arith,
}
use veritas.Core.Status.{ok, ◌>>=◌}
use veritas.Core.Ids.{StableId}
use veritas.Summarydb.Impact.{
  ConsumerRef, ImpactBudget, ImpactGraph, SummaryDelta, FrontierItem, Map, Walk, scan_users,
  UsersOf, walk, is_empty, descend, seeds, values, get_impact_set,
}
use veritas.Summarydb.Impact.Maps.{values-All, length-values}
use veritas.Summarydb.Impact.Sound.{
  Affects, descend-Collects, Collects-later, seeds-Waits, if_stops, if_goes,
}

module _ (users_of : UsersOf) (max : ℕ)
    (answers : (id : StableId) (component : ℕ)
      → (users : List ConsumerRef) × (users_of id component ≡ ok users)) where
  walk-ok :
      (frontier : Map FrontierItem) (w : Walk) → (r : Walk) × (walk users_of max frontier w ≡ ok r)
  unfolding walk
  walk-ok [] w = (w, refl)
  walk-ok ((key, item) ∷ rest) w = elim (Bool-cases w.truncated) [
    | inl stops ↦ (w, if_stops w.truncated _ _ stops)
    | inr goes ↦
        let (users, found) = answers item.id item.component in
        let (r, e) = walk-ok rest (scan_users max item users w) in
        (
          r,
          if_goes w.truncated _ _ goes
              ∙ ap (λ m. m >>= λ users. walk users_of max rest (scan_users max item users w)) found
              ∙ e,
        )
  ]

  descend-ok :
      (levels : ℕ) (frontier : Map FrontierItem) (w : Walk)
      → (r : Walk) × (descend users_of max levels frontier w ≡ ok r)
  unfolding descend
  descend-ok zero frontier w = elim (Bool-cases (is_empty frontier || w.truncated)) [
    | inl stops ↦ (w, if_stops (is_empty frontier || w.truncated) _ _ stops)
    | inr deep ↦
        (record w { truncated = true }, if_goes (is_empty frontier || w.truncated) _ _ deep)
  ]
  descend-ok (suc levels) frontier w = elim (Bool-cases (is_empty frontier || w.truncated)) [
    | inl stops ↦ (w, if_stops (is_empty frontier || w.truncated) _ _ stops)
    | inr goes ↦
        let (w', found) = walk-ok frontier (record w { next_frontier = [] }) in
        let (r, e) = descend-ok levels w'.next_frontier w' in
        (
          r,
          if_goes (is_empty frontier || w.truncated) _ _ goes
              ∙ ap (λ m. m >>= λ w'. descend users_of max levels w'.next_frontier w') found
              ∙ e,
        )
  ]

-- If `UsersOf` answers every query, `GetImpactSet` returns a graph, whatever cycles the dependencies
-- have. Its consumers are at most as many as the budget allows, and the change affects each of them
-- in a chain of uses that is no longer than the budget's depth: it uses, at its own sensitivity, a
-- component that changed at that sensitivity or that is affected at it.
pub get_impact_set-Affects :
    (users_of : UsersOf) (delta : SummaryDelta) (budget : ImpactBudget)
    → ((id : StableId) (component : ℕ)
        → (users : List ConsumerRef) × (users_of id component ≡ ok users))
    → (g : ImpactGraph) × (get_impact_set users_of delta budget ≡ ok g)
      × (length g.consumers ≤ budget.max_consumers)
      × All
          (λ c.
            (n : ℕ) × (n ≤ budget.max_depth)
            × Affects users_of delta n c.sensitivity c.consumer_id c.consumer_component)
          g.consumers
unfolding get_impact_set
get_impact_set-Affects users_of delta budget answers =
    let start : Walk = record {
      collected = [];
      explored = 0;
      truncated = false;
      next_frontier = [];
    } in
    let first = seeds delta.old_summary_id delta.changed_components [] in
    let (w, found) =
      descend-ok users_of budget.max_consumers answers budget.max_depth first start in
    let v =
      Collects-later users_of delta budget.max_consumers (0 + budget.max_depth) budget.max_depth w
        (omega arith)
        (descend-Collects users_of delta budget.max_consumers budget.max_depth 0 first start w
          (seeds-Waits users_of delta budget.max_consumers delta.changed_components [] (λ c m. m)
            tt)
          (tt, omega arith) found) in
    (
      record {
        consumers = values w.collected;
        explored_edges = w.explored;
        truncated = w.truncated;
      },
      rw found refl,
      omega (arith, v.1, length-values w.collected),
      values-All
          (λ c.
            (n : ℕ) × (n ≤ budget.max_depth)
            × Affects users_of delta n c.sensitivity c.consumer_id c.consumer_component)
          w.collected v.0,
    )
