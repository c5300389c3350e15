-- ===== src/Summarydb/Impact.antt =====
-- src/summarydb/DependencyIndex.cpp, `GetImpactSet`: the consumers that a change of a summary
-- affects.
pub mod Maps
pub mod Sound
pub mod Result
use veritas.Common.{
  ℕ, zero, suc, ◌+◌, Bool, true, false, not, ◌||◌, List, [], ◌∷◌, ◌++◌, Bytes, length, map,
  bytes_eq, bytes_lt, ◌==◌, leb, if◌then◌else◌,
}
use veritas.Common.Decimal.{to_decimal}
use veritas.Core.Status.{StatusOr, ok, err, ◌>>=◌}
use veritas.Core.Ids.{StableId, to_string}

pub data Sensitivity : Type 0 where
  semantic evidence_only identity configuration : Sensitivity

abbrev pub sensitivity_value : Sensitivity → ℕ
sensitivity_value semantic = 0
sensitivity_value evidence_only = 1
sensitivity_value identity = 2
sensitivity_value configuration = 3

-- A component kind is given by its number.
pub record ConsumerRef : Type 0 where
  pub consumer_id : StableId
  pub consumer_component : ℕ
  pub sensitivity : Sensitivity

pub record ImpactBudget : Type 0 where
  pub max_consumers : ℕ
  pub max_depth : ℕ

pub record ImpactGraph : Type 0 where
  pub consumers : List ConsumerRef
  pub explored_edges : ℕ
  pub truncated : Bool

pub record ComponentDelta : Type 0 where
  pub component_kind : ℕ
  pub old_semantic_hash : Bytes
  pub new_semantic_hash : Bytes

-- The fields of `SummaryDelta` that are read.
pub record SummaryDelta : Type 0 where
  pub old_summary_id : StableId
  pub changed_components : List ComponentDelta

pub record FrontierItem : Type 0 where
  pub id : StableId
  pub component : ℕ
  pub scope : Sensitivity

-- `std::map` with strings as keys, in their order.
abbrev pub Map : Type 0 → Type 0
Map V = List (Bytes × V)

unfoldable pub emplace : {V : Type 0} → Bytes → V → Map V → Map V
emplace key v [] = (key, v) ∷ []
emplace key v ((k, x) ∷ rest) =
    if bytes_eq key k
    then (k, x) ∷ rest
    else if bytes_lt key k
    then (key, v) ∷ (k, x) ∷ rest
    else (k, x) ∷ emplace key v rest

unfoldable pub has_key : {V : Type 0} → Bytes → Map V → Bool
has_key key [] = false
has_key key ((k, x) ∷ rest) = bytes_eq key k || has_key key rest

-- `ComponentKey`, and `ConsumerKey` for a consumer's parts.
unfoldable pub component_key : StableId → ℕ → Bytes
component_key id kind = to_string id ++ 0x1f ∷ to_decimal kind

-- The variables of the traversal.
pub record Walk : Type 0 where
  pub collected : Map ConsumerRef
  pub explored : ℕ
  pub truncated : Bool
  pub next_frontier : Map FrontierItem

abbrev pub explore : Walk → Walk
explore w = record w { explored = w.explored + 1 }

abbrev pub collect : ConsumerRef → Walk → Walk
collect c w = record w {
  collected = emplace (component_key c.consumer_id c.consumer_component) c w.collected;
}

abbrev pub follow : FrontierItem → ConsumerRef → Walk → Walk
follow item c w = record w {
  next_frontier =
      emplace (component_key c.consumer_id c.consumer_component)
        (record { id = c.consumer_id; component = c.consumer_component; scope = item.scope })
        w.next_frontier;
}

-- The loop over the consumers of an item.
unfoldable pub scan_users : ℕ → FrontierItem → List ConsumerRef → Walk → Walk
unfolding emplace has_key component_key
scan_users max item [] w = w
scan_users max item (c ∷ cs) w =
    let seen = scan_users max item cs (follow item c (explore w)) in
    let new = scan_users max item cs (follow item c (collect c (explore w))) in
    let other = scan_users max item cs (explore w) in
    if not (sensitivity_value c.sensitivity == sensitivity_value item.scope)
    then other
    else if has_key (component_key c.consumer_id c.consumer_component) w.collected
    then seen
    else if leb max (length w.collected)
    then record (explore w) { truncated = true }
    else new

-- `UsersOf` reads the store.
abbrev pub UsersOf : Type 0
UsersOf = StableId → ℕ → StatusOr (List ConsumerRef)

-- The loop over the frontier.
unfoldable pub walk : UsersOf → ℕ → Map FrontierItem → Walk → StatusOr Walk
walk users_of max [] w = ok w
walk users_of max ((key, item) ∷ rest) w =
    let next = users_of item.id item.component >>= λ users.
    walk users_of max rest (scan_users max item users w) in
    if w.truncated then ok w else next

abbrev pub is_empty : Map FrontierItem → Bool
is_empty [] = true
is_empty _ = false

-- The loop over the depth, with the number of levels that the budget leaves.
unfoldable pub descend : UsersOf → ℕ → ℕ → Map FrontierItem → Walk → StatusOr Walk
descend users_of max zero frontier w =
    if is_empty frontier || w.truncated then ok w else ok (record w { truncated = true })
descend users_of max (suc levels) frontier w =
    let next = walk users_of max frontier (record w { next_frontier = [] }) >>= λ w'.
    descend users_of max levels w'.next_frontier w' in
    if is_empty frontier || w.truncated then ok w else next

abbrev pub scope_of : ComponentDelta → Sensitivity
scope_of c = if bytes_eq c.old_semantic_hash c.new_semantic_hash then evidence_only else semantic

-- The first frontier.
unfoldable pub seeds : StableId → List ComponentDelta → Map FrontierItem → Map FrontierItem
seeds id [] frontier = frontier
seeds id (c ∷ cs) frontier = seeds id cs (
    emplace (component_key id c.component_kind)
      (record { id = id; component = c.component_kind; scope = scope_of c }) frontier)

abbrev pub values : Map ConsumerRef → List ConsumerRef
values [] = []
values ((k, x) ∷ rest) = x ∷ values rest

-- `GetImpactSet`
unfoldable pub get_impact_set : UsersOf → SummaryDelta → ImpactBudget → StatusOr ImpactGraph
unfolding descend walk scan_users seeds
get_impact_set users_of delta budget =
    descend users_of budget.max_consumers budget.max_depth
      (seeds delta.old_summary_id delta.changed_components [])
      (record { collected = []; explored = 0; truncated = false; next_frontier = [] })
    >>= λ w. ok (record {
      consumers = values w.collected;
      explored_edges = w.explored;
      truncated = w.truncated;
    })
