-- ===== src/Runtime/Worklist.antt =====
-- src/runtime/WorklistScheduler.cpp: the deduplicating worklist with priorities.
pub mod Pending
pub mod Order
use veritas.Common.{
  ℕ, zero, suc, min, max, Bool, true, false, ◌&&◌, ◌||◌, List, [], ◌∷◌, ◌++◌, Bytes, length,
  bytes_eq, bytes_lt, codes, ◌==◌, ltb, if◌then◌else◌, Option, none, some,
}
use veritas.Common.Decimal.{to_decimal}
use veritas.Core.Ids.{StableId, id_eq, to_string}

pub data WorkItemKind : Type 0 where
  local_summary scc_recompute wpa_component fact_derivation evidence_invalidation : WorkItemKind

abbrev pub kind_value : WorkItemKind → ℕ
kind_value local_summary = 0
kind_value scc_recompute = 1
kind_value wpa_component = 2
kind_value fact_derivation = 3
kind_value evidence_invalidation = 4

-- `consumer_component` is the enumerator's number. `priority` and `attempt_count`, of type `int`,
-- are kept with 2 ^ 31 added, which leaves their order as it is.
pub record WorkItem : Type 0 where
  pub kind : WorkItemKind
  pub target_id : StableId
  pub revision_id : Bytes
  pub build_variant_id : Bytes
  pub consumer_component : ℕ
  pub triggering_delta_ids : List StableId
  pub priority : ℕ
  pub attempt_count : ℕ

-- `WorkItemKey`
unfoldable pub work_item_key : WorkItem → Bytes
work_item_key item =
    to_decimal (kind_value item.kind)
    ++ (0x1f
        ∷ (to_string item.target_id
            ++ (0x1f
                ∷ (item.revision_id
                    ++ (0x1f
                        ∷ (item.build_variant_id
                            ++ (0x1f ∷ to_decimal item.consumer_component)))))))

-- `by_key_`, as a list without an order: the two loops over it look at the keys.
abbrev pub Worklist : Type 0
Worklist = List (Bytes × WorkItem)

-- `std::find(ids.begin(), ids.end(), id) != ids.end()`
unfoldable pub has_id : StableId → List StableId → Bool
unfolding id_eq
has_id id [] = false
has_id id (x ∷ xs) = id_eq x id || has_id id xs

-- The loop that merges the triggering delta ids.
unfoldable pub merge_ids : List StableId → List StableId → List StableId
unfolding has_id
merge_ids existing [] = existing
merge_ids existing (id ∷ ids) =
    merge_ids (if has_id id existing then existing else existing ++ id ∷ []) ids

-- What `Enqueue` makes of the item that has the key already.
unfoldable pub merge_item : WorkItem → WorkItem → WorkItem
unfolding merge_ids
merge_item existing item = record existing {
  triggering_delta_ids = merge_ids existing.triggering_delta_ids item.triggering_delta_ids;
  priority = min existing.priority item.priority;
  attempt_count = max existing.attempt_count item.attempt_count;
}

-- `Enqueue`, for the item's key.
unfoldable pub enqueue_at : Bytes → WorkItem → Worklist → Worklist
enqueue_at key item [] = (key, item) ∷ []
enqueue_at key item ((k, x) ∷ rest) =
    if bytes_eq k key then (k, merge_item x item) ∷ rest else (k, x) ∷ enqueue_at key item rest

-- `Enqueue`
unfoldable pub enqueue : WorkItem → Worklist → Worklist
unfolding enqueue_at merge_item work_item_key
enqueue item w = enqueue_at (work_item_key item) item w

-- The condition under which `PopNext` takes `x` in place of `best`.
unfoldable pub precedes : Bytes × WorkItem → Bytes × WorkItem → Bool
unfolding bytes_lt
precedes x best =
    ltb x.1.priority best.1.priority || x.1.priority == best.1.priority && bytes_lt x.0 best.0

-- The loop of `PopNext`, with the entries passed by: the best one and the others.
unfoldable pub select : Bytes × WorkItem → Worklist → Worklist → (Bytes × WorkItem) × Worklist
unfolding precedes
select best passed [] = (best, passed)
select best passed (x ∷ rest) =
    if precedes x best then select x (best ∷ passed) rest else select best (x ∷ passed) rest

-- `PopNext`: the item, and the worklist without it.
unfoldable pub pop_next : Worklist → Option (WorkItem × Worklist)
unfolding select
pop_next [] = none
pop_next (first ∷ rest) = let r = select first [] rest in some (r.0.1, r.1)
