-- ===== src/Runtime/Tests.antt =====
-- Examples of src/runtime: a worklist of two items.
use mathlib.Core.List.{Permᴰ}
use veritas.Common.{◌||◌, false, [], ◌∷◌, Bytes, codes, replicate, some, All, ◌≡◌}
use veritas.Core.Ids.{StableId, function_body, fact}
use veritas.Runtime.Worklist.{
  WorkItem, local_summary, Worklist, work_item_key, has_id, merge_ids, precedes, pop_next,
}
use veritas.Runtime.Worklist.Pending.{pop_next-least, has_id-merge_ids}

abbrev body : StableId
body = record { kind = function_body; digest_hex = replicate 64 b'1' }

abbrev delta : StableId
delta = record { kind = fact; digest_hex = replicate 64 b'2' }

abbrev urgent : WorkItem
urgent = record {
  kind = local_summary;
  target_id = body;
  revision_id = codes "r1";
  build_variant_id = codes "debug";
  consumer_component = 1;
  triggering_delta_ids = delta ∷ [];
  priority = 1;
  attempt_count = 0;
}

abbrev late : WorkItem
late = record urgent { revision_id = codes "r2"; priority = 5 }

abbrev waiting : Worklist
waiting = (work_item_key late, late) ∷ []

pop_next-least_example :
    (best : Bytes × WorkItem) × (others : Worklist) × (pop_next
        ((work_item_key late, late) ∷ (work_item_key urgent, urgent) ∷ [])
      ≡ some (best.1, others))
    × Permᴰ (best ∷ others) ((work_item_key late, late) ∷ (work_item_key urgent, urgent) ∷ [])
    × All (λ x. precedes x best ≡ false) others
pop_next-least_example =
    pop_next-least (work_item_key late, late) ((work_item_key urgent, urgent) ∷ [])

has_id-merge_ids_example :
    has_id delta (merge_ids (body ∷ []) (delta ∷ body ∷ []))
    ≡ (has_id delta (body ∷ []) || has_id delta (delta ∷ body ∷ []))
has_id-merge_ids_example = has_id-merge_ids delta (body ∷ []) (delta ∷ body ∷ [])
