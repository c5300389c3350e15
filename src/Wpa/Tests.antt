-- ===== src/Wpa/Tests.antt =====
-- Examples of src/wpa: a call chain, and a flow.
use mathlib.Core.List.{Memᴰ}
use mathlib.Core.List.Memᴰ.{head, tail}
use veritas.Common.{List, [], ◌∷◌, replicate, some, ◌≡◌, ◌≢◌, refl, ◌↔◌}
use veritas.Core.Ids.{StableId, function_variant}
use veritas.Facts.Epistemic.{must, may, must_not, assumed, inferred}
use veritas.Wpa.Rules.{DerivedTuple, calls, evaluate}
use veritas.Wpa.Rules.Datalog.{Infers, base, evaluate-Infers}
use veritas.Wpa.Rules.Weakness.{compare_orders, Compares, weaken-join_epistemic}

abbrev main_ : StableId
main_ = record { kind = function_variant; digest_hex = replicate 64 b'1' }

abbrev helper : StableId
helper = record { kind = function_variant; digest_hex = replicate 64 b'2' }

abbrev library : StableId
library = record { kind = function_variant; digest_hex = replicate 64 b'3' }

abbrev first_call : DerivedTuple
first_call = record { subject = main_; object = helper; epistemic = must }

abbrev second_call : DerivedTuple
second_call = record { subject = helper; object = library; epistemic = may }

abbrev edges : List DerivedTuple
edges = first_call ∷ second_call ∷ []

evaluate-Infers_example :
    (derived : List DerivedTuple) × (evaluate (calls edges) edges [] ≡ some derived)
    × ((t : DerivedTuple)
        → Memᴰ t derived ↔ (Infers (calls edges) edges [] t × (t.epistemic ≢ must_not)))
evaluate-Infers_example = evaluate-Infers (calls edges) edges []

-- A call that must not happen.
abbrev forbidden : DerivedTuple
forbidden = record { subject = helper; object = library; epistemic = must_not }

-- The closure passes over it, the Datalog rules derive it.
forbidden_dropped :
    evaluate (calls (first_call ∷ forbidden ∷ [])) (first_call ∷ forbidden ∷ []) []
    ≡ some (first_call ∷ [])
unfolding evaluate
forbidden_dropped = refl

forbidden_derived :
    Infers (calls (first_call ∷ forbidden ∷ [])) (first_call ∷ forbidden ∷ []) [] forbidden
forbidden_derived = base (tail (head refl))

-- Two calls in a row are a call that may happen.
chain :
    evaluate (calls edges) edges []
    ≡ some (
        record { subject = main_; object = library; epistemic = may }
        ∷ second_call
        ∷ first_call
        ∷ [])
unfolding evaluate
chain = refl

weaken-join_epistemic_example : Compares (compare_orders inferred assumed) inferred assumed
weaken-join_epistemic_example = weaken-join_epistemic inferred assumed
