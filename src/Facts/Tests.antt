-- ===== src/Facts/Tests.antt =====
-- Examples of src/facts: epistemic states and semantic keys.
use veritas.Common.{
  ◌==◌, ◌%◌, ◌^◌, List, [], ◌∷◌, codes, length, if◌then◌else◌, All, ◌≡◌, ◌≢◌, refl, ◌↔◌, arith,
}
use veritas.Common.Decimal.{to_decimal}
use veritas.Core.Status.{ok, err, invalid_argument}
use veritas.Facts.Epistemic.{
  must, must_not, may, assumed, unknown, sound, may_producing, join_epistemic,
}
use veritas.Facts.Epistemic.Meet.{IsMeet, join_epistemic-IsMeet}
use veritas.Facts.Epistemic.Verdict.{
  EstablishesNothing, join_epistemic-unknown, join_epistemic-must,
}
use veritas.Facts.KeyCodec.{KeyField, id, symbol, decode_fields, decode_key}
use veritas.Facts.KeyCodec.RoundTrip.{Spells, decode_fields_iff, encode_key, decode_key-encode_key}

join_epistemic-IsMeet_example :
    IsMeet (must ∷ may ∷ assumed ∷ []) (join_epistemic (must ∷ may ∷ assumed ∷ []) sound)
unfolding join_epistemic
join_epistemic-IsMeet_example = join_epistemic-IsMeet (must ∷ may ∷ assumed ∷ []) (λ h. cc h)

join_epistemic-unknown_example :
    (join_epistemic (must ∷ must_not ∷ []) may_producing ≡ unknown)
    ↔ EstablishesNothing (must ∷ must_not ∷ [])
join_epistemic-unknown_example = join_epistemic-unknown (must ∷ must_not ∷ []) may_producing

join_epistemic-must_example :
    (join_epistemic (must ∷ may ∷ []) sound ≡ must)
    ↔ ((must ∷ may ∷ [] ≢ []) × All (λ e. e ≡ must) (must ∷ may ∷ []) × (sound ≡ sound))
join_epistemic-must_example = join_epistemic-must (must ∷ may ∷ []) sound

abbrev two_cells : List KeyField
two_cells =
    record { tag = id; value = codes "fact:1" } ∷ record { tag = symbol; value = codes "a:b" } ∷ []

decode_fields_iff_example :
    (decode_fields (codes "i6:fact:1s3:a:b") ≡ ok two_cells)
    ↔ Spells (codes "i6:fact:1s3:a:b") two_cells
decode_fields_iff_example = decode_fields_iff (codes "i6:fact:1s3:a:b") two_cells

length-two : length (to_decimal 2) ≡ 1
unfolding to_decimal
length-two = refl

decode_key-encode_key_example : decode_key (encode_key (codes "MayWrite") 2 two_cells) ≡ (
    if length two_cells == 2 % 2 ^ 64
    then ok (record { relation_name = codes "MayWrite"; cells = two_cells })
    else err invalid_argument "semantic key arity does not match its cell count")
decode_key-encode_key_example =
    decode_key-encode_key (codes "MayWrite") 2 two_cells (ground arith) (omega (arith, length-two))
      (ground arith)
