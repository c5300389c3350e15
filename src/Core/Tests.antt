-- ===== src/Core/Tests.antt =====
-- Tests and examples of src/core: a published test vector of SHA-256, and identifiers.
use mathlib.Core.List.{foldl}
use veritas.Common.{[], ◌∷◌, Bytes, codes, some, ◌≡◌, refl, arith}
use veritas.Core.Canonical.{CanonicalValue, array, item, no_items, string, int, canonical_encode}
use veritas.Core.Canonical.Injective.{Fits, canonical_encode-ok, canonical_encode-injective}
use veritas.Core.Status.{ok}
use veritas.Core.Hash.Words.{process_block}
use veritas.Core.Hash.Hasher.{compute_sha256, finalize, update, fresh}
use veritas.Core.Hash.Padding.{sha256, join, finalize-update}
use veritas.Core.Hash.Hex.{digest_to_hex, hex_to_digest, hex_to_digest-digest_to_hex}
use veritas.Core.Ids.{
  StableId, fact, scc, to_string, make_stable_id, parse_stable_id, IsCanonical,
  parse_stable_id-to_string, parse_stable_id_sound, make_stable_id-IsCanonical,
}

abbrev digest_of_abc : Bytes
digest_of_abc =
    0xba ∷ 0x78 ∷ 0x16 ∷ 0xbf ∷ 0x8f ∷ 0x01 ∷ 0xcf ∷ 0xea ∷ 0x41 ∷ 0x41 ∷ 0x40 ∷ 0xde ∷ 0x5d ∷ 0xae
    ∷ 0x22 ∷ 0x23 ∷ 0xb0 ∷ 0x03 ∷ 0x61 ∷ 0xa3 ∷ 0x96 ∷ 0x17 ∷ 0x7a ∷ 0x9c ∷ 0xb4 ∷ 0x10 ∷ 0xff
    ∷ 0x61 ∷ 0xf2 ∷ 0x00 ∷ 0x15 ∷ 0xad ∷ []

abc : compute_sha256 (codes "abc") ≡ digest_of_abc
unfolding compute_sha256 process_block
abc = refl

finalize-update_example :
    finalize (foldl update fresh (codes "ab" ∷ [] ∷ codes "c" ∷ []))
    ≡ sha256 (join (codes "ab" ∷ [] ∷ codes "c" ∷ []))
finalize-update_example = finalize-update (codes "ab" ∷ [] ∷ codes "c" ∷ [])

hex_to_digest-digest_to_hex_example :
    hex_to_digest (digest_to_hex digest_of_abc) ≡ some digest_of_abc
hex_to_digest-digest_to_hex_example = hex_to_digest-digest_to_hex digest_of_abc (ground arith) refl

abbrev fact_id : StableId
fact_id = make_stable_id fact (codes "abc")

fact_id-IsCanonical : IsCanonical fact_id
fact_id-IsCanonical = make_stable_id-IsCanonical fact (codes "abc")

fact_id-parsed : parse_stable_id (to_string fact_id) ≡ ok fact_id
fact_id-parsed = parse_stable_id-to_string fact_id fact_id-IsCanonical

make_stable_id-IsCanonical_example : IsCanonical (make_stable_id scc (codes "cycle"))
make_stable_id-IsCanonical_example = make_stable_id-IsCanonical scc (codes "cycle")

parse_stable_id-to_string_example : parse_stable_id (to_string fact_id) ≡ ok fact_id
parse_stable_id-to_string_example = parse_stable_id-to_string fact_id fact_id-IsCanonical

parse_stable_id_sound_example : IsCanonical fact_id × (to_string fact_id ≡ to_string fact_id)
parse_stable_id_sound_example = parse_stable_id_sound (to_string fact_id) fact_id fact_id-parsed

abbrev greeting : CanonicalValue
greeting = array (item (string (codes "ab")) (item (int 5) no_items))

greeting-Fits : Fits greeting
unfolding Fits
greeting-Fits = ground arith

canonical_encode-ok_example : (x : Bytes) × (canonical_encode greeting ≡ ok x)
canonical_encode-ok_example = canonical_encode-ok greeting

canonical_encode-injective_example : (greeting ≡ greeting) × (codes "tail" ≡ codes "tail")
canonical_encode-injective_example =
    canonical_encode-injective greeting greeting (canonical_encode-ok greeting).0
      (canonical_encode-ok greeting).0 (codes "tail") (codes "tail") greeting-Fits greeting-Fits
      (canonical_encode-ok greeting).1 (canonical_encode-ok greeting).1 refl
