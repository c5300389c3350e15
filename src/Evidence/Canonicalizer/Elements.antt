-- ===== src/Evidence/Canonicalizer/Elements.antt =====
-- src/evidence/EvidenceCanonicalizer.cpp: the sorted collections. `std::sort` is `Common.Sort.sort`.
use veritas.Common.{
  Bool, List, [], ◌∷◌, map, Bytes, bytes_eq, bytes_lt, not, if◌then◌else◌, Option, none, some,
}
use veritas.Common.Sort.{sort}
use veritas.Core.Status.{StatusOr, ok, ◌>>=◌}
use veritas.Core.Ids.{StableId, to_string}
use veritas.Core.Canonical.{CanonicalValue, null, string, array, canonical_encode}
use veritas.Core.Canonical.Build.{array_of}

pub record SortKey : Type 0 where
  pub kind : Bytes
  pub stable_id : Bytes
  pub local_id : Bytes

-- `SortKey{}`
abbrev pub no_key : SortKey
no_key = record { kind = []; stable_id = []; local_id = [] }

abbrev pub sort_key : Bytes → Bytes → Bytes → SortKey
sort_key kind stable_id local_id = record {
  kind = kind;
  stable_id = stable_id;
  local_id = local_id;
}

pub record KeyedElement : Type 0 where
  pub key : SortKey
  pub bytes : Bytes
  pub value : CanonicalValue

-- `KeyedLess`
unfoldable pub keyed_less : KeyedElement → KeyedElement → Bool
keyed_less left right =
    if not (bytes_eq left.key.kind right.key.kind)
    then bytes_lt left.key.kind right.key.kind
    else if not (bytes_eq left.key.stable_id right.key.stable_id)
    then bytes_lt left.key.stable_id right.key.stable_id
    else if not (bytes_eq left.key.local_id right.key.local_id)
    then bytes_lt left.key.local_id right.key.local_id
    else bytes_lt left.bytes right.bytes

-- `MakeKeyedElement`
unfoldable pub make_keyed_element : SortKey → CanonicalValue → StatusOr KeyedElement
make_keyed_element key value = do
  bytes ← canonical_encode value
  ok (record { key = key; bytes = bytes; value = value })

abbrev pub value_of : KeyedElement → CanonicalValue
value_of e = e.value

-- `SortedArray`
unfoldable pub sorted_array : List KeyedElement → CanonicalValue
sorted_array elements = array (array_of (map value_of (sort keyed_less elements)))

-- `OrderedArray`
abbrev pub ordered_array : List CanonicalValue → CanonicalValue
ordered_array values = array (array_of values)

-- A loop that appends what it makes of each element, and returns the first error.
unfoldable pub collect {ℓ κ} :
    {A : Type ℓ} {B : Type κ} → (A → StatusOr B) → List A → StatusOr (List B)
collect make [] = ok []
collect make (a ∷ rest) = do made ← make a; others ← collect make rest; ok (made ∷ others)

-- `SortValuesByEncoding`
unfoldable pub sort_values_by_encoding : List CanonicalValue → StatusOr (List CanonicalValue)
unfolding collect make_keyed_element
sort_values_by_encoding values = do
  elements ← collect (make_keyed_element no_key) values
  ok (map value_of (sort keyed_less elements))

-- `StableIdComponent`
abbrev pub stable_id_component : Option StableId → Bytes
stable_id_component none = []
stable_id_component (some id) = to_string id

-- `EncodeOptionalStableId`
abbrev pub encode_optional_stable_id : Option StableId → CanonicalValue
encode_optional_stable_id none = null
encode_optional_stable_id (some id) = string (to_string id)

-- `EncodeRequiredStableId`
abbrev pub encode_required_stable_id : StableId → CanonicalValue
encode_required_stable_id id = string (to_string id)

-- `EncodeSortedStrings`
unfoldable pub encode_sorted_strings : List Bytes → CanonicalValue
encode_sorted_strings values = ordered_array (map string (sort bytes_lt values))
