-- ===== src/Core/Canonical/Build.antt =====
-- include/core/CanonicalValue.h: arrays from vectors and objects from `std::map`s that are filled
-- by `emplace`, with what is written for them.
use veritas.Common.{
  List, [], ◌∷◌, ◌++◌, map, Bytes, length, bytes_eq, bytes_lt, if◌then◌else◌, ◌≡◌, refl, sym, ap,
  ◌∙◌, arith,
}
use veritas.Core.Canonical.{
  CanonicalValue, array, object, CanonicalArray, no_items, item, CanonicalObject, no_entries, entry,
  u64, array_size, object_size,
}
use veritas.Core.Canonical.Written.{bytes, item_bytes, entry_bytes, text}

-- `CanonicalArray`, from the values of the vector.
abbrev pub array_of : List CanonicalValue → CanonicalArray
array_of [] = no_items
array_of (v ∷ vs) = item v (array_of vs)

-- `object.emplace(key, value)`: a key that is there already keeps its value.
unfoldable pub emplace : Bytes → CanonicalValue → CanonicalObject → CanonicalObject
emplace key value no_entries = entry key value no_entries
emplace key value (entry k v rest) =
    let later = emplace key value rest in
    if bytes_eq key k
    then entry k v rest
    else if bytes_lt key k
    then entry key value (entry k v rest)
    else entry k v later

-- The object that a list of entries fills, from its first entry on.
unfoldable pub emplace_all : List (Bytes × CanonicalValue) → CanonicalObject → CanonicalObject
unfolding emplace
emplace_all [] filled = filled
emplace_all ((key, value) ∷ rest) filled = emplace_all rest (emplace key value filled)

abbrev pub object_of : List (Bytes × CanonicalValue) → CanonicalValue
object_of entries = object (emplace_all entries no_entries)

-- What is written for the entries of an object, entry by entry.
abbrev pub written : Bytes × CanonicalValue → Bytes × Bytes
written (key, value) = (key, bytes value)

abbrev shape : CanonicalObject → List (Bytes × Bytes)
shape no_entries = []
shape (entry key value rest) = (key, bytes value) ∷ shape rest

abbrev put : List (Bytes × Bytes) → Bytes
put [] = []
put ((key, value) ∷ rest) = text key ++ (value ++ put rest)

put-shape : (o : CanonicalObject) → entry_bytes o ≡ put (shape o)
unfolding entry_bytes
put-shape no_entries = refl
put-shape (entry key value rest) = ap (λ t. text key ++ (bytes value ++ t)) (put-shape rest)

object_size-shape : (o : CanonicalObject) → object_size o ≡ length (shape o)
object_size-shape no_entries = refl
object_size-shape (entry key value rest) = omega (arith, object_size-shape rest)

place : Bytes → Bytes → List (Bytes × Bytes) → List (Bytes × Bytes)
place key value [] = (key, value) ∷ []
place key value ((k, v) ∷ rest) =
    let later = place key value rest in
    if bytes_eq key k
    then (k, v) ∷ rest
    else if bytes_lt key k
    then (key, value) ∷ (k, v) ∷ rest
    else (k, v) ∷ later

place_all : List (Bytes × Bytes) → List (Bytes × Bytes) → List (Bytes × Bytes)
place_all [] filled = filled
place_all ((key, value) ∷ rest) filled = place_all rest (place key value filled)

shape-emplace :
    (key : Bytes) (value : CanonicalValue) (o : CanonicalObject)
    → shape (emplace key value o) ≡ place key (bytes value) (shape o)
unfolding emplace place
shape-emplace key value no_entries = refl
shape-emplace key value (entry k v rest) = let ih = shape-emplace key value rest in ground arith

shape-emplace_all :
    (entries : List (Bytes × CanonicalValue)) (o : CanonicalObject)
    → shape (emplace_all entries o) ≡ place_all (map written entries) (shape o)
unfolding emplace_all place_all
shape-emplace_all [] o = refl
shape-emplace_all ((key, value) ∷ rest) o =
    shape-emplace_all rest (emplace key value o)
    ∙ ap (place_all (map written rest)) (shape-emplace key value o)

object_bytes : List (Bytes × Bytes) → Bytes
object_bytes entries = 5 ∷ (u64 (length entries) ++ put entries)

bytes-object : (o : CanonicalObject) → bytes (object o) ≡ object_bytes (shape o)
unfolding bytes object_bytes
bytes-object o =
    ap (λ n. 5 ∷ (u64 n ++ entry_bytes o)) (object_size-shape o)
    ∙ ap (λ t. 5 ∷ (u64 (length (shape o)) ++ t)) (put-shape o)

bytes-emplace_all :
    (es : List (Bytes × CanonicalValue))
    → bytes (object_of es) ≡ object_bytes (place_all (map written es) [])
bytes-emplace_all es =
    bytes-object (emplace_all es no_entries) ∙ ap object_bytes (shape-emplace_all es no_entries)

-- Entries that are written alike fill objects that are written alike.
pub object_of-same :
    (es fs : List (Bytes × CanonicalValue))
    → map written es ≡ map written fs
    → bytes (object_of es) ≡ bytes (object_of fs)
object_of-same es fs e =
    bytes-emplace_all es ∙ ap (λ s. object_bytes (place_all s [])) e ∙ sym (bytes-emplace_all fs)

array_size-array_of : (vs : List CanonicalValue) → array_size (array_of vs) ≡ length (map bytes vs)
array_size-array_of [] = refl
array_size-array_of (v ∷ vs) = omega (arith, array_size-array_of vs)

abbrev joined : List Bytes → Bytes
joined [] = []
joined (t ∷ ts) = t ++ joined ts

item_bytes-array_of : (vs : List CanonicalValue) → item_bytes (array_of vs) ≡ joined (map bytes vs)
unfolding item_bytes
item_bytes-array_of [] = refl
item_bytes-array_of (v ∷ vs) = ap (λ t. bytes v ++ t) (item_bytes-array_of vs)

array_bytes : List Bytes → Bytes
array_bytes items = 4 ∷ (u64 (length items) ++ joined items)

bytes-array_of :
    (vs : List CanonicalValue) → bytes (array (array_of vs)) ≡ array_bytes (map bytes vs)
unfolding bytes array_bytes
bytes-array_of vs =
    ap (λ n. 4 ∷ (u64 n ++ item_bytes (array_of vs))) (array_size-array_of vs)
    ∙ ap (λ t. 4 ∷ (u64 (length (map bytes vs)) ++ t)) (item_bytes-array_of vs)

-- Values that are written alike make arrays that are written alike.
pub array_of-same :
    (vs ws : List CanonicalValue)
    → map bytes vs ≡ map bytes ws
    → bytes (array (array_of vs)) ≡ bytes (array (array_of ws))
array_of-same vs ws e = bytes-array_of vs ∙ ap array_bytes e ∙ sym (bytes-array_of ws)
