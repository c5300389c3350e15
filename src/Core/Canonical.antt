-- ===== src/Core/Canonical.antt =====
-- src/core/CanonicalValue.cpp: the canonical byte encoding of values.
pub mod Written
pub mod Build
pub mod Injective
use veritas.Common.{
  ℕ, zero, suc, ◌+◌, ◌*◌, ◌/◌, ◌%◌, ◌^◌, Bool, true, false, List, [], ◌∷◌, ◌++◌, Bytes, length,
}
use veritas.Core.Status.{StatusOr, ok, err, ◌>>=◌}

pub data PathRootKind : Type 0 where
  in_repository generated external toolchain : PathRootKind

abbrev pub root_kind_value : PathRootKind → ℕ
root_kind_value in_repository = 0
root_kind_value generated = 1
root_kind_value external = 2
root_kind_value toolchain = 3

pub record TaggedPath : Type 0 where
  pub root_kind : PathRootKind
  pub root_id : Bytes
  pub relative_path : Bytes

-- `CanonicalValue`. An `int64_t` is given by its bits, as a number below 2 ^ 64; the entries of a
-- `std::map` stand in the order of its iteration.
mutual
  pub data CanonicalValue : Type 0 where
    null : CanonicalValue
    boolean : Bool → CanonicalValue
    int : ℕ → CanonicalValue
    string : Bytes → CanonicalValue
    array : CanonicalArray → CanonicalValue
    object : CanonicalObject → CanonicalValue
    path : TaggedPath → CanonicalValue

  pub data CanonicalArray : Type 0 where
    no_items : CanonicalArray
    item : CanonicalValue → CanonicalArray → CanonicalArray

  pub data CanonicalObject : Type 0 where
    no_entries : CanonicalObject
    entry : Bytes → CanonicalValue → CanonicalObject → CanonicalObject

-- `TypeTag`
abbrev pub type_tag : CanonicalValue → ℕ
type_tag null = 0
type_tag (boolean _) = 1
type_tag (int _) = 2
type_tag (string _) = 3
type_tag (array _) = 4
type_tag (object _) = 5
type_tag (path _) = 6

-- The bytes that `AppendU64` appends.
abbrev pub u64 : ℕ → Bytes
u64 v =
    v / 2 ^ 56 % 256
    ∷ v / 2 ^ 48 % 256
    ∷ v / 2 ^ 40 % 256
    ∷ v / 2 ^ 32 % 256
    ∷ v / 2 ^ 24 % 256
    ∷ v / 2 ^ 16 % 256
    ∷ v / 2 ^ 8 % 256
    ∷ v % 256
    ∷ []

-- `AppendString`
abbrev pub append_string : Bytes → Bytes → Bytes
append_string out str = (out ++ u64 (length str)) ++ str

abbrev pub array_size : CanonicalArray → ℕ
array_size no_items = 0
array_size (item v vs) = array_size vs + 1

abbrev pub object_size : CanonicalObject → ℕ
object_size no_entries = 0
object_size (entry k v vs) = object_size vs + 1

-- `val ? 1 : 0`
abbrev pub bit : Bool → ℕ
bit true = 1
bit false = 0

-- `EncodePath`
unfoldable pub encode_path : TaggedPath → StatusOr Bytes
encode_path p =
    ok (
      append_string (append_string (6 ∷ root_kind_value p.root_kind ∷ []) p.root_id)
        p.relative_path)

-- `EncodeValue`, with the loops of `EncodeArray` and `EncodeObject` on what has been written.
unfoldable mutual
  unfolding encode_path

  pub encode_value : CanonicalValue → StatusOr Bytes
  encode_value null = ok (0 ∷ [])
  encode_value (boolean b) = ok (1 ∷ bit b ∷ [])
  encode_value (int bits) = ok (2 ∷ u64 bits)
  encode_value (string str) = ok (append_string (3 ∷ []) str)
  encode_value (array vs) = encode_items (4 ∷ u64 (array_size vs)) vs
  encode_value (object vs) = encode_entries (5 ∷ u64 (object_size vs)) vs
  encode_value (path p) = encode_path p

  pub encode_items : Bytes → CanonicalArray → StatusOr Bytes
  encode_items result no_items = ok result
  encode_items result (item v vs) =
      encode_value v >>= λ encoded. encode_items (result ++ encoded) vs

  pub encode_entries : Bytes → CanonicalObject → StatusOr Bytes
  encode_entries result no_entries = ok result
  encode_entries result (entry key v vs) =
      encode_value v >>= λ encoded. encode_entries (append_string result key ++ encoded) vs

-- `CanonicalEncode`
unfoldable pub canonical_encode : CanonicalValue → StatusOr Bytes
unfolding encode_value
canonical_encode v = encode_value v
