-- ===== src/Core/Canonical/Written.antt =====
-- What is written for a value, as one equation for each kind of value.
use veritas.Common.{
  ℕ, ◌+◌, ◌*◌, ◌/◌, ◌%◌, ◌^◌, ◌<◌, [], ◌∷◌, ◌++◌, Bytes, length, append_assoc, append-nil, ◌≡◌,
  refl, sym, ap, ◌∙◌, arith,
}
use veritas.Core.Status.{ok}
use veritas.Core.Canonical.{
  root_kind_value, CanonicalValue, null, boolean, int, string, array, object, path, CanonicalArray,
  no_items, item, CanonicalObject, no_entries, entry, bit, u64, append_string, array_size,
  object_size, encode_path, encode_value, encode_items, encode_entries,
}

-- A number is put together from its bytes.
u64_lem :
    (a : ℕ)
    → a < 2 ^ 64
    → a
      ≡ a / 2 ^ 56 % 256 * 2 ^ 56
        + a / 2 ^ 48 % 256 * 2 ^ 48
        + a / 2 ^ 40 % 256 * 2 ^ 40
        + a / 2 ^ 32 % 256 * 2 ^ 32
        + a / 2 ^ 24 % 256 * 2 ^ 24
        + a / 2 ^ 16 % 256 * 2 ^ 16
        + a / 2 ^ 8 % 256 * 2 ^ 8
        + a % 256
u64_lem a h = omega arith

pub u64-injective :
    (a b : ℕ) (r s : Bytes) → a < 2 ^ 64 → b < 2 ^ 64 → u64 a ++ r ≡ u64 b ++ s → (a ≡ b) × (r ≡ s)
u64-injective a b r s ha hb e =
    let b7 : a / 2 ^ 56 % 256 ≡ b / 2 ^ 56 % 256 = cc e in
    let b6 : a / 2 ^ 48 % 256 ≡ b / 2 ^ 48 % 256 = cc e in
    let b5 : a / 2 ^ 40 % 256 ≡ b / 2 ^ 40 % 256 = cc e in
    let b4 : a / 2 ^ 32 % 256 ≡ b / 2 ^ 32 % 256 = cc e in
    let b3 : a / 2 ^ 24 % 256 ≡ b / 2 ^ 24 % 256 = cc e in
    let b2 : a / 2 ^ 16 % 256 ≡ b / 2 ^ 16 % 256 = cc e in
    let b1 : a / 2 ^ 8 % 256 ≡ b / 2 ^ 8 % 256 = cc e in
    let b0 : a % 256 ≡ b % 256 = cc e in (omega (arith, u64_lem a ha, u64_lem b hb), cc e)

append-injective :
    (xs ys r s : Bytes) → length xs ≡ length ys → xs ++ r ≡ ys ++ s → (xs ≡ ys) × (r ≡ s)
append-injective [] [] r s n e = (refl, e)
append-injective [] (y ∷ ys) r s n e = absurd (omega arith)
append-injective (x ∷ xs) [] r s n e = absurd (omega arith)
append-injective (x ∷ xs) (y ∷ ys) r s n e =
    let rest = append-injective xs ys r s (omega arith) (cc e) in
    let head : x ≡ y = cc e in (cc (head, rest.0), rest.1)

abbrev pub text : Bytes → Bytes
text str = u64 (length str) ++ str

pub text-injective :
    (a b r s : Bytes)
    → length a < 2 ^ 64
    → length b < 2 ^ 64
    → text a ++ r ≡ text b ++ s
    → (a ≡ b) × (r ≡ s)
text-injective a b r s ha hb e =
    let size = u64-injective (length a) (length b) (a ++ r) (b ++ s) ha hb e in
    append-injective a b r s size.0 size.1

-- What `EncodeValue` writes.
unfoldable mutual
  pub bytes : CanonicalValue → Bytes
  bytes null = 0 ∷ []
  bytes (boolean b) = 1 ∷ bit b ∷ []
  bytes (int bits) = 2 ∷ u64 bits
  bytes (string str) = 3 ∷ text str
  bytes (array vs) = 4 ∷ (u64 (array_size vs) ++ item_bytes vs)
  bytes (object vs) = 5 ∷ (u64 (object_size vs) ++ entry_bytes vs)
  bytes (path p) = 6 ∷ root_kind_value p.root_kind ∷ (text p.root_id ++ text p.relative_path)

  pub item_bytes : CanonicalArray → Bytes
  item_bytes no_items = []
  item_bytes (item v vs) = bytes v ++ item_bytes vs

  pub entry_bytes : CanonicalObject → Bytes
  entry_bytes no_entries = []
  entry_bytes (entry key v vs) = text key ++ (bytes v ++ entry_bytes vs)

entry_lem :
    (out key v rest : Bytes)
    → (append_string out key ++ v) ++ rest ≡ out ++ (text key ++ (v ++ rest))
entry_lem out key v rest =
    append_assoc (append_string out key) v rest
    ∙ ap (λ t. t ++ (v ++ rest)) (append_assoc out (u64 (length key)) key)
    ∙ append_assoc out (text key) (v ++ rest)

mutual
  unfolding encode_value encode_items encode_entries encode_path bytes item_bytes entry_bytes

  pub encode_value_lem : (v : CanonicalValue) → encode_value v ≡ ok (bytes v)
  encode_value_lem null = refl
  encode_value_lem (boolean b) = refl
  encode_value_lem (int bits) = refl
  encode_value_lem (string str) = refl
  encode_value_lem (array vs) = encode_items_lem (4 ∷ u64 (array_size vs)) vs
  encode_value_lem (object vs) = encode_entries_lem (5 ∷ u64 (object_size vs)) vs
  encode_value_lem (path p) =
      ap (λ t. ok (6 ∷ root_kind_value p.root_kind ∷ (u64 (length p.root_id) ++ t)))
        (append_assoc p.root_id (u64 (length p.relative_path)) p.relative_path)

  encode_items_lem :
      (result : Bytes) (vs : CanonicalArray) → encode_items result vs ≡ ok (result ++ item_bytes vs)
  encode_items_lem result no_items = ap ok (sym (append-nil result))
  encode_items_lem result (item v vs) =
      let first = encode_value_lem v in
      rw first (
        encode_items_lem (result ++ bytes v) vs
        ∙ ap ok (append_assoc result (bytes v) (item_bytes vs)))

  encode_entries_lem :
      (result : Bytes) (vs : CanonicalObject)
      → encode_entries result vs ≡ ok (result ++ entry_bytes vs)
  encode_entries_lem result no_entries = ap ok (sym (append-nil result))
  encode_entries_lem result (entry key v vs) =
      let first = encode_value_lem v in
      rw first (
        encode_entries_lem (append_string result key ++ bytes v) vs
        ∙ ap ok (entry_lem result key (bytes v) (entry_bytes vs)))
