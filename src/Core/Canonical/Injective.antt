-- ===== src/Core/Canonical/Injective.antt =====
-- No encoding of a value is the beginning of the encoding of another one.
use veritas.Common.{
  ◌^◌, ◌<◌, Bool, true, false, ◌++◌, Bytes, length, get_or, append_assoc, ◌≡◌, refl, sym, ap, ◌∙◌,
  arith,
}
use veritas.Core.Status.{ok, ok-injective}
use veritas.Core.Canonical.{
  PathRootKind, in_repository, generated, external, toolchain, root_kind_value, TaggedPath,
  CanonicalValue, null, boolean, int, string, array, object, path, CanonicalArray, no_items, item,
  CanonicalObject, no_entries, entry, type_tag, bit, array_size, object_size, canonical_encode,
}
use veritas.Core.Canonical.Written.{
  bytes, item_bytes, entry_bytes, text, u64-injective, text-injective, encode_value_lem,
}

-- Integers are 64 bits, and sizes fit in 64 bits.
unfoldable mutual
  pub Fits : CanonicalValue → Type 0
  Fits null = Unit
  Fits (boolean _) = Unit
  Fits (int bits) = bits < 2 ^ 64
  Fits (string str) = length str < 2 ^ 64
  Fits (array vs) = (array_size vs < 2 ^ 64) × FitItems vs
  Fits (object vs) = (object_size vs < 2 ^ 64) × FitEntries vs
  Fits (path p) = (length p.root_id < 2 ^ 64) × (length p.relative_path < 2 ^ 64)

  pub FitItems : CanonicalArray → Type 0
  FitItems no_items = Unit
  FitItems (item v vs) = Fits v × FitItems vs

  pub FitEntries : CanonicalObject → Type 0
  FitEntries no_entries = Unit
  FitEntries (entry key v vs) = (length key < 2 ^ 64) × Fits v × FitEntries vs

type_tag-bytes : (v : CanonicalValue) (r : Bytes) → get_or (bytes v ++ r) 0 0 ≡ type_tag v
unfolding bytes
type_tag-bytes null r = refl
type_tag-bytes (boolean b) r = refl
type_tag-bytes (int bits) r = refl
type_tag-bytes (string str) r = refl
type_tag-bytes (array vs) r = refl
type_tag-bytes (object vs) r = refl
type_tag-bytes (path p) r = refl

root_kind_value-injective : (a b : PathRootKind) → root_kind_value a ≡ root_kind_value b → a ≡ b
root_kind_value-injective in_repository in_repository h = refl
root_kind_value-injective generated generated h = refl
root_kind_value-injective external external h = refl
root_kind_value-injective toolchain toolchain h = refl
root_kind_value-injective _ _ h = ground arith

bit-injective : (a b : Bool) → bit a ≡ bit b → a ≡ b
bit-injective true true h = refl
bit-injective true false h = absurd (omega arith)
bit-injective false true h = absurd (omega arith)
bit-injective false false h = refl

path_of :
    {p q : TaggedPath}
    → p.root_kind ≡ q.root_kind
    → p.root_id ≡ q.root_id
    → p.relative_path ≡ q.relative_path
    → p ≡ q
path_of a b c = λ i. record { root_kind = a i; root_id = b i; relative_path = c i }

bytes_path-injective :
    (p q : TaggedPath) (r s : Bytes)
    → Fits (path p)
    → Fits (path q)
    → bytes (path p) ++ r ≡ bytes (path q) ++ s
    → (path p ≡ path q) × (r ≡ s)
unfolding bytes Fits
bytes_path-injective p q r s hp hq e =
    let e' : text p.root_id ++ (text p.relative_path ++ r)
        ≡ text q.root_id ++ (text q.relative_path ++ s) =
      sym (append_assoc (text p.root_id) (text p.relative_path) r)
      ∙ cc e
      ∙ append_assoc (text q.root_id) (text q.relative_path) s in
    let kind : root_kind_value p.root_kind ≡ root_kind_value q.root_kind = cc e in
    let first =
      text-injective p.root_id q.root_id (text p.relative_path ++ r) (text q.relative_path ++ s)
        hp.0 hq.0 e' in
    let second = text-injective p.relative_path q.relative_path r s hp.1 hq.1 first.1 in
    (
      ap path (path_of (root_kind_value-injective p.root_kind q.root_kind kind) first.0 second.0),
      second.1,
    )

entry_assoc : (key v vs r : Bytes) → (text key ++ (v ++ vs)) ++ r ≡ text key ++ (v ++ (vs ++ r))
entry_assoc key v vs r =
    append_assoc (text key) (v ++ vs) r ∙ ap (◌++◌ (text key)) (append_assoc v vs r)

mutual
  unfolding bytes item_bytes entry_bytes Fits FitItems FitEntries

  bytes-injective :
      (v w : CanonicalValue) (r s : Bytes)
      → type_tag v ≡ type_tag w
      → Fits v
      → Fits w
      → bytes v ++ r ≡ bytes w ++ s
      → (v ≡ w) × (r ≡ s)
  bytes-injective null null r s t hv hw e = (refl, cc e)
  bytes-injective (boolean a) (boolean b) r s t hv hw e =
      let same : bit a ≡ bit b = cc e in (ap boolean (bit-injective a b same), cc e)
  bytes-injective (int a) (int b) r s t hv hw e =
      let x = u64-injective a b r s hv hw (cc e) in (ap int x.0, x.1)
  bytes-injective (string a) (string b) r s t hv hw e =
      let x = text-injective a b r s hv hw (cc e) in (ap string x.0, x.1)
  bytes-injective (array vs) (array ws) r s t hv hw e =
      let x =
        u64-injective (array_size vs) (array_size ws) (item_bytes vs ++ r) (item_bytes ws ++ s) hv.0
          hw.0 (cc e) in
      let y = item_bytes-injective vs ws r s x.0 hv.1 hw.1 x.1 in (ap array y.0, y.1)
  bytes-injective (object vs) (object ws) r s t hv hw e =
      let x =
        u64-injective (object_size vs) (object_size ws) (entry_bytes vs ++ r) (entry_bytes ws ++ s)
          hv.0 hw.0 (cc e) in
      let y = entry_bytes-injective vs ws r s x.0 hv.1 hw.1 x.1 in (ap object y.0, y.1)
  bytes-injective (path p) (path q) r s t hv hw e = bytes_path-injective p q r s hv hw e
  bytes-injective _ _ r s t hv hw e = absurd (omega (arith, t))

  item_bytes-injective :
      (vs ws : CanonicalArray) (r s : Bytes)
      → array_size vs ≡ array_size ws
      → FitItems vs
      → FitItems ws
      → item_bytes vs ++ r ≡ item_bytes ws ++ s
      → (vs ≡ ws) × (r ≡ s)
  item_bytes-injective no_items no_items r s n hv hw e = (refl, e)
  item_bytes-injective no_items (item w ws) r s n hv hw e = absurd (omega (arith, n))
  item_bytes-injective (item v vs) no_items r s n hv hw e = absurd (omega (arith, n))
  item_bytes-injective (item v vs) (item w ws) r s n hv hw e =
      let e' =
        sym (append_assoc (bytes v) (item_bytes vs) r)
        ∙ e
        ∙ append_assoc (bytes w) (item_bytes ws) s in
      let tag =
        sym (type_tag-bytes v (item_bytes vs ++ r))
        ∙ ap (λ t. get_or t 0 0) e'
        ∙ type_tag-bytes w (item_bytes ws ++ s) in
      let x = bytes-injective v w (item_bytes vs ++ r) (item_bytes ws ++ s) tag hv.0 hw.0 e' in
      let y = item_bytes-injective vs ws r s (omega (arith, n)) hv.1 hw.1 x.1 in
      (λ i. item (x.0 i) (y.0 i), y.1)

  entry_bytes-injective :
      (vs ws : CanonicalObject) (r s : Bytes)
      → object_size vs ≡ object_size ws
      → FitEntries vs
      → FitEntries ws
      → entry_bytes vs ++ r ≡ entry_bytes ws ++ s
      → (vs ≡ ws) × (r ≡ s)
  entry_bytes-injective no_entries no_entries r s n hv hw e = (refl, e)
  entry_bytes-injective no_entries (entry k w ws) r s n hv hw e = absurd (omega (arith, n))
  entry_bytes-injective (entry j v vs) no_entries r s n hv hw e = absurd (omega (arith, n))
  entry_bytes-injective (entry j v vs) (entry k w ws) r s n hv hw e =
      let whole =
        sym (entry_assoc j (bytes v) (entry_bytes vs) r)
        ∙ e
        ∙ entry_assoc k (bytes w) (entry_bytes ws) s in
      let key =
        text-injective j k (bytes v ++ (entry_bytes vs ++ r)) (bytes w ++ (entry_bytes ws ++ s))
          hv.0 hw.0 whole in
      let tag =
        sym (type_tag-bytes v (entry_bytes vs ++ r))
        ∙ ap (λ t. get_or t 0 0) key.1
        ∙ type_tag-bytes w (entry_bytes ws ++ s) in
      let x = bytes-injective v w (entry_bytes vs ++ r) (entry_bytes ws ++ s) tag hv.1 hw.1 key.1 in
      let y = entry_bytes-injective vs ws r s (omega (arith, n)) hv.2 hw.2 x.1 in
      (λ i. entry (key.0 i) (x.0 i) (y.0 i), y.1)

-- `CanonicalEncode` returns bytes for every value (never an error), also for a path that is absolute
-- and has no external root.
pub canonical_encode-ok : (v : CanonicalValue) → (x : Bytes) × (canonical_encode v ≡ ok x)
unfolding canonical_encode
canonical_encode-ok v = (bytes v, encode_value_lem v)

-- For values whose integers have 64 bits and whose sizes are below 2 ^ 64: if the bytes that
-- `CanonicalEncode` returns for two of them, each with any bytes behind, are the same text, then
-- the values are the same and so is what stands behind. So different values have different
-- encodings, and none is the beginning of another.
pub canonical_encode-injective :
    (v w : CanonicalValue) (x y r s : Bytes)
    → Fits v
    → Fits w
    → canonical_encode v ≡ ok x
    → canonical_encode w ≡ ok y
    → x ++ r ≡ y ++ s
    → (v ≡ w) × (r ≡ s)
unfolding canonical_encode
canonical_encode-injective v w x y r s hv hw ex ey e =
    let x_is : bytes v ≡ x = ok-injective (sym (encode_value_lem v) ∙ ex) in
    let y_is : bytes w ≡ y = ok-injective (sym (encode_value_lem w) ∙ ey) in
    let same = ap (λ t. t ++ r) x_is ∙ e ∙ ap (λ t. t ++ s) (sym y_is) in
    let tag = sym (type_tag-bytes v r) ∙ ap (λ t. get_or t 0 0) same ∙ type_tag-bytes w s in
    bytes-injective v w r s tag hv hw same
