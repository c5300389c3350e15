-- ===== src/Facts/KeyCodec/RoundTrip.antt =====
-- The texts that `DecodeFields` and `DecodeKey` accept.
use veritas.Common.{
  ℕ, zero, suc, ◌%◌, ◌^◌, ◌≤◌, ◌<◌, false, List, [], ◌∷◌, ◌++◌, Bytes, length, ◌==◌, ==_refl,
  if◌then◌else◌, some, ◌≡◌, refl, ◌↔◌, ap, ◌∙◌, subst, arith, All, length-append, append_assoc,
  Bool-cases, inl, inr,
}
use veritas.Common.Decimal.{
  to_decimal, to_decimal-IsDigits, to_decimal-cons, from_decimal-to_decimal,
}
use veritas.Core.Status.{ok, err, StatusOr-cases, ok-injective, invalid_argument}
use veritas.Facts.KeyCodec.{
  symbol, unsigned, tag_char, KeyField, encode_field, is_empty, decode_field, decode_loop,
  decode_fields, strip_prefix, key_version, decode_key_fields, decode_key, read_arity,
  encode_key_header, append_key_header,
}
use veritas.Facts.KeyCodec.Decode.{
  SpellsField, decode_field-of_spelling, decode_field-SpellsField, read_arity_lem,
}

-- The text is a concatenation of fields. The digits of a length may begin with zeros.
pub data Spells : Bytes → List KeyField → Type 0 where
  nil : Spells [] []
  cons :
      {c : ℕ} {input rest : Bytes} {f : KeyField} {fs : List KeyField}
      → SpellsField c input f rest
      → Spells rest fs
      → Spells (c ∷ input) (f ∷ fs)

length-rest :
    (c : ℕ) (input : Bytes) (f : KeyField) (rest : Bytes)
    → SpellsField c input f rest
    → length rest ≤ length input
length-rest c input f rest s = omega (
  arith,
  ap length s.input_is,
  length-append s.run (b':' ∷ (f.value ++ rest)),
  length-append f.value rest,
)

decode_loop-of_spelling :
    {s : Bytes} {fs : List KeyField} (fuel : ℕ)
    → Spells s fs
    → length s ≤ fuel
    → decode_loop fuel s ≡ ok fs
unfolding decode_loop
decode_loop-of_spelling zero nil h = refl
decode_loop-of_spelling (suc fuel) nil h = refl
decode_loop-of_spelling zero (cons f t) h = absurd (omega arith)
decode_loop-of_spelling (suc fuel) (cons {c} {input} {rest} {f = g} f t) h = rw (
  decode_field-of_spelling c input g rest f,
  decode_loop-of_spelling fuel t (omega (arith, length-rest c input g rest f)),
)

decode_loop-Spells :
    (fuel : ℕ) (s : Bytes) (fs : List KeyField) → decode_loop fuel s ≡ ok fs → Spells s fs
unfolding decode_loop
decode_loop-Spells zero [] fs h = subst (Spells []) (ok-injective h) nil
decode_loop-Spells (suc fuel) [] fs h = subst (Spells []) (ok-injective h) nil
decode_loop-Spells zero (c ∷ input) fs h = cc
decode_loop-Spells (suc fuel) (c ∷ input) fs h = elim (StatusOr-cases (decode_field c input)) [
  | inr (_, _, bad) ↦ cc (rw bad at h)
  | inl ((f, rest), one) ↦ elim (StatusOr-cases (decode_loop fuel rest)) [
    | inr (_, _, bad) ↦ cc (rw (one, bad) at h)
    | inl (gs, more) ↦
        let fields : f ∷ gs ≡ fs = ok-injective (rw (one, more) at h) in
        subst (Spells (c ∷ input)) fields (
          cons (decode_field-SpellsField c input f rest one) (decode_loop-Spells fuel rest gs more))
  ]
]

-- Any fuel from the length on gives the same result, errors included.
pub decode_loop_fuel :
    (f g : ℕ) (s : Bytes) → length s ≤ f → length s ≤ g → decode_loop f s ≡ decode_loop g s
unfolding decode_loop
decode_loop_fuel zero zero [] hf hg = refl
decode_loop_fuel zero (suc g) [] hf hg = refl
decode_loop_fuel (suc f) zero [] hf hg = refl
decode_loop_fuel (suc f) (suc g) [] hf hg = refl
decode_loop_fuel zero g (c ∷ s) hf hg = absurd (omega arith)
decode_loop_fuel (suc f) zero (c ∷ s) hf hg = absurd (omega arith)
decode_loop_fuel (suc f) (suc g) (c ∷ s) hf hg = elim (StatusOr-cases (decode_field c s)) [
  | inr (_, _, bad) ↦ rw bad
  | inl ((x, rest), one) ↦
      let shorter = length-rest c s x rest (decode_field-SpellsField c s x rest one) in
      rw (one, decode_loop_fuel f g rest (omega arith) (omega arith))
]

-- `DecodeFields` returns a list of fields exactly where the text is a concatenation of that list's
-- fields, each a tag, digits that spell the value's length (below 2 ^ 64), a colon and the value.
pub decode_fields_iff : (s : Bytes) (fs : List KeyField) → (decode_fields s ≡ ok fs) ↔ Spells s fs
unfolding decode_fields
decode_fields_iff s fs =
    (decode_loop-Spells (length s) s fs, λ h. decode_loop-of_spelling (length s) h (omega arith))

-- What the encoder writes for a list of cells.
pub encode_fields : List KeyField → Bytes
encode_fields [] = []
encode_fields (f ∷ fs) = encode_field f.tag f.value ++ encode_fields fs

-- The lengths fit in `std::size_t`, as those of strings in memory do.
abbrev pub Fit : List KeyField → Type 0
Fit = All (λ f. length f.value < 2 ^ 64)

encode_field-SpellsField :
    (f : KeyField) (rest : Bytes)
    → length f.value < 2 ^ 64
    → SpellsField (tag_char f.tag) (to_decimal (length f.value) ++ b':' ∷ (f.value ++ rest)) f rest
encode_field-SpellsField f rest h =
    let (d, ds, spelt) = to_decimal-cons (length f.value) in
    record {
      run = to_decimal (length f.value);
      tag_is = refl;
      input_is = refl;
      digits = to_decimal-IsDigits (length f.value);
      some_digit = ap is_empty spelt;
      length_is = from_decimal-to_decimal (length f.value);
      fits = h;
    }

encode_fields-Spells : (fs : List KeyField) → Fit fs → Spells (encode_fields fs) fs
unfolding encode_fields encode_field
encode_fields-Spells [] h = nil
encode_fields-Spells (f ∷ fs) h =
    rw (append_assoc (to_decimal (length f.value)) (b':' ∷ f.value) (encode_fields fs))
      (cons (encode_field-SpellsField f (encode_fields fs) h.0) (encode_fields-Spells fs h.1))

-- A key of `arity` cells, as its header declares it.
pub encode_key : Bytes → ℕ → List KeyField → Bytes
encode_key relation_name arity cells = encode_key_header relation_name arity ++ encode_fields cells

strip_prefix-append : (p s : Bytes) → strip_prefix p (p ++ s) ≡ some s
unfolding strip_prefix
strip_prefix-append [] s = refl
strip_prefix-append (c ∷ p) s = rw (==_refl c) (strip_prefix-append p s)

abbrev all_fields : Bytes → ℕ → List KeyField → List KeyField
all_fields relation_name arity cells =
    record { tag = symbol; value = relation_name }
    ∷ record { tag = unsigned; value = to_decimal arity }
    ∷ cells

encode_key_lem :
    (r : Bytes) (n : ℕ) (cells : List KeyField)
    → encode_key r n cells ≡ key_version ++ encode_fields (all_fields r n cells)
unfolding encode_key encode_fields append_key_header
encode_key_lem r n cells =
    append_assoc (key_version ++ encode_field symbol r) (encode_field unsigned (to_decimal n))
      (encode_fields cells)
    ∙ append_assoc key_version (encode_field symbol r)
        (encode_field unsigned (to_decimal n) ++ encode_fields cells)

-- The header's fields, checked.
decode_key_fields_lem :
    (r : Bytes) (n : ℕ) (cells : List KeyField)
    → decode_key_fields (all_fields r n cells) ≡ (
        if length cells == n % 2 ^ 64
        then ok (record { relation_name = r; cells = cells })
        else err invalid_argument "semantic key arity does not match its cell count")
unfolding decode_key_fields
decode_key_fields_lem r n cells =
    let (d, ds, spelt) = to_decimal-cons n in
    let nonempty : is_empty (to_decimal n) ≡ false = ap is_empty spelt in
    let arity : read_arity 0 (to_decimal n) ≡ ok (n % 2 ^ 64) =
      read_arity_lem 0 (to_decimal n) (to_decimal-IsDigits n)
      ∙ ap (λ k. ok (k % 2 ^ 64)) (from_decimal-to_decimal n) in
    elim (Bool-cases (length cells == n % 2 ^ 64)) [
      | inl same ↦ rw (nonempty, arity, same)
      | inr other ↦ rw (nonempty, arity, other)
    ]

-- Where the lengths of the name, of the arity's digits and of the cells' values are below 2 ^ 64,
-- `DecodeKey` reads the encoder's key for a name, an arity and cells: it returns the name and the
-- cells if the arity modulo 2 ^ 64 is the number of cells, and refuses the key otherwise.
pub decode_key-encode_key :
    (relation_name : Bytes) (arity : ℕ) (cells : List KeyField)
    → length relation_name < 2 ^ 64
    → length (to_decimal arity) < 2 ^ 64
    → Fit cells
    → decode_key (encode_key relation_name arity cells) ≡ (
        if length cells == arity % 2 ^ 64
        then ok (record { relation_name = relation_name; cells = cells })
        else err invalid_argument "semantic key arity does not match its cell count")
unfolding decode_key
decode_key-encode_key r n cells hr hn hc =
    let fields = all_fields r n cells in
    let read : decode_fields (encode_fields fields) ≡ ok fields =
      (decode_fields_iff (encode_fields fields) fields).1
        (encode_fields-Spells fields (hr, (hn, hc))) in
    rw (encode_key_lem r n cells, strip_prefix-append key_version (encode_fields fields), read)
      (decode_key_fields_lem r n cells)
