-- ===== src/Facts/KeyCodec/Decode.antt =====
-- One field read back, and the digits of its length.
use veritas.Common.{
  ℕ, ◌+◌, ◌-◌, ◌*◌, ◌/◌, ◌%◌, ◌^◌, ◌≤◌, ◌<◌, true, false, [], ◌∷◌, ◌++◌, Bytes, length, take, drop,
  leb, ltb, some, ◌≡◌, refl, sym, ap, ◌∙◌, subst, arith, length-append, take_exact, drop_exact,
  length-take, take-append-drop, leb→le, Bool-cases, Option-cases, inl, inr,
}
use veritas.Common.Decimal.{is_digit, from_decimal, IsDigits}
use veritas.Core.Status.{StatusOr, ok, StatusOr-cases}
use veritas.Facts.KeyCodec.{
  KeyFieldTag, id, tag_char, known_tag, KeyField, size_max, digit_run, read_length, after_colon,
  decode_field, read_arity, is_empty,
}

pub known_tag-tag_char : (t : KeyFieldTag) → known_tag (tag_char t) ≡ some t
unfolding known_tag
known_tag-tag_char id = refl
known_tag-tag_char _ = refl

pub digit_run-colon :
    (ds rest : Bytes) → IsDigits ds → digit_run (ds ++ b':' ∷ rest) ≡ (ds, b':' ∷ rest)
unfolding digit_run
digit_run-colon [] rest h = refl
digit_run-colon (d ∷ ds) rest h = rw (h.0, digit_run-colon ds rest h.1)

le-from_decimal : (acc : ℕ) (ds : Bytes) → acc ≤ from_decimal acc ds
unfolding from_decimal
le-from_decimal acc [] = omega arith
le-from_decimal acc (d ∷ ds) = omega (arith, le-from_decimal (acc * 10 + (d - b'0')) ds)

-- A length that fits is read exactly.
pub read_length_lem :
    (acc : ℕ) (ds : Bytes)
    → IsDigits ds
    → from_decimal acc ds ≤ size_max
    → read_length acc ds ≡ ok (from_decimal acc ds)
unfolding read_length from_decimal
read_length_lem acc [] h fits = refl
read_length_lem acc (d ∷ ds) h fits =
    let digit : d - b'0' ≤ 9 = ground (arith, h.0) in
    let grows = le-from_decimal (acc * 10 + (d - b'0')) ds in
    let room : ltb ((size_max - (d - b'0')) / 10) acc ≡ false = ground arith in
    rw room (read_length_lem (acc * 10 + (d - b'0')) ds h.1 fits)

-- The arity is read in 64 bits: a larger one wraps around.
pub read_arity_lem :
    (acc : ℕ) (ds : Bytes)
    → IsDigits ds
    → read_arity (acc % 2 ^ 64) ds ≡ ok (from_decimal acc ds % 2 ^ 64)
unfolding read_arity from_decimal
read_arity_lem acc [] h = refl
read_arity_lem acc (d ∷ ds) h =
    rw h.0 (ap (λ n. read_arity n ds) (omega arith) ∙ read_arity_lem (acc * 10 + (d - b'0')) ds h.1)

-- The text of one field: its tag, a run of digits that spells the length, a colon, the value.
pub record SpellsField (c : ℕ) (input : Bytes) (f : KeyField) (rest : Bytes) : Type 0 where
  pub run : Bytes
  pub tag_is : c ≡ tag_char f.tag
  pub input_is : input ≡ run ++ b':' ∷ (f.value ++ rest)
  pub digits : IsDigits run
  pub some_digit : is_empty run ≡ false
  pub length_is : from_decimal 0 run ≡ length f.value
  pub fits : length f.value < 2 ^ 64

-- One field is read back, whatever follows it.
pub decode_field-of_spelling :
    (c : ℕ) (input : Bytes) (f : KeyField) (rest : Bytes)
    → SpellsField c input f rest
    → decode_field c input ≡ ok (f, rest)
unfolding decode_field
decode_field-of_spelling c input f rest s =
    let v = f.value in
    let read : read_length 0 s.run ≡ ok (length v) =
      read_length_lem 0 s.run s.digits (omega (arith, s.length_is, s.fits)) ∙ ap ok s.length_is in
    let enough : leb (length v) (length (v ++ rest)) ≡ true =
      ground (arith, length-append v rest) in
    rw (
      s.tag_is,
      s.input_is,
      known_tag-tag_char f.tag,
      digit_run-colon s.run (v ++ rest) s.digits,
      s.some_digit,
      read,
      enough,
      take_exact (length v) v rest refl,
      drop_exact (length v) v rest refl,
    )

known_tag_sound : (c : ℕ) (t : KeyFieldTag) → known_tag c ≡ some t → c ≡ tag_char t
unfolding known_tag
known_tag_sound c t h = ground arith

digit_run-IsDigits : (s : Bytes) → IsDigits (digit_run s).0
unfolding digit_run
digit_run-IsDigits [] = tt
digit_run-IsDigits (c ∷ cs) = elim (Bool-cases (is_digit c)) [
  | inl digit ↦ rw digit (digit, digit_run-IsDigits cs)
  | inr other ↦ rw other tt
]

digit_run-append : (s : Bytes) → s ≡ (digit_run s).0 ++ (digit_run s).1
unfolding digit_run
digit_run-append [] = refl
digit_run-append (c ∷ cs) = elim (Bool-cases (is_digit c)) [
  | inl digit ↦ rw digit (ap (◌∷◌ c) (digit_run-append cs))
  | inr other ↦ rw other
]

after_colon_sound : (s rest : Bytes) → after_colon s ≡ some rest → s ≡ b':' ∷ rest
after_colon_sound [] rest h = cc
after_colon_sound (c ∷ cs) rest h = ground arith

read_length_sound :
    (acc : ℕ) (ds : Bytes) (n : ℕ)
    → acc ≤ size_max
    → IsDigits ds
    → read_length acc ds ≡ ok n
    → (from_decimal acc ds ≡ n) × (n ≤ size_max)
unfolding read_length from_decimal
read_length_sound acc [] n le h e = let same : acc ≡ n = cc in (same, omega arith)
read_length_sound acc (d ∷ ds) n le h e =
    elim (Bool-cases (ltb ((size_max - (d - b'0')) / 10) acc)) [
      | inl over ↦ cc (rw over at e)
      | inr room ↦
          let digit : d - b'0' ≤ 9 = ground (arith, h.0) in
          read_length_sound (acc * 10 + (d - b'0')) ds n (ground arith) h.1 (rw room at e)
    ]

ok_pair :
    {a b : KeyField} {r s : Bytes}
    → ◌≡◌ {A = StatusOr (KeyField × Bytes)} (ok (a, r)) (ok (b, s))
    → (a ≡ b) × (r ≡ s)
ok_pair h = ground arith

-- The field that the parts make.
read_field :
    (c : ℕ) (input : Bytes) (t : KeyFieldTag) (n : ℕ) (behind : Bytes)
    → known_tag c ≡ some t
    → is_empty (digit_run input).0 ≡ false
    → after_colon (digit_run input).1 ≡ some behind
    → read_length 0 (digit_run input).0 ≡ ok n
    → n ≤ length behind
    → SpellsField c input (record { tag = t; value = take n behind }) (drop n behind)
read_field c input t n behind tag nonempty colon size enough =
    let (value, fits) =
      read_length_sound 0 (digit_run input).0 n (omega arith) (digit_run-IsDigits input) size in
    let taken : length (take n behind) ≡ n = omega (arith, length-take n behind) in
    record {
      run = (digit_run input).0;
      tag_is = known_tag_sound c t tag;
      input_is =
          digit_run-append input
          ∙ ap (◌++◌ (digit_run input).0) (after_colon_sound (digit_run input).1 behind colon)
          ∙ ap (λ z. (digit_run input).0 ++ b':' ∷ z) (sym (take-append-drop n behind));
      digits = digit_run-IsDigits input;
      some_digit = nonempty;
      length_is = omega arith;
      fits = omega arith;
    }

-- What is read back was spelt in the input.
pub decode_field-SpellsField :
    (c : ℕ) (input : Bytes) (f : KeyField) (rest : Bytes)
    → decode_field c input ≡ ok (f, rest)
    → SpellsField c input f rest
unfolding decode_field
decode_field-SpellsField c input f rest h = elim (Option-cases (known_tag c)) [
  | inl bad ↦ cc (rw bad at h)
  | inr (t, tag) ↦ elim (Bool-cases (is_empty (digit_run input).0)) [
    | inl bad ↦ cc (rw (tag, bad) at h)
    | inr nonempty ↦ elim (Option-cases (after_colon (digit_run input).1)) [
      | inl bad ↦ cc (rw (tag, nonempty, bad) at h)
      | inr (behind, colon) ↦ elim (StatusOr-cases (read_length 0 (digit_run input).0)) [
        | inr (_, _, bad) ↦ cc (rw (tag, nonempty, colon, bad) at h)
        | inl (n, size) ↦ elim (Bool-cases (leb n (length behind))) [
          | inr bad ↦ cc (rw (tag, nonempty, colon, size, bad) at h)
          | inl enough ↦
              let (same, left) = ok_pair (rw (tag, nonempty, colon, size, enough) at h) in
              subst (SpellsField c input f) left (
                subst (λ g. SpellsField c input g (drop n behind)) same
                  (read_field c input t n behind tag nonempty colon size (leb→le _ _ enough)))
        ]
      ]
    ]
  ]
]
