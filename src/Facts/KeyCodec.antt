-- ===== src/Facts/KeyCodec.antt =====
-- src/facts/SemanticKeyCodec.cpp: the injective encoding of semantic keys.
pub mod Decode
pub mod RoundTrip
use veritas.Common.{
  ℕ, zero, suc, ◌+◌, ◌-◌, ◌*◌, ◌/◌, ◌%◌, ◌^◌, ◌≤◌, ◌<◌, Bool, true, false, ◌&&◌, ◌||◌, List, [],
  ◌∷◌, ◌++◌, Bytes, codes, length, take, drop, ◌==◌, leb, ltb, if◌then◌else◌, Option, none, some,
  not,
}
use veritas.Common.Decimal.{to_decimal, is_digit, from_decimal}
use veritas.Core.Status.{StatusOr, ok, err, invalid_argument, ◌>>=◌, ◌>>◌, require, from_option}

pub data KeyFieldTag : Type 0 where
  id symbol number unsigned enum : KeyFieldTag

-- The character of a tag.
abbrev pub tag_char : KeyFieldTag → ℕ
tag_char id = b'I'
tag_char symbol = b'S'
tag_char number = b'N'
tag_char unsigned = b'U'
tag_char enum = b'E'

-- `IsKnownTag`, with the tag that the character is.
unfoldable pub known_tag : ℕ → Option KeyFieldTag
known_tag c =
    if c == b'I'
    then some id
    else if c == b'S'
    then some symbol
    else if c == b'N'
    then some number
    else if c == b'U'
    then some unsigned
    else if c == b'E'
    then some enum
    else none

pub record KeyField : Type 0 where
  pub tag : KeyFieldTag
  pub value : Bytes

-- `EncodeField`, what `AppendField` appends: the tag, the length, a colon, the value.
unfoldable pub encode_field : KeyFieldTag → Bytes → Bytes
encode_field tag value = tag_char tag ∷ (to_decimal (length value) ++ b':' ∷ value)

abbrev pub append_field : Bytes → KeyFieldTag → Bytes → Bytes
append_field out tag value = out ++ encode_field tag value

abbrev pub key_version : Bytes
key_version = codes "veritas.semantic-key.v1"

-- `AppendKeyHeader`
unfoldable pub append_key_header : Bytes → Bytes → ℕ → Bytes
append_key_header out relation_name arity =
    append_field (append_field (out ++ key_version) symbol relation_name) unsigned
      (to_decimal arity)

-- `EncodeIdField`, `EncodeSymbolField`, `EncodeUnsignedField` and `EncodeEnumField`.
abbrev pub encode_id_field : Bytes → Bytes
encode_id_field = encode_field id

abbrev pub encode_symbol_field : Bytes → Bytes
encode_symbol_field = encode_field symbol

abbrev pub encode_unsigned_field : ℕ → Bytes
encode_unsigned_field value = encode_field unsigned (to_decimal value)

abbrev pub encode_enum_field : ℕ → Bytes
encode_enum_field ordinal = encode_field enum (to_decimal ordinal)

abbrev pub encode_key_header : Bytes → ℕ → Bytes
encode_key_header relation_name arity = append_key_header [] relation_name arity

-- The largest `std::size_t`.
abbrev pub size_max : ℕ
size_max = 2 ^ 64 - 1

-- The run of digits at the cursor, and what stands behind it.
unfoldable pub digit_run : Bytes → Bytes × Bytes
digit_run [] = ([], [])
digit_run (c ∷ cs) = if is_digit c then (c ∷ (digit_run cs).0, (digit_run cs).1) else ([], c ∷ cs)

-- The loop that reads the length, with its test for overflow.
unfoldable pub read_length : ℕ → Bytes → StatusOr ℕ
read_length acc [] = ok acc
read_length acc (c ∷ cs) =
    let digit = c - b'0' in
    let rest = read_length (acc * 10 + digit) cs in
    if ltb ((size_max - digit) / 10) acc
    then err invalid_argument "semantic key field length overflows"
    else rest

-- The test for ':' behind the digits, and what follows it.
abbrev pub after_colon : Bytes → Option Bytes
after_colon [] = none
after_colon (c ∷ cs) = if c == b':' then some cs else none

abbrev pub is_empty : Bytes → Bool
is_empty [] = true
is_empty (c ∷ cs) = false

-- One round of `DecodeFields`: the field at the cursor, and the input behind it.
unfoldable pub decode_field : ℕ → Bytes → StatusOr (KeyField × Bytes)
decode_field c input = do
  tag ← from_option (known_tag c) invalid_argument "semantic key has an unknown field tag"
  let run = digit_run input
  require (not (is_empty run.0)) invalid_argument "semantic key field has no length"
  rest ←
      from_option (after_colon run.1) invalid_argument "semantic key field length is not terminated"
  n ← read_length 0 run.0
  require (leb n (length rest)) invalid_argument "semantic key field length exceeds input"
  ok (record { tag = tag; value = take n rest }, drop n rest)

-- The loop of `DecodeFields`. Every field takes at least its tag, so the length is enough fuel.
unfoldable pub decode_loop : ℕ → Bytes → StatusOr (List KeyField)
decode_loop fuel [] = ok []
decode_loop zero (c ∷ input) = err invalid_argument "out of fuel"
decode_loop (suc fuel) (c ∷ input) =
    decode_field c input >>= λ r. decode_loop fuel r.1 >>= λ fields. ok (r.0 ∷ fields)

unfoldable pub decode_fields : Bytes → StatusOr (List KeyField)
unfolding decode_field decode_loop known_tag digit_run read_length
decode_fields encoded = decode_loop (length encoded) encoded

pub record DecodedKey : Type 0 where
  pub relation_name : Bytes
  pub cells : List KeyField

-- `encoded.starts_with(prefix)`, and what follows the prefix.
unfoldable pub strip_prefix : Bytes → Bytes → Option Bytes
strip_prefix [] s = some s
strip_prefix (p ∷ ps) [] = none
strip_prefix (p ∷ ps) (c ∷ cs) = if p == c then strip_prefix ps cs else none

-- The loop that reads the arity, in `std::size_t`.
unfoldable pub read_arity : ℕ → Bytes → StatusOr ℕ
read_arity acc [] = ok acc
read_arity acc (c ∷ cs) =
    let rest = read_arity ((acc * 10 + (c - b'0')) % 2 ^ 64) cs in
    if is_digit c then rest else err invalid_argument "semantic key arity is not numeric"

abbrev is_symbol : KeyFieldTag → Bool
is_symbol symbol = true
is_symbol _ = false

abbrev is_unsigned : KeyFieldTag → Bool
is_unsigned unsigned = true
is_unsigned _ = false

-- `DecodeKey`, from the decoded fields on.
unfoldable pub decode_key_fields : List KeyField → StatusOr DecodedKey
decode_key_fields (relation ∷ arity_field ∷ cells) = do
  require (is_symbol relation.tag && is_unsigned arity_field.tag) invalid_argument
      "semantic key header is malformed"
  require (not (is_empty arity_field.value)) invalid_argument "semantic key arity is empty"
  arity ← read_arity 0 arity_field.value
  require (length cells == arity) invalid_argument
      "semantic key arity does not match its cell count"
  ok (record { relation_name = relation.value; cells = cells })
decode_key_fields _ = err invalid_argument "semantic key has no relation and arity"

unfoldable pub decode_key : Bytes → StatusOr DecodedKey
decode_key encoded = do
  rest ←
      from_option (strip_prefix key_version encoded) invalid_argument
        "semantic key has no version prefix"
  fields ← decode_fields rest
  decode_key_fields fields
