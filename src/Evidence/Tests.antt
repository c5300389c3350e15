-- ===== src/Evidence/Tests.antt =====
-- Tests and examples of src/evidence: UTF-8 and the tokens of EIR text.
use veritas.Common.{
  true, false, map, ◌↔◌, ℕ, List, Bytes, [], ◌∷◌, ◌++◌, codes, length, ◌≡◌, refl, arith,
}
use veritas.Common.Decimal.{from_decimal}
use veritas.Evidence.Utf8.{
  utf8_sequence_length, encode_utf8, Encodes, utf8_sequence_length-encode_utf8,
  utf8_sequence_length_sound,
}
use veritas.Evidence.Lexer.{
  identifier, equal, integer, end, string, is_letter, Lexer, initial, token_at, done, lex_token,
  tokenize,
}
use veritas.Evidence.Lexer.Literal.{text_of, lex_token-string_literal}
use veritas.Evidence.Lexer.Identifier.{IsOneIdentifier, is_identifier_iff}
use veritas.Evidence.Writer.{
  escape_byte, escape_text, string_literal, is_identifier, consume_segment, consume_segments,
  starts_with_letter,
}
use veritas.Evidence.Lexer.Positions.{Lexes, tokenize-Lexes}

utf8_sequence_length-encode_utf8_example :
    utf8_sequence_length (encode_utf8 0x20AC ++ codes "!") ≡ length (encode_utf8 0x20AC)
utf8_sequence_length-encode_utf8_example = utf8_sequence_length-encode_utf8 0x20AC (codes "!") refl

-- A surrogate half is refused.
surrogate : utf8_sequence_length (0xED ∷ 0xA0 ∷ 0x80 ∷ []) ≡ 0
unfolding utf8_sequence_length
surrogate = refl

-- U+0800 is accepted.
first_of_three : utf8_sequence_length (0xE0 ∷ 0xA0 ∷ 0x80 ∷ []) ≡ 3
unfolding utf8_sequence_length
first_of_three = refl

utf8_sequence_length_sound_example :
    Encodes (0xE0 ∷ 0xA0 ∷ 0x80 ∷ []) (utf8_sequence_length (0xE0 ∷ 0xA0 ∷ 0x80 ∷ []))
utf8_sequence_length_sound_example =
    utf8_sequence_length_sound (0xE0 ∷ 0xA0 ∷ 0x80 ∷ [])
      (λ h. absurd (omega (arith, h, first_of_three)))

assignment :
    tokenize (codes "x\n = -1")
    ≡ done (
        record { kind = identifier; text = codes "x"; offset = 0; line = 1; column = 1 }
        ∷ record { kind = equal; text = codes "="; offset = 3; line = 2; column = 2 }
        ∷ record { kind = integer; text = codes "-1"; offset = 5; line = 2; column = 4 }
        ∷ record { kind = end; text = []; offset = 7; line = 2; column = 6 }
        ∷ [])
unfolding tokenize utf8_sequence_length from_decimal
assignment = refl

tokenize-Lexes_example : Lexes (codes "x\n = -1") 0 (tokenize (codes "x\n = -1"))
tokenize-Lexes_example = tokenize-Lexes (codes "x\n = -1")

-- A quote, a letter of two bytes and a newline.
abbrev sample : List ℕ
sample = b'a' ∷ b'"' ∷ 0xE9 ∷ b'\n' ∷ []

abbrev sample_source : Bytes
sample_source = string_literal (text_of sample) ++ codes ";"

sample_written : string_literal (text_of sample) ≡ codes "\"a\\\"" ++ 0xC3 ∷ 0xA9 ∷ codes "\\n\""
unfolding string_literal escape_text escape_byte encode_utf8
sample_written = refl

lex_token-string_literal_example :
    (end_state : Lexer) × (lex_token 9 (initial sample_source)
      ≡ done (token_at (initial sample_source) string (text_of sample), end_state))
    × (end_state.rest ≡ codes ";")
lex_token-string_literal_example =
    lex_token-string_literal 9 sample (initial sample_source) (codes ";")
      (refl, (refl, (refl, (refl, tt)))) (omega arith) refl

identifiers :
    map is_identifier (codes "a.b2_c" ∷ codes "a." ∷ codes "a.1" ∷ codes "x y" ∷ [] ∷ [])
    ≡ true ∷ false ∷ false ∷ false ∷ false ∷ []
unfolding is_identifier consume_segment consume_segments starts_with_letter is_letter
identifiers = refl

is_identifier_iff_example :
    (is_identifier (codes "rule.Name_1") ≡ true)
    ↔ IsOneIdentifier 12 (initial (codes "rule.Name_1"))
is_identifier_iff_example = is_identifier_iff 12 (initial (codes "rule.Name_1")) (omega arith)
