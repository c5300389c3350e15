-- ===== src/Evidence/Writer.antt =====
-- src/evidence/EirWriter.cpp: the spelling of strings and the test for identifiers.
use veritas.Common.{
  ℕ, zero, suc, ◌∷◌, ◌++◌, [], Bytes, length, Bool, false, ◌&&◌, ◌||◌, ◌==◌, if◌then◌else◌,
}
use veritas.Common.Decimal.{is_digit}
use veritas.Evidence.Lexer.{is_letter}

-- The `switch` of `StringLiteral`.
unfoldable pub escape_byte : ℕ → Bytes
escape_byte c =
    if c == b'"'
    then b'\\' ∷ b'"' ∷ []
    else if c == b'\\'
    then b'\\' ∷ b'\\' ∷ []
    else if c == b'\n'
    then b'\\' ∷ b'n' ∷ []
    else if c == b'\r'
    then b'\\' ∷ b'r' ∷ []
    else if c == b'\t'
    then b'\\' ∷ b't' ∷ []
    else c ∷ []

-- The loop of `StringLiteral`.
unfoldable pub escape_text : Bytes → Bytes
unfolding escape_byte
escape_text [] = []
escape_text (c ∷ text) = escape_byte c ++ escape_text text

-- `StringLiteral`: what it appends to the output.
unfoldable pub string_literal : Bytes → Bytes
unfolding escape_text
string_literal text = b'"' ∷ (escape_text text ++ b'"' ∷ [])

-- `consume_segment`: what is behind the segment.
unfoldable pub consume_segment : Bytes → Bytes
consume_segment [] = []
consume_segment (c ∷ text) =
    if is_letter c || is_digit c || c == b'_' then consume_segment text else c ∷ text

-- Whether `text[0]` exists and is a letter.
unfoldable pub starts_with_letter : Bytes → Bool
starts_with_letter [] = false
starts_with_letter (c ∷ text) = is_letter c

-- The loop of `IsIdentifier` over the segments behind the first: what is behind the last. Each round
-- consumes a dot, so that the number of the bytes is enough fuel.
unfoldable pub consume_segments : ℕ → Bytes → Bytes
consume_segments zero text = text
consume_segments (suc fuel) [] = []
consume_segments (suc fuel) (c ∷ text) =
    let more = consume_segments fuel (consume_segment text) in
    if c == b'.' && starts_with_letter text then more else c ∷ text

-- `IsIdentifier`
unfoldable pub is_identifier : Bytes → Bool
unfolding consume_segment starts_with_letter consume_segments
is_identifier [] = false
is_identifier (c ∷ text) =
    is_letter c && length (consume_segments (length text) (consume_segment text)) == 0
