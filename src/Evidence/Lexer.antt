-- ===== src/Evidence/Lexer.antt =====
-- src/evidence/EirLexer.cpp: tokens of the Evidence IR text, with their positions.
pub mod Walk
pub mod Skip
pub mod Yields
pub mod Positions
pub mod Literal
pub mod Identifier
use Prim.Native.String.{String}
use veritas.Common.{
  ℕ, zero, suc, ◌+◌, ◌-◌, ◌*◌, ◌^◌, ◌≤◌, ◌<◌, Bool, true, false, not, ◌&&◌, ◌||◌, List, [], ◌∷◌,
  ◌++◌, Bytes, length, take, get_or, ◌==◌, leb, ltb, if◌then◌else◌, Option, none, some,
}
use veritas.Common.Decimal.{is_digit, from_decimal}
use veritas.Evidence.Utf8.{utf8_sequence_length}

pub data TokenKind : Type 0 where
  identifier string integer at dollar left_brace right_brace left_paren right_paren : TokenKind
  left_bracket right_bracket colon semicolon comma equal equal_equal not_equal less : TokenKind
  less_equal greater greater_equal arrow end : TokenKind

pub record Token : Type 0 where
  pub kind : TokenKind
  pub text : Bytes
  pub offset : ℕ
  pub line : ℕ
  pub column : ℕ

-- A message, with the bytes of the source that some messages quote.
pub data Message : Type 0 where
  plain : String → Message
  quoting : String → Bytes → String → Message

-- `EirParseError`, which `Fail` fills and returns as the status.
pub record ParseError : Type 0 where
  pub offset : ℕ
  pub line : ℕ
  pub column : ℕ
  pub message : Message

-- `stuck` is no result of the program: it says that the fuel of a loop ran out.
pub data LexResult (A : Type 0) : Type 0 where
  done : A → LexResult A
  failed : ParseError → LexResult A
  stuck : LexResult A

infixl 5 ◌>>=◌
abbrev pub ◌>>=◌ : {A B : Type 0} → LexResult A → (A → LexResult B) → LexResult B
done a >>= f = f a
failed e >>= f = failed e
stuck >>= f = stuck

-- The fields of `EirLexer`: `rest` is `source_.substr(cursor_)`.
pub record Lexer : Type 0 where
  pub rest : Bytes
  pub cursor : ℕ
  pub line : ℕ
  pub line_start : ℕ

abbrev pub initial : Bytes → Lexer
initial source = record { rest = source; cursor = 0; line = 1; line_start = 0 }

abbrev pub at_end : Lexer → Bool
at_end l = elim l.rest [ [] ↦ true | _ ∷ _ ↦ false ]

-- `Column`
abbrev pub column : Lexer → ℕ
column l = l.cursor - l.line_start + 1

-- `Peek`
abbrev pub peek : ℕ → Lexer → ℕ
peek lookahead l = get_or l.rest lookahead 0

-- The state after `Advance`, which returns `peek 0`.
unfoldable pub advance : Lexer → Lexer
advance l = elim l.rest [
  | [] ↦ l
  | c ∷ cs ↦
      if c == b'\n'
      then record { rest = cs; cursor = l.cursor + 1; line = l.line + 1; line_start = l.cursor + 1 }
      else record { rest = cs; cursor = l.cursor + 1; line = l.line; line_start = l.line_start }
]

-- `for (i = 0; i < n; ++i) Advance();`
unfoldable pub advance_by : ℕ → Lexer → Lexer
advance_by zero l = l
advance_by (suc n) l = advance_by n (advance l)

abbrev pub fail_at : {A : Type 0} → Lexer → Message → LexResult A
fail_at l message =
    failed (record { offset = l.cursor; line = l.line; column = column l; message = message })

-- `std::string(source_.substr(start, cursor_ - start))`
abbrev pub spelling : Lexer → Lexer → Bytes
spelling start l = take (l.cursor - start.cursor) start.rest

abbrev pub token_at : Lexer → TokenKind → Bytes → Token
token_at l kind text = record {
  kind = kind;
  text = text;
  offset = l.cursor;
  line = l.line;
  column = column l;
}

-- `Emit` and `EmitPair`
abbrev pub emit : TokenKind → Lexer → LexResult (Token × Lexer)
emit kind l = done (token_at l kind (peek 0 l ∷ []), advance l)

abbrev pub emit_pair : TokenKind → Lexer → LexResult (Token × Lexer)
emit_pair kind l = done (token_at l kind (peek 0 l ∷ peek 1 l ∷ []), advance (advance l))

unfoldable pub is_letter : ℕ → Bool
is_letter c = leb b'a' c && leb c b'z' || leb b'A' c && leb c b'Z'

-- One well-formed sequence, wherever the lexer consumes text.
pub sequence : String → Lexer → LexResult Lexer
sequence where_ l =
    let n = utf8_sequence_length l.rest in
    if n == 0 then fail_at l (plain where_) else done (advance_by n l)

-- The loop of a line comment, which ends before the newline or at the end.
pub line_comment : ℕ → Lexer → LexResult Lexer
line_comment zero l = stuck
line_comment (suc fuel) l =
    let next = sequence "invalid UTF-8 sequence in comment" l >>= line_comment fuel in
    if at_end l || peek 0 l == b'\n' then done l else next

-- The loop of a block comment that was opened at `start`.
pub block_comment : ℕ → Lexer → Lexer → LexResult Lexer
block_comment zero start l = stuck
block_comment (suc fuel) start l =
    let next = sequence "invalid UTF-8 sequence in comment" l >>= block_comment fuel start in
    if at_end l
    then fail_at start (plain "unterminated block comment")
    else if peek 0 l == b'*' && peek 1 l == b'/'
    then done (advance (advance l))
    else next

abbrev pub is_space : ℕ → Bool
is_space c = c == b' ' || c == b'\t' || c == b'\n' || c == b'\r'

-- `SkipWhitespaceAndComments`
pub skip : ℕ → Lexer → LexResult Lexer
skip zero l = stuck
skip (suc fuel) l =
    let blank = skip fuel (advance l) in
    let line = line_comment fuel (advance (advance l)) >>= skip fuel in
    let block = block_comment fuel l (advance (advance l)) >>= skip fuel in
    if at_end l
    then done l
    else if is_space (peek 0 l)
    then blank
    else if not (peek 0 l == b'/')
    then done l
    else if peek 1 l == b'/'
    then line
    else if peek 1 l == b'*'
    then block
    else done l

-- How many bytes the test accepts from the front.
pub run_length : (ℕ → Bool) → Bytes → ℕ
run_length p [] = 0
run_length p (c ∷ cs) = if p c then suc (run_length p cs) else 0

abbrev pub is_word : ℕ → Bool
is_word c = is_letter c || is_digit c || c == b'_'

-- `while (!AtEnd() && p(Peek())) Advance();`
abbrev pub advance_while : (ℕ → Bool) → Lexer → Lexer
advance_while p l = advance_by (run_length p l.rest) l

-- The loop over `"." Identifier`.
pub dotted : ℕ → Lexer → LexResult Lexer
dotted zero l = stuck
dotted (suc fuel) l =
    let next = dotted fuel (advance_while is_word (advance l)) in
    if peek 0 l == b'.' && is_letter (peek 1 l) then next else done l

pub lex_identifier : ℕ → Lexer → LexResult (Token × Lexer)
lex_identifier fuel start = dotted fuel (advance_while is_word start) >>= λ l.
    done (token_at start identifier (spelling start l), l)

-- The character that an escape stands for.
pub unescape : ℕ → Option ℕ
unescape c =
    if c == b'"' || c == b'\\'
    then some c
    else if c == b'n'
    then some b'\n'
    else if c == b'r'
    then some b'\r'
    else if c == b't'
    then some b'\t'
    else none

-- An escape, with the cursor on its backslash; the decoded character.
pub escape : Lexer → Lexer → LexResult (ℕ × Lexer)
escape start l =
    let behind = advance l in
    if at_end behind
    then fail_at start (plain "unterminated string literal")
    else elim (unescape (peek 0 behind)) [
      | none ↦
          fail_at l
            (quoting "invalid escape sequence \"\\" (peek 0 behind ∷ []) "\" in string literal")
      | some c ↦ done (c, advance behind)
    ]

-- The loop of `LexString`, behind the opening quote, with the text decoded so far.
pub string_body : ℕ → Lexer → Bytes → Lexer → LexResult (Token × Lexer)
string_body zero start decoded l = stuck
string_body (suc fuel) start decoded l =
    let escaped = escape start l >>= λ r. string_body fuel start (decoded ++ r.0 ∷ []) r.1 in
    let next = sequence "invalid UTF-8 sequence in string literal" l >>= λ l'.
    string_body fuel start (decoded ++ spelling l l') l' in
    if at_end l
    then fail_at start (plain "unterminated string literal")
    else if peek 0 l == b'"'
    then done (token_at start string decoded, advance l)
    else if peek 0 l == b'\\'
    then escaped
    else next

-- `std::from_chars` on the spelling succeeds: the value is an `std::int64_t`.
pub is_int64 : Bytes → Bool
is_int64 [] = false
is_int64 (c ∷ cs) =
    if c == b'-' then leb (from_decimal 0 cs) (2 ^ 63) else ltb (from_decimal 0 (c ∷ cs)) (2 ^ 63)

pub lex_integer : Lexer → LexResult (Token × Lexer)
lex_integer start =
    let signed = if peek 0 start == b'-' then advance start else start in
    let l = advance_while is_digit signed in
    let text = spelling start l in
    if is_int64 text
    then done (token_at start integer text, l)
    else fail_at start
        (quoting "integer literal \"" text "\" is not representable as a std::int64_t")

-- The cases of that switch that look one character ahead, and its default.
pub lex_operator : Lexer → LexResult (Token × Lexer)
lex_operator l =
    let c = peek 0 l in
    let two = peek 1 l == b'=' in
    if c == b'='
    then (if two then emit_pair equal_equal l else emit equal l)
    else if c == b'!'
    then (if two
        then emit_pair not_equal l
        else fail_at l (plain "unexpected character '!': expected \"!=\""))
    else if c == b'<'
    then (if two then emit_pair less_equal l else emit less l)
    else if c == b'>'
    then (if two then emit_pair greater_equal l else emit greater l)
    else if c == b'-'
    then (if peek 1 l == b'>'
        then emit_pair arrow l
        else if is_digit (peek 1 l)
        then lex_integer l
        else fail_at l
            (plain "unexpected character '-': expected \"->\" or a signed integer literal"))
    else fail_at l (quoting "unexpected character '" (c ∷ []) "'")

-- The switch of `LexToken` over the characters that begin a token of their own.
pub lex_symbol : ℕ → Lexer → LexResult (Token × Lexer)
lex_symbol fuel l =
    let c = peek 0 l in
    if c == b'"'
    then string_body fuel l [] (advance l)
    else if c == b'@'
    then emit at l
    else if c == b'$'
    then emit dollar l
    else if c == b'{'
    then emit left_brace l
    else if c == b'}'
    then emit right_brace l
    else if c == b'('
    then emit left_paren l
    else if c == b')'
    then emit right_paren l
    else if c == b'['
    then emit left_bracket l
    else if c == b']'
    then emit right_bracket l
    else if c == b':'
    then emit colon l
    else if c == b';'
    then emit semicolon l
    else if c == b','
    then emit comma l
    else lex_operator l

-- `LexToken`
pub lex_token : ℕ → Lexer → LexResult (Token × Lexer)
lex_token fuel l =
    let c = peek 0 l in
    if is_letter c
    then lex_identifier fuel l
    else if is_digit c
    then lex_integer l
    else if leb 0x80 c
    then (if utf8_sequence_length l.rest == 0
        then fail_at l (plain "invalid UTF-8 sequence in source text")
        else fail_at l (plain "unexpected non-ASCII character outside a string literal or comment"))
    else lex_symbol fuel l

-- The loop of `Tokenize`.
pub tokens_from : ℕ → Lexer → LexResult (List Token)
tokens_from zero l = stuck
tokens_from (suc fuel) l = skip fuel l >>= λ l'.
    let more = lex_token fuel l' >>= λ r. tokens_from fuel r.1 >>= λ ts. done (r.0 ∷ ts) in
    if at_end l' then done (token_at l' end [] ∷ []) else more

-- `Tokenize`. Each round of each loop consumes a byte, and one round more sees the end: see
-- `Lexer/Positions`.
unfoldable pub tokenize : Bytes → LexResult (List Token)
unfolding advance advance_by sequence line_comment block_comment skip run_length dotted is_letter
    lex_identifier unescape escape string_body is_int64 lex_integer lex_operator lex_symbol
    lex_token tokens_from
tokenize source = tokens_from (length source + 3) (initial source)
