-- ===== src/Evidence/Lexer/Identifier/Kinds.antt =====
-- A token that does not begin with a letter is no identifier.
use veritas.Common.{
  ℕ, zero, suc, Bool, true, false, Bytes, [], ◌∷◌, ◌++◌, ◌==◌, leb, if◌then◌else◌, ◌≡◌, refl, not,
  ap,
}
use veritas.Common.Decimal.{is_digit}
use veritas.Evidence.Utf8.{utf8_sequence_length}
use veritas.Evidence.Lexer.{
  Token, TokenKind, ParseError, identifier, emit, emit_pair, equal, equal_equal, not_equal, less,
  less_equal, greater, greater_equal, arrow, at, dollar, left_brace, right_brace, left_paren,
  right_paren, left_bracket, right_bracket, colon, semicolon, comma, Lexer, LexResult, done, failed,
  stuck, ◌>>=◌, is_letter, peek, advance, sequence, spelling, escape, string_body, lex_integer,
  lex_operator, lex_symbol, lex_token,
}

abbrev pub names : TokenKind → Bool
names identifier = true
names k = false

-- No identifier is the result.
abbrev pub is_other : LexResult (Token × Lexer) → Bool
is_other (done (t, m)) = not (names t.kind)
is_other (failed e) = true
is_other stuck = true

pub record Other (r : LexResult (Token × Lexer)) : Type 0 where
  pub holds : is_other r ≡ true

Other-done : {t : Token} {m : Lexer} → names t.kind ≡ false → Other (done (t, m))
Other-done h = record { holds = ap not h }

Other-failed : {e : ParseError} → Other (failed e)
Other-failed = record { holds = refl }

Other-if :
    (c : Bool) (r r' : LexResult (Token × Lexer)) → Other r → Other r' → Other (if c then r else r')
Other-if true r r' h h' = h
Other-if false r r' h h' = h'

Other-bind :
    {A : Type 0} (r : LexResult A) (f : A → LexResult (Token × Lexer))
    → ((x : A) → Other (f x))
    → Other (r >>= f)
Other-bind (done x) f h = h x
Other-bind (failed e) f h = Other-failed
Other-bind stuck f h = record { holds = refl }

string_body-Other :
    (fuel : ℕ) (start : Lexer) (decoded : Bytes) (l : Lexer)
    → Other (string_body fuel start decoded l)
unfolding string_body
string_body-Other zero start decoded l = record { holds = refl }
string_body-Other (suc fuel) start decoded l = Other-if _ _ _ Other-failed (
    Other-if _ _ _ (Other-done refl) (
      Other-if _ _ _
        (Other-bind (escape start l) _ λ r. string_body-Other fuel start (decoded ++ r.0 ∷ []) r.1)
        (Other-bind (sequence "invalid UTF-8 sequence in string literal" l) _
          λ m. string_body-Other fuel start (decoded ++ spelling l m) m)))

lex_integer-Other : (l : Lexer) → Other (lex_integer l)
unfolding lex_integer
lex_integer-Other l = Other-if _ _ _ (Other-done refl) Other-failed

Other-emit : (k : TokenKind) (l : Lexer) → names k ≡ false → Other (emit k l)
Other-emit k l h = Other-done h

Other-emit_pair : (k : TokenKind) (l : Lexer) → names k ≡ false → Other (emit_pair k l)
Other-emit_pair k l h = Other-done h

lex_operator-Other : (l : Lexer) → Other (lex_operator l)
unfolding lex_operator
lex_operator-Other l =
    Other-if (peek 0 l == b'=') _ _
      (Other-if (peek 1 l == b'=') _ _ (Other-emit_pair equal_equal l refl)
        (Other-emit equal l refl))
      (Other-if (peek 0 l == b'!') _ _
        (Other-if (peek 1 l == b'=') _ _ (Other-emit_pair not_equal l refl) Other-failed)
        (Other-if (peek 0 l == b'<') _ _
          (Other-if (peek 1 l == b'=') _ _ (Other-emit_pair less_equal l refl)
            (Other-emit less l refl))
          (Other-if (peek 0 l == b'>') _ _
            (Other-if (peek 1 l == b'=') _ _ (Other-emit_pair greater_equal l refl)
              (Other-emit greater l refl))
            (Other-if (peek 0 l == b'-') _ _
              (Other-if (peek 1 l == b'>') _ _ (Other-emit_pair arrow l refl)
                (Other-if (is_digit (peek 1 l)) _ _ (lex_integer-Other l) Other-failed))
              Other-failed))))

lex_symbol-Other : (fuel : ℕ) (l : Lexer) → Other (lex_symbol fuel l)
unfolding lex_symbol
lex_symbol-Other fuel l =
    Other-if (peek 0 l == b'"') _ _ (string_body-Other fuel l [] (advance l)) (
      Other-if (peek 0 l == b'@') _ _ (Other-emit at l refl) (
        Other-if (peek 0 l == b'$') _ _ (Other-emit dollar l refl) (
          Other-if (peek 0 l == b'{') _ _ (Other-emit left_brace l refl) (
            Other-if (peek 0 l == b'}') _ _ (Other-emit right_brace l refl) (
              Other-if (peek 0 l == b'(') _ _ (Other-emit left_paren l refl) (
                Other-if (peek 0 l == b')') _ _ (Other-emit right_paren l refl) (
                  Other-if (peek 0 l == b'[') _ _ (Other-emit left_bracket l refl) (
                    Other-if (peek 0 l == b']') _ _ (Other-emit right_bracket l refl) (
                      Other-if (peek 0 l == b':') _ _ (Other-emit colon l refl) (
                        Other-if (peek 0 l == b';') _ _ (Other-emit semicolon l refl) (
                          Other-if (peek 0 l == b',') _ _ (Other-emit comma l refl)
                            (lex_operator-Other l))))))))))))

pub lex_token-Other :
    (fuel : ℕ) (l : Lexer) → is_letter (peek 0 l) ≡ false → Other (lex_token fuel l)
unfolding lex_token
lex_token-Other fuel l no_letter = rw no_letter (
    Other-if (is_digit (peek 0 l)) _ _ (lex_integer-Other l) (
      Other-if (leb 0x80 (peek 0 l)) _ _
        (Other-if (utf8_sequence_length l.rest == 0) _ _ Other-failed Other-failed)
        (lex_symbol-Other fuel l)))
