-- ===== src/Evidence/Lexer/Yields.antt =====
-- Each routine for a token ends with a token at the state it was called in, or with an error.
use veritas.Common.{
  ℕ, zero, suc, ◌<◌, Bool, true, false, ◌&&◌, ◌||◌, [], ◌∷◌, ◌++◌, Bytes, length, get_or, ◌==◌, leb,
  if◌then◌else◌, ◌≡◌, ◌≢◌, refl, sym, subst, arith, Bool-cases, Option-cases, inl, inr,
}
use veritas.Common.Decimal.{is_digit}
use veritas.Evidence.Utf8.{utf8_sequence_length}
use veritas.Evidence.Lexer.{
  Token, TokenKind, equal, equal_equal, not_equal, less, less_equal, greater, greater_equal, arrow,
  at, dollar, left_brace, right_brace, left_paren, right_paren, left_bracket, right_bracket, colon,
  semicolon, comma, identifier, string, integer, Lexer, LexResult, done, failed, stuck, Message,
  plain, quoting, fail_at, at_end, column, peek, advance, advance_by, ◌>>=◌, sequence, run_length,
  is_letter, is_word, advance_while, dotted, lex_identifier, spelling, token_at, unescape, escape,
  string_body, is_int64, lex_integer, lex_operator, lex_symbol, lex_token, emit, emit_pair,
}
use veritas.Evidence.Lexer.Walk.{
  Follows, here, step, Follows-trans, Follows-advance_by, length-advance, length-advance_lt,
  length-Follows, not_end,
}
use veritas.Evidence.Lexer.Skip.{
  FailsIn, FailsIn-trans, FailsIn-self, Moves, Moves-trans, sequence-Moves,
}

pub record StandsAt (l : Lexer) (t : Token) : Type 0 where
  pub offset_is : t.offset ≡ l.cursor
  pub line_is : t.line ≡ l.line
  pub column_is : t.column ≡ column l

StandsAt-token_at : (l : Lexer) (k : TokenKind) (text : Bytes) → StandsAt l (token_at l k text)
StandsAt-token_at l k text = record { offset_is = refl; line_is = refl; column_is = refl }

-- A token at `l` and a state behind its first byte, or an error at a state that follows `l`.
abbrev pub Yields : Lexer → LexResult (Token × Lexer) → Type 0
Yields l (done (t, m)) = StandsAt l t × Follows (advance l) m
Yields l (failed e) = FailsIn l e
Yields l stuck = ⊥

-- A run that is not empty goes on behind its first byte.
run_length-suc :
    (p : ℕ → Bool) (cs : Bytes)
    → (elim cs [ [] ↦ true | _ ∷ _ ↦ false ]) ≡ false
    → p (get_or cs 0 0) ≡ true
    → (n : ℕ) × run_length p cs ≡ suc n
unfolding run_length
run_length-suc p [] more first = cc more
run_length-suc p (c ∷ cs) more first = (run_length p cs, rw first refl)

advance_while-Follows :
    (p : ℕ → Bool) (l : Lexer)
    → at_end l ≡ false
    → p (peek 0 l) ≡ true
    → Follows (advance l) (advance_while p l)
unfolding advance_by
advance_while-Follows p l more first =
    let r = run_length-suc p l.rest more first in
    subst (λ n. Follows (advance l) (advance_by n l)) (sym r.1) (Follows-advance_by r.0 (advance l))

dotted-Moves : (fuel : ℕ) (l : Lexer) → length l.rest < fuel → Moves l l (dotted fuel l)
unfolding dotted
dotted-Moves zero l h = absurd (omega arith)
dotted-Moves (suc fuel) l h = elim (Bool-cases (peek 0 l == b'.' && is_letter (peek 1 l))) [
  | inr stops ↦ rw stops here
  | inl dot ↦
      let more = not_end l (λ z. ground arith) in
      let m = advance_while is_word (advance l) in
      let run = Follows-advance_by (run_length is_word (advance l).rest) (advance l) in
      rw dot (
        Moves-trans (dotted fuel m) (step run)
          (dotted-Moves fuel m (omega (arith, length-Follows run, length-advance_lt l more))))
]

is_letter-zero : (c : ℕ) → is_letter c ≡ true → c ≢ 0
unfolding is_letter
is_letter-zero c h = ground arith

identifier-go :
    (l from : Lexer) (r : LexResult Lexer)
    → Follows (advance l) from
    → Moves from from r
    → Yields l (r >>= λ m. done (token_at l identifier (spelling l m), m))
identifier-go l from (done m) f h =
    (StandsAt-token_at l identifier (spelling l m), Follows-trans f h)
identifier-go l from (failed e) f h = FailsIn-trans (step f) h
identifier-go l from stuck f h = h

lex_identifier-Yields :
    (fuel : ℕ) (l : Lexer)
    → is_letter (peek 0 l) ≡ true
    → length l.rest < fuel
    → Yields l (lex_identifier fuel l)
unfolding lex_identifier
lex_identifier-Yields fuel l letter h =
    let more = not_end l (is_letter-zero (peek 0 l) letter) in
    let word : is_word (peek 0 l) ≡ true = rw letter in
    let run = advance_while-Follows is_word l more word in
    identifier-go l (advance_while is_word l) (dotted fuel (advance_while is_word l)) run (
      dotted-Moves fuel (advance_while is_word l)
        (omega (arith, length-Follows run, length-advance l)))

integer-go :
    (start l : Lexer)
    → Follows (advance start) l
    → Yields start (
        if is_int64 (spelling start l)
        then done (token_at start integer (spelling start l), l)
        else fail_at start (
            quoting "integer literal \""
              (spelling start l)
              "\" is not representable as a std::int64_t"))
integer-go start l f = elim (Bool-cases (is_int64 (spelling start l))) [
  | inl fits ↦ rw fits (StandsAt-token_at start integer (spelling start l), f)
  | inr wide ↦ rw wide (FailsIn-self start _)
]

lex_integer-Yields :
    (l : Lexer)
    → at_end l ≡ false
    → (peek 0 l == b'-' || is_digit (peek 0 l)) ≡ true
    → Yields l (lex_integer l)
unfolding lex_integer
lex_integer-Yields l more starts = elim (Bool-cases (peek 0 l == b'-')) [
  | inl minus ↦ rw minus (
      integer-go l (advance_while is_digit (advance l))
        (Follows-advance_by (run_length is_digit (advance l).rest) (advance l)))
  | inr digit ↦ rw digit (
      integer-go l (advance_while is_digit l)
        (advance_while-Follows is_digit l more (rw digit at starts)))
]

Moves-weaken :
    {start l : Lexer} (from : Lexer)
    → Follows start l
    → (r : LexResult Lexer) → Moves l from r
    → Moves start from r
Moves-weaken from f (done m) h = h
Moves-weaken from f (failed e) h = FailsIn-trans f h
Moves-weaken from f stuck h = h

Yields-Moves :
    (start from : Lexer) (r : LexResult Lexer) (f : Lexer → LexResult (Token × Lexer))
    → Moves start from r
    → ((m : Lexer) → Follows from m → Yields start (f m))
    → Yields start (r >>= f)
Yields-Moves start from (done m) f h next = next m h
Yields-Moves start from (failed e) f h next = h
Yields-Moves start from stuck f h next = h

abbrev Escapes : Lexer → Lexer → LexResult (ℕ × Lexer) → Type 0
Escapes start l (done (c, m)) = Follows (advance l) m
Escapes start l (failed e) = FailsIn start e
Escapes start l stuck = ⊥

Yields-Escapes :
    (start l : Lexer) (r : LexResult (ℕ × Lexer)) (f : ℕ × Lexer → LexResult (Token × Lexer))
    → Escapes start l r
    → ((c : ℕ) (m : Lexer) → Follows (advance l) m → Yields start (f (c, m)))
    → Yields start (r >>= f)
Yields-Escapes start l (done (c, m)) f h next = next c m h
Yields-Escapes start l (failed e) f h next = h
Yields-Escapes start l stuck f h next = h

escape-Escapes : (start l : Lexer) → Follows start l → Escapes start l (escape start l)
unfolding escape
escape-Escapes start l f = elim (Bool-cases (at_end (advance l))) [
  | inl ends ↦ rw ends (FailsIn-self start (plain "unterminated string literal"))
  | inr more ↦ elim (Option-cases (unescape (peek 0 (advance l)))) [
    | inl none_such ↦ rw (more, none_such) (FailsIn-trans f (FailsIn-self l _))
    | inr (c, e) ↦ rw (more, e) (step here)
  ]
]

string_body-Yields :
    (fuel : ℕ) (start : Lexer) (decoded : Bytes) (l : Lexer)
    → Follows (advance start) l
    → length l.rest < fuel
    → Yields start (string_body fuel start decoded l)
unfolding string_body
string_body-Yields zero start decoded l f h = absurd (omega arith)
string_body-Yields (suc fuel) start decoded l f h = elim (Bool-cases (at_end l)) [
  | inl ends ↦ rw ends (FailsIn-self start (plain "unterminated string literal"))
  | inr more ↦
      let shorter = length-advance_lt l more in
      elim (Bool-cases (peek 0 l == b'"')) [
        | inl quote ↦
            rw (more, quote) (StandsAt-token_at start string decoded, Follows-trans f (step here))
        | inr inside ↦ elim (Bool-cases (peek 0 l == b'\\')) [
          | inl backslash ↦
              rw (more, inside, backslash)
                (Yields-Escapes start l (escape start l)
                  (λ r. string_body fuel start (decoded ++ r.0 ∷ []) r.1)
                  (escape-Escapes start l (step f))
                  λ c m g.
                    string_body-Yields fuel start (decoded ++ c ∷ []) m (Follows-trans f (step g))
                      (omega (arith, length-Follows g)))
          | inr other ↦
              rw (more, inside, other)
                (Yields-Moves start (advance l)
                  (sequence "invalid UTF-8 sequence in string literal" l)
                  (λ m. string_body fuel start (decoded ++ spelling l m) m)
                  (Moves-weaken (advance l) (step f)
                    (sequence "invalid UTF-8 sequence in string literal" l)
                    (sequence-Moves "invalid UTF-8 sequence in string literal" l))
                  λ m g.
                    string_body-Yields fuel start (decoded ++ spelling l m) m
                      (Follows-trans f (step g)) (omega (arith, length-Follows g)))
        ]
      ]
]

Yields-fail_at : (l : Lexer) (message : Message) → Yields l (fail_at l message)
Yields-fail_at l message = FailsIn-self l message

Yields-emit : (k : TokenKind) (l : Lexer) → Yields l (emit k l)
Yields-emit k l = (StandsAt-token_at l k _, here)

Yields-emit_pair : (k : TokenKind) (l : Lexer) → Yields l (emit_pair k l)
Yields-emit_pair k l = (StandsAt-token_at l k _, step here)

Yields-if :
    (c : Bool) (l : Lexer) (r r' : LexResult (Token × Lexer))
    → Yields l r
    → (c ≡ false → Yields l r')
    → Yields l (if c then r else r')
Yields-if true l r r' h h' = h
Yields-if false l r r' h h' = h' refl

minus-Yields :
    (l : Lexer)
    → at_end l ≡ false
    → Yields l (
        if peek 0 l == b'-'
        then (if peek 1 l == b'>'
            then emit_pair arrow l
            else if is_digit (peek 1 l)
            then lex_integer l
            else fail_at l
                (plain "unexpected character '-': expected \"->\" or a signed integer literal"))
        else fail_at l (quoting "unexpected character '" (peek 0 l ∷ []) "'"))
minus-Yields l more = elim (Bool-cases (peek 0 l == b'-')) [
  | inr other ↦ rw other (Yields-fail_at l _)
  | inl minus ↦ rw minus (
      Yields-if (peek 1 l == b'>') l _ _ (Yields-emit_pair arrow l) λ _.
        Yields-if (is_digit (peek 1 l)) l _ _ (lex_integer-Yields l more (rw minus))
          λ _. Yields-fail_at l _)
]

lex_operator-Yields : (l : Lexer) → at_end l ≡ false → Yields l (lex_operator l)
unfolding lex_operator
lex_operator-Yields l more =
    Yields-if (peek 0 l == b'=') l _ _
      (Yields-if (peek 1 l == b'=') l _ _ (Yields-emit_pair equal_equal l) λ _. Yields-emit equal l)
      λ _.
        Yields-if (peek 0 l == b'!') l _ _
          (Yields-if (peek 1 l == b'=') l _ _ (Yields-emit_pair not_equal l)
            λ _. Yields-fail_at l _)
          λ _.
            Yields-if (peek 0 l == b'<') l _ _
              (Yields-if (peek 1 l == b'=') l _ _ (Yields-emit_pair less_equal l)
                λ _. Yields-emit less l)
              λ _.
                Yields-if (peek 0 l == b'>') l _ _
                  (Yields-if (peek 1 l == b'=') l _ _ (Yields-emit_pair greater_equal l)
                    λ _. Yields-emit greater l)
                  λ _. minus-Yields l more

lex_symbol-Yields :
    (fuel : ℕ) (l : Lexer) → at_end l ≡ false → length l.rest < fuel → Yields l (lex_symbol fuel l)
unfolding lex_symbol
lex_symbol-Yields fuel l more h =
    Yields-if (peek 0 l == b'"') l _ _
      (string_body-Yields fuel l [] (advance l) here (omega (arith, length-advance l)))
      λ _. Yields-if (peek 0 l == b'@') l _ _ (Yields-emit at l) λ _.
        Yields-if (peek 0 l == b'$') l _ _ (Yields-emit dollar l) λ _.
          Yields-if (peek 0 l == b'{') l _ _ (Yields-emit left_brace l) λ _.
            Yields-if (peek 0 l == b'}') l _ _ (Yields-emit right_brace l) λ _.
              Yields-if (peek 0 l == b'(') l _ _ (Yields-emit left_paren l) λ _.
                Yields-if (peek 0 l == b')') l _ _ (Yields-emit right_paren l) λ _.
                  Yields-if (peek 0 l == b'[') l _ _ (Yields-emit left_bracket l) λ _.
                    Yields-if (peek 0 l == b']') l _ _ (Yields-emit right_bracket l) λ _.
                      Yields-if (peek 0 l == b':') l _ _ (Yields-emit colon l) λ _.
                        Yields-if (peek 0 l == b';') l _ _ (Yields-emit semicolon l) λ _.
                          Yields-if (peek 0 l == b',') l _ _ (Yields-emit comma l)
                            λ _. lex_operator-Yields l more

pub lex_token-Yields :
    (fuel : ℕ) (l : Lexer) → at_end l ≡ false → length l.rest < fuel → Yields l (lex_token fuel l)
unfolding lex_token
lex_token-Yields fuel l more h = elim (Bool-cases (is_letter (peek 0 l))) [
  | inl letter ↦ rw letter (lex_identifier-Yields fuel l letter h)
  | inr n1 ↦ elim (Bool-cases (is_digit (peek 0 l))) [
    | inl digit ↦ rw (n1, digit) (lex_integer-Yields l more (rw digit ground arith))
    | inr n2 ↦
        rw (n1, n2)
          (Yields-if (leb 0x80 (peek 0 l)) l _ _
            (Yields-if (utf8_sequence_length l.rest == 0) l _ _ (Yields-fail_at l _)
              λ _. Yields-fail_at l _)
            λ _. lex_symbol-Yields fuel l more h)
  ]
]
