-- ===== src/Evidence/Lexer/Literal.antt =====
-- The lexer reads a written string literal as the string it was written for.
pub mod Characters
use veritas.Common.{
  ℕ, zero, suc, ◌+◌, ◌/◌, ◌%◌, ◌≤◌, ◌<◌, Bool, true, false, ◌||◌, List, [], ◌∷◌, ◌++◌, Bytes,
  length, take, All, ◌==◌, ==_iff, ltb, some, ◌≡◌, refl, sym, ap, ◌∙◌, subst, inl, inr, Bool-cases,
  one_true, append_assoc, append-nil, arith,
}
use veritas.Evidence.Utf8.{
  utf8_sequence_length, is_scalar, encode_utf8, utf8_sequence_length-encode_utf8,
}
use veritas.Evidence.Lexer.{
  string, Lexer, done, at_end, peek, advance, advance_by, spelling, token_at, sequence, unescape,
  escape, string_body, is_letter, lex_symbol, lex_token,
}
use veritas.Evidence.Writer.{escape_byte, escape_text, string_literal}
use veritas.Evidence.Lexer.Literal.Characters.{
  advance-rest, advance_by-append, is_escaped, take-all, First, First-plain, escape_text-plain,
  Escape, is_escaped-Escape, escape_text-append,
}

suc_not_zero : (n : ℕ) → suc n == 0 ≡ false
suc_not_zero n = ground arith

module _ (fuel : ℕ) (start : Lexer) (decoded : Bytes) (l : Lexer) (more : Bytes) where
  -- A character that is written as it is.
  string_body-plain :
      (cp : ℕ)
      → is_scalar cp ≡ true
      → is_escaped cp ≡ false
      → l.rest ≡ encode_utf8 cp ++ more
      → string_body (suc fuel) start decoded l
        ≡ string_body fuel start
            (decoded ++ encode_utf8 cp)
            (advance_by (length (encode_utf8 cp)) l)
  unfolding string_body sequence
  string_body-plain cp scalar h e =
      let f = First-plain cp h in
      let shown : l.rest ≡ f.byte ∷ (f.others ++ more) = e ∙ ap (λ t. t ++ more) f.begins in
      let inside : at_end l ≡ false = rw shown refl in
      let first : peek 0 l ≡ f.byte = rw shown refl in
      let quote : peek 0 l == b'"' ≡ false = ap (λ c. c == b'"') first ∙ f.no_quote in
      let backslash : peek 0 l == b'\\' ≡ false = ap (λ c. c == b'\\') first ∙ f.no_backslash in
      let size : utf8_sequence_length l.rest ≡ length (encode_utf8 cp) =
        ap utf8_sequence_length e ∙ utf8_sequence_length-encode_utf8 cp more scalar in
      let some_bytes : length (encode_utf8 cp) == 0 ≡ false =
        ap (λ t. length t == 0) f.begins ∙ suc_not_zero (length f.others) in
      let moved = (advance_by-append (encode_utf8 cp) more l e).1 in
      let spelled : spelling l (advance_by (length (encode_utf8 cp)) l) ≡ encode_utf8 cp =
        ap (λ n. take n l.rest) (omega (arith, moved))
        ∙ ap (take (length (encode_utf8 cp))) e
        ∙ take-all (encode_utf8 cp) more in
      rw (inside, quote, backslash, size, some_bytes)
        (ap (λ t. string_body fuel start (decoded ++ t) (advance_by (length (encode_utf8 cp)) l))
          spelled)

  -- A character that is written as an escape.
  string_body-escaped :
      (letter cp : ℕ)
      → unescape letter ≡ some cp
      → l.rest ≡ b'\\' ∷ letter ∷ more
      → string_body (suc fuel) start decoded l
        ≡ string_body fuel start (decoded ++ cp ∷ []) (advance (advance l))
  unfolding string_body escape
  string_body-escaped letter cp read e =
      let behind = advance-rest l b'\\' (letter ∷ more) e in
      let inside : at_end l ≡ false = rw e refl in
      let quote : peek 0 l == b'"' ≡ false = rw e refl in
      let backslash : peek 0 l == b'\\' ≡ true = rw e refl in
      let open_still : at_end (advance l) ≡ false = rw behind refl in
      let second : peek 0 (advance l) ≡ letter = rw behind refl in
      let meaning : unescape (peek 0 (advance l)) ≡ some cp = ap unescape second ∙ read in
      rw (inside, quote, backslash, open_still, meaning) refl

-- The UTF-8 text of some characters.
abbrev pub text_of : List ℕ → Bytes
text_of [] = []
text_of (cp ∷ cps) = encode_utf8 cp ++ text_of cps

-- What is left of the literal behind its first character.
abbrev behind : List ℕ → Bytes → Bytes
behind cps after = escape_text (text_of cps) ++ b'"' ∷ after

behind-cons :
    (cp : ℕ) (cps : List ℕ) (after : Bytes)
    → behind (cp ∷ cps) after ≡ escape_text (encode_utf8 cp) ++ behind cps after
behind-cons cp cps after =
    ap (λ t. t ++ b'"' ∷ after) (escape_text-append (encode_utf8 cp) (text_of cps))
    ∙ append_assoc (escape_text (encode_utf8 cp)) (escape_text (text_of cps)) (b'"' ∷ after)

record ReadsLiteral (fuel : ℕ) (start : Lexer) (decoded : Bytes) (l : Lexer) (cps : List ℕ)
    (after : Bytes) : Type 0 where
  end_state : Lexer
  reads :
      string_body fuel start decoded l
      ≡ done (token_at start string (decoded ++ text_of cps), end_state)
  left : end_state.rest ≡ after

ReadsLiteral-step :
    (fuel : ℕ) (start : Lexer) (decoded : Bytes) (l m : Lexer) (cp : ℕ) (cps : List ℕ)
    (after : Bytes)
    → string_body (suc fuel) start decoded l ≡ string_body fuel start (decoded ++ encode_utf8 cp) m
    → ReadsLiteral fuel start (decoded ++ encode_utf8 cp) m cps after
    → ReadsLiteral (suc fuel) start decoded l (cp ∷ cps) after
ReadsLiteral-step fuel start decoded l m cp cps after one r = record {
  end_state = r.end_state;
  reads =
      one
      ∙ r.reads
      ∙ ap (λ t. done (token_at start string t, r.end_state))
          (append_assoc decoded (encode_utf8 cp) (text_of cps));
  left = r.left;
}

string_body-ReadsLiteral :
    (fuel : ℕ) (start : Lexer) (cps : List ℕ) (decoded : Bytes) (l : Lexer) (after : Bytes)
    → All (λ cp. is_scalar cp ≡ true) cps
    → length cps < fuel
    → l.rest ≡ behind cps after
    → ReadsLiteral fuel start decoded l cps after
unfolding string_body escape_text
string_body-ReadsLiteral zero start cps decoded l after scalars enough e = absurd (omega arith)
string_body-ReadsLiteral (suc fuel) start [] decoded l after scalars enough e =
    let inside : at_end l ≡ false = rw e refl in
    let quote : peek 0 l == b'"' ≡ true = rw e refl in
    record {
      end_state = advance l;
      reads =
          rw (inside, quote)
            (ap (λ t. done (token_at start string t, advance l)) (sym (append-nil decoded)));
      left = advance-rest l b'"' after e;
    }
string_body-ReadsLiteral (suc fuel) start (cp ∷ cps) decoded l after (scalar, scalars) enough e =
    elim (Bool-cases (is_escaped cp)) [
      | inl special ↦
          let c = is_escaped-Escape cp special in
          let rest : l.rest ≡ b'\\' ∷ c.letter ∷ behind cps after =
            e
            ∙ behind-cons cp cps after
            ∙ ap (λ t. t ++ behind cps after) (ap escape_text c.one_byte ∙ c.written_as) in
          let one = advance-rest l b'\\' (c.letter ∷ behind cps after) rest in
          let two = advance-rest (advance l) c.letter (behind cps after) one in
          let further =
            string_body-ReadsLiteral fuel start cps (decoded ++ encode_utf8 cp)
              (advance (advance l)) after scalars (omega arith) two in
          ReadsLiteral-step fuel start decoded l (advance (advance l)) cp cps after
            (string_body-escaped fuel start decoded l (behind cps after) c.letter cp c.means rest
              ∙ ap (λ t. string_body fuel start (decoded ++ t) (advance (advance l)))
                  (sym c.one_byte))
            further
      | inr plain ↦
          let rest : l.rest ≡ encode_utf8 cp ++ behind cps after =
            e
            ∙ behind-cons cp cps after
            ∙ ap (λ t. t ++ behind cps after) (escape_text-plain cp plain) in
          let next_state = advance_by (length (encode_utf8 cp)) l in
          let further =
            string_body-ReadsLiteral fuel start cps (decoded ++ encode_utf8 cp) next_state after
              scalars (omega arith)
              (advance_by-append (encode_utf8 cp) (behind cps after) l rest).0 in
          ReadsLiteral-step fuel start decoded l next_state cp cps after
            (string_body-plain fuel start decoded l (behind cps after) cp scalar plain rest) further
    ]

-- From a state that has a written literal before it, with any text behind, the lexer reads a string
-- token of the string the literal was written for, and stops behind the literal. The string is the
-- UTF-8 text of scalar values, and the fuel is more than their number.
pub lex_token-string_literal :
    (fuel : ℕ) (cps : List ℕ) (l : Lexer) (after : Bytes)
    → All (λ cp. is_scalar cp ≡ true) cps
    → length cps < fuel
    → l.rest ≡ string_literal (text_of cps) ++ after
    → (end_state : Lexer) × (lex_token fuel l ≡ done (token_at l string (text_of cps), end_state))
      × (end_state.rest ≡ after)
unfolding lex_token lex_symbol is_letter string_literal
lex_token-string_literal fuel cps l after scalars enough e =
    let shown : l.rest ≡ b'"' ∷ behind cps after =
      e ∙ ap (λ t. b'"' ∷ t) (append_assoc (escape_text (text_of cps)) (b'"' ∷ []) after) in
    let first : peek 0 l ≡ b'"' = rw shown refl in
    let r =
      string_body-ReadsLiteral fuel l cps [] (advance l) after scalars enough
        (advance-rest l b'"' (behind cps after) shown) in
    (r.end_state, rw first r.reads, r.left)
