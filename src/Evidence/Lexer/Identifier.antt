-- ===== src/Evidence/Lexer/Identifier.antt =====
-- The lexer and the writer agree on what an identifier is.
pub mod Kinds
use veritas.Common.{
  ℕ, zero, suc, ◌+◌, ◌-◌, ◌≤◌, ◌<◌, Bool, true, false, ◌&&◌, ◌||◌, [], ◌∷◌, ◌++◌, Bytes, length,
  take, get_or, ◌==◌, ==_iff, ◌≡◌, refl, sym, ap, ◌∙◌, subst, inl, inr, Bool-cases, one_true,
  both_true, ◌↔◌, append-nil, arith,
}
use veritas.Common.Decimal.{is_digit}
use veritas.Evidence.Lexer.{
  Token, identifier, Lexer, LexResult, done, failed, stuck, ◌>>=◌, is_letter, is_word, peek,
  advance, advance_by, advance_while, run_length, dotted, lex_identifier, lex_token, spelling,
  token_at,
}
use veritas.Evidence.Lexer.Literal.Characters.{advance-rest, advance-cursor, take-all}
use veritas.Evidence.Lexer.Identifier.Kinds.{is_other, lex_token-Other}
use veritas.Evidence.Writer.{consume_segment, starts_with_letter, consume_segments, is_identifier}

starts_with_letter-get_or : (xs : Bytes) → is_letter (get_or xs 0 0) ≡ starts_with_letter xs
unfolding is_letter starts_with_letter
starts_with_letter-get_or [] = refl
starts_with_letter-get_or (x ∷ xs) = refl

-- From `l` to `m`, with `left` before `m`.
record Walked (l m : Lexer) (left : Bytes) : Type 0 where
  left_is : m.rest ≡ left
  count : m.cursor + length m.rest ≡ l.cursor + length l.rest

Walked-advance : (l : Lexer) (c : ℕ) (cs : Bytes) → l.rest ≡ c ∷ cs → Walked l (advance l) cs
Walked-advance l c cs e =
    let rest = advance-rest l c cs e in
    let cursor = advance-cursor l c cs e in
    record { left_is = rest; count = rw (rest, cursor, e) (omega arith) }

Walked-trans :
    {l m n : Lexer} {before left : Bytes} → Walked l m before → Walked m n left → Walked l n left
Walked-trans a b = record { left_is = b.left_is; count = b.count ∙ a.count }

advance_while-Walked :
    (xs : Bytes) (l : Lexer)
    → l.rest ≡ xs
    → Walked l (advance_by (run_length is_word xs) l) (consume_segment xs)
unfolding advance_by run_length consume_segment
advance_while-Walked [] l e = record { left_is = e; count = refl }
advance_while-Walked (c ∷ cs) l e = elim (Bool-cases (is_word c)) [
  | inl word ↦
      let one = Walked-advance l c cs e in
      rw word (Walked-trans one (advance_while-Walked cs (advance l) one.left_is))
  | inr other ↦ rw other (record { left_is = e; count = refl })
]

length-consume_segment : (xs : Bytes) → length (consume_segment xs) ≤ length xs
unfolding consume_segment
length-consume_segment [] = ground arith
length-consume_segment (c ∷ cs) =
    let further = length-consume_segment cs in
    elim (Bool-cases (is_word c)) [
      | inl word ↦ rw word (omega (arith, further))
      | inr other ↦ rw other (omega arith)
    ]

record Reads (fuel : ℕ) (l : Lexer) (left : Bytes) : Type 0 where
  end_state : Lexer
  reads : dotted fuel l ≡ done end_state
  walked : Walked l end_state left

dotted-Reads :
    (fuel n : ℕ) (xs : Bytes) (l : Lexer)
    → length xs < fuel
    → length xs ≤ n
    → l.rest ≡ xs
    → Reads fuel l (consume_segments n xs)
unfolding dotted consume_segments
dotted-Reads zero n xs l h h' e = absurd (omega arith)
dotted-Reads (suc fuel) zero [] l h h' e = record {
  end_state = l;
  reads = rw e refl;
  walked = record { left_is = e; count = refl };
}
dotted-Reads (suc fuel) (suc n) [] l h h' e = record {
  end_state = l;
  reads = rw e refl;
  walked = record { left_is = e; count = refl };
}
dotted-Reads (suc fuel) zero (c ∷ cs) l h h' e = absurd (omega arith)
dotted-Reads (suc fuel) (suc n) (c ∷ cs) l h h' e =
    let test : peek 0 l == b'.' && is_letter (peek 1 l) ≡ (c == b'.' && starts_with_letter cs) =
      rw e (ap (λ b. c == b'.' && b) (starts_with_letter-get_or cs)) in
    elim (Bool-cases (c == b'.' && starts_with_letter cs)) [
      | inl dot ↦
          let one = Walked-advance l c cs e in
          let segment = advance_while-Walked (advance l).rest (advance l) refl in
          let shorter = length-consume_segment cs in
          let further =
            dotted-Reads fuel n (consume_segment cs) (advance_while is_word (advance l))
              (omega arith) (omega arith) (segment.left_is ∙ ap consume_segment one.left_is) in
          rw dot (record {
            end_state = further.end_state;
            reads = rw (test, dot) further.reads;
            walked = Walked-trans one (Walked-trans segment further.walked);
          })
      | inr stops ↦ rw stops (record {
        end_state = l;
        reads = rw (test, stops) refl;
        walked = record { left_is = e; count = refl };
      })
    ]

nothing_left : (xs : Bytes) → length xs == 0 ≡ true → xs ≡ []
nothing_left [] h = refl
nothing_left (x ∷ xs) h = ground arith

-- The text behind the token.
abbrev behind : LexResult (Token × Lexer) → Bytes
behind (done (t, m)) = m.rest
behind (failed e) = []
behind stuck = []

-- What the lexer does at a letter.
module _ (fuel : ℕ) (l : Lexer) (c : ℕ) (cs : Bytes) (e : l.rest ≡ c ∷ cs)
    (enough : length l.rest < fuel) (letter : is_letter c ≡ true) where
  lex_token-letter :
      (m : Lexer) × (lex_token fuel l ≡ done (token_at l identifier (spelling l m), m))
      × Walked l m (consume_segments (length cs) (consume_segment cs))
  unfolding lex_token lex_identifier consume_segment
  lex_token-letter =
      let first : is_letter (peek 0 l) ≡ true = rw e letter in
      let run = advance_while-Walked l.rest l refl in
      let begins : consume_segment l.rest ≡ consume_segment cs = rw (e, letter) refl in
      let shorter = length-consume_segment cs in
      let size = ap length e in
      let r =
        dotted-Reads fuel (length cs) (consume_segment cs) (advance_while is_word l) (omega arith)
          shorter (run.left_is ∙ begins) in
      (r.end_state, rw (first, r.reads) refl, Walked-trans run r.walked)

  -- A state at which all the text was read has moved over all of it.
  spelling-all : (m : Lexer) → m.rest ≡ [] → Walked l m m.rest → spelling l m ≡ l.rest
  spelling-all m ends w =
      let count = w.count in
      let none_left = ap length ends in
      let moved : m.cursor - l.cursor ≡ length l.rest = omega (arith, count, none_left) in
      ap (λ n. take n l.rest) moved
      ∙ ap (take (length l.rest)) (sym (append-nil l.rest))
      ∙ take-all l.rest []

-- The whole text before the lexer is one identifier token.
abbrev pub IsOneIdentifier : ℕ → Lexer → Type 0
IsOneIdentifier fuel l =
    (m : Lexer) × (lex_token fuel l ≡ done (token_at l identifier l.rest, m)) × (m.rest ≡ [])

is_identifier-read :
    (fuel : ℕ) (l : Lexer) (xs : Bytes)
    → l.rest ≡ xs
    → length l.rest < fuel
    → is_identifier xs ≡ true
    → IsOneIdentifier fuel l
unfolding is_identifier
is_identifier-read fuel l [] e enough h = cc h
is_identifier-read fuel l (c ∷ cs) e enough h =
    let (letter, all) = both_true (is_letter c) _ h in
    let (m, reads, w) = lex_token-letter fuel l c cs e enough letter in
    let ends = w.left_is ∙ nothing_left _ all in
    let whole =
      spelling-all fuel l c cs e enough letter m ends
        (record { left_is = refl; count = w.count }) in
    (m, reads ∙ ap (λ t. done (token_at l identifier t, m)) whole, ends)

letter_zero : is_letter 0 ≡ false
unfolding is_letter
letter_zero = refl

is_identifier-accepted :
    (fuel : ℕ) (l : Lexer) (xs : Bytes)
    → l.rest ≡ xs
    → length l.rest < fuel
    → IsOneIdentifier fuel l
    → is_identifier xs ≡ true
unfolding is_identifier
is_identifier-accepted fuel l xs e enough (m, reads, ends) =
    elim (Bool-cases (is_letter (peek 0 l))) [
      | inr no_letter ↦
          let none_such = (lex_token-Other fuel l no_letter).holds in
          cc (sym (ap is_other reads) ∙ none_such)
      | inl letter ↦ accepted xs e letter
    ]
  where
    accepted : (ys : Bytes) → l.rest ≡ ys → is_letter (peek 0 l) ≡ true → is_identifier ys ≡ true
    accepted [] e' letter =
        cc (sym letter_zero ∙ subst (λ t. is_letter (get_or t 0 0) ≡ true) e' letter)
    accepted (c ∷ cs) e' letter =
        let first : is_letter c ≡ true = subst (λ t. is_letter (get_or t 0 0) ≡ true) e' letter in
        let (n, again, w) = lex_token-letter fuel l c cs e' enough first in
        let none_left = sym w.left_is ∙ sym (ap behind again) ∙ ap behind reads ∙ ends in
        rw (first, none_left) refl

-- The writer's test for identifiers accepts a text exactly if the lexer, standing before that text
-- with nothing behind it and with more fuel than its length, reads it as one identifier token that
-- spells it and stops at its end.
pub is_identifier_iff :
    (fuel : ℕ) (l : Lexer)
    → length l.rest < fuel
    → (is_identifier l.rest ≡ true) ↔ IsOneIdentifier fuel l
is_identifier_iff fuel l enough =
    (is_identifier-read fuel l l.rest refl enough, is_identifier-accepted fuel l l.rest refl enough)
