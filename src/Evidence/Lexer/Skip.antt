-- ===== src/Evidence/Lexer/Skip.antt =====
-- Comments and blanks: the loops end within their fuel, and errors stand at a state passed by.
use veritas.Common.{
  ℕ, zero, suc, ◌<◌, false, ◌&&◌, length, ◌==◌, if◌then◌else◌, ◌≡◌, refl, arith, Bool-cases, inl,
  inr,
}
use Prim.Native.String.{String}
use veritas.Evidence.Utf8.{utf8_sequence_length}
use veritas.Evidence.Lexer.{
  Lexer, LexResult, done, failed, stuck, ParseError, Message, plain, fail_at, at_end, column, peek,
  advance, advance_by, ◌>>=◌, sequence, line_comment, block_comment, is_space, skip,
}
use veritas.Evidence.Lexer.Walk.{
  Follows, here, step, Follows-trans, Follows-advance_by, length-advance, length-advance_lt,
  length-Follows,
}

-- The position of an error is that of a state that follows `l`.
pub record FailsIn (l : Lexer) (e : ParseError) : Type 0 where
  pub state : Lexer
  pub reached : Follows l state
  pub offset_is : e.offset ≡ state.cursor
  pub line_is : e.line ≡ state.line
  pub column_is : e.column ≡ column state

pub FailsIn-trans : {l m : Lexer} {e : ParseError} → Follows l m → FailsIn m e → FailsIn l e
FailsIn-trans f x = record {
  state = x.state;
  reached = Follows-trans f x.reached;
  offset_is = x.offset_is;
  line_is = x.line_is;
  column_is = x.column_is;
}

pub FailsIn-self :
    (l : Lexer) (message : Message)
    → FailsIn l (record { offset = l.cursor; line = l.line; column = column l; message = message })
FailsIn-self l message = record {
  state = l;
  reached = here;
  offset_is = refl;
  line_is = refl;
  column_is = refl;
}

-- The result is a state that follows `from`, or an error at a state that follows `l`.
abbrev pub Moves : Lexer → Lexer → LexResult Lexer → Type 0
Moves l from (done m) = Follows from m
Moves l from (failed e) = FailsIn l e
Moves l from stuck = ⊥

pub Moves-bind :
    (k j l from : Lexer) (r : LexResult Lexer) (f : Lexer → LexResult Lexer)
    → Follows k l
    → Moves l from r
    → ((m : Lexer) → Follows from m → Moves k j (f m))
    → Moves k j (r >>= f)
Moves-bind k j l from (done m) f p h next = next m h
Moves-bind k j l from (failed e) f p h next = FailsIn-trans p h
Moves-bind k j l from stuck f p h next = h

pub Moves-trans : {l m : Lexer} (r : LexResult Lexer) → Follows l m → Moves m m r → Moves l l r
Moves-trans (done n) f h = Follows-trans f h
Moves-trans (failed e) f h = FailsIn-trans f h
Moves-trans stuck f h = h

sequence_go :
    (message : String) (l : Lexer) (n : ℕ)
    → Moves l (advance l) (if n == 0 then fail_at l (plain message) else done (advance_by n l))
unfolding advance_by
sequence_go message l zero = FailsIn-self l (plain message)
sequence_go message l (suc n) =
    let some_byte : suc n == 0 ≡ false = ground arith in
    rw some_byte (Follows-advance_by n (advance l))

-- A well-formed sequence has at least one byte.
pub sequence-Moves : (message : String) (l : Lexer) → Moves l (advance l) (sequence message l)
unfolding sequence
sequence-Moves message l = sequence_go message l (utf8_sequence_length l.rest)

line_comment-Moves : (fuel : ℕ) (l : Lexer) → length l.rest < fuel → Moves l l (line_comment fuel l)
unfolding line_comment
line_comment-Moves zero l h = absurd (omega arith)
line_comment-Moves (suc fuel) l h = elim (Bool-cases (at_end l)) [
  | inl ends ↦ rw ends here
  | inr more ↦ elim (Bool-cases (peek 0 l == b'\n')) [
    | inl newline ↦ rw (more, newline) here
    | inr other ↦
        rw (more, other)
          (Moves-bind l l l (advance l) (sequence "invalid UTF-8 sequence in comment" l)
            (line_comment fuel) here (sequence-Moves "invalid UTF-8 sequence in comment" l)
            λ m f. Moves-trans (line_comment fuel m) (step f) (
              line_comment-Moves fuel m
                (omega (arith, length-Follows f, length-advance_lt l more))))
  ]
]

Moves-from :
    (k : Lexer) {l m : Lexer} (r : LexResult Lexer) → Follows l m → Moves k m r → Moves k l r
Moves-from k (done n) f h = Follows-trans f h
Moves-from k (failed e) f h = h
Moves-from k stuck f h = h

block_comment-Moves :
    (fuel : ℕ) (start l : Lexer)
    → Follows start l
    → length l.rest < fuel
    → Moves start l (block_comment fuel start l)
unfolding block_comment
block_comment-Moves zero start l f h = absurd (omega arith)
block_comment-Moves (suc fuel) start l f h = elim (Bool-cases (at_end l)) [
  | inl ends ↦ rw ends (FailsIn-self start (plain "unterminated block comment"))
  | inr more ↦ elim (Bool-cases (peek 0 l == b'*' && peek 1 l == b'/')) [
    | inl closes ↦ rw (more, closes) (step (step here))
    | inr other ↦
        rw (more, other)
          (Moves-bind start l l (advance l) (sequence "invalid UTF-8 sequence in comment" l)
            (block_comment fuel start) f (sequence-Moves "invalid UTF-8 sequence in comment" l)
            λ m g. Moves-from start (block_comment fuel start m) (step g) (
              block_comment-Moves fuel start m (Follows-trans f (step g))
                (omega (arith, length-Follows g, length-advance_lt l more))))
  ]
]

-- `SkipWhitespaceAndComments` ends within its fuel.
pub skip-Moves : (fuel : ℕ) (l : Lexer) → length l.rest < fuel → Moves l l (skip fuel l)
unfolding skip
skip-Moves zero l h = absurd (omega arith)
skip-Moves (suc fuel) l h = elim (Bool-cases (at_end l)) [
  | inl ends ↦ rw ends here
  | inr more ↦
      let next = advance l in
      let shorter = length-advance_lt l more in
      let after = advance next in
      let shorter' = length-advance next in
      elim (Bool-cases (is_space (peek 0 l))) [
        | inl blank ↦
            rw (more, blank)
              (Moves-trans (skip fuel next) (step here) (skip-Moves fuel next (omega arith)))
        | inr solid ↦ elim (Bool-cases (peek 0 l == b'/')) [
          | inr other ↦ rw (more, solid, other) here
          | inl slash ↦ elim (Bool-cases (peek 1 l == b'/')) [
            | inl line ↦
                rw (more, solid, slash, line)
                  (Moves-bind l l after after (line_comment fuel after) (skip fuel)
                    (step (step here)) (line_comment-Moves fuel after (omega arith))
                    λ m g.
                      Moves-trans (skip fuel m) (step (step g))
                        (skip-Moves fuel m (omega (arith, length-Follows g))))
            | inr other ↦ elim (Bool-cases (peek 1 l == b'*')) [
              | inl block ↦
                  rw (more, solid, slash, other, block)
                    (Moves-bind l l l after (block_comment fuel l after) (skip fuel) here
                      (block_comment-Moves fuel l after (step (step here)) (omega arith))
                      λ m g.
                        Moves-trans (skip fuel m) (step (step g))
                          (skip-Moves fuel m (omega (arith, length-Follows g))))
              | inr lone ↦ rw (more, solid, slash, other, lone) here
            ]
          ]
        ]
      ]
]
