-- ===== src/Evidence/Lexer/Positions.antt =====
-- `Tokenize` ends, and every token and every error stands at its place in the source.
use veritas.Common.{
  ℕ, zero, suc, ◌+◌, ◌≤◌, ◌<◌, true, false, List, [], ◌∷◌, ◌++◌, Bytes, length, ◌≡◌, refl, ap, ◌∙◌,
  arith, Bool-cases, List-cases, inl, inr, length-append,
}
use veritas.Evidence.Lexer.{
  Token, end, Lexer, LexResult, done, failed, stuck, initial, at_end, column, ◌>>=◌, skip,
  lex_token, tokens_from, tokenize,
}
use veritas.Evidence.Lexer.Walk.{
  Follows, step, length-advance_lt, length-Follows, newlines, since_newline, Reached,
  Reached-Follows,
}
use veritas.Evidence.Lexer.Skip.{Moves, skip-Moves}
use veritas.Evidence.Lexer.Yields.{Yields, lex_token-Yields}

-- The offset, the line and the column (both from 1) of a place between two bytes of the source.
pub record IsPlace (source : Bytes) (offset line column : ℕ) : Type 0 where
  pub before : Bytes
  pub behind : Bytes
  pub splits : source ≡ before ++ behind
  pub offset_is : offset ≡ length before
  pub line_is : line ≡ newlines 1 before
  pub column_is : column ≡ since_newline 0 before + 1

-- The tokens from the offset `n` on: each stands at its place, behind the first byte of the one
-- before it, and the last is the only one at the end of the source and is `end`.
pub data Placed (source : Bytes) : ℕ → List Token → Type 0 where
  last :
      {n : ℕ} {t : Token}
      → t.kind ≡ end
      → IsPlace source t.offset t.line t.column
      → t.offset ≡ length source
      → n ≤ t.offset
      → Placed source n (t ∷ [])
  further :
      {n : ℕ} {t : Token} {ts : List Token}
      → IsPlace source t.offset t.line t.column
      → n ≤ t.offset
      → t.offset < length source
      → Placed source (t.offset + 1) ts
      → Placed source n (t ∷ ts)

-- The result of `Tokenize` is a list of placed tokens or an error at a place of the source.
pub Lexes : Bytes → ℕ → LexResult (List Token) → Type 0
Lexes source n (done ts) = Placed source n ts
Lexes source n (failed e) = IsPlace source e.offset e.line e.column
Lexes source n stuck = ⊥

IsPlace-of :
    {source : Bytes} {l : Lexer} {offset line col : ℕ}
    → Reached source l
    → offset ≡ l.cursor
    → line ≡ l.line
    → col ≡ column l
    → IsPlace source offset line col
IsPlace-of {l} r o n c = record {
  before = r.read;
  behind = l.rest;
  splits = r.splits;
  offset_is = o ∙ r.cursor_is;
  line_is = n ∙ r.line_is;
  column_is = c ∙ ap (λ k. k + 1) r.column_is;
}

cursor-rest :
    {source : Bytes} {l : Lexer} → Reached source l → l.cursor + length l.rest ≡ length source
cursor-rest {l} r = omega (arith, r.cursor_is, ap length r.splits, length-append r.read l.rest)

at_end-length : (l : Lexer) → at_end l ≡ true → length l.rest ≡ 0
at_end-length l h = elim (List-cases l.rest) [
  | inl empty ↦ ap length empty
  | inr (c, cs, e) ↦ cc (rw e at h)
]

Lexes-done :
    (source : Bytes) (n : ℕ) (t : Token) (r : LexResult (List Token))
    → IsPlace source t.offset t.line t.column
    → n ≤ t.offset
    → t.offset < length source
    → Lexes source (t.offset + 1) r
    → Lexes source n (r >>= λ ts. done (t ∷ ts))
unfolding Lexes
Lexes-done source n t (done ts) p h h' rest = further p h h' rest
Lexes-done source n t (failed e) p h h' rest = rest
Lexes-done source n t stuck p h h' rest = rest

Lexes-earlier :
    (source : Bytes) (n n' : ℕ) (r : LexResult (List Token))
    → n ≤ n'
    → Lexes source n' r
    → Lexes source n r
unfolding Lexes
Lexes-earlier source n n' (done _) le (last k p e h) = last k p e (omega arith)
Lexes-earlier source n n' (done _) le (further p h h' ts) = further p (omega arith) h' ts
Lexes-earlier source n n' (failed e) le p = p
Lexes-earlier source n n' stuck le p = p

Lexes-skip :
    (source : Bytes) (l : Lexer) (r : LexResult Lexer) (f : Lexer → LexResult (List Token))
    → Reached source l
    → Moves l l r
    → ((m : Lexer) → Follows l m → Lexes source l.cursor (f m))
    → Lexes source l.cursor (r >>= f)
unfolding Lexes
Lexes-skip source l (done m) f reached h next = next m h
Lexes-skip source l (failed e) f reached h next =
    IsPlace-of (Reached-Follows reached h.reached) h.offset_is h.line_is h.column_is
Lexes-skip source l stuck f reached h next = h

Lexes-token :
    (source : Bytes) (n : ℕ) (l : Lexer) (r : LexResult (Token × Lexer))
    (f : Lexer → LexResult (List Token))
    → Reached source l
    → at_end l ≡ false
    → n ≤ l.cursor
    → Yields l r
    → ((m : Lexer) → Follows l m → l.cursor + 1 ≤ m.cursor → Lexes source m.cursor (f m))
    → Lexes source n (r >>= λ r. f r.1 >>= λ ts. done (r.0 ∷ ts))
unfolding Lexes
Lexes-token source n l (done (t, m)) f reached more h y next =
    let here_ = cursor-rest reached in
    let behind = Reached-Follows reached (step y.1) in
    let size = cursor-rest behind in
    let before_end = length-advance_lt l more in
    let later : l.cursor + 1 ≤ m.cursor =
      omega (arith, here_, size, before_end, length-Follows y.1) in
    Lexes-done source n t (f m) (IsPlace-of reached y.0.offset_is y.0.line_is y.0.column_is)
      (omega (arith, y.0.offset_is)) (omega (arith, y.0.offset_is, here_, before_end))
      (Lexes-earlier source (t.offset + 1) m.cursor (f m) (omega (arith, y.0.offset_is))
        (next m (step y.1) later))
Lexes-token source n l (failed e) f reached more h y next =
    IsPlace-of (Reached-Follows reached y.reached) y.offset_is y.line_is y.column_is
Lexes-token source n l stuck f reached more h y next = y

tokens_from-Lexes :
    (fuel : ℕ) (source : Bytes) (l : Lexer)
    → Reached source l
    → length l.rest + 1 < fuel
    → Lexes source l.cursor (tokens_from fuel l)
unfolding tokens_from Lexes
tokens_from-Lexes zero source l reached h = absurd (omega arith)
tokens_from-Lexes (suc fuel) source l reached h =
    Lexes-skip source l (skip fuel l) _ reached (skip-Moves fuel l (omega arith)) λ m f.
      let reached' = Reached-Follows reached f in
      let size = cursor-rest reached in
      let size' = cursor-rest reached' in
      let le : l.cursor ≤ m.cursor = omega (arith, size, size', length-Follows f) in
      elim (Bool-cases (at_end m)) [
        | inl ends ↦ rw ends (
            last refl (IsPlace-of reached' refl refl refl)
              (omega (arith, size', at_end-length m ends)) le)
        | inr more ↦ rw more (
            Lexes-token source l.cursor m (lex_token fuel m) (tokens_from fuel) reached' more le
              (lex_token-Yields fuel m more (omega (arith, length-Follows f)))
              λ k g later.
                tokens_from-Lexes fuel source k (Reached-Follows reached' g) (
                  omega (arith, length-Follows f, size', cursor-rest (Reached-Follows reached' g))))
      ]

Reached-initial : (source : Bytes) → Reached source (initial source)
Reached-initial source = record {
  read = [];
  splits = refl;
  cursor_is = refl;
  line_is = refl;
  column_is = refl;
  start_le = omega arith;
}

-- For every text, `Tokenize` ends (the model does not run out of fuel), with the tokens or with an
-- error. The offset, line and column of an error are those of one place of the text: the offset is
-- the number of bytes before it, the line one more than the number of newlines before it, the
-- column one more than the number of bytes since the last of these. The same holds of every token;
-- the offsets of the tokens grow, and the last token, the only one at the end of the text, is
-- `end`.
pub tokenize-Lexes : (source : Bytes) → Lexes source 0 (tokenize source)
unfolding tokenize
tokenize-Lexes source =
    tokens_from-Lexes (length source + 3) source (initial source) (Reached-initial source)
      (omega arith)
