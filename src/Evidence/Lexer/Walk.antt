-- ===== src/Evidence/Lexer/Walk.antt =====
-- How the lexer moves: every state it reaches follows another by calls of `Advance`.
use veritas.Common.{
  ℕ, zero, suc, ◌+◌, ◌-◌, ◌≤◌, ◌<◌, false, [], ◌∷◌, ◌++◌, Bytes, length, ◌==◌, if◌then◌else◌, ◌≡◌,
  ◌≢◌, refl, sym, ap, ◌∙◌, arith, Bool-cases, List-cases, inl, inr, append_assoc, length-append,
}
use veritas.Evidence.Lexer.{Lexer, at_end, peek, advance, advance_by}

pub data Follows : Lexer → Lexer → Type 0 where
  here : {l : Lexer} → Follows l l
  step : {l m : Lexer} → Follows (advance l) m → Follows l m

pub Follows-trans : {l m n : Lexer} → Follows l m → Follows m n → Follows l n
Follows-trans here g = g
Follows-trans (step f) g = step (Follows-trans f g)

pub Follows-advance_by : (k : ℕ) (l : Lexer) → Follows l (advance_by k l)
unfolding advance_by
Follows-advance_by zero l = here
Follows-advance_by (suc k) l = step (Follows-advance_by k (advance l))

pub length-advance : (l : Lexer) → length (advance l).rest ≤ length l.rest
unfolding advance
length-advance l = elim (List-cases l.rest) [
  | inl empty ↦ rw (empty, advance) (omega (arith, ap length empty))
  | inr (c, cs, e) ↦ elim (Bool-cases (c == b'\n')) [
    | inl newline ↦ rw (e, newline, advance) (omega arith)
    | inr other ↦ rw (e, other, advance) (omega arith)
  ]
]

-- Before the end a byte is consumed.
pub length-advance_lt : (l : Lexer) → at_end l ≡ false → length (advance l).rest < length l.rest
unfolding advance
length-advance_lt l h = elim (List-cases l.rest) [
  | inl empty ↦ cc (rw empty at h)
  | inr (c, cs, e) ↦ elim (Bool-cases (c == b'\n')) [
    | inl newline ↦ rw (e, newline, advance) (omega arith)
    | inr other ↦ rw (e, other, advance) (omega arith)
  ]
]

pub length-Follows : {l m : Lexer} → Follows l m → length m.rest ≤ length l.rest
length-Follows here = omega arith
length-Follows (step {l} f) = omega (arith, length-Follows f, length-advance l)

-- A character other than '\0' under the cursor: the end is not reached.
pub not_end : (l : Lexer) → peek 0 l ≢ 0 → at_end l ≡ false
not_end l h = elim (List-cases l.rest) [ inl empty ↦ absurd (h (rw empty)) | inr (c, cs, e) ↦ rw e ]

-- The number of bytes behind the last newline, and of the newlines.
abbrev pub since_newline : ℕ → Bytes → ℕ
since_newline n [] = n
since_newline n (c ∷ cs) = since_newline (if c == b'\n' then 0 else n + 1) cs

abbrev pub newlines : ℕ → Bytes → ℕ
newlines n [] = n
newlines n (c ∷ cs) = newlines (if c == b'\n' then n + 1 else n) cs

-- The state has read `read` of the source, and knows its place in it.
pub record Reached (source : Bytes) (l : Lexer) : Type 0 where
  pub read : Bytes
  pub splits : source ≡ read ++ l.rest
  pub cursor_is : l.cursor ≡ length read
  pub line_is : l.line ≡ newlines 1 read
  pub column_is : l.cursor - l.line_start ≡ since_newline 0 read
  pub start_le : l.line_start ≤ l.cursor

since_newline-append :
    (n : ℕ) (xs ys : Bytes) → since_newline n (xs ++ ys) ≡ since_newline (since_newline n xs) ys
since_newline-append n [] ys = refl
since_newline-append n (x ∷ xs) ys = since_newline-append (if x == b'\n' then 0 else n + 1) xs ys

newlines-append : (n : ℕ) (xs ys : Bytes) → newlines n (xs ++ ys) ≡ newlines (newlines n xs) ys
newlines-append n [] ys = refl
newlines-append n (x ∷ xs) ys = newlines-append (if x == b'\n' then n + 1 else n) xs ys

Reached-advance : {source : Bytes} (l : Lexer) → Reached source l → Reached source (advance l)
unfolding advance
Reached-advance l r = elim (List-cases l.rest) [
  | inl empty ↦ rw (empty, advance) r
  | inr (c, cs, e) ↦
      let split = r.splits ∙ ap (◌++◌ r.read) e ∙ sym (append_assoc r.read (c ∷ []) cs) in
      let size : l.cursor + 1 ≡ length (r.read ++ c ∷ []) =
        omega (arith, r.cursor_is, length-append r.read (c ∷ [])) in
      elim (Bool-cases (c == b'\n')) [
        | inl newline ↦
            rw (e, newline, advance)
              (record {
                read = r.read ++ c ∷ [];
                splits = split;
                cursor_is = size;
                line_is =
                    ap (λ n. n + 1) r.line_is
                    ∙ sym (newlines-append 1 r.read (c ∷ []) ∙ rw newline);
                column_is = sym (since_newline-append 0 r.read (c ∷ []) ∙ rw newline (omega arith));
                start_le = omega arith;
              })
        | inr other ↦
            rw (e, other, advance)
              (record {
                read = r.read ++ c ∷ [];
                splits = split;
                cursor_is = size;
                line_is = r.line_is ∙ sym (newlines-append 1 r.read (c ∷ []) ∙ rw other);
                column_is = sym (
                    since_newline-append 0 r.read (c ∷ [])
                    ∙ rw other (omega (arith, r.column_is, r.start_le)));
                start_le = omega (arith, r.start_le);
              })
      ]
]

pub Reached-Follows :
    {source : Bytes} {l m : Lexer} → Reached source l → Follows l m → Reached source m
Reached-Follows r here = r
Reached-Follows r (step {l} f) = Reached-Follows (Reached-advance l r) f
