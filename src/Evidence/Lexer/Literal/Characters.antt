-- ===== src/Evidence/Lexer/Literal/Characters.antt =====
-- The characters of a string literal: how each is written, and what the lexer moves over.
use veritas.Common.{
  ℕ, ◌+◌, ◌/◌, ◌%◌, ◌≤◌, Bool, true, false, ◌||◌, [], ◌∷◌, ◌++◌, Bytes, length, take, All, ◌==◌,
  ==_iff, ltb, some, ◌≡◌, refl, sym, ap, ◌∙◌, subst, inl, inr, Bool-cases, one_true, append_assoc,
  arith,
}
use veritas.Evidence.Utf8.{encode_utf8}
use veritas.Evidence.Lexer.{Lexer, advance, advance_by, unescape}
use veritas.Evidence.Writer.{escape_byte, escape_text}

module _ (l : Lexer) (c : ℕ) (cs : Bytes) (e : l.rest ≡ c ∷ cs) where
  pub advance-rest : (advance l).rest ≡ cs
  unfolding advance
  advance-rest = elim (Bool-cases (c == b'\n')) [
    | inl newline ↦ rw (e, newline, advance) refl
    | inr other ↦ rw (e, other, advance) refl
  ]

  pub advance-cursor : (advance l).cursor ≡ l.cursor + 1
  unfolding advance
  advance-cursor = elim (Bool-cases (c == b'\n')) [
    | inl newline ↦ rw (e, newline, advance) refl
    | inr other ↦ rw (e, other, advance) refl
  ]

pub advance_by-append :
    (xs after : Bytes) (l : Lexer)
    → l.rest ≡ xs ++ after
    → ((advance_by (length xs) l).rest ≡ after)
      × ((advance_by (length xs) l).cursor ≡ l.cursor + length xs)
unfolding advance_by
advance_by-append [] after l e = (e, omega arith)
advance_by-append (x ∷ xs) after l e =
    let rest = advance-rest l x (xs ++ after) e in
    let cursor = advance-cursor l x (xs ++ after) e in
    let (further, moved) = advance_by-append xs after (advance l) rest in
    (further, omega (arith, moved, cursor))

-- The five characters that are written as escapes.
abbrev pub is_escaped : ℕ → Bool
is_escaped c = c == b'"' || c == b'\\' || c == b'\n' || c == b'\r' || c == b'\t'

pub take-all : (xs after : Bytes) → take (length xs) (xs ++ after) ≡ xs
take-all [] after = refl
take-all (x ∷ xs) after = ap (◌∷◌ x) (take-all xs after)

-- The first byte of a character, which is an escaped one only where the character is.
pub record First (cp : ℕ) : Type 0 where
  pub byte : ℕ
  pub others : Bytes
  pub begins : encode_utf8 cp ≡ byte ∷ others
  pub no_quote : byte == b'"' ≡ false
  pub no_backslash : byte == b'\\' ≡ false

pub First-plain : (cp : ℕ) → is_escaped cp ≡ false → First cp
unfolding encode_utf8
First-plain cp h = elim (Bool-cases (ltb cp 0x80)) [
  | inl one ↦ record {
    byte = cp;
    others = [];
    begins = rw one refl;
    no_quote = ground arith;
    no_backslash = ground arith;
  }
  | inr not_one ↦ elim (Bool-cases (ltb cp 0x800)) [
    | inl two ↦ record {
      byte = 0xC0 + cp / 64;
      others = (0x80 + cp % 64) ∷ [];
      begins = rw (not_one, two) refl;
      no_quote = ground arith;
      no_backslash = ground arith;
    }
    | inr not_two ↦ elim (Bool-cases (ltb cp 0x10000)) [
      | inl three ↦ record {
        byte = 0xE0 + cp / 4096;
        others = (0x80 + cp / 64 % 64) ∷ (0x80 + cp % 64) ∷ [];
        begins = rw (not_one, not_two, three) refl;
        no_quote = ground arith;
        no_backslash = ground arith;
      }
      | inr four ↦ record {
        byte = 0xF0 + cp / 262144;
        others = (0x80 + cp / 4096 % 64) ∷ (0x80 + cp / 64 % 64) ∷ (0x80 + cp % 64) ∷ [];
        begins = rw (not_one, not_two, four) refl;
        no_quote = ground arith;
        no_backslash = ground arith;
      }
    ]
  ]
]

high_byte : (c : ℕ) → 0x80 ≤ c → escape_byte c ≡ c ∷ []
unfolding escape_byte
high_byte c h = ground arith

high_text : (bs : Bytes) → All (λ b. 0x80 ≤ b) bs → escape_text bs ≡ bs
unfolding escape_text
high_text [] h = refl
high_text (b ∷ bs) (here, there) =
    let first = high_byte b here in let others = high_text bs there in rw (first, others) refl

plain_byte : (c : ℕ) → is_escaped c ≡ false → escape_text (c ∷ []) ≡ c ∷ []
unfolding escape_text escape_byte
plain_byte c h = ground arith

pub escape_text-plain :
    (cp : ℕ) → is_escaped cp ≡ false → escape_text (encode_utf8 cp) ≡ encode_utf8 cp
unfolding encode_utf8
escape_text-plain cp h = elim (Bool-cases (ltb cp 0x80)) [
  | inl one ↦ rw one (plain_byte cp h)
  | inr not_one ↦ elim (Bool-cases (ltb cp 0x800)) [
    | inl two ↦ rw (not_one, two) (high_text _ (omega arith, (omega arith, tt)))
    | inr not_two ↦ elim (Bool-cases (ltb cp 0x10000)) [
      | inl three ↦
          rw (not_one, not_two, three) (high_text _ (omega arith, (omega arith, (omega arith, tt))))
      | inr four ↦
          rw (not_one, not_two, four)
            (high_text _ (omega arith, (omega arith, (omega arith, (omega arith, tt)))))
    ]
  ]
]

-- How an escaped character is written, and what the lexer makes of that.
pub record Escape (cp : ℕ) : Type 0 where
  pub letter : ℕ
  pub means : unescape letter ≡ some cp
  pub one_byte : encode_utf8 cp ≡ cp ∷ []
  pub written_as : escape_text (cp ∷ []) ≡ b'\\' ∷ letter ∷ []

pub is_escaped-Escape : (cp : ℕ) → is_escaped cp ≡ true → Escape cp
unfolding encode_utf8 escape_text escape_byte unescape
is_escaped-Escape cp h = elim (one_true _ _ h) [
  | inl h1 ↦ elim (one_true _ _ h1) [
    | inl h2 ↦ elim (one_true _ _ h2) [
      | inl h3 ↦ elim (one_true _ _ h3) [
        | inl quote ↦ is_char cp b'"' quote quote_Escape
        | inr backslash ↦ is_char cp b'\\' backslash backslash_Escape
      ]
      | inr newline ↦ is_char cp b'\n' newline newline_Escape
    ]
    | inr return ↦ is_char cp b'\r' return return_Escape
  ]
  | inr tab ↦ is_char cp b'\t' tab tab_Escape
]
  where
    is_char : (cp c : ℕ) → cp == c ≡ true → Escape c → Escape cp
    is_char cp c same e = subst Escape (sym ((==_iff cp c).0 same)) e

    quote_Escape : Escape b'"'
    quote_Escape = record { letter = b'"'; means = refl; one_byte = refl; written_as = refl }

    backslash_Escape : Escape b'\\'
    backslash_Escape = record { letter = b'\\'; means = refl; one_byte = refl; written_as = refl }

    newline_Escape : Escape b'\n'
    newline_Escape = record { letter = b'n'; means = refl; one_byte = refl; written_as = refl }

    return_Escape : Escape b'\r'
    return_Escape = record { letter = b'r'; means = refl; one_byte = refl; written_as = refl }

    tab_Escape : Escape b'\t'
    tab_Escape = record { letter = b't'; means = refl; one_byte = refl; written_as = refl }

pub escape_text-append : (xs ys : Bytes) → escape_text (xs ++ ys) ≡ escape_text xs ++ escape_text ys
unfolding escape_text
escape_text-append [] ys = refl
escape_text-append (x ∷ xs) ys =
    ap (λ t. escape_byte x ++ t) (escape_text-append xs ys)
    ∙ sym (append_assoc (escape_byte x) (escape_text xs) (escape_text ys))
