-- ===== src/Evidence/Utf8.antt =====
-- src/evidence/EirLexer.cpp, `Utf8SequenceLengthAt`, against the encoding of Unicode scalar values.
use veritas.Common.{
  ℕ, ◌+◌, ◌-◌, ◌*◌, ◌/◌, ◌%◌, ◌≤◌, ◌<◌, Bool, true, not, ◌&&◌, ◌||◌, [], ◌∷◌, ◌++◌, Bytes, length,
  take, ◌==◌, leb, ltb, if◌then◌else◌, ◌≡◌, ◌≢◌, refl, sym, subst, inl, inr, arith, Bool-cases,
}

-- `IsContinuationByte`
abbrev is_continuation : ℕ → Bool
is_continuation b = leb 0x80 b && leb b 0xBF

-- The bytes behind a lead of 0xC2 to 0xDF.
two : Bytes → ℕ
two [] = 0
two (second ∷ _) = if is_continuation second then 2 else 0

-- The bytes behind a lead of 0xE0 to 0xEF.
three : ℕ → Bytes → ℕ
three lead (second ∷ third ∷ _) =
    if not (is_continuation second) || not (is_continuation third)
    then 0
    else if lead == 0xE0 && ltb second 0xA0
    then 0
    else if lead == 0xED && leb 0xA0 second
    then 0
    else 3
three lead _ = 0

-- The bytes behind a lead of 0xF0 to 0xF4.
four : ℕ → Bytes → ℕ
four lead (second ∷ third ∷ fourth ∷ _) =
    if not (is_continuation second) || not (is_continuation third) || not (is_continuation fourth)
    then 0
    else if lead == 0xF0 && ltb second 0x90
    then 0
    else if lead == 0xF4 && ltb 0x8F second
    then 0
    else 4
four lead _ = 0

-- `Utf8SequenceLengthAt`, on the source from `pos` on.
unfoldable pub utf8_sequence_length : Bytes → ℕ
unfolding two three four
utf8_sequence_length [] = 0
utf8_sequence_length (lead ∷ rest) =
    if ltb lead 0x80
    then 1
    else if leb 0xC2 lead && leb lead 0xDF
    then two rest
    else if leb 0xE0 lead && leb lead 0xEF
    then three lead rest
    else if leb 0xF0 lead && leb lead 0xF4
    then four lead rest
    else 0

-- A code point that is no surrogate half.
abbrev pub is_scalar : ℕ → Bool
is_scalar cp = ltb cp 0x110000 && not (leb 0xD800 cp && leb cp 0xDFFF)

-- UTF-8 by the table of RFC 3629, section 3.
unfoldable pub encode_utf8 : ℕ → Bytes
encode_utf8 cp =
    if ltb cp 0x80
    then cp ∷ []
    else if ltb cp 0x800
    then (0xC0 + cp / 64) ∷ (0x80 + cp % 64) ∷ []
    else if ltb cp 0x10000
    then (0xE0 + cp / 4096) ∷ (0x80 + cp / 64 % 64) ∷ (0x80 + cp % 64) ∷ []
    else (0xF0 + cp / 262144)
      ∷ (0x80 + cp / 4096 % 64)
      ∷ (0x80 + cp / 64 % 64)
      ∷ (0x80 + cp % 64)
      ∷ []

-- For every scalar value, whatever follows its UTF-8 encoding, `Utf8SequenceLengthAt` returns the
-- length of that encoding at its first byte.
pub utf8_sequence_length-encode_utf8 :
    (cp : ℕ) (rest : Bytes)
    → is_scalar cp ≡ true
    → utf8_sequence_length (encode_utf8 cp ++ rest) ≡ length (encode_utf8 cp)
unfolding utf8_sequence_length encode_utf8
utf8_sequence_length-encode_utf8 cp rest h = elim (Bool-cases (ltb cp 0x80)) [
  | inl one ↦ ground arith
  | inr _ ↦ elim (Bool-cases (ltb cp 0x800)) [
    | inl two ↦ ground arith
    | inr _ ↦ elim (Bool-cases (ltb cp 0x10000)) [
      | inl three ↦ ground arith
      | inr four ↦ ground arith
    ]
  ]
]

-- A sequence that is accepted encodes a scalar value.
pub record Encodes (s : Bytes) (n : ℕ) : Type 0 where
  pub code_point : ℕ
  pub scalar : is_scalar code_point ≡ true
  pub bytes : take n s ≡ encode_utf8 code_point

two-Encodes :
    (lead second : ℕ) (rest : Bytes)
    → 0xC2 ≤ lead
    → lead ≤ 0xDF
    → is_continuation second ≡ true
    → Encodes (lead ∷ second ∷ rest) 2
unfolding encode_utf8
two-Encodes lead second rest lo hi cont = record {
  code_point = (lead - 0xC0) * 64 + (second - 0x80);
  scalar = ground arith;
  bytes = ground arith;
}

three-Encodes :
    (lead second third : ℕ) (rest : Bytes)
    → 0xE0 ≤ lead
    → lead ≤ 0xEF
    → three lead (second ∷ third ∷ rest) ≢ 0
    → Encodes (lead ∷ second ∷ third ∷ rest) 3
unfolding encode_utf8 three
three-Encodes lead second third rest lo hi ok =
    let cp = (lead - 0xE0) * 4096 + (second - 0x80) * 64 + (third - 0x80) in
    let conts : (0x80 ≤ second)
        × (second ≤ 0xBF)
        × (0x80 ≤ third)
        × (third ≤ 0xBF)
        × (lead ≡ 0xE0 → 0xA0 ≤ second)
        × (lead ≡ 0xED → second < 0xA0) =
      ground arith in
    record { code_point = cp; scalar = ground arith; bytes = ground arith }

four-Encodes :
    (lead second third fourth : ℕ) (rest : Bytes)
    → 0xF0 ≤ lead
    → lead ≤ 0xF4
    → four lead (second ∷ third ∷ fourth ∷ rest) ≢ 0
    → Encodes (lead ∷ second ∷ third ∷ fourth ∷ rest) 4
unfolding encode_utf8 four
four-Encodes lead second third fourth rest lo hi ok =
    let cp =
      (lead - 0xF0) * 262144 + (second - 0x80) * 4096 + (third - 0x80) * 64 + (fourth - 0x80) in
    let conts : (0x80 ≤ second)
        × (second ≤ 0xBF)
        × (0x80 ≤ third)
        × (third ≤ 0xBF)
        × (0x80 ≤ fourth)
        × (fourth ≤ 0xBF)
        × (lead ≡ 0xF0 → 0x90 ≤ second)
        × (lead ≡ 0xF4 → second ≤ 0x8F) =
      ground arith in
    record { code_point = cp; scalar = ground arith; bytes = ground arith }

one-Encodes : (lead : ℕ) (rest : Bytes) → lead < 0x80 → Encodes (lead ∷ rest) 1
unfolding encode_utf8
one-Encodes lead rest h = record { code_point = lead; scalar = ground arith; bytes = ground arith }

abbrev Accepts : Bytes → ℕ → Type 0
Accepts s n = n ≢ 0 → Encodes s n

two-Accepts :
    (lead : ℕ) (rest : Bytes) → 0xC2 ≤ lead → lead ≤ 0xDF → Accepts (lead ∷ rest) (two rest)
unfolding two
two-Accepts lead [] lo hi ok = absurd (ok refl)
two-Accepts lead (second ∷ rest) lo hi ok = elim (Bool-cases (is_continuation second)) [
  | inl cont ↦ rw cont (two-Encodes lead second rest lo hi cont)
  | inr other ↦ absurd (ok (rw other))
]

three-Accepts :
    (lead : ℕ) (rest : Bytes) → 0xE0 ≤ lead → lead ≤ 0xEF → Accepts (lead ∷ rest) (three lead rest)
three-Accepts lead [] lo hi ok = absurd (ok (unfold three in refl))
three-Accepts lead (s ∷ []) lo hi ok = absurd (ok (unfold three in refl))
three-Accepts lead (s ∷ t ∷ rest) lo hi ok =
    subst (Encodes (lead ∷ s ∷ t ∷ rest)) (sym (three_ok lead s t rest ok))
      (three-Encodes lead s t rest lo hi ok)
  where
    three_ok :
        (lead s t : ℕ) (rest : Bytes)
        → three lead (s ∷ t ∷ rest) ≢ 0
        → three lead (s ∷ t ∷ rest) ≡ 3
    three_ok lead s t rest ok = unfold three in ground arith

four-Accepts :
    (lead : ℕ) (rest : Bytes) → 0xF0 ≤ lead → lead ≤ 0xF4 → Accepts (lead ∷ rest) (four lead rest)
four-Accepts lead [] lo hi ok = absurd (ok (unfold four in refl))
four-Accepts lead (s ∷ []) lo hi ok = absurd (ok (unfold four in refl))
four-Accepts lead (s ∷ t ∷ []) lo hi ok = absurd (ok (unfold four in refl))
four-Accepts lead (s ∷ t ∷ u ∷ rest) lo hi ok =
    subst (Encodes (lead ∷ s ∷ t ∷ u ∷ rest)) (sym (four_ok lead s t u rest ok))
      (four-Encodes lead s t u rest lo hi ok)
  where
    four_ok :
        (lead s t u : ℕ) (rest : Bytes)
        → four lead (s ∷ t ∷ u ∷ rest) ≢ 0
        → four lead (s ∷ t ∷ u ∷ rest) ≡ 4
    four_ok lead s t u rest ok = unfold four in ground arith

ladder : (lead : ℕ) (rest : Bytes) → Accepts (lead ∷ rest) (utf8_sequence_length (lead ∷ rest))
unfolding utf8_sequence_length
ladder lead rest = elim (Bool-cases (ltb lead 0x80)) [
  | inl a ↦ rw a (λ _. one-Encodes lead rest (ground arith))
  | inr a ↦ elim (Bool-cases (leb 0xC2 lead && leb lead 0xDF)) [
    | inl b ↦ rw (a, b) (two-Accepts lead rest (ground arith) (ground arith))
    | inr b ↦ elim (Bool-cases (leb 0xE0 lead && leb lead 0xEF)) [
      | inl c ↦ rw (a, b, c) (three-Accepts lead rest (ground arith) (ground arith))
      | inr c ↦ elim (Bool-cases (leb 0xF0 lead && leb lead 0xF4)) [
        | inl d ↦ rw (a, b, c, d) (four-Accepts lead rest (ground arith) (ground arith))
        | inr d ↦ rw (a, b, c, d) (λ ok. absurd (ok refl))
      ]
    ]
  ]
]

-- Where `Utf8SequenceLengthAt` does not return 0, the text begins with the encoding of a scalar
-- value, of the length that it returns: with no overlong form, no surrogate half and nothing above
-- U+10FFFF.
pub utf8_sequence_length_sound :
    (s : Bytes) → utf8_sequence_length s ≢ 0 → Encodes s (utf8_sequence_length s)
utf8_sequence_length_sound [] ok = absurd (ok (unfold utf8_sequence_length in refl))
utf8_sequence_length_sound (lead ∷ rest) ok = ladder lead rest ok
