-- ===== src/Core/Hash/Hex.antt =====
-- src/core/Hash.cpp, `DigestToHex` and `HexToDigest`.
use veritas.Common.{
  ℕ, zero, suc, ◌+◌, ◌-◌, ◌*◌, ◌/◌, ◌%◌, ◌<◌, Bool, true, not, ◌&&◌, ◌||◌, [], ◌∷◌, Bytes, IsBytes,
  All, length, ◌==◌, leb, ltb, if◌then◌else◌, Option, none, some, ◌≡◌, refl, ap, ◌∙◌, arith, subst,
  ==_iff, Bool-cases, inl, inr,
}

-- `kHexDigits[n]`
abbrev hex_digit : ℕ → ℕ
hex_digit n = if ltb n 10 then b'0' + n else b'a' + (n - 10)

-- `DigestToHex`: two digits for each byte, the high nibble first.
unfoldable pub digest_to_hex : Bytes → Bytes
digest_to_hex [] = []
digest_to_hex (b ∷ bs) = hex_digit (b / 16) ∷ hex_digit (b % 16) ∷ digest_to_hex bs

abbrev within : ℕ → ℕ → ℕ → Bool
within lo hi c = leb lo c && leb c hi

-- `std::isxdigit` in the C locale.
abbrev is_xdigit : ℕ → Bool
is_xdigit c = within b'0' b'9' c || within b'a' b'f' c || within b'A' b'F' c

-- The lambda `hex_to_nibble`.
abbrev hex_to_nibble : ℕ → ℕ
hex_to_nibble c =
    if within b'0' b'9' c
    then c - b'0'
    else if within b'a' b'f' c
    then c - b'a' + 10
    else if within b'A' b'F' c
    then c - b'A' + 10
    else 0

-- `result[i] = byte` before the digits behind it are read.
abbrev push : ℕ → Option Bytes → Option Bytes
push b none = none
push b (some bs) = some (b ∷ bs)

-- The loop over the pairs of digits.
hex_pairs : Bytes → Option Bytes
hex_pairs [] = some []
hex_pairs (high ∷ []) = none
hex_pairs (high ∷ low ∷ rest) =
    if not (is_xdigit high) || not (is_xdigit low)
    then none
    else push (hex_to_nibble high * 16 + hex_to_nibble low) (hex_pairs rest)

unfoldable pub hex_to_digest : Bytes → Option Bytes
unfolding hex_pairs
hex_to_digest hex = if length hex == 64 then hex_pairs hex else none

-- A digit that `DigestToHex` writes.
abbrev pub is_lower_hex : ℕ → Bool
is_lower_hex c = within b'0' b'9' c || within b'a' b'f' c

abbrev pub IsLowerHex : Bytes → Type 0
IsLowerHex = All (λ c. is_lower_hex c ≡ true)

pub digest_to_hex-IsLowerHex : (d : Bytes) → IsBytes d → IsLowerHex (digest_to_hex d)
unfolding digest_to_hex
digest_to_hex-IsLowerHex [] h = tt
digest_to_hex-IsLowerHex (b ∷ bs) h =
    (ground arith, (ground arith, digest_to_hex-IsLowerHex bs h.1))

pub length-digest_to_hex : (d : Bytes) → length (digest_to_hex d) ≡ 2 * length d
unfolding digest_to_hex
length-digest_to_hex [] = refl
length-digest_to_hex (b ∷ bs) = omega (arith, length-digest_to_hex bs)

nibble_digit :
    (n : ℕ) → n < 16 → (is_xdigit (hex_digit n) ≡ true) × (hex_to_nibble (hex_digit n) ≡ n)
nibble_digit n h = ground arith

hex_pairs-digest_to_hex : (d : Bytes) → IsBytes d → hex_pairs (digest_to_hex d) ≡ some d
unfolding hex_pairs digest_to_hex
hex_pairs-digest_to_hex [] h = refl
hex_pairs-digest_to_hex (b ∷ bs) h =
    let (high_ok, high) = nibble_digit (b / 16) (omega (arith, h.0)) in
    let (low_ok, low) = nibble_digit (b % 16) (omega arith) in
    let whole : b / 16 * 16 + b % 16 ≡ b = omega arith in
    rw (high_ok, low_ok, high, low, hex_pairs-digest_to_hex bs h.1, whole)

-- `HexToDigest` reads every digest of 32 bytes back from what `DigestToHex` makes of it.
pub hex_to_digest-digest_to_hex :
    (d : Bytes) → IsBytes d → length d ≡ 32 → hex_to_digest (digest_to_hex d) ≡ some d
unfolding hex_to_digest
hex_to_digest-digest_to_hex d h n =
    let size : length (digest_to_hex d) == 64 ≡ true = ground (arith, length-digest_to_hex d) in
    rw size (hex_pairs-digest_to_hex d h)

digit_nibble :
    (c : ℕ)
    → is_lower_hex c ≡ true
    → (is_xdigit c ≡ true) × (hex_digit (hex_to_nibble c) ≡ c) × (hex_to_nibble c < 16)
digit_nibble c h = ground arith

-- The lower-case text of a whole number of bytes is what `DigestToHex` writes for what is read.
hex_pairs_lower :
    (t : Bytes) (n : ℕ)
    → IsLowerHex t
    → length t ≡ n * 2
    → (d : Bytes) × (hex_pairs t ≡ some d) × (digest_to_hex d ≡ t)
unfolding hex_pairs digest_to_hex
hex_pairs_lower [] n h e = ([], refl, refl)
hex_pairs_lower (c ∷ []) n h e = absurd (omega arith)
hex_pairs_lower (x ∷ y ∷ t) zero h e = absurd (omega arith)
hex_pairs_lower (x ∷ y ∷ t) (suc n) h e =
    let (d, read, write) = hex_pairs_lower t n h.1.1 (omega arith) in
    let (high_ok, high, high_lt) = digit_nibble x h.0 in
    let (low_ok, low, low_lt) = digit_nibble y h.1.0 in
    let b = hex_to_nibble x * 16 + hex_to_nibble y in
    let high_part : b / 16 ≡ hex_to_nibble x = omega arith in
    let low_part : b % 16 ≡ hex_to_nibble y = omega arith in
    (
      b ∷ d,
      rw (high_ok, low_ok, read),
      ap (λ n. hex_digit n ∷ hex_digit (b % 16) ∷ digest_to_hex d) high_part
          ∙ ap (λ n. hex_digit (hex_to_nibble x) ∷ hex_digit n ∷ digest_to_hex d) low_part
          ∙ rw (high, low, write),
    )

xdigit_nibble : (c : ℕ) → is_xdigit c ≡ true → hex_to_nibble c < 16
xdigit_nibble c h = ground arith

abbrev HoldsBytes : Option Bytes → Type 0
HoldsBytes none = Unit
HoldsBytes (some d) = IsBytes d

push-HoldsBytes : (b : ℕ) (o : Option Bytes) → b < 256 → HoldsBytes o → HoldsBytes (push b o)
push-HoldsBytes b none lt h = tt
push-HoldsBytes b (some d) lt h = (lt, h)

hex_pairs-HoldsBytes : (t : Bytes) → HoldsBytes (hex_pairs t)
unfolding hex_pairs
hex_pairs-HoldsBytes [] = tt
hex_pairs-HoldsBytes (c ∷ []) = tt
hex_pairs-HoldsBytes (x ∷ y ∷ t) = elim (Bool-cases (not (is_xdigit x) || not (is_xdigit y))) [
  | inl bad ↦ rw bad tt
  | inr digits ↦
      let high = xdigit_nibble x (ground arith) in
      let low = xdigit_nibble y (ground arith) in
      rw digits (
        push-HoldsBytes (hex_to_nibble x * 16 + hex_to_nibble y) (hex_pairs t) (omega arith)
          (hex_pairs-HoldsBytes t))
]

-- A digest in hexadecimal, as an identifier carries it: 64 digits, the letters in lower case.
pub record IsDigestText (t : Bytes) : Type 0 where
  pub size : length t ≡ 64
  pub lower : IsLowerHex t

-- `digest.has_value() && DigestToHex(*digest) == digest_str` accepts exactly these texts.
pub IsDigestText-read :
    (t : Bytes) → IsDigestText t → (d : Bytes) × (hex_to_digest t ≡ some d) × (digest_to_hex d ≡ t)
unfolding hex_to_digest
IsDigestText-read t v =
    let (d, read, write) = hex_pairs_lower t 32 v.lower v.size in
    let size : length t == 64 ≡ true = ground (arith, v.size) in (d, rw size read, write)

pub IsDigestText-of_read :
    (t d : Bytes) → hex_to_digest t ≡ some d → digest_to_hex d ≡ t → IsDigestText t
unfolding hex_to_digest
IsDigestText-of_read t d read write = elim (Bool-cases (length t == 64)) [
  | inl size ↦
      let pairs : hex_pairs t ≡ some d = rw size at read in
      record {
        size = (==_iff (length t) 64).0 size;
        lower =
            subst IsLowerHex write
              (digest_to_hex-IsLowerHex d (subst HoldsBytes pairs (hex_pairs-HoldsBytes t)));
      }
  | inr wrong ↦ cc (rw wrong at read)
]
