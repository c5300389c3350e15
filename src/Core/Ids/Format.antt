-- ===== src/Core/Ids/Format.antt =====
-- src/core/Ids.cpp, `MakeStableId`, `ToString` and `ParseStableId`.
use veritas.Common.{
  ℕ, Bool, true, false, [], ◌∷◌, ◌++◌, Bytes, codes, length, bytes_eq, bytes_eq_iff, bytes_eq_refl,
  ◌==◌, ==_iff, if◌then◌else◌, Option, none, some, ◌≡◌, refl, sym, ap, ◌∙◌, subst, arith,
  Bool-cases, Option-cases, inl, inr,
}
use veritas.Core.Status.{StatusOr, ok, invalid_argument, ◌>>=◌, ◌>>◌, require, from_option}
use veritas.Core.Hash.Hasher.{compute_sha256, final_state, update, fresh, digest-IsBytes}
use veritas.Core.Hash.Hex.{
  digest_to_hex, hex_to_digest, IsDigestText, IsDigestText-read, IsDigestText-of_read,
  digest_to_hex-IsLowerHex, length-digest_to_hex,
}
use veritas.Core.Ids.Kinds.{
  IdKind, repository, id_kind_to_string, string_to_id_kind, string_to_id_kind-id_kind_to_string,
  string_to_id_kind_sound,
}

pub record StableId : Type 0 where
  pub kind : IdKind
  pub digest_hex : Bytes

-- `MakeStableId`
unfoldable pub make_stable_id : IdKind → Bytes → StableId
make_stable_id kind canonical_bytes = record {
  kind = kind;
  digest_hex = digest_to_hex (compute_sha256 canonical_bytes);
}

-- `ToString`
unfoldable pub to_string : StableId → Bytes
to_string id = id_kind_to_string id.kind ++ (codes ":sha256:" ++ id.digest_hex)

abbrev push_front : ℕ → Option (Bytes × Bytes) → Option (Bytes × Bytes)
push_front c none = none
push_front c (some (before, behind)) = some (c ∷ before, behind)

-- `text.find(':')`: what stands before the first colon and what stands behind it.
unfoldable pub split_colon : Bytes → Option (Bytes × Bytes)
split_colon [] = none
split_colon (c ∷ cs) = if c == b':' then some ([], cs) else push_front c (split_colon cs)

-- `!digest.has_value() || DigestToHex(*digest) != digest_str`, negated.
pub reads_back : Bytes → Bool
reads_back t = elim (hex_to_digest t) [ none ↦ false | some d ↦ bytes_eq (digest_to_hex d) t ]

-- `ParseStableId`, from `StringToIdKind` on, for the three parts of the text.
unfoldable pub parse_parts : Bytes → Bytes → Bytes → StatusOr StableId
parse_parts kind_str algo_str digest_str = do
  kind ← from_option (string_to_id_kind kind_str) invalid_argument "unrecognized ID kind"
  require (bytes_eq algo_str (codes "sha256")) invalid_argument "unsupported hash algorithm"
  require (length digest_str == 64) invalid_argument "invalid digest length"
  require (reads_back digest_str) invalid_argument "invalid SHA-256 digest"
  ok (record { kind = kind; digest_hex = digest_str })

-- `ParseStableId`
unfoldable pub parse_stable_id : Bytes → StatusOr StableId
unfolding parse_parts
parse_stable_id text = do
  first ← from_option (split_colon text) invalid_argument "missing colon separator in ID"
  second ← from_option (split_colon first.1) invalid_argument "missing algorithm separator in ID"
  parse_parts first.0 second.0 second.1

-- The texts of identifiers have one kind, and a digest in its only spelling.
abbrev pub IsCanonical : StableId → Type 0
IsCanonical id = IsDigestText id.digest_hex

split_colon-kind :
    (k : IdKind) (rest : Bytes)
    → split_colon (id_kind_to_string k ++ b':' ∷ rest) ≡ some (id_kind_to_string k, rest)
unfolding split_colon id_kind_to_string
split_colon-kind repository rest = refl
split_colon-kind _ rest = refl

split_colon-sha256 :
    (rest : Bytes) → split_colon (codes "sha256:" ++ rest) ≡ some (codes "sha256", rest)
unfolding split_colon
split_colon-sha256 rest = refl

reads_back_lem : (t : Bytes) → IsDigestText t → reads_back t ≡ true
unfolding reads_back
reads_back_lem t v =
    let (d, read, write) = IsDigestText-read t v in
    let same : bytes_eq (digest_to_hex d) t ≡ true = (bytes_eq_iff _ _).1 write in
    rw (read, reads_back) same

reads_back-IsDigestText : (t : Bytes) → reads_back t ≡ true → IsDigestText t
unfolding reads_back
reads_back-IsDigestText t h = elim (Option-cases (hex_to_digest t)) [
  | inl bad ↦ cc (rw (bad, reads_back) at h)
  | inr (d, read) ↦
      IsDigestText-of_read t d read
        ((bytes_eq_iff (digest_to_hex d) t).0 (rw (read, reads_back) at h))
]

-- An identifier whose digest is 64 lower-case hexadecimal digits is read back from its text.
pub parse_stable_id-to_string :
    (id : StableId) → IsCanonical id → parse_stable_id (to_string id) ≡ ok id
unfolding parse_stable_id to_string
parse_stable_id-to_string id v =
    let size : length id.digest_hex == 64 ≡ true = (==_iff _ _).1 v.size in
    rw (
      split_colon-kind id.kind (codes "sha256:" ++ id.digest_hex),
      split_colon-sha256 id.digest_hex,
      string_to_id_kind-id_kind_to_string id.kind,
      bytes_eq_refl (codes "sha256"),
      size,
      reads_back_lem id.digest_hex v,
    )

some_pair :
    {a b c d : Bytes}
    → ◌≡◌ {A = Option (Bytes × Bytes)} (some (a, b)) (some (c, d))
    → (a ≡ c) × (b ≡ d)
some_pair e = ground arith

split_colon_sound :
    (t before behind : Bytes) → split_colon t ≡ some (before, behind) → t ≡ before ++ b':' ∷ behind
unfolding split_colon
split_colon_sound [] before behind h = cc
split_colon_sound (c ∷ t) before behind h = elim (Bool-cases (c == b':')) [
  | inl colon ↦
      let (left, right) = some_pair (rw colon at h) in
      ap (◌∷◌ c) right
      ∙ ap (λ d. d ∷ behind) ((==_iff c b':').0 colon)
      ∙ ap (λ z. z ++ b':' ∷ behind) left
  | inr other ↦ elim (Option-cases (split_colon t)) [
    | inl none_left ↦ cc (rw (other, none_left) at h)
    | inr ((b', s), found) ↦
        let (left, right) = some_pair (rw (other, found) at h) in
        ap (◌∷◌ c) (split_colon_sound t b' s found)
        ∙ ap (λ z. z ++ b':' ∷ s) left
        ∙ ap (λ z. before ++ b':' ∷ z) right
  ]
]

record Parts (kind_str algo_str digest_str : Bytes) (id : StableId) : Type 0 where
  kind : string_to_id_kind kind_str ≡ some id.kind
  algorithm : bytes_eq algo_str (codes "sha256") ≡ true
  digest : reads_back digest_str ≡ true
  kept : digest_str ≡ id.digest_hex

parse_parts_sound :
    (kind_str algo_str digest_str : Bytes) (id : StableId)
    → parse_parts kind_str algo_str digest_str ≡ ok id
    → Parts kind_str algo_str digest_str id
unfolding parse_parts
parse_parts_sound kind_str algo_str digest_str id h = ground arith

module _ (text kind_str rest algo_str digest_str : Bytes) (id : StableId) where
  Parts-sound :
      split_colon text ≡ some (kind_str, rest)
      → split_colon rest ≡ some (algo_str, digest_str)
      → Parts kind_str algo_str digest_str id
      → IsCanonical id × (to_string id ≡ text)
  unfolding to_string
  Parts-sound h1 h2 p =
      let kind : kind_str ≡ id_kind_to_string id.kind = string_to_id_kind_sound kind_str p.kind in
      let algorithm : algo_str ≡ codes "sha256" = (bytes_eq_iff _ _).0 p.algorithm in
      (
        subst IsDigestText p.kept (reads_back-IsDigestText digest_str p.digest),
        sym (
            split_colon_sound text kind_str rest h1
            ∙ ap (λ z. kind_str ++ b':' ∷ z) (split_colon_sound rest algo_str digest_str h2)
            ∙ ap (λ z. z ++ b':' ∷ (algo_str ++ b':' ∷ digest_str)) kind
            ∙ ap (λ z. id_kind_to_string id.kind ++ b':' ∷ (z ++ b':' ∷ digest_str)) algorithm
            ∙ ap (λ z. id_kind_to_string id.kind ++ b':' ∷ (codes "sha256" ++ b':' ∷ z)) p.kept),
      )

-- A text that `ParseStableId` accepts is the text of the identifier that it returns, and that
-- identifier's digest is 64 lower-case hexadecimal digits.
pub parse_stable_id_sound :
    (text : Bytes) (id : StableId)
    → parse_stable_id text ≡ ok id
    → IsCanonical id × (to_string id ≡ text)
unfolding parse_stable_id
parse_stable_id_sound text id h = elim (Option-cases (split_colon text)) [
  | inl missing ↦ cc (rw missing at h)
  | inr ((kind_str, rest), h1) ↦ elim (Option-cases (split_colon rest)) [
    | inl missing ↦ cc (rw (h1, missing) at h)
    | inr ((algo_str, digest_str), h2) ↦
        Parts-sound text kind_str rest algo_str digest_str id h1 h2
          (parse_parts_sound kind_str algo_str digest_str id (rw (h1, h2) at h))
  ]
]

-- The digest of every identifier that `MakeStableId` returns is 64 lower-case hexadecimal digits.
pub make_stable_id-IsCanonical : (k : IdKind) (m : Bytes) → IsCanonical (make_stable_id k m)
unfolding make_stable_id compute_sha256
make_stable_id-IsCanonical k m = record {
  size = length-digest_to_hex (compute_sha256 m);
  lower =
      digest_to_hex-IsLowerHex (compute_sha256 m) (digest-IsBytes (final_state (update fresh m)));
}
