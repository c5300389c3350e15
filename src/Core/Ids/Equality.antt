-- ===== src/Core/Ids/Equality.antt =====
-- include/veritas/core/Ids.h: `StableId`'s defaulted `operator<=>`, as far as equality goes.
use veritas.Common.{
  Bool, true, false, ◌&&◌, bytes_eq, bytes_eq_iff, bytes_eq_refl, some, ◌≡◌, refl, sym, ap, ◌∙◌,
  ◌↔◌,
}
use veritas.Core.Ids.Kinds.{
  IdKind, id_kind_to_string, string_to_id_kind, string_to_id_kind-id_kind_to_string,
}
use veritas.Core.Ids.Format.{StableId}

-- Two kinds are equal when their spellings are.
unfoldable pub id_eq : StableId → StableId → Bool
unfolding id_kind_to_string bytes_eq
id_eq a b =
    bytes_eq (id_kind_to_string a.kind) (id_kind_to_string b.kind)
    && bytes_eq a.digest_hex b.digest_hex

from_some : {A : Type 0} {a b : A} → some a ≡ some b → a ≡ b
from_some e = cc e

id_kind_to_string-injective : (a b : IdKind) → id_kind_to_string a ≡ id_kind_to_string b → a ≡ b
id_kind_to_string-injective a b e = from_some (
    sym (string_to_id_kind-id_kind_to_string a)
    ∙ ap string_to_id_kind e
    ∙ string_to_id_kind-id_kind_to_string b)

both : (a b : Bool) → (a && b) ≡ true → (a ≡ true) × (b ≡ true)
both true true e = (refl, refl)
both true false e = (refl, e)
both false b e = cc e

id_of : {a b : StableId} → a.kind ≡ b.kind → a.digest_hex ≡ b.digest_hex → a ≡ b
id_of p q = λ i. record { kind = p i; digest_hex = q i }

pub id_eq_iff : (a b : StableId) → (id_eq a b ≡ true) ↔ (a ≡ b)
unfolding id_eq
id_eq_iff a b = (
  λ h.
      let p = both _ _ h in
      id_of (id_kind_to_string-injective a.kind b.kind ((bytes_eq_iff _ _).0 p.0))
        ((bytes_eq_iff _ _).0 p.1),
  λ e. rw (e, bytes_eq_refl (id_kind_to_string b.kind), bytes_eq_refl b.digest_hex) refl,
)
