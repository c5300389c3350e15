-- ===== src/Evidence/Case/Compare.antt =====
-- src/evidence/EvidenceCase.cpp, `CompareExpressions`: the order of expressions, field by field.
use veritas.Common.{
  List, [], ◌∷◌, get_or, ℕ, ◌^◌, Bool, true, false, Bytes, bytes_eq, bytes_eq_iff, bytes_eq_refl,
  bytes_lt, ◌==◌, ltb, leb, if◌then◌else◌, ◌≡◌, refl, sym, ap, ◌∙◌, ◌↔◌, arith,
}
use veritas.Common.Order.{bytes_lt-asym}
use veritas.Evidence.Case.Records.{
  ExpressionKind, Expression, expression, Operands, no_operands, operand,
}

-- `std::strong_ordering`
pub data Ordering : Type 0 where
  less equal greater : Ordering

-- The enumerators' numbers, by which they are ordered.
abbrev pub kind_value : ExpressionKind → ℕ
kind_value ExpressionKind.unspecified = 0
kind_value ExpressionKind.bool = 1
kind_value ExpressionKind.integer = 2
kind_value ExpressionKind.string = 3
kind_value ExpressionKind.symbol = 4
kind_value ExpressionKind.reference = 5
kind_value ExpressionKind.call = 6
kind_value ExpressionKind.not = 7
kind_value ExpressionKind.compare = 8
kind_value ExpressionKind.and = 9
kind_value ExpressionKind.or = 10
kind_value ExpressionKind.implies = 11
kind_value ExpressionKind.for_all = 12
kind_value ExpressionKind.exists = 13

-- `<=>` on numbers.
unfoldable pub compare_numbers : ℕ → ℕ → Ordering
compare_numbers a b = if ltb a b then less else if a == b then equal else greater

-- `<=>` on strings.
unfoldable pub compare_texts : Bytes → Bytes → Ordering
compare_texts a b = if bytes_lt a b then less else if bytes_eq a b then equal else greater

-- `<=>` on `int64_t`, by the bits: from 2 ^ 63 on they stand for negative numbers.
unfoldable pub compare_integers : ℕ → ℕ → Ordering
unfolding compare_numbers
compare_integers a b =
    if leb (2 ^ 63) a
    then (if leb (2 ^ 63) b then compare_numbers a b else less)
    else if leb (2 ^ 63) b
    then greater
    else compare_numbers a b

-- `<=>` on `bool`.
abbrev pub compare_booleans : Bool → Bool → Ordering
compare_booleans false true = less
compare_booleans true false = greater
compare_booleans _ _ = equal

-- `if (auto cmp = ...; cmp != 0) return cmp;`
abbrev pub or_else : Ordering → Ordering → Ordering
or_else equal next = next
or_else found next = found

-- `CompareExpressions`, with its loop on the operands. A list that is the beginning of the other
-- precedes it, as the comparison of the sizes says.
unfoldable mutual
  pub compare_expressions : Expression → Expression → Ordering
  compare_expressions (expression k t n b xs) (expression k' t' n' b' ys) =
      or_else (compare_numbers (kind_value k) (kind_value k')) (
        or_else (compare_texts t t') (
          or_else (compare_integers n n')
            (or_else (compare_booleans b b') (compare_operands xs ys))))

  pub compare_operands : Operands → Operands → Ordering
  compare_operands no_operands no_operands = equal
  compare_operands no_operands (operand y ys) = less
  compare_operands (operand x xs) no_operands = greater
  compare_operands (operand x xs) (operand y ys) =
      or_else (compare_expressions x y) (compare_operands xs ys)

abbrev pub is_equal : Ordering → Bool
is_equal equal = true
is_equal _ = false

-- `operator==` of expressions.
abbrev pub expression_eq : Expression → Expression → Bool
expression_eq e f = is_equal (compare_expressions e f)

compare_numbers-equal : (a b : ℕ) → compare_numbers a b ≡ equal → a ≡ b
unfolding compare_numbers
compare_numbers-equal a b h = ground arith

compare_texts-equal : (a b : Bytes) → compare_texts a b ≡ equal → a ≡ b
unfolding compare_texts
compare_texts-equal a b h = let same = (bytes_eq_iff a b).0 in ground arith

compare_integers-equal : (a b : ℕ) → compare_integers a b ≡ equal → a ≡ b
unfolding compare_integers compare_numbers
compare_integers-equal a b h = ground arith

compare_booleans-equal : (a b : Bool) → compare_booleans a b ≡ equal → a ≡ b
compare_booleans-equal true true h = refl
compare_booleans-equal true false h = cc h
compare_booleans-equal false true h = cc h
compare_booleans-equal false false h = refl

or_else-equal : (a b : Ordering) → or_else a b ≡ equal → (a ≡ equal) × (b ≡ equal)
or_else-equal less b h = cc h
or_else-equal equal b h = (refl, h)
or_else-equal greater b h = cc h

abbrev kinds : List ExpressionKind
kinds =
    ExpressionKind.unspecified ∷ ExpressionKind.bool ∷ ExpressionKind.integer
    ∷ ExpressionKind.string ∷ ExpressionKind.symbol ∷ ExpressionKind.reference ∷ ExpressionKind.call
    ∷ ExpressionKind.not ∷ ExpressionKind.compare ∷ ExpressionKind.and ∷ ExpressionKind.or
    ∷ ExpressionKind.implies ∷ ExpressionKind.for_all ∷ ExpressionKind.exists ∷ []

kinds-kind_value : (k : ExpressionKind) → get_or kinds (kind_value k) ExpressionKind.unspecified ≡ k
kinds-kind_value ExpressionKind.unspecified = refl
kinds-kind_value _ = refl

kind_value-injective : (k l : ExpressionKind) → kind_value k ≡ kind_value l → k ≡ l
kind_value-injective k l h =
    sym (kinds-kind_value k)
    ∙ ap (λ n. get_or kinds n ExpressionKind.unspecified) h
    ∙ kinds-kind_value l

expression-cong :
    {k k' : ExpressionKind} {t t' : Bytes} {n n' : ℕ} {b b' : Bool} {xs ys : Operands}
    → k ≡ k'
    → t ≡ t'
    → n ≡ n'
    → b ≡ b'
    → xs ≡ ys
    → expression k t n b xs ≡ expression k' t' n' b' ys
expression-cong p q r s u = cc

operand-cong : {x y : Expression} {xs ys : Operands} → x ≡ y → xs ≡ ys → operand x xs ≡ operand y ys
operand-cong p q = cc

mutual
  unfolding compare_expressions compare_operands

  compare_sound : (e f : Expression) → compare_expressions e f ≡ equal → e ≡ f
  compare_sound (expression k t n b xs) (expression k' t' n' b' ys) h =
      let (kinds, h1) = or_else-equal _ _ h in
      let (texts, h2) = or_else-equal _ _ h1 in
      let (integers, h3) = or_else-equal _ _ h2 in
      let (booleans, operands) = or_else-equal _ _ h3 in
      expression-cong (kind_value-injective k k' (compare_numbers-equal _ _ kinds))
        (compare_texts-equal t t' texts) (compare_integers-equal n n' integers)
        (compare_booleans-equal b b' booleans) (compare_operands_sound xs ys operands)

  pub compare_operands_sound : (xs ys : Operands) → compare_operands xs ys ≡ equal → xs ≡ ys
  compare_operands_sound no_operands no_operands h = refl
  compare_operands_sound no_operands (operand y ys) h = cc h
  compare_operands_sound (operand x xs) no_operands h = cc h
  compare_operands_sound (operand x xs) (operand y ys) h =
      let (here, there) = or_else-equal _ _ h in
      operand-cong (compare_sound x y here) (compare_operands_sound xs ys there)

compare_numbers_refl : (a : ℕ) → compare_numbers a a ≡ equal
unfolding compare_numbers
compare_numbers_refl a = ground arith

compare_texts_refl : (a : Bytes) → compare_texts a a ≡ equal
unfolding compare_texts
compare_texts_refl a =
    let irreflexive = bytes_lt-asym a a in let same = bytes_eq_refl a in ground arith

compare_integers_refl : (a : ℕ) → compare_integers a a ≡ equal
unfolding compare_integers compare_numbers
compare_integers_refl a = ground arith

compare_booleans_refl : (a : Bool) → compare_booleans a a ≡ equal
compare_booleans_refl true = refl
compare_booleans_refl false = refl

mutual
  unfolding compare_expressions compare_operands

  compare_refl : (e : Expression) → compare_expressions e e ≡ equal
  compare_refl (expression k t n b xs) =
      let kinds = compare_numbers_refl (kind_value k) in
      let texts = compare_texts_refl t in
      let integers = compare_integers_refl n in
      let booleans = compare_booleans_refl b in
      let operands = compare_operands_refl xs in rw (kinds, texts, integers, booleans) operands

  compare_operands_refl : (xs : Operands) → compare_operands xs xs ≡ equal
  compare_operands_refl no_operands = refl
  compare_operands_refl (operand x xs) =
      let here = compare_refl x in let there = compare_operands_refl xs in rw here there

-- The comparison of two expressions finds them equal exactly where they are the same.
pub compare_expressions_iff : (e f : Expression) → (compare_expressions e f ≡ equal) ↔ (e ≡ f)
compare_expressions_iff e f =
    (compare_sound e f, λ same. ap (compare_expressions e) (sym same) ∙ compare_refl e)
