-- ===== src/Common/Order.antt =====
-- `operator<` of byte strings is a strict order.
use veritas.Common.{true, false, [], ◌∷◌, Bytes, bytes_lt, ◌≡◌, refl, arith}

pub bytes_lt_trans :
    (xs ys zs : Bytes) → bytes_lt xs ys ≡ true → bytes_lt ys zs ≡ true → bytes_lt xs zs ≡ true
unfolding bytes_lt
bytes_lt_trans xs ys [] h h' = cc h'
bytes_lt_trans xs [] (z ∷ zs) h h' = cc h
bytes_lt_trans [] (y ∷ ys) (z ∷ zs) h h' = refl
bytes_lt_trans (x ∷ xs) (y ∷ ys) (z ∷ zs) h h' = let ih = bytes_lt_trans xs ys zs in ground arith

pub bytes_lt-asym : (xs ys : Bytes) → bytes_lt xs ys ≡ true → bytes_lt ys xs ≡ false
unfolding bytes_lt
bytes_lt-asym xs [] h = cc h
bytes_lt-asym [] (y ∷ ys) h = refl
bytes_lt-asym (x ∷ xs) (y ∷ ys) h = let ih = bytes_lt-asym xs ys in ground arith

pub bytes_lt_total : (xs ys : Bytes) → bytes_lt xs ys ≡ false → bytes_lt ys xs ≡ false → xs ≡ ys
unfolding bytes_lt
bytes_lt_total [] [] h h' = refl
bytes_lt_total [] (y ∷ ys) h h' = cc h
bytes_lt_total (x ∷ xs) [] h h' = cc h'
bytes_lt_total (x ∷ xs) (y ∷ ys) h h' = let ih = bytes_lt_total xs ys in ground arith
