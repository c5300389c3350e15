-- ===== src/Core/Hash/Drain.antt =====
-- The loop over full blocks of `SHA256Hasher::Update`: its fuel, and its rounds over a concatenation.
use veritas.Common.{
  ℕ, zero, suc, ◌+◌, ◌%◌, ◌≤◌, ◌<◌, ◌++◌, Bytes, length, take, drop, leb, ◌≡◌, refl, sym, ap, ◌∙◌,
  arith, Bool-cases, inl, inr, length-append, length-drop, take-append, drop-append,
}
use veritas.Core.Hash.Words.{State, process_block}
use veritas.Core.Hash.Hasher.{drain}

-- Less than a block is kept as it is.
pub drain_small : (fuel : ℕ) (s : State) (m : Bytes) → length m < 64 → drain fuel s m ≡ (s, m)
unfolding drain
drain_small zero s m h = refl
drain_small (suc fuel) s m h = elim (Bool-cases (leb 64 (length m))) [
  | inl full ↦ absurd (ground arith)
  | inr small ↦ rw (small, drain)
]

-- A full block is processed.
pub drain_full :
    (fuel : ℕ) (s : State) (m : Bytes)
    → 64 ≤ length m
    → drain (suc fuel) s m ≡ drain fuel (process_block s (take 64 m)) (drop 64 m)
unfolding drain
drain_full fuel s m h = elim (Bool-cases (leb 64 (length m))) [
  | inl full ↦ rw (full, drain)
  | inr small ↦ absurd (ground arith)
]

-- Any fuel from the length on gives the same result.
pub drain_fuel :
    (f g : ℕ) (s : State) (m : Bytes) → length m ≤ f → length m ≤ g → drain f s m ≡ drain g s m
drain_fuel zero g s m hf hg =
    drain_small zero s m (omega arith) ∙ sym (drain_small g s m (omega arith))
drain_fuel (suc f) zero s m hf hg =
    drain_small (suc f) s m (omega arith) ∙ sym (drain_small zero s m (omega arith))
drain_fuel (suc f) (suc g) s m hf hg = elim (Bool-cases (leb 64 (length m))) [
  | inl full ↦
      drain_full f s m (ground arith)
      ∙ drain_fuel f g (process_block s (take 64 m)) (drop 64 m) (rw length-drop (ground arith))
          (rw length-drop (ground arith))
      ∙ sym (drain_full g s m (ground arith))
  | inr small ↦
      drain_small (suc f) s m (ground arith) ∙ sym (drain_small (suc g) s m (ground arith))
]

-- What is left is less than a block.
pub drain_rest : (f : ℕ) (s : State) (m : Bytes) → length m ≤ f → length (drain f s m).1 < 64
drain_rest zero s m h = rw (drain_small zero s m (omega arith)) (omega arith)
drain_rest (suc f) s m h = elim (Bool-cases (leb 64 (length m))) [
  | inl full ↦
      rw (drain_full f s m (ground arith))
        (drain_rest f (process_block s (take 64 m)) (drop 64 m) (rw length-drop (ground arith)))
  | inr small ↦ rw (drain_small (suc f) s m (ground arith)) (ground arith)
]

-- The bytes left are those behind the last full block.
pub drain_mod :
    (f : ℕ) (s : State) (m : Bytes) → length m ≤ f → length (drain f s m).1 ≡ length m % 64
drain_mod zero s m h = rw (drain_small zero s m (omega arith)) (omega arith)
drain_mod (suc f) s m h = elim (Bool-cases (leb 64 (length m))) [
  | inl full ↦
      let big : 64 ≤ length m = ground arith in
      let size = length-drop 64 m in
      rw (drain_full f s m big)
        (drain_mod f (process_block s (take 64 m)) (drop 64 m) (omega arith) ∙ omega arith)
  | inr small ↦
      let few : length m < 64 = ground arith in rw (drain_small (suc f) s m few) (omega arith)
]

-- One block, and two.
pub drain_one :
    (f : ℕ) (s : State) (m : Bytes)
    → length m ≡ 64
    → (drain (suc f) s m).0 ≡ process_block s (take 64 m)
drain_one f s m e =
    ap (λ (p : State × Bytes). p.0)
      (drain_full f s m (omega arith)
        ∙ drain_small f (process_block s (take 64 m)) (drop 64 m) (omega (arith, length-drop 64 m)))

pub drain_two :
    (f : ℕ) (s : State) (m : Bytes)
    → length m ≡ 128
    → (drain (suc (suc f)) s m).0
      ≡ process_block (process_block s (take 64 m)) (take 64 (drop 64 m))
drain_two f s m e =
    ap (λ (p : State × Bytes). p.0) (drain_full (suc f) s m (omega arith))
    ∙ drain_one f (process_block s (take 64 m)) (drop 64 m) (omega (arith, length-drop 64 m))

drain_shrinks : (f : ℕ) (s : State) (m : Bytes) → length (drain f s m).1 ≤ length m
drain_shrinks zero s m = unfold drain in omega arith
drain_shrinks (suc f) s m = elim (Bool-cases (leb 64 (length m))) [
  | inl full ↦
      rw (drain_full f s m (ground arith))
        (omega (arith, drain_shrinks f (process_block s (take 64 m)) (drop 64 m), length-drop 64 m))
  | inr small ↦ rw (drain_small (suc f) s m (ground arith)) (omega arith)
]

-- Draining a concatenation is draining the first part, then what is left with the second.
pub drain-append :
    (f : ℕ) (s : State) (xs ys : Bytes)
    → length xs + length ys ≤ f
    → drain f s (xs ++ ys) ≡ drain f (drain f s xs).0 ((drain f s xs).1 ++ ys)
drain-append zero s xs ys h = rw (drain_small zero s xs (omega arith)) refl
drain-append (suc f) s xs ys h = elim (Bool-cases (leb 64 (length xs))) [
  | inl full ↦
      let big : 64 ≤ length xs = ground arith in
      let s' = process_block s (take 64 xs) in
      let left = drain f s' (drop 64 xs) in
      let size : length (drop 64 xs) + length ys ≤ f = rw length-drop (omega arith) in
      drain_full f s (xs ++ ys) (rw length-append (omega arith))
      ∙ rw (take-append 64 xs ys big, drop-append 64 xs ys big)
          (drain-append f s' (drop 64 xs) ys size
            ∙ drain_fuel f (suc f) left.0 (left.1 ++ ys)
                (rw length-append (omega (arith, drain_shrinks f s' (drop 64 xs))))
                (rw length-append (omega (arith, drain_shrinks f s' (drop 64 xs))))
            ∙ sym
                (ap (λ (p : State × Bytes). drain (suc f) p.0 (p.1 ++ ys)) (drain_full f s xs big)))
  | inr small ↦ rw (drain_small (suc f) s xs (ground arith)) refl
]
