-- ===== src/Core/Hash/Padding.antt =====
-- The last blocks: `Finalize` against the padding of FIPS 180-4, section 5.1.1.
use veritas.Common.{
  ℕ, zero, suc, ◌+◌, ◌-◌, ◌*◌, ◌%◌, ◌^◌, ◌≤◌, ◌<◌, true, false, List, [], ◌∷◌, ◌++◌, Bytes, length,
  take, drop, replicate, ltb, if◌then◌else◌, ◌≡◌, refl, sym, ap, ◌∙◌, arith, Bool-cases, inl, inr,
  foldl, length-append, length-replicate, drop-replicate, replicate-append, take_exact, take_all,
  drop-append_past, append-nil, append_assoc,
}
use veritas.Core.Hash.Words.{State, h0, process_block}
use veritas.Core.Hash.Hasher.{
  Hasher, fresh, memcpy, drain, update, byte_of, store_length, digest, final_block, final_state,
  finalize,
}
use veritas.Core.Hash.Drain.{drain_fuel, drain-append, drain_mod, drain_one, drain_two}
use veritas.Core.Hash.Stream.{pending, length-pending, Reads, Reads-fresh, Reads-update}

-- The low bytes of a number, the most significant of them first.
abbrev pub big_endian : ℕ → ℕ → Bytes
big_endian zero x = []
big_endian (suc i) x = byte_of x i ∷ big_endian i x

-- A one bit, zeros up to 8 bytes before a multiple of the block, and the length in bits.
pub padding : ℕ → Bytes
padding n = 0x80 ∷ (replicate ((119 - n % 64) % 64) 0 ++ big_endian 8 (n * 8 % 2 ^ 64))

-- SHA-256 of a message that is at hand as a whole: pad it, and process its blocks in order.
pub sha256 : Bytes → Bytes
sha256 m = let padded = m ++ padding (length m) in digest (drain (length padded) h0 padded).0

-- The marker, the zeros and the length.
length-padding : (n : ℕ) → length (padding n) ≤ 72
unfolding padding
length-padding n =
    let zeros = (119 - n % 64) % 64 in
    let bits = big_endian 8 (n * 8 % 2 ^ 64) in
    let size : length (replicate {A = ℕ} zeros 0 ++ bits) ≡ zeros + 8 =
      length-append (replicate zeros 0) bits ∙ ap (λ k. k + 8) (length-replicate {A = ℕ} zeros 0) in
    let few : zeros < 64 = omega arith in omega arith

-- A write right behind the first list.
memcpy_behind :
    (xs ys : Bytes) (b c off : ℕ)
    → length xs ≡ off
    → memcpy (xs ++ b ∷ ys) off (c ∷ []) ≡ xs ++ c ∷ ys
memcpy_behind xs ys b c off e =
    ap (λ p. p ++ (c ∷ drop (off + 1) (xs ++ b ∷ ys))) (take_exact off xs (b ∷ ys) e)
    ∙ ap (λ p. xs ++ c ∷ p) (drop-append_past (off + 1) 1 xs (b ∷ ys) (omega arith))

length-big_endian : (i x : ℕ) → length (big_endian i x) ≡ i
length-big_endian zero x = refl
length-big_endian (suc i) x = ap suc (length-big_endian i x)

-- The loop that stores the length fills exactly the bytes before `total`.
store_length_lem :
    (i total x : ℕ) (xs mid ys : Bytes)
    → length mid ≡ i
    → length xs + i ≡ total
    → store_length i total x (xs ++ (mid ++ ys)) ≡ xs ++ (big_endian i x ++ ys)
unfolding store_length
store_length_lem zero total x xs [] ys m t = refl
store_length_lem zero total x xs (b ∷ mid) ys m t = absurd (omega arith)
store_length_lem (suc i) total x xs [] ys m t = absurd (omega arith)
store_length_lem (suc i) total x xs (b ∷ mid) ys m t =
    ap (store_length i total x) (
      memcpy_behind xs (mid ++ ys) b (byte_of x i) (total - 1 - i) (omega arith)
      ∙ sym (append_assoc xs (byte_of x i ∷ []) (mid ++ ys)))
    ∙ store_length_lem i total x (xs ++ byte_of x i ∷ []) mid ys (omega arith)
        (omega (arith, length-append xs (byte_of x i ∷ [])))
    ∙ append_assoc xs (byte_of x i ∷ []) (big_endian i x ++ ys)

-- The array before the length is stored: the pending bytes, the mark, and zeros.
marked_lem :
    (p : Bytes) (n k : ℕ)
    → length p ≡ n
    → n + suc k ≡ 128
    → memcpy (memcpy (replicate 128 0) 0 p) n (0x80 ∷ []) ≡ p ++ 0x80 ∷ replicate k 0
marked_lem p n k e f =
    let skipped : 0 + length p ≡ n = omega arith in
    ap (λ (z : Bytes). memcpy (p ++ z) n (0x80 ∷ []))
      (ap (λ j. drop (0 + length p) (replicate j 0)) (sym f)
        ∙ ap (λ j. drop j (replicate (n + suc k) 0)) skipped
        ∙ drop-replicate n (suc k) 0)
    ∙ memcpy_behind p (replicate k 0) 0 0x80 n e

-- The padded block, for `zeros` zeros and the `spare` bytes of the array behind it.
final_block_lem :
    (h : Hasher) (zeros spare total : ℕ)
    → length (pending h) ≡ h.buffered
    → (if ltb h.buffered 56 then 64 else 128) ≡ total
    → h.buffered + 1 + zeros + 8 ≡ total
    → total + spare ≡ 128
    → final_block h
      ≡ (pending h ++ 0x80 ∷ replicate zeros 0)
        ++ (big_endian 8 (h.total_bytes * 8 % 2 ^ 64) ++ replicate spare 0)
unfolding final_block
final_block_lem h zeros spare total n t z s =
    let x = h.total_bytes * 8 % 2 ^ 64 in
    let head = pending h ++ 0x80 ∷ replicate zeros 0 in
    rw t (
      ap (store_length 8 total x) (
        marked_lem (pending h) h.buffered (zeros + (8 + spare)) n (omega arith)
        ∙ ap (λ w. pending h ++ 0x80 ∷ w)
            (replicate-append zeros (8 + spare) (zeros + (8 + spare)) 0 refl
              ∙ ap (◌++◌ (replicate zeros 0)) (replicate-append 8 spare (8 + spare) 0 refl))
        ∙ sym (
            append_assoc (pending h) (0x80 ∷ replicate zeros 0)
              (replicate 8 0 ++ replicate spare 0)))
      ∙ store_length_lem 8 total x head (replicate 8 0) (replicate spare 0) refl (
          omega (
            arith,
            length-append (pending h) (0x80 ∷ replicate zeros 0),
            length-replicate {A = ℕ} zeros 0,
          )))

module _ (h : Hasher) (m : Bytes) (r : Reads h m) where
  -- The bytes that wait are those behind the last full block.
  buffered_mod : h.buffered ≡ length m % 64
  buffered_mod =
      sym (length-pending h r.valid)
      ∙ ap (λ (p : State × Bytes). length p.1) r.viewed
      ∙ drain_mod (length m) h0 m (omega arith)

  -- The last bytes, padded.
  abbrev padded_tail : ℕ → Bytes
  padded_tail zeros =
      (pending h ++ 0x80 ∷ replicate zeros 0) ++ big_endian 8 (h.total_bytes * 8 % 2 ^ 64)

  length-padded_tail : (zeros : ℕ) → length (padded_tail zeros) ≡ h.buffered + 1 + zeros + 8
  length-padded_tail zeros = omega (
    arith,
    length-pending h r.valid,
    length-append (pending h ++ 0x80 ∷ replicate zeros 0)
        (big_endian 8 (h.total_bytes * 8 % 2 ^ 64)),
    length-append (pending h) (0x80 ∷ replicate zeros 0),
    length-replicate {A = ℕ} zeros 0,
  )

  -- Draining the padded message is draining the padded tail from the state reached.
  drain_padded :
      (zeros f : ℕ)
      → (119 - length m % 64) % 64 ≡ zeros
      → 128 ≤ f
      → length m ≤ f
      → drain (length (m ++ padding (length m))) h0 (m ++ padding (length m))
        ≡ drain (f + f) h.state (padded_tail zeros)
  unfolding padding
  drain_padded zeros f z big enough =
      let pad = padding (length m) in
      let bits : length m * 8 % 2 ^ 64 ≡ h.total_bytes * 8 % 2 ^ 64 = omega (arith, r.total) in
      let shape : pending h ++ pad ≡ padded_tail zeros =
        ap (λ n. pending h ++ 0x80 ∷ (replicate n 0 ++ big_endian 8 (length m * 8 % 2 ^ 64))) z
        ∙ ap (λ n. pending h ++ 0x80 ∷ (replicate zeros 0 ++ big_endian 8 n)) bits
        ∙ sym (
            append_assoc (pending h) (0x80 ∷ replicate zeros 0)
              (big_endian 8 (h.total_bytes * 8 % 2 ^ 64))) in
      let size = length-padding (length m) in
      drain_fuel (length (m ++ pad)) (f + f) h0 (m ++ pad) (omega arith)
        (omega (arith, length-append m pad))
      ∙ drain-append (f + f) h0 m pad (omega arith)
      ∙ ap (λ (p : State × Bytes). drain (f + f) p.0 (p.1 ++ pad))
          (drain_fuel (f + f) (length m) h0 m (omega arith) (omega arith) ∙ sym r.viewed)
      ∙ ap (drain (f + f) h.state) shape

  final_state_one :
      h.buffered < 56
      → final_state h ≡ (drain (length (m ++ padding (length m))) h0 (m ++ padding (length m))).0
  unfolding final_state
  final_state_one few =
      let zeros = 55 - h.buffered in
      let tail = padded_tail zeros in
      let small : ltb h.buffered 56 ≡ true = ground arith in
      let f = 128 + length m in
      let size : length tail ≡ 64 = length-padded_tail zeros ∙ omega arith in
      let block : take 64 (final_block h) ≡ tail =
        ap (take 64) (
          final_block_lem h zeros 64 64 (length-pending h r.valid) (rw small) (omega arith) refl
          ∙ sym (
              append_assoc (pending h ++ 0x80 ∷ replicate zeros 0)
                (big_endian 8 (h.total_bytes * 8 % 2 ^ 64)) (replicate 64 0)))
        ∙ take_exact 64 tail (replicate 64 0) size in
      rw small (
        ap (process_block h.state) (block ∙ sym (take_all 64 tail (omega arith)))
        ∙ sym (drain_one (127 + length m + f) h.state tail size)
        ∙ ap (λ n. (drain n h.state tail).0) (omega arith)
        ∙ ap (λ (p : State × Bytes). p.0)
            (sym (drain_padded zeros f (omega (arith, buffered_mod)) (omega arith) (omega arith))))

  final_state_two :
      56 ≤ h.buffered
      → final_state h ≡ (drain (length (m ++ padding (length m))) h0 (m ++ padding (length m))).0
  unfolding final_state
  final_state_two many =
      let zeros = 119 - h.buffered in
      let tail = padded_tail zeros in
      let large : ltb h.buffered 56 ≡ false = ground arith in
      let f = 128 + length m in
      let size : length tail ≡ 128 = length-padded_tail zeros ∙ omega (arith, r.valid.room) in
      let block : final_block h ≡ tail =
        final_block_lem h zeros 0 128 (length-pending h r.valid) (rw large)
          (omega (arith, r.valid.room)) refl
        ∙ ap (◌++◌ (pending h ++ 0x80 ∷ replicate zeros 0))
            (append-nil (big_endian 8 (h.total_bytes * 8 % 2 ^ 64))) in
      rw large (
        ap (λ b. process_block (process_block h.state (take 64 b)) (take 64 (drop 64 b))) block
        ∙ sym (drain_two (126 + length m + f) h.state tail size)
        ∙ ap (λ n. (drain n h.state tail).0) (omega arith)
        ∙ ap (λ (p : State × Bytes). p.0)
            (sym (
              drain_padded zeros f (omega (arith, buffered_mod, r.valid.room)) (omega arith)
                (omega arith))))

  finalize_lem : finalize h ≡ sha256 m
  unfolding finalize sha256
  finalize_lem = elim (Bool-cases (ltb h.buffered 56)) [
    | inl one ↦ ap digest (final_state_one (ground arith))
    | inr two ↦ ap digest (final_state_two (ground arith))
  ]

-- The chunks of a message, put together.
abbrev pub join : List Bytes → Bytes
join [] = []
join (c ∷ cs) = c ++ join cs

Reads-foldl :
    (h : Hasher) (m : Bytes) (chunks : List Bytes)
    → Reads h m
    → Reads (foldl update h chunks) (m ++ join chunks)
Reads-foldl h m [] r = rw (append-nil m) r
Reads-foldl h m (c ∷ cs) r =
    rw (append_assoc m c (join cs)) at (Reads-foldl (update h c) (m ++ c) cs (Reads-update h m c r))

-- However a message is split into calls of `Update` on a new hasher, `Finalize` then returns its
-- SHA-256: the digest of the message with the padding of FIPS 180-4, compressed block by block.
pub finalize-update :
    (chunks : List Bytes) → finalize (foldl update fresh chunks) ≡ sha256 (join chunks)
finalize-update chunks =
    finalize_lem (foldl update fresh chunks) (join chunks) (Reads-foldl fresh [] chunks Reads-fresh)
