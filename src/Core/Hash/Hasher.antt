-- ===== src/Core/Hash/Hasher.antt =====
-- src/core/Hash.cpp, `SHA256Hasher` and `ComputeSHA256`.
use veritas.Common.{
  ℕ, zero, suc, ◌+◌, ◌-◌, ◌*◌, ◌/◌, ◌%◌, ◌^◌, min, true, false, [], ◌∷◌, ◌++◌, Bytes, length, take,
  drop, replicate, ◌==◌, ltb, leb, if◌then◌else◌, IsBytes, arith,
}
use veritas.Core.Hash.Words.{State, h0, process_block}

-- `SHA256Hasher`: `buffer` is the array of 64 bytes, stale behind the first `buffered`.
pub record Hasher : Type 0 where
  pub state : State
  pub buffer : Bytes
  pub buffered : ℕ
  pub total_bytes : ℕ

-- The constructor.
abbrev pub fresh : Hasher
fresh = record { state = h0; buffer = replicate 64 0; buffered = 0; total_bytes = 0 }

-- `memcpy(array + offset, bytes, size)`
abbrev pub memcpy : Bytes → ℕ → Bytes → Bytes
memcpy array offset bytes = take offset array ++ (bytes ++ drop (offset + length bytes) array)

-- `while (remaining >= 64)`: the state, and the bytes that are left.
unfoldable pub drain : ℕ → State → Bytes → State × Bytes
drain zero s bytes = (s, bytes)
drain (suc fuel) s bytes = elim (leb 64 (length bytes)) [
  | true ↦ drain fuel (process_block s (take 64 bytes)) (drop 64 bytes)
  | false ↦ (s, bytes)
]

-- `if (buffered_ != 0)`: fill the buffer, and process it when it is full.
unfoldable pub fill : Hasher → Bytes → Hasher × Bytes
fill h bytes =
    if h.buffered == 0
    then (h, bytes)
    else let copied = min (length bytes) (64 - h.buffered) in
      let buffer = memcpy h.buffer h.buffered (take copied bytes) in
      let rest = drop copied bytes in
      if h.buffered + copied == 64
      then (record h { state = process_block h.state buffer; buffer = buffer; buffered = 0 }, rest)
      else (record h { buffer = buffer; buffered = h.buffered + copied }, rest)

-- `if (remaining != 0)` after that loop: the bytes left are kept for later.
unfoldable pub keep : Hasher → State → Bytes → Hasher
keep h s rest =
    if length rest == 0
    then record h { state = s }
    else record h { state = s; buffer = memcpy h.buffer 0 rest; buffered = length rest }

-- The loop, and what it leaves. A run of `n` bytes has at most `n` rounds.
unfoldable pub absorb : Hasher → Bytes → Hasher
absorb h bytes = let (s, rest) = drain (length bytes) h.state bytes in keep h s rest

unfoldable pub update : Hasher → Bytes → Hasher
update h bytes =
    if length bytes == 0
    then h
    else let h' = record h { total_bytes = (h.total_bytes + length bytes) % 2 ^ 64 } in
      let (filled, rest) = fill h' bytes in absorb filled rest

-- The `i`-th byte of the big-endian form of a word or length of `n` bytes.
abbrev pub byte_of : ℕ → ℕ → ℕ
byte_of x i = x / 2 ^ (i * 8) % 256

-- `final_block[total_len - 1 - i] = bit_len >> (i * 8)` for `i` below 8.
unfoldable pub store_length : ℕ → ℕ → ℕ → Bytes → Bytes
store_length zero total_len bit_len block = block
store_length (suc i) total_len bit_len block =
    store_length i total_len bit_len (memcpy block (total_len - 1 - i) (byte_of bit_len i ∷ []))

abbrev pub word_bytes : ℕ → Bytes
word_bytes w = byte_of w 3 ∷ byte_of w 2 ∷ byte_of w 1 ∷ byte_of w 0 ∷ []

-- The digest of a state: its words, big-endian.
abbrev pub digest : State → Bytes
digest s =
    word_bytes s.a
    ++ (word_bytes s.b
        ++ (word_bytes s.c
            ++ (word_bytes s.d
                ++ (word_bytes s.e ++ (word_bytes s.f ++ (word_bytes s.g ++ word_bytes s.h))))))

pub digest-IsBytes : (s : State) → IsBytes (digest s)
digest-IsBytes s = omega arith

-- `final_block`, and whether it is one block or two.
unfoldable pub final_block : Hasher → Bytes
final_block h =
    let copied = memcpy (replicate 128 0) 0 (take h.buffered h.buffer) in
    let marked = memcpy copied h.buffered (0x80 ∷ []) in
    let total_len = if ltb h.buffered 56 then 64 else 128 in
    store_length 8 total_len (h.total_bytes * 8 % 2 ^ 64) marked

-- The copy of the state after the last block or two.
unfoldable pub final_state : Hasher → State
final_state h =
    let block = final_block h in
    let s = process_block h.state (take 64 block) in
    if ltb h.buffered 56 then s else process_block s (take 64 (drop 64 block))

unfoldable pub finalize : Hasher → Bytes
finalize h = digest (final_state h)

unfoldable pub compute_sha256 : Bytes → Bytes
unfolding update finalize final_state drain fill keep absorb final_block store_length
compute_sha256 bytes = finalize (update fresh bytes)
