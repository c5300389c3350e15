-- ===== src/Core/Hash/Words.antt =====
-- src/core/Hash.cpp, `RotR` and `ProcessBlock`: the compression function over 32-bit words. Words
-- are numbers below 2 ^ 32, and each sum keeps its wrap-around.
use Prim.Native.Nat.{bit_and, bit_or, bit_xor}
use veritas.Common.{ℕ, zero, suc, ◌+◌, ◌-◌, ◌*◌, ◌/◌, ◌%◌, ◌^◌, List, [], ◌∷◌, Bytes, get_or}

-- `kSHA256K`
abbrev k_sha256 : List ℕ
k_sha256 =
    0x428a2f98 ∷ 0x71374491 ∷ 0xb5c0fbcf ∷ 0xe9b5dba5 ∷ 0x3956c25b ∷ 0x59f111f1 ∷ 0x923f82a4
    ∷ 0xab1c5ed5 ∷ 0xd807aa98 ∷ 0x12835b01 ∷ 0x243185be ∷ 0x550c7dc3 ∷ 0x72be5d74 ∷ 0x80deb1fe
    ∷ 0x9bdc06a7 ∷ 0xc19bf174 ∷ 0xe49b69c1 ∷ 0xefbe4786 ∷ 0x0fc19dc6 ∷ 0x240ca1cc ∷ 0x2de92c6f
    ∷ 0x4a7484aa ∷ 0x5cb0a9dc ∷ 0x76f988da ∷ 0x983e5152 ∷ 0xa831c66d ∷ 0xb00327c8 ∷ 0xbf597fc7
    ∷ 0xc6e00bf3 ∷ 0xd5a79147 ∷ 0x06ca6351 ∷ 0x14292967 ∷ 0x27b70a85 ∷ 0x2e1b2138 ∷ 0x4d2c6dfc
    ∷ 0x53380d13 ∷ 0x650a7354 ∷ 0x766a0abb ∷ 0x81c2c92e ∷ 0x92722c85 ∷ 0xa2bfe8a1 ∷ 0xa81a664b
    ∷ 0xc24b8b70 ∷ 0xc76c51a3 ∷ 0xd192e819 ∷ 0xd6990624 ∷ 0xf40e3585 ∷ 0x106aa070 ∷ 0x19a4c116
    ∷ 0x1e376c08 ∷ 0x2748774c ∷ 0x34b0bcb5 ∷ 0x391c0cb3 ∷ 0x4ed8aa4a ∷ 0x5b9cca4f ∷ 0x682e6ff3
    ∷ 0x748f82ee ∷ 0x78a5636f ∷ 0x84c87814 ∷ 0x8cc70208 ∷ 0x90befffa ∷ 0xa4506ceb ∷ 0xbef9a3f7
    ∷ 0xc67178f2 ∷ []

-- The eight words of `state_`, and the working variables `a` to `h`.
pub record State : Type 0 where
  pub a : ℕ
  pub b : ℕ
  pub c : ℕ
  pub d : ℕ
  pub e : ℕ
  pub f : ℕ
  pub g : ℕ
  pub h : ℕ

-- `kSHA256H0`
abbrev pub h0 : State
h0 = record {
  a = 0x6a09e667;
  b = 0xbb67ae85;
  c = 0x3c6ef372;
  d = 0xa54ff53a;
  e = 0x510e527f;
  f = 0x9b05688c;
  g = 0x1f83d9ab;
  h = 0x5be0cd19;
}

abbrev u32 : ℕ → ℕ
u32 x = x % 2 ^ 32

-- `uint32_t` shifts: `x << n` drops the bits above the word.
abbrev shl : ℕ → ℕ → ℕ
shl x n = u32 (x * 2 ^ n)

abbrev shr : ℕ → ℕ → ℕ
shr x n = x / 2 ^ n

rot_r : ℕ → ℕ → ℕ
rot_r x n = bit_or (shr x n) (shl x (32 - n))

abbrev xor3 : ℕ → ℕ → ℕ → ℕ
xor3 x y z = bit_xor (bit_xor x y) z

-- `w[0 .. 16)`, the big-endian words of the block, the latest word first.
load_words : ℕ → Bytes → List ℕ → List ℕ
load_words zero block ws = ws
load_words (suc n) (b0 ∷ b1 ∷ b2 ∷ b3 ∷ rest) ws =
    load_words n rest (bit_or (bit_or (bit_or (shl b0 24) (shl b1 16)) (shl b2 8)) b3 ∷ ws)
load_words (suc n) _ ws = ws

-- One more word of the schedule, with `w[i - 1]` at the head of the list.
next_word : List ℕ → ℕ
unfolding rot_r
next_word ws =
    let w15 = get_or ws 14 0 in
    let w2 = get_or ws 1 0 in
    let s0 = xor3 (rot_r w15 7) (rot_r w15 18) (shr w15 3) in
    let s1 = xor3 (rot_r w2 17) (rot_r w2 19) (shr w2 10) in
    u32 (u32 (u32 (get_or ws 15 0 + s0) + get_or ws 6 0) + s1)

extend : ℕ → List ℕ → List ℕ
extend zero ws = ws
extend (suc n) ws = extend n (next_word ws ∷ ws)

abbrev flip_onto : List ℕ → List ℕ → List ℕ
flip_onto [] acc = acc
flip_onto (x ∷ xs) acc = flip_onto xs (x ∷ acc)

-- One of the 64 rounds, with `k = kSHA256K[i]` and `w = w[i]`.
round : State → ℕ → ℕ → State
unfolding rot_r
round s k w =
    let s1 = xor3 (rot_r s.e 6) (rot_r s.e 11) (rot_r s.e 25) in
    let ch = bit_xor (bit_and s.e s.f) (bit_and (2 ^ 32 - 1 - s.e) s.g) in
    let temp1 = u32 (u32 (u32 (u32 (s.h + s1) + ch) + k) + w) in
    let s0 = xor3 (rot_r s.a 2) (rot_r s.a 13) (rot_r s.a 22) in
    let maj = xor3 (bit_and s.a s.b) (bit_and s.a s.c) (bit_and s.b s.c) in
    let temp2 = u32 (s0 + maj) in
    record {
      a = u32 (temp1 + temp2);
      b = s.a;
      c = s.b;
      d = s.c;
      e = u32 (s.d + temp1);
      f = s.e;
      g = s.f;
      h = s.g;
    }

rounds : State → List ℕ → List ℕ → State
rounds s (k ∷ ks) (w ∷ ws) = rounds (round s k w) ks ws
rounds s _ _ = s

unfoldable pub process_block : State → Bytes → State
unfolding load_words next_word extend round rounds
process_block s block =
    let ws = extend 48 (load_words 16 block []) in
    let t = rounds s k_sha256 (flip_onto ws []) in
    record {
      a = u32 (s.a + t.a);
      b = u32 (s.b + t.b);
      c = u32 (s.c + t.c);
      d = u32 (s.d + t.d);
      e = u32 (s.e + t.e);
      f = u32 (s.f + t.f);
      g = u32 (s.g + t.g);
      h = u32 (s.h + t.h);
    }
