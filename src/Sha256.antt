-- ===== src/Sha256.antt =====
-- daemon/src/sha256.c. Words are numbers below 2 ^ 32; a shift is a division or a multiplication by a
-- power of two. `block` holds the bytes of the buffer that are filled, so `fill` is its length.
pub mod Absorb
pub mod Padding
pub mod Tests
use Prim.Native.Nat.{bit_and, bit_or, bit_xor}
use clipnet.Base.{
  ℕ, zero, suc, ◌+◌, ◌-◌, ◌*◌, ◌/◌, ◌%◌, ◌^◌, min, true, false, none, some, List, [], ◌∷◌, ◌++◌,
  ltb, leb, ◌==◌, length, get_elem?, take, drop, Bytes,
}

abbrev pub word_size : ℕ
word_size = 2 ^ 32

unfoldable pub ror : ℕ → ℕ → ℕ
ror x n = bit_or (x / 2 ^ n) (x * 2 ^ (32 - n) % word_size)

abbrev pub round_constants : List ℕ
round_constants =
    0x428a2f98 ∷ 0x71374491 ∷ 0xb5c0fbcf ∷ 0xe9b5dba5 ∷ 0x3956c25b ∷ 0x59f111f1 ∷ 0x923f82a4
    ∷ 0xab1c5ed5 ∷ 0xd807aa98 ∷ 0x12835b01 ∷ 0x243185be ∷ 0x550c7dc3 ∷ 0x72be5d74 ∷ 0x80deb1fe
    ∷ 0x9bdc06a7 ∷ 0xc19bf174 ∷ 0xe49b69c1 ∷ 0xefbe4786 ∷ 0x0fc19dc6 ∷ 0x240ca1cc ∷ 0x2de92c6f
    ∷ 0x4a7484aa ∷ 0x5cb0a9dc ∷ 0x76f988da ∷ 0x983e5152 ∷ 0xa831c66d ∷ 0xb00327c8 ∷ 0xbf597fc7
    ∷ 0xc6e00bf3 ∷ 0xd5a79147 ∷ 0x06ca6351 ∷ 0x14292967 ∷ 0x27b70a85 ∷ 0x2e1b2138 ∷ 0x4d2c6dfc
    ∷ 0x53380d13 ∷ 0x650a7354 ∷ 0x766a0abb ∷ 0x81c2c92e ∷ 0x92722c85 ∷ 0xa2bfe8a1 ∷ 0xa81a664b
    ∷ 0xc24b8b70 ∷ 0xc76c51a3 ∷ 0xd192e819 ∷ 0xd6990624 ∷ 0xf40e3585 ∷ 0x106aa070 ∷ 0x19a4c116
    ∷ 0x1e376c08 ∷ 0x2748774c ∷ 0x34b0bcb5 ∷ 0x391c0cb3 ∷ 0x4ed8aa4a ∷ 0x5b9cca4f ∷ 0x682e6ff3
    ∷ 0x748f82ee ∷ 0x78a5636f ∷ 0x84c87814 ∷ 0x8cc70208 ∷ 0x90befffa ∷ 0xa4506ceb ∷ 0xbef9a3f7
    ∷ 0xc67178f2 ∷ []

-- The members of `h`, and the variables of the same names in `compress`.
pub record Words : Type 0 where
  pub a : ℕ
  pub b : ℕ
  pub c : ℕ
  pub d : ℕ
  pub e : ℕ
  pub f : ℕ
  pub g : ℕ
  pub h : ℕ

abbrev pub initial : Words
initial = record {
  a = 0x6a09e667;
  b = 0xbb67ae85;
  c = 0x3c6ef372;
  d = 0xa54ff53a;
  e = 0x510e527f;
  f = 0x9b05688c;
  g = 0x1f83d9ab;
  h = 0x5be0cd19;
}

-- The first loop of `compress`, over a block of 64 bytes.
unfoldable pub load : Bytes → List ℕ
load [] = []
load (x ∷ []) = []
load (x ∷ y ∷ []) = []
load (x ∷ y ∷ z ∷ []) = []
load (x ∷ y ∷ z ∷ t ∷ p) = (((x * 256 + y) * 256 + z) * 256 + t) ∷ load p

abbrev pub word_at : List ℕ → ℕ → ℕ
word_at w i = elim (get_elem? w i) [ none ↦ 0 | some x ↦ x ]

-- The second loop: `w` holds the words below `i`.
unfoldable pub extend : ℕ → ℕ → List ℕ → List ℕ
unfolding ror
extend zero i w = w
extend (suc n) i w =
    let x = word_at w (i - 15) in
    let y = word_at w (i - 2) in
    let s0 = bit_xor (bit_xor (ror x 7) (ror x 18)) (x / 2 ^ 3) in
    let s1 = bit_xor (bit_xor (ror y 17) (ror y 19)) (y / 2 ^ 10) in
    extend n (suc i) (w ++ (word_at w (i - 16) + s0 + word_at w (i - 7) + s1) % word_size ∷ [])

-- A round of the third loop.
unfoldable pub round : ℕ → ℕ → Words → Words
unfolding ror
round k w v =
    let big1 = bit_xor (bit_xor (ror v.e 6) (ror v.e 11)) (ror v.e 25) in
    let ch = bit_xor (bit_and v.e v.f) (bit_and (word_size - 1 - v.e) v.g) in
    let t1 = (v.h + big1 + ch + k + w) % word_size in
    let big0 = bit_xor (bit_xor (ror v.a 2) (ror v.a 13)) (ror v.a 22) in
    let maj = bit_xor (bit_xor (bit_and v.a v.b) (bit_and v.a v.c)) (bit_and v.b v.c) in
    let t2 = (big0 + maj) % word_size in
    record {
      a = (t1 + t2) % word_size;
      b = v.a;
      c = v.b;
      d = v.c;
      e = (v.d + t1) % word_size;
      f = v.e;
      g = v.f;
      h = v.g;
    }

unfoldable pub rounds : List ℕ → List ℕ → Words → Words
unfolding round
rounds [] ws v = v
rounds (k ∷ ks) [] v = v
rounds (k ∷ ks) (w ∷ ws) v = rounds ks ws (round k w v)

unfoldable pub compress : Words → Bytes → Words
unfolding load extend rounds
compress s p =
    let v = rounds round_constants (extend 48 16 (load p)) s in
    record {
      a = (s.a + v.a) % word_size;
      b = (s.b + v.b) % word_size;
      c = (s.c + v.c) % word_size;
      d = (s.d + v.d) % word_size;
      e = (s.e + v.e) % word_size;
      f = (s.f + v.f) % word_size;
      g = (s.g + v.g) % word_size;
      h = (s.h + v.h) % word_size;
    }

pub record Sha256 : Type 0 where
  pub words : Words
  pub total : ℕ
  pub block : Bytes

unfoldable pub sha256_init : Sha256
sha256_init = record { words = initial; total = 0; block = [] }

-- The loop over whole blocks and what follows it. The fuel is the number of bytes; a round takes 64.
unfoldable pub whole_blocks : ℕ → Words → Bytes → Words × Bytes
unfolding compress
whole_blocks zero w p = (w, p)
whole_blocks (suc n) w p = elim (leb 64 (length p)) [
  | true ↦ whole_blocks n (compress w (take 64 p)) (drop 64 p)
  | false ↦ (w, p)
]

abbrev pub with_total : ℕ → Words × Bytes → Sha256
with_total t (w, p) = record { words = w; total = t; block = p }

unfoldable pub sha256_update : Sha256 → Bytes → Sha256
unfolding compress whole_blocks
sha256_update s p =
    let total = (s.total + length p) % 2 ^ 64 in
    let n = min (64 - length s.block) (length p) in
    let block = s.block ++ take n p in
    let rest = drop n p in
    elim (ltb 0 (length s.block)) [
      | true ↦ elim (ltb (length block) 64) [
        | true ↦ record { words = s.words; total = total; block = block }
        | false ↦ with_total total (whole_blocks (length rest) (compress s.words block) rest)
      ]
      | false ↦ with_total total (whole_blocks (length p) s.words p)
    ]

-- The loop of `sha256_final`; it runs at most 63 times.
unfoldable pub fill_zeros : ℕ → Sha256 → Sha256
unfolding sha256_update
fill_zeros zero s = s
fill_zeros (suc n) s = elim (length s.block == 56) [
  | true ↦ s
  | false ↦ fill_zeros n (sha256_update s (0 ∷ []))
]

-- The lowest `n` bytes of a number, the highest first.
unfoldable pub big_endian : ℕ → ℕ → Bytes
big_endian zero x = []
big_endian (suc n) x = x / 2 ^ (8 * n) % 256 ∷ big_endian n x

unfoldable pub digest : Words → Bytes
unfolding big_endian
digest w =
    big_endian 4 w.a
    ++ big_endian 4 w.b
    ++ big_endian 4 w.c
    ++ big_endian 4 w.d
    ++ big_endian 4 w.e
    ++ big_endian 4 w.f
    ++ big_endian 4 w.g
    ++ big_endian 4 w.h

unfoldable pub sha256_final : Sha256 → Bytes
unfolding sha256_update fill_zeros big_endian digest
sha256_final s =
    let bits = s.total * 8 % 2 ^ 64 in
    let padded = fill_zeros 64 (sha256_update s (0x80 ∷ [])) in
    digest (sha256_update padded (big_endian 8 bits)).words

unfoldable pub sha256 : Bytes → Bytes
unfolding sha256_init sha256_update sha256_final
sha256 p = sha256_final (sha256_update sha256_init p)
