-- ===== src/Util/Utf8/Rounds.antt =====
-- One round of each loop, at the encoding of a code point.
use clipnet.Base.{
  ℕ, suc, ◌+◌, ◌/◌, ◌%◌, ◌≤◌, ◌<◌, ◌≡◌, some, [], ◌∷◌, ◌++◌, arith, length, Bytes, AllBytes, dec_lt,
}
use clipnet.Util.Utf8.{
  lead, conts, rejected, valid_step, valid_from, decode_step, decode_from, put, IsScalar,
}

pub decode_from-put :
    (fuel cp : ℕ) (rest : Bytes)
    → cp < 0x200000
    → decode_from (suc fuel) (put cp ++ rest) ≡ cp ∷ decode_from fuel rest
unfolding decode_from decode_step lead conts put
decode_from-put fuel cp rest h = ground arith

module _ (cp : ℕ) (rest : Bytes) where
  valid_step_two :
      0x80 ≤ cp → cp < 0x800 → valid_step (0xC0 + cp / 64) ((0x80 + cp % 64) ∷ rest) ≡ some rest
  unfolding valid_step rejected lead conts
  valid_step_two lo hi = ground arith

  conts_three : conts 2 (cp / 4096) ((0x80 + cp / 64 % 64) ∷ (0x80 + cp % 64) ∷ rest) ≡ some cp
  unfolding conts
  conts_three = ground arith

  conts_four :
      conts 3
        (cp / 262144)
        ((0x80 + cp / 4096 % 64) ∷ (0x80 + cp / 64 % 64) ∷ (0x80 + cp % 64) ∷ rest)
      ≡ some cp
  unfolding conts
  conts_four = ground arith

  lead_three : cp < 0x10000 → lead (0xE0 + cp / 4096) ≡ some (3, cp / 4096)
  unfolding lead
  lead_three hi = ground arith

  lead_four : cp < 0x200000 → lead (0xF0 + cp / 262144) ≡ some (4, cp / 262144)
  unfolding lead
  lead_four hi = ground arith

  valid_step_three :
      IsScalar cp
      → 0x800 ≤ cp
      → cp < 0x10000
      → valid_step (0xE0 + cp / 4096) ((0x80 + cp / 64 % 64) ∷ (0x80 + cp % 64) ∷ rest) ≡ some rest
  unfolding valid_step rejected
  valid_step_three h lo hi = ground (arith, conts_three, lead_three hi)

  valid_step_four :
      IsScalar cp
      → 0x10000 ≤ cp
      → valid_step
          (0xF0 + cp / 262144)
          ((0x80 + cp / 4096 % 64) ∷ (0x80 + cp / 64 % 64) ∷ (0x80 + cp % 64) ∷ rest)
        ≡ some rest
  unfolding valid_step rejected
  valid_step_four h lo = ground (arith, conts_four, lead_four (omega arith))

put_one : (cp : ℕ) → cp < 0x80 → put cp ≡ cp ∷ []
unfolding put
put_one cp h = ground arith

put_two : (cp : ℕ) → 0x80 ≤ cp → cp < 0x800 → put cp ≡ (0xC0 + cp / 64) ∷ (0x80 + cp % 64) ∷ []
unfolding put
put_two cp lo hi = ground arith

put_three :
    (cp : ℕ)
    → 0x800 ≤ cp
    → cp < 0x10000
    → put cp ≡ (0xE0 + cp / 4096) ∷ (0x80 + cp / 64 % 64) ∷ (0x80 + cp % 64) ∷ []
unfolding put
put_three cp lo hi = ground arith

put_four :
    (cp : ℕ)
    → 0x10000 ≤ cp
    → put cp
      ≡ (0xF0 + cp / 262144)
        ∷ (0x80 + cp / 4096 % 64)
        ∷ (0x80 + cp / 64 % 64)
        ∷ (0x80 + cp % 64)
        ∷ []
unfolding put
put_four cp lo = ground arith

valid_step_one : (c : ℕ) (s : Bytes) → c < 0x80 → valid_step c s ≡ some s
unfolding valid_step
valid_step_one c s h = ground arith

pub valid_from-put :
    (fuel cp : ℕ) (rest : Bytes)
    → IsScalar cp
    → valid_from (suc fuel) (put cp ++ rest) ≡ valid_from fuel rest
unfolding valid_from
valid_from-put fuel cp rest h = elim (dec_lt cp 0x80) [
  | yes one ↦ rw (put_one cp one, valid_from, valid_step_one cp rest one)
  | no more ↦ elim (dec_lt cp 0x800) [
    | yes two ↦
        rw (put_two cp (omega arith) two, valid_from, valid_step_two cp rest (omega arith) two)
    | no more' ↦ elim (dec_lt cp 0x10000) [
      | yes three ↦ rw (
        put_three cp (omega arith) three,
        valid_from,
        valid_step_three cp rest h (omega arith) three,
      )
      | no four ↦
          rw (put_four cp (omega arith), valid_from, valid_step_four cp rest h (omega arith))
    ]
  ]
]

-- The encoding of a code point is not empty, and is no longer than four bytes.
pub length-put : (cp : ℕ) → (1 ≤ length (put cp)) × (length (put cp) ≤ 4)
unfolding put
length-put cp = ground arith

pub put-AllBytes : (cp : ℕ) → cp < 0x200000 → AllBytes (put cp)
unfolding put
put-AllBytes cp h = ground arith

-- A round that goes on has read the encoding of a scalar value.
pub valid_step_sound :
    (c : ℕ) (s rest : Bytes)
    → c < 256
    → AllBytes s
    → valid_step c s ≡ some rest
    → ((decode_step c s).1 ≡ rest)
      × IsScalar (decode_step c s).0
      × (c ∷ s ≡ put (decode_step c s).0 ++ rest)
unfolding valid_step decode_step rejected lead conts put
valid_step_sound c [] rest b bs h = ground arith
valid_step_sound c (x ∷ []) rest b bs h = ground arith
valid_step_sound c (x ∷ y ∷ []) rest b bs h = ground arith
valid_step_sound c (x ∷ y ∷ z ∷ s) rest b bs h = ground arith
