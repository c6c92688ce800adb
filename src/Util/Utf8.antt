-- ===== src/Util/Utf8.antt =====
-- UTF-8: `utf8_valid`, `utf8_prefix` and `latin1_to_utf8` of daemon/src/util.c, `put_utf8` of
-- daemon/src/textutil.c, and `decode`, `put` and `encode` of daemon/src/transform.c.
-- A text `s` of `n` bytes with an index `i` is the list of the bytes from `i` on, so `i + len > n` is
-- a test on the length of that list. A loop takes the number of bytes as its fuel: every round
-- consumes at least one. `(c & 0xE0) == 0xC0` is `c / 32 == 6`, `cp << 6 | x & 0x3F` is
-- `cp * 64 + x % 64`, and so on (Base/Masks.antt); no value here reaches 2^32.
pub mod Rounds
pub mod Valid
pub mod Prefix
pub mod Tests
use clipnet.Base.{
  ℕ, zero, suc, ◌+◌, ◌-◌, ◌*◌, ◌/◌, ◌%◌, ◌≤◌, ◌<◌, ◌⊎◌, Bool, true, false, ◌&&◌, ◌||◌, Option, none,
  some, List, [], ◌∷◌, ◌++◌, ltb, leb, ◌==◌, if◌then◌else◌, length, drop, Bytes,
}

-- The length and the payload bits that a lead byte announces.
unfoldable pub lead : ℕ → Option (ℕ × ℕ)
lead c =
    if c / 32 == 6
    then some (2, c % 32)
    else if c / 16 == 14
    then some (3, c % 16)
    else if c / 8 == 30
    then some (4, c % 8)
    else none

-- The rounds `k = 1 .. len - 1` over the bytes behind the lead byte.
unfoldable pub conts : ℕ → ℕ → Bytes → Option ℕ
conts zero cp s = some cp
conts (suc k) cp [] = none
conts (suc k) cp (b ∷ s) = elim (b / 64 == 2) [ true ↦ conts k (cp * 64 + b % 64) s | false ↦ none ]

-- Overlong forms, surrogates and values past U+10FFFF.
pub rejected : ℕ → ℕ → Bool
rejected len cp =
    (len == 2 && ltb cp 0x80)
    || (len == 3 && ltb cp 0x800)
    || (len == 4 && ltb cp 0x10000)
    || ltb 0x10FFFF cp
    || (leb 0xD800 cp && leb cp 0xDFFF)

-- One round of `utf8_valid` at the byte `c`: the text behind the sequence, or `return false`.
pub valid_step : ℕ → Bytes → Option Bytes
valid_step c s = if ltb c 0x80 then some s else elim (lead c) [
  | none ↦ none
  | some (len, bits) ↦ if ltb (suc (length s)) len then none else elim (conts (len - 1) bits s) [
    | none ↦ none
    | some cp ↦ if rejected len cp then none else some (drop (len - 1) s)
  ]
]

pub valid_from : ℕ → Bytes → Bool
valid_from fuel [] = true
valid_from zero (c ∷ s) = false
valid_from (suc fuel) (c ∷ s) = elim (valid_step c s) [
  | none ↦ false
  | some rest ↦ valid_from fuel rest
]

unfoldable pub utf8_valid : Bytes → Bool
unfolding valid_from valid_step rejected lead conts
utf8_valid s = valid_from (length s) s

-- One round of `decode`: the code point that is pushed, and the text that is left.
pub decode_step : ℕ → Bytes → ℕ × Bytes
decode_step c s = if ltb c 0x80 then (c, s) else elim (lead c) [
  | none ↦ (0xFFFD, s)
  | some (len, bits) ↦
      if ltb (suc (length s)) len
      then (0xFFFD, [])
      else elim (conts (len - 1) bits s) [ none ↦ (0xFFFD, s) | some cp ↦ (cp, drop (len - 1) s) ]
]

pub decode_from : ℕ → Bytes → List ℕ
decode_from fuel [] = []
decode_from zero (c ∷ s) = []
decode_from (suc fuel) (c ∷ s) = let (cp, rest) = decode_step c s in cp ∷ decode_from fuel rest

unfoldable pub decode : Bytes → List ℕ
unfolding decode_from decode_step lead conts
decode s = decode_from (length s) s

unfoldable pub put : ℕ → Bytes
put cp =
    if ltb cp 0x80
    then cp ∷ []
    else if ltb cp 0x800
    then (0xC0 + cp / 64) ∷ (0x80 + cp % 64) ∷ []
    else if ltb cp 0x10000
    then (0xE0 + cp / 4096) ∷ (0x80 + cp / 64 % 64) ∷ (0x80 + cp % 64) ∷ []
    else (0xF0 + cp / 262144)
      ∷ (0x80 + cp / 4096 % 64)
      ∷ (0x80 + cp / 64 % 64)
      ∷ (0x80 + cp % 64)
      ∷ []

unfoldable pub encode : List ℕ → Bytes
unfolding put
encode [] = []
encode (cp ∷ cps) = put cp ++ encode cps

-- The writer of character references: what is no scalar value becomes U+FFFD.
unfoldable pub put_utf8 : ℕ → Bytes
unfolding put
put_utf8 cp =
    put (if cp == 0 || ltb 0x10FFFF cp || (leb 0xD800 cp && leb cp 0xDFFF) then 0xFFFD else cp)

-- The length that `utf8_prefix` and `text_preview` take from a lead byte without a check.
unfoldable pub seq_len : ℕ → ℕ
seq_len c = if ltb c 0x80 then 1 else if c / 32 == 6 then 2 else if c / 16 == 14 then 3 else 4

-- `i` after the rounds of `utf8_prefix`; `most` counts the characters still allowed.
pub prefix_from : ℕ → ℕ → ℕ → Bytes → ℕ
prefix_from fuel i zero s = i
prefix_from fuel i (suc most) [] = i
prefix_from zero i (suc most) (c ∷ s) = i
prefix_from (suc fuel) i (suc most) (c ∷ s) = elim (ltb (suc (length s)) (seq_len c)) [
  | true ↦ i
  | false ↦ prefix_from fuel (i + seq_len c) most (drop (seq_len c) (c ∷ s))
]

unfoldable pub utf8_prefix : Bytes → ℕ → ℕ
unfolding prefix_from seq_len
utf8_prefix s most = prefix_from (length s) 0 most s

unfoldable pub latin1_to_utf8 : Bytes → Bytes
latin1_to_utf8 [] = []
latin1_to_utf8 (b ∷ s) =
    (if ltb b 0x80 then b ∷ [] else (0xC0 + b / 64) ∷ (0x80 + b % 64) ∷ []) ++ latin1_to_utf8 s

-- A Unicode scalar value.
abbrev pub IsScalar : ℕ → Type 0
IsScalar cp = (cp ≤ 0x10FFFF) × ((cp < 0xD800) ⊎ (0xDFFF < cp))
