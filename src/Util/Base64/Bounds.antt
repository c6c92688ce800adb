-- ===== src/Util/Base64/Bounds.antt =====
-- The lengths that the allocations rely on, white space, and `hex_encode`.
use clipnet.Base.{
  ℕ, suc, ◌+◌, ◌-◌, ◌*◌, ◌/◌, ◌%◌, ◌^◌, ◌≤◌, ◌<◌, ◌≡◌, refl, inl, inr, true, false, Option, none,
  some, [], ◌∷◌, ◌++◌, arith, ◌==◌, if◌then◌else◌, Bool-cases, Option-cases, length, length-append,
  Bytes, AllBytes, codes,
}
use clipnet.Base.Masks.{all_below, all_below_sound}
use clipnet.Util.Base64.{
  base64_encode, position, is_blank, decode_loop, base64_decode, hex_digit, hex_encode, alphabet,
  shift_in,
}

-- The encoding fills the `4 * ((n + 2) / 3)` bytes that are allocated for it.
length-base64_encode : (s : Bytes) → length (base64_encode s) ≡ 4 * ((length s + 2) / 3)
unfolding base64_encode
length-base64_encode [] = omega arith
length-base64_encode (a ∷ []) = omega arith
length-base64_encode (a ∷ b ∷ []) = omega arith
length-base64_encode (a ∷ b ∷ c ∷ s) = omega (arith, length-base64_encode s)

-- Each symbol read adds six bits to those written and held.
decode_loop_bound :
    (s : Bytes) (acc bits pad : ℕ) (out r : Bytes) (read : ℕ)
    → 8 * length out + bits ≤ 6 * read
    → decode_loop s acc bits pad out ≡ some r
    → 8 * length r ≤ 6 * (read + length s)
unfolding decode_loop
decode_loop_bound [] acc bits pad out r read held h = ground arith
decode_loop_bound (c ∷ s) acc bits pad out r read held h =
    let skip = decode_loop_bound s acc bits pad out r (suc read) (omega arith) in
    let sign = decode_loop_bound s acc bits (pad + 1) out r (suc read) (omega arith) in
    elim (Option-cases (position c alphabet)) [
      | inl e ↦ ground (arith, e, skip, sign)
      | inr (v, e) ↦
          let acc' = shift_in acc v in
          let written = out ++ (acc' / 2 ^ (bits + 6 - 8) % 256) ∷ [] in
          ground (
            arith,
            e,
            skip,
            sign,
            length-append out ((acc' / 2 ^ (bits + 6 - 8) % 256) ∷ []),
            decode_loop_bound s acc' (bits + 6) pad out r (suc read),
            decode_loop_bound s acc' (bits + 6 - 8) pad written r (suc read),
          )
    ]

-- A successful decoding fits the `n / 4 * 3 + 3` bytes that are allocated for it.
base64_decode_bound : (s r : Bytes) → base64_decode s ≡ some r → length r ≤ length s / 4 * 3 + 3
unfolding base64_decode
base64_decode_bound s r h = omega (arith, decode_loop_bound s 0 0 0 [] r 0 (omega arith) h)

-- The text without its white space.
pub without_blanks : Bytes → Bytes
without_blanks [] = []
without_blanks (c ∷ s) = if is_blank c then without_blanks s else c ∷ without_blanks s

decode_loop-without_blanks :
    (s : Bytes) (acc bits pad : ℕ) (out : Bytes)
    → decode_loop (without_blanks s) acc bits pad out ≡ decode_loop s acc bits pad out
unfolding decode_loop without_blanks
decode_loop-without_blanks [] acc bits pad out = refl
decode_loop-without_blanks (c ∷ s) acc bits pad out = elim (Bool-cases (is_blank c)) [
  | inl e ↦ rw (e, decode_loop) (decode_loop-without_blanks s acc bits pad out)
  | inr e ↦ elim (Option-cases (position c alphabet)) [
    | inl f ↦ ground (arith, e, f, decode_loop-without_blanks s acc bits (pad + 1) out)
    | inr (v, f) ↦
        let acc' = shift_in acc v in
        let written = out ++ (acc' / 2 ^ (bits + 6 - 8) % 256) ∷ [] in
        ground (
          arith,
          e,
          f,
          decode_loop-without_blanks s acc bits (pad + 1) out,
          decode_loop-without_blanks s acc' (bits + 6) pad out,
          decode_loop-without_blanks s acc' (bits + 6 - 8) pad written,
        )
  ]
]

-- White space anywhere in the input changes nothing.
base64_decode-without_blanks : (s : Bytes) → base64_decode (without_blanks s) ≡ base64_decode s
unfolding base64_decode
base64_decode-without_blanks s = decode_loop-without_blanks s 0 0 0 []

-- Reading hexadecimal pairs, as a specification.
pub unhex : Bytes → Option Bytes
unhex [] = some []
unhex (x ∷ []) = none
unhex (x ∷ y ∷ s) = elim (position x (codes "0123456789abcdef")) [
  | none ↦ none
  | some h ↦ elim (position y (codes "0123456789abcdef")) [
    | none ↦ none
    | some l ↦ elim (unhex s) [ none ↦ none | some r ↦ some ((h * 16 + l) ∷ r) ]
  ]
]

hex_table :
    all_below 16 (λ v. elim (position (hex_digit v) (codes "0123456789abcdef")) [
      | none ↦ false
      | some i ↦ i == v
    ])
    ≡ true
unfolding all_below hex_digit position
hex_table = refl

position-hex_digit : (v : ℕ) → v < 16 → position (hex_digit v) (codes "0123456789abcdef") ≡ some v
position-hex_digit v h = ground (
  arith,
  all_below_sound 16
      (λ v. elim (position (hex_digit v) (codes "0123456789abcdef")) [
        | none ↦ false
        | some i ↦ i == v
      ])
      v hex_table h,
)

-- `hex_encode` writes two digits for each byte, from which the byte is read back.
unhex-hex_encode :
    (s : Bytes)
    → AllBytes s
    → (unhex (hex_encode s) ≡ some s) × (length (hex_encode s) ≡ 2 * length s)
unfolding unhex hex_encode
unhex-hex_encode [] h = (refl, omega arith)
unhex-hex_encode (b ∷ s) (hb, hs) = ground (
  arith,
  position-hex_digit (b / 16) (omega arith),
  position-hex_digit (b % 16) (omega arith),
  unhex-hex_encode s hs,
)
