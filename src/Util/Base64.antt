-- ===== src/Util/Base64.antt =====
-- `base64_encode`, `base64_decode` and `hex_encode` of daemon/src/util.c. The input of the decoder is a
-- C string, a list without a NUL; `NULL` is `none`. The accumulator is a uint32_t.
pub mod Symbols
pub mod RoundTrip
pub mod Bounds
pub mod Tests
use clipnet.Base.{
  ℕ, suc, ◌+◌, ◌-◌, ◌*◌, ◌/◌, ◌%◌, ◌^◌, Bool, true, false, ◌||◌, Option, none, some, [], ◌∷◌, ◌++◌,
  ltb, leb, ◌==◌, if◌then◌else◌, get_elem?, Bytes, codes,
}

-- The alphabet `b64`.
abbrev pub alphabet : Bytes
alphabet = codes "ABCDEFGHIJKLMNOPQRSTUVWXYZabcdefghijklmnopqrstuvwxyz0123456789+/"

-- `b64[v]`.
unfoldable pub symbol : ℕ → ℕ
symbol v = elim (get_elem? alphabet v) [ none ↦ 0 | some c ↦ c ]

unfoldable pub base64_encode : Bytes → Bytes
unfolding symbol
base64_encode [] = []
base64_encode (a ∷ []) =
    let v = a * 65536 in symbol (v / 262144) ∷ symbol (v / 4096 % 64) ∷ b'=' ∷ b'=' ∷ []
base64_encode (a ∷ b ∷ []) =
    let v = a * 65536 + b * 256 in
    symbol (v / 262144) ∷ symbol (v / 4096 % 64) ∷ symbol (v / 64 % 64) ∷ b'=' ∷ []
base64_encode (a ∷ b ∷ c ∷ s) =
    let v = a * 65536 + b * 256 + c in
    symbol (v / 262144)
    ∷ symbol (v / 4096 % 64)
    ∷ symbol (v / 64 % 64)
    ∷ symbol (v % 64)
    ∷ base64_encode s

-- `strchr(b64, c) - b64`.
pub position : ℕ → Bytes → Option ℕ
position c [] = none
position c (x ∷ xs) =
    if x == c then some 0 else elim (position c xs) [ none ↦ none | some i ↦ some (suc i) ]

unfoldable pub is_blank : ℕ → Bool
is_blank c = c == b' ' || c == b'\n' || c == b'\r' || c == b'\t'

-- acc << 6 | v.
abbrev pub shift_in : ℕ → ℕ → ℕ
shift_in acc v = acc * 64 % 2 ^ 32 + v

-- The loop of `base64_decode` and the test behind it; `out` is what has been written.
pub decode_loop : Bytes → ℕ → ℕ → ℕ → Bytes → Option Bytes
decode_loop [] acc bits pad out = if ltb 2 pad || leb 6 bits then none else some out
decode_loop (c ∷ s) acc bits pad out = elim (is_blank c) [
  | true ↦ decode_loop s acc bits pad out
  | false ↦ elim (c == b'=') [
    | true ↦ decode_loop s acc bits (pad + 1) out
    | false ↦ elim (0 == pad) [
      | false ↦ none
      | true ↦ elim (position c alphabet) [
        | none ↦ none
        | some v ↦ elim (leb 8 (bits + 6)) [
          | true ↦
              decode_loop s (shift_in acc v) (bits + 6 - 8) pad
                (out ++ (shift_in acc v / 2 ^ (bits + 6 - 8) % 256) ∷ [])
          | false ↦ decode_loop s (shift_in acc v) (bits + 6) pad out
        ]
      ]
    ]
  ]
]

unfoldable pub base64_decode : Bytes → Option Bytes
unfolding decode_loop position is_blank
base64_decode s = decode_loop s 0 0 0 []

-- `hex[v]`.
unfoldable pub hex_digit : ℕ → ℕ
hex_digit v = elim (get_elem? (codes "0123456789abcdef") v) [ none ↦ 0 | some c ↦ c ]

unfoldable pub hex_encode : Bytes → Bytes
unfolding hex_digit
hex_encode [] = []
hex_encode (b ∷ s) = hex_digit (b / 16) ∷ hex_digit (b % 16) ∷ hex_encode s
