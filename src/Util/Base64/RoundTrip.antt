-- ===== src/Util/Base64/RoundTrip.antt =====
-- `base64_decode` after `base64_encode`.
use clipnet.Base.{
  ℕ, ◌+◌, ◌*◌, ◌/◌, ◌%◌, ◌<◌, ◌≡◌, some, [], ◌∷◌, ◌++◌, append-nil, append_assoc, arith, Bytes,
  AllBytes,
}
use clipnet.Util.Base64.{symbol, decode_loop, base64_encode, shift_in, base64_decode, is_blank}
use clipnet.Util.Base64.Symbols.{decode_keep, decode_write}

-- The bits that are taken out are those of the last two symbols.
module _ (acc : ℕ) (v w : ℕ) where
  second_byte : v < 64 → w < 64 → shift_in (shift_in acc v) w / 16 % 256 ≡ v * 4 + w / 16
  second_byte hv hw = omega arith

  third_byte : v < 64 → w < 64 → shift_in (shift_in acc v) w / 4 % 256 ≡ v % 16 * 16 + w / 4
  third_byte hv hw = omega arith

  fourth_byte : v < 64 → w < 64 → shift_in (shift_in acc v) w / 1 % 256 ≡ v % 4 * 64 + w
  fourth_byte hv hw = omega arith

module _ (w x : ℕ) (acc : ℕ) (out : Bytes) (hw : w < 64) (hx : x < 64) where
  -- Two symbols, from a state that holds no bits, write one byte.
  decode_two :
      (s : Bytes)
      → decode_loop (symbol w ∷ symbol x ∷ s) acc 0 0 out
        ≡ decode_loop s (shift_in (shift_in acc w) x) 4 0 (out ++ (w * 4 + x / 16) ∷ [])
  decode_two s = rw (
    decode_keep w (symbol x ∷ s) acc 0 out hw (omega arith),
    decode_write x s _ 6 out hx (omega arith),
    second_byte acc w x hw hx,
  )

  decode_three :
      (y : ℕ) (s : Bytes)
      → y < 64
      → decode_loop (symbol w ∷ symbol x ∷ symbol y ∷ s) acc 0 0 out
        ≡ decode_loop s
            (shift_in (shift_in (shift_in acc w) x) y)
            2
            0
            ((out ++ (w * 4 + x / 16) ∷ []) ++ (x % 16 * 16 + y / 4) ∷ [])
  decode_three y s hy = rw (
    decode_two (symbol y ∷ s),
    decode_write y s _ 4 _ hy (omega arith),
    third_byte (shift_in acc w) x y hx hy,
  )

  decode_four :
      (y z : ℕ) (s : Bytes)
      → y < 64
      → z < 64
      → decode_loop (symbol w ∷ symbol x ∷ symbol y ∷ symbol z ∷ s) acc 0 0 out
        ≡ decode_loop s (shift_in (shift_in (shift_in (shift_in acc w) x) y) z) 0 0 (
            ((out ++ (w * 4 + x / 16) ∷ []) ++ (x % 16 * 16 + y / 4) ∷ []) ++ (y % 4 * 64 + z) ∷ [])
  decode_four y z s hy hz = rw (
    decode_three y (symbol z ∷ s) hy,
    decode_write z s _ 2 _ hz (omega arith),
    fourth_byte (shift_in (shift_in acc w) x) y z hy hz,
  )

decode_loop-encode :
    (s : Bytes) (acc : ℕ) (out : Bytes)
    → AllBytes s
    → decode_loop (base64_encode s) acc 0 0 out ≡ some (out ++ s)
unfolding base64_encode
decode_loop-encode [] acc out h = unfold decode_loop in rw append-nil
decode_loop-encode (a ∷ []) acc out (ha, _) =
    rw
      (decode_two (a * 65536 / 262144) (a * 65536 / 4096 % 64) acc out (omega arith) (omega arith)
        _)
      (unfold decode_loop is_blank in ground arith)
decode_loop-encode (a ∷ b ∷ []) acc out (ha, (hb, _)) =
    let v = a * 65536 + b * 256 in
    rw
      (decode_three (v / 262144) (v / 4096 % 64) acc out (omega arith) (omega arith) (v / 64 % 64) _
        (omega arith))
      (unfold decode_loop is_blank in rw append_assoc (ground arith))
decode_loop-encode (a ∷ b ∷ c ∷ s) acc out (ha, (hb, (hc, hs))) =
    let v = a * 65536 + b * 256 + c in
    rw
      (
        decode_four (v / 262144) (v / 4096 % 64) acc out (omega arith) (omega arith) (v / 64 % 64)
            (v % 64) (base64_encode s) (omega arith) (omega arith),
        decode_loop-encode s _ _ hs,
      )
      (simp append_assoc (ground arith))

-- Decoding an encoding gives the bytes back, whatever they are.
pub base64_decode-base64_encode :
    (s : Bytes) → AllBytes s → base64_decode (base64_encode s) ≡ some s
unfolding base64_decode
base64_decode-base64_encode s h = decode_loop-encode s 0 [] h
