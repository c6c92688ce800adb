-- ===== src/Util/Utf8/Tests.antt =====
-- Runs of the functions, and the theorems at concrete texts.
use clipnet.Base.{◌≡◌, refl, ◌↔◌, true, false, [], ◌∷◌, arith, All, Bytes}
use clipnet.Util.Utf8.{utf8_valid, decode, encode, utf8_prefix, IsScalar}
use clipnet.Util.Utf8.Valid.{decode-encode, utf8_valid_iff}

-- "a", U+00E9, U+2713, U+1D11E.
abbrev sample : Bytes
sample = 0x61 ∷ 0xC3 ∷ 0xA9 ∷ 0xE2 ∷ 0x9C ∷ 0x93 ∷ 0xF0 ∷ 0x9D ∷ 0x84 ∷ 0x9E ∷ []

sample_valid : utf8_valid sample ≡ true
unfolding utf8_valid
sample_valid = refl

refused :
    (utf8_valid (0xC0 ∷ 0xAF ∷ []) ≡ false)
    × (utf8_valid (0xED ∷ 0xA0 ∷ 0x80 ∷ []) ≡ false)
    × (utf8_valid (0xE2 ∷ 0x9C ∷ []) ≡ false)
    × (utf8_valid (0xF4 ∷ 0x90 ∷ 0x80 ∷ 0x80 ∷ []) ≡ false)
unfolding utf8_valid
refused = (refl, refl, refl, refl)

prefix_two : utf8_prefix sample 2 ≡ 3
unfolding utf8_prefix
prefix_two = refl

-- `decode` lets a surrogate through, which `utf8_valid` refuses.
surrogate : encode (decode (0xED ∷ 0xA0 ∷ 0x80 ∷ [])) ≡ 0xED ∷ 0xA0 ∷ 0x80 ∷ []
unfolding encode decode
surrogate = refl

utf8_valid_iff_example :
    (utf8_valid sample ≡ true) ↔ (All IsScalar (decode sample) × (encode (decode sample) ≡ sample))
utf8_valid_iff_example = utf8_valid_iff sample (omega arith)

decode-encode_example : decode (encode (0x61 ∷ 0xE9 ∷ 0x1D11E ∷ [])) ≡ 0x61 ∷ 0xE9 ∷ 0x1D11E ∷ []
decode-encode_example = decode-encode (0x61 ∷ 0xE9 ∷ 0x1D11E ∷ []) (omega arith)
