-- ===== src/Util/Base64/Tests.antt =====
-- Runs of the codecs, and the theorems at concrete inputs.
use clipnet.Base.{◌≡◌, refl, none, some, [], ◌∷◌, arith, codes}
use clipnet.Util.Base64.{base64_encode, base64_decode, hex_encode}
use clipnet.Util.Base64.RoundTrip.{base64_decode-base64_encode}

padded : base64_encode (codes "ab") ≡ codes "YWI="
unfolding base64_encode
padded = refl

spaced : base64_decode (codes "Y W\nI =") ≡ some (codes "ab")
unfolding base64_decode
spaced = refl

refused : (base64_decode (codes "Y=I=") ≡ none) × (base64_decode (codes "Y") ≡ none)
unfolding base64_decode
refused = (refl, refl)

hex_pair : hex_encode (0xAF ∷ 0x05 ∷ []) ≡ codes "af05"
unfolding hex_encode
hex_pair = refl

base64_decode-base64_encode_example :
    base64_decode (base64_encode (0 ∷ 255 ∷ 7 ∷ 9 ∷ [])) ≡ some (0 ∷ 255 ∷ 7 ∷ 9 ∷ [])
base64_decode-base64_encode_example =
    base64_decode-base64_encode (0 ∷ 255 ∷ 7 ∷ 9 ∷ []) (omega arith)
