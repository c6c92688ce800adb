-- ===== src/Util/Utf8/Valid.antt =====
-- `utf8_valid` and `decode` against `encode`.
use clipnet.Base.{
  ℕ, zero, suc, ◌≤◌, ◌<◌, ◌≡◌, refl, sym, ap, subst, ◌↔◌, inl, inr, true, List, [], ◌∷◌, arith,
  Option-cases, length, length-append, All, All-right, Bytes, IsByte, AllBytes,
}
use clipnet.Util.Utf8.{
  valid_step, valid_from, decode_from, put, IsScalar, encode, utf8_valid, decode, decode_step,
}
use clipnet.Util.Utf8.Rounds.{decode_from-put, valid_from-put, valid_step_sound, length-put}

decode_from-encode :
    (fuel : ℕ) (cps : List ℕ)
    → All (λ cp. cp < 0x200000) cps
    → length (encode cps) ≤ fuel
    → decode_from fuel (encode cps) ≡ cps
unfolding encode decode_from
decode_from-encode fuel [] h enough = refl
decode_from-encode zero (cp ∷ cps) h enough =
    absurd (omega (arith, length-put cp, length-append (put cp) (encode cps)))
decode_from-encode (suc fuel) (cp ∷ cps) (hc, hs) enough =
    rw (decode_from-put fuel cp (encode cps) hc) (
      ap (◌∷◌ cp) (
        decode_from-encode fuel cps hs
          (omega (arith, length-put cp, length-append (put cp) (encode cps)))))

decode-encode_any : (cps : List ℕ) → All (λ cp. cp < 0x200000) cps → decode (encode cps) ≡ cps
unfolding decode
decode-encode_any cps h = decode_from-encode _ cps h (omega arith)

pub IsScalar-lt : (cps : List ℕ) → All IsScalar cps → All (λ cp. cp < 0x200000) cps
IsScalar-lt [] h = tt
IsScalar-lt (cp ∷ cps) (hc, hs) = (omega arith, IsScalar-lt cps hs)

-- Decoding the encoding of Unicode scalar values gives them back.
pub decode-encode : (cps : List ℕ) → All IsScalar cps → decode (encode cps) ≡ cps
decode-encode cps h = decode-encode_any cps (IsScalar-lt cps h)

valid_from-encode :
    (fuel : ℕ) (cps : List ℕ)
    → All IsScalar cps
    → length (encode cps) ≤ fuel
    → valid_from fuel (encode cps) ≡ true
unfolding encode valid_from
valid_from-encode fuel [] h enough = refl
valid_from-encode zero (cp ∷ cps) h enough =
    absurd (omega (arith, length-put cp, length-append (put cp) (encode cps)))
valid_from-encode (suc fuel) (cp ∷ cps) (hc, hs) enough =
    rw (valid_from-put fuel cp (encode cps) hc) (
      valid_from-encode fuel cps hs
        (omega (arith, length-put cp, length-append (put cp) (encode cps))))

pub utf8_valid-encode : (cps : List ℕ) → All IsScalar cps → utf8_valid (encode cps) ≡ true
unfolding utf8_valid
utf8_valid-encode cps h = valid_from-encode _ cps h (omega arith)

valid_from_sound :
    (fuel : ℕ) (s : Bytes)
    → AllBytes s
    → valid_from fuel s ≡ true
    → All IsScalar (decode_from fuel s) × (encode (decode_from fuel s) ≡ s)
unfolding valid_from decode_from encode
valid_from_sound fuel [] b h = (tt, refl)
valid_from_sound zero (c ∷ s) b h = cc
valid_from_sound (suc fuel) (c ∷ s) (bc, bs) h = elim (Option-cases (valid_step c s)) [
  | inl e ↦ cc e
  | inr (rest, e) ↦
      let step = valid_step_sound c s rest bc bs e in
      let bytes =
        All-right IsByte (put (decode_step c s).0) rest (subst AllBytes step.2 (bc, bs)) in
      let ih = valid_from_sound fuel rest bytes (ground (arith, e)) in
      rw step.0 ((step.1, ih.0), rw ih.1 (sym step.2))
]

-- A text is valid exactly if it is the encoding of scalar values, and then `decode` finds them.
pub utf8_valid_iff :
    (s : Bytes)
    → AllBytes s
    → (utf8_valid s ≡ true) ↔ (All IsScalar (decode s) × (encode (decode s) ≡ s))
unfolding utf8_valid decode
utf8_valid_iff s b = (
  valid_from_sound (length s) s b,
  λ h. subst (λ (t : Bytes). utf8_valid t ≡ true) h.1 (utf8_valid-encode _ h.0),
)
