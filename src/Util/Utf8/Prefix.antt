-- ===== src/Util/Utf8/Prefix.antt =====
-- `utf8_prefix` and `latin1_to_utf8`.
use native.Mathlib.Nat.{zero-add}
use clipnet.Base.{
  ℕ, zero, suc, ◌+◌, ◌*◌, ◌≤◌, ◌<◌, ◌≡◌, refl, sym, ap, ◌∙◌, subst, inl, true, List, [], ◌∷◌, ◌++◌,
  append_assoc, arith, length, take, drop, length-append, All, Bytes, AllBytes, take-append,
}
use clipnet.Util.Utf8.{
  utf8_valid, decode, put, encode, seq_len, prefix_from, utf8_prefix, latin1_to_utf8, IsScalar,
}
use clipnet.Util.Utf8.Rounds.{length-put}
use clipnet.Util.Utf8.Valid.{utf8_valid_iff, decode-encode, utf8_valid-encode, IsScalar-lt}

prefix_from-put :
    (fuel i most cp : ℕ) (rest : Bytes)
    → cp < 0x200000
    → prefix_from (suc fuel) i (suc most) (put cp ++ rest)
      ≡ prefix_from fuel (i + length (put cp)) most rest
unfolding prefix_from put seq_len
prefix_from-put fuel i most cp rest h = ground arith

prefix_from-encode :
    (fuel i most : ℕ) (cps : List ℕ)
    → All (λ cp. cp < 0x200000) cps
    → length (encode cps) ≤ fuel
    → prefix_from fuel i most (encode cps) ≡ i + length (encode (take most cps))
unfolding prefix_from encode
prefix_from-encode fuel i zero cps h enough = omega arith
prefix_from-encode fuel i (suc most) [] h enough = omega arith
prefix_from-encode zero i (suc most) (cp ∷ cps) h enough =
    absurd (omega (arith, length-put cp, length-append (put cp) (encode cps)))
prefix_from-encode (suc fuel) i (suc most) (cp ∷ cps) (hc, hs) enough =
    let here = length-append (put cp) (encode cps) in
    let there = length-append (put cp) (encode (take most cps)) in
    rw (prefix_from-put fuel i most cp (encode cps) hc) (
      omega (
        arith,
        here,
        there,
        length-put cp,
        prefix_from-encode fuel (i + length (put cp)) most cps hs
            (omega (arith, here, length-put cp)),
      ))

pub encode-append : (xs ys : List ℕ) → encode (xs ++ ys) ≡ encode xs ++ encode ys
unfolding encode
encode-append [] ys = refl
encode-append (x ∷ xs) ys = rw (encode-append xs ys) (sym (append_assoc (put x) _ _))

take-append-drop : (n : ℕ) (xs : List ℕ) → take n xs ++ drop n xs ≡ xs
take-append-drop zero xs = refl
take-append-drop (suc n) [] = refl
take-append-drop (suc n) (x ∷ xs) = rw (take-append-drop n xs)

take-encode :
    (most : ℕ) (cps : List ℕ)
    → take (length (encode (take most cps))) (encode cps) ≡ encode (take most cps)
take-encode most cps =
    subst (λ (t : Bytes). take (length (encode (take most cps))) t ≡ encode (take most cps))
      (sym (encode-append (take most cps) (drop most cps)) ∙ ap encode (take-append-drop most cps))
      (take-append (encode (take most cps)) _)

utf8_prefix-encode :
    (most : ℕ) (cps : List ℕ)
    → All IsScalar cps
    → take (utf8_prefix (encode cps) most) (encode cps) ≡ encode (take most cps)
unfolding utf8_prefix
utf8_prefix-encode most cps h =
    rw
      (
        prefix_from-encode (length (encode cps)) 0 most cps (IsScalar-lt cps h) (omega arith),
        zero-add,
      )
      (take-encode most cps)

-- On a valid text the prefix is the encoding of the first `most` code points: it never cuts a sequence,
-- and it is as long as it may be.
pub utf8_prefix-take :
    (s : Bytes) (most : ℕ)
    → AllBytes s
    → utf8_valid s ≡ true
    → take (utf8_prefix s most) s ≡ encode (take most (decode s))
utf8_prefix-take s most bytes valid =
    let (scalar, whole) = (utf8_valid_iff s bytes).0 valid in
    subst (λ (t : Bytes). take (utf8_prefix t most) t ≡ encode (take most (decode s))) whole
      (utf8_prefix-encode most (decode s) scalar)

pub latin1-encode : (s : Bytes) → AllBytes s → latin1_to_utf8 s ≡ encode s
unfolding latin1_to_utf8 encode put
latin1-encode [] h = refl
latin1-encode (b ∷ s) (hb, hs) = ground (arith, latin1-encode s hs)

byte-IsScalar : (s : Bytes) → AllBytes s → All IsScalar s
byte-IsScalar [] h = tt
byte-IsScalar (b ∷ s) (hb, hs) = ((omega arith, inl (omega arith)), byte-IsScalar s hs)

length-latin1 : (s : Bytes) → length (latin1_to_utf8 s) ≤ 2 * length s
unfolding latin1_to_utf8
length-latin1 [] = omega arith
length-latin1 (b ∷ s) = ground (arith, length-latin1 s)

-- Any Latin-1 text becomes valid UTF-8 with the same characters, within the buffer of `2 n` bytes.
latin1_to_utf8_lem :
    (s : Bytes)
    → AllBytes s
    → (utf8_valid (latin1_to_utf8 s) ≡ true)
      × (decode (latin1_to_utf8 s) ≡ s)
      × (length (latin1_to_utf8 s) ≤ 2 * length s)
latin1_to_utf8_lem s h =
    let points = byte-IsScalar s h in
    (
      rw (latin1-encode s h) (utf8_valid-encode s points),
      rw (latin1-encode s h) (decode-encode s points),
      length-latin1 s,
    )
