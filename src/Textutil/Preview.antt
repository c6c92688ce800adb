-- ===== src/Textutil/Preview.antt =====
-- `text_preview` on valid text.
use clipnet.Base.{
  ℕ, zero, suc, ◌+◌, ◌≤◌, ◌<◌, ◌≡◌, refl, sym, ap, ◌∙◌, subst, inl, inr, Bool, true, false, List,
  [], ◌∷◌, ◌++◌, arith, ltb, leb, ltb→lt, Bool-cases, length, length-append, All, Bytes, AllBytes,
}
use clipnet.Util.Utf8.Rounds.{length-put}
use clipnet.Util.Utf8.{utf8_valid, decode, put, encode, IsScalar}
use clipnet.Util.Utf8.Valid.{utf8_valid_iff}
use clipnet.Textutil.{is_space, Round, preview_loop, text_preview, next, stop}
use clipnet.Textutil.Rounds.{is_control, point_round, loop_full, loop_point}
use clipnet.Textutil.Words.{
  IsVisible, tidy_nil, visible, IsPreview, Before, finished, after_space, encode-snoc, encode-gap,
  Before-next, Before-gap, content_next, visible_cons, content_gap,
}

module _ (most fuel : ℕ) (cps : List ℕ) where
  -- The loop behind `cp`, as the induction hypothesis gives it.
  abbrev Goes : Type 0
  Goes =
      (done : List ℕ) (chars : ℕ) (pending : Bool)
      → Before most chars pending done
      → IsPreview most (visible done ++ visible cps)
          (preview_loop most fuel (encode cps) chars pending (encode done))

  abbrev go_on : Round → Bytes
  go_on r = elim r [
    | stop out ↦ out
    | next s' chars' pending' out' ↦ preview_loop most fuel s' chars' pending' out'
  ]

  visible_round :
      (cp : ℕ) (done : List ℕ) (chars : ℕ) (pending : Bool)
      → Goes
      → IsScalar cp
      → IsVisible cp
      → chars < most
      → Before most chars pending done
      → IsPreview most
          (visible done ++ cp ∷ visible cps)
          (go_on (point_round most cp (encode cps) chars pending (encode done)))
  visible_round cp done chars true ih s v room b = elim (Bool-cases (leb most (chars + 1))) [
    | inl full ↦ rw v.0 (rw v.1 (rw full (finished most chars true done (cp ∷ visible cps) b)))
    | inr more ↦ rw v.0 (
        rw v.1 (
          rw more (
            rw (encode-gap done cp, content_gap done cp (visible cps) v)
              (ih ((done ++ b' ' ∷ []) ++ cp ∷ []) (chars + 1 + 1) false
                (Before-gap most chars cp done (ground arith) s v b)))))
  ]
  visible_round cp done chars false ih s v room b = rw v.0 (
      rw v.1 (
        rw (encode-snoc done cp, content_next done cp (visible cps) v)
          (ih (done ++ cp ∷ []) (chars + 1) false (Before-next most chars cp done room s v b))))

  any_round :
      (cp : ℕ) (done : List ℕ) (chars : ℕ) (pending : Bool)
      → Goes
      → IsScalar cp
      → chars < most
      → Before most chars pending done
      → IsPreview most
          (visible done ++ visible (cp ∷ cps))
          (go_on (point_round most cp (encode cps) chars pending (encode done)))
  unfolding visible
  any_round cp done chars pending ih s room b = elim (Bool-cases (is_space cp)) [
    | inl e ↦ rw e (
        ih done chars (ltb 0 (length (encode done))) (record {
          scalar = b.scalar;
          tidy = b.tidy;
          counted = b.counted;
          fits = b.fits;
          started = after_space done;
        }))
    | inr e ↦ elim (Bool-cases (is_control cp)) [
      | inl f ↦ rw e (rw f (ih done chars pending b))
      | inr f ↦
          subst
            (λ (l : List ℕ).
              IsPreview most (visible done ++ l)
                (go_on (point_round most cp (encode cps) chars pending (encode done))))
            (sym (visible_cons cp cps (e, f)))
            (visible_round cp done chars pending ih s (e, f) room b)
    ]
  ]

encode-cons : (cp : ℕ) (cps : List ℕ) → encode (cp ∷ cps) ≡ put cp ++ encode cps
unfolding encode
encode-cons cp cps = refl

encode_tail :
    {fuel : ℕ} (cp : ℕ) (cps : List ℕ)
    → length (encode (cp ∷ cps)) ≤ suc fuel
    → length (encode cps) ≤ fuel
unfolding encode
encode_tail cp cps enough = omega (arith, length-put cp, length-append (put cp) (encode cps))

preview_loop-encode :
    (most fuel : ℕ) (cps done : List ℕ) (chars : ℕ) (pending : Bool)
    → All IsScalar cps
    → length (encode cps) ≤ fuel
    → Before most chars pending done
    → IsPreview most
        (visible done ++ visible cps)
        (preview_loop most fuel (encode cps) chars pending (encode done))
preview_loop-encode most fuel [] done chars pending sc enough b =
    unfold preview_loop visible encode in finished most chars pending done [] b
preview_loop-encode most zero (cp ∷ cps) done chars pending sc enough b =
    unfold encode in absurd (omega (arith, length-put cp, length-append (put cp) (encode cps)))
preview_loop-encode most (suc fuel) (cp ∷ cps) done chars pending (hc, hs) enough b =
    let ih = λ (done' : List ℕ) (chars' : ℕ) (pending' : Bool).
      preview_loop-encode most fuel cps done' chars' pending' hs (encode_tail cp cps enough) in
    let at_start =
      ap (λ (t : Bytes). preview_loop most (suc fuel) t chars pending (encode done))
        (encode-cons cp cps) in
    elim (Bool-cases (ltb chars most)) [
      | inl room ↦
          subst (IsPreview most (visible done ++ visible (cp ∷ cps)))
            (sym (
              at_start
              ∙ loop_point most fuel cp (encode cps) chars pending (encode done) (omega arith)
                  room))
            (any_round most fuel cps cp done chars pending ih hc (ltb→lt chars most room) b)
      | inr full ↦
          subst (IsPreview most (visible done ++ visible (cp ∷ cps)))
            (sym (at_start ∙ loop_full most fuel cp (encode cps) chars pending (encode done) full))
            (finished most chars pending done (visible (cp ∷ cps)) b)
    ]

from_start :
    (most : ℕ) (cps : List ℕ)
    → All IsScalar cps
    → IsPreview most (visible cps) (preview_loop most (length (encode cps)) (encode cps) 0 false [])
from_start most cps scalar =
    unfold visible encode in
    preview_loop-encode most (length (encode cps)) cps [] 0 false scalar (omega arith) (record {
      scalar = tt;
      tidy = tidy_nil;
      counted = refl;
      fits = omega arith;
      started = λ e. cc;
    })

-- The preview of a valid text is a valid text of at most `most` characters, tidy, whose visible
-- characters are the first of the text's own.
pub text_preview-IsPreview :
    (s : Bytes) (most : ℕ)
    → AllBytes s
    → utf8_valid s ≡ true
    → IsPreview most (visible (decode s)) (text_preview s most)
unfolding text_preview
text_preview-IsPreview s most bytes valid =
    let (scalar, whole) = (utf8_valid_iff s bytes).0 valid in
    subst
      (λ (t : Bytes).
        IsPreview most (visible (decode s)) (preview_loop most (length t) t 0 false []))
      whole (from_start most (decode s) scalar)
