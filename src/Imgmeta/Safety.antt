-- ===== src/Imgmeta/Safety.antt =====
-- The reads of `img_meta_parse`.
use clipnet.Base.{
  ℕ, ◌-◌, ◌^◌, ◌≤◌, ◌≡◌, refl, ap, ◌∙◌, ◌≢◌, inl, inr, Bool, true, false, Option, some, arith, ltb,
  leb, if◌then◌else◌, Bool-cases, length, Bytes, codes,
}
use clipnet.Imgmeta.{
  Meta, empty, ◌>>=◌, and_then, le32, magnitude, webp_vp8x, webp_vp8l, webp_vp8, is_vp8l, is_vp8,
  webp_size, bmp_size, png_size, gif_size, png_signature, is_png, is_gif, is_jpeg, is_webp, is_bmp,
  of_format, parse_bmp, parse_webp, parse_jpeg, parse_gif, img_meta_parse, png, gif, jpeg, webp,
  bmp,
}
use clipnet.Imgmeta.Reading.{
  Ensures, Works, bind-Ensures, bind-Works, OnlyIf, and_then-Ensures, same_at-Works, byte_is-Works,
  le16-Works, le24-Works, be32-Works, le32-Works,
}
use clipnet.Imgmeta.Jpeg.{jpeg_size-Works, guarded}

leb-OnlyIf : (a b : ℕ) → OnlyIf (a ≤ b) (leb a b)
leb-OnlyIf a b h = ground arith

module _ (p : Bytes) where
  -- A length test, then two tests on bytes below that length.
  two_tests :
      (n : ℕ) (x y : Option Bool)
      → (n ≤ length p → Works x)
      → (n ≤ length p → Works y)
      → Ensures (OnlyIf (n ≤ length p)) (and_then (leb n (length p)) x >>= λ a. and_then a y)
  two_tests n x y hx hy =
      bind-Ensures (OnlyIf (n ≤ length p)) (OnlyIf (n ≤ length p)) _ _
        (and_then-Ensures (n ≤ length p) (leb n (length p)) x (leb-OnlyIf n (length p)) hx)
        λ a h. and_then-Ensures (n ≤ length p) a y h hy

  is_png-Ensures : Ensures (OnlyIf (24 ≤ length p)) (is_png p)
  unfolding is_png
  is_png-Ensures =
      two_tests 24 _ _ (λ h. same_at-Works p 0 png_signature (omega arith))
        (λ h. same_at-Works p 12 (codes "IHDR") (omega arith))

  is_jpeg-Ensures : Ensures (OnlyIf (4 ≤ length p)) (is_jpeg p)
  unfolding is_jpeg
  is_jpeg-Ensures =
      two_tests 4 _ _ (λ h. byte_is-Works p 0 0xFF (omega arith))
        (λ h. byte_is-Works p 1 0xD8 (omega arith))

  is_webp-Ensures : Ensures (OnlyIf (30 ≤ length p)) (is_webp p)
  unfolding is_webp
  is_webp-Ensures =
      two_tests 30 _ _ (λ h. same_at-Works p 0 (codes "RIFF") (omega arith))
        (λ h. same_at-Works p 8 (codes "WEBP") (omega arith))

  is_bmp-Ensures : Ensures (OnlyIf (26 ≤ length p)) (is_bmp p)
  unfolding is_bmp
  is_bmp-Ensures =
      two_tests 26 _ _ (λ h. byte_is-Works p 0 b'B' (omega arith))
        (λ h. byte_is-Works p 1 b'M' (omega arith))

  is_gif-Ensures : Ensures (OnlyIf (10 ≤ length p)) (is_gif p)
  unfolding is_gif
  is_gif-Ensures =
      and_then-Ensures (10 ≤ length p) (leb 10 (length p)) _ (leb-OnlyIf 10 (length p)) λ h.
        guarded (Unit {0}) _ _ _
          (let (a, e) = same_at-Works p 0 (codes "GIF87a") (omega arith) in (a, e, λ _. tt))
          (λ _. (true, refl)) (same_at-Works p 0 (codes "GIF89a") (omega arith))

  png_size-Works : (o : Meta) → 24 ≤ length p → Works (png_size p o)
  unfolding png_size
  png_size-Works o h =
      bind-Works _ _ (be32-Works p 16 (omega arith))
        λ w. bind-Works _ _ (be32-Works p 20 (omega arith)) λ k. (_, refl)

  gif_size-Works : (o : Meta) → 10 ≤ length p → Works (gif_size p o)
  unfolding gif_size
  gif_size-Works o h =
      bind-Works _ _ (le16-Works p 6 (omega arith))
        λ w. bind-Works _ _ (le16-Works p 8 (omega arith)) λ k. (_, refl)

  and_then-Works : (c : Bool) (m : Option Bool) → Works m → Works (and_then c m)
  and_then-Works true m h = h
  and_then-Works false m h = (false, refl)

  is_vp8l-Works : 30 ≤ length p → Works (is_vp8l p)
  unfolding is_vp8l
  is_vp8l-Works h =
      bind-Works _ _ (same_at-Works p 12 (codes "VP8L") (omega arith))
        λ a. and_then-Works a _ (byte_is-Works p 20 0x2F (omega arith))

  is_vp8-Works : 30 ≤ length p → Works (is_vp8 p)
  unfolding is_vp8
  is_vp8-Works h = bind-Works _ _ (same_at-Works p 12 (codes "VP8 ") (omega arith)) λ a.
      bind-Works _ _ (and_then-Works a _ (byte_is-Works p 23 0x9D (omega arith))) λ b.
        bind-Works _ _ (and_then-Works b _ (byte_is-Works p 24 0x01 (omega arith)))
          λ c. and_then-Works c _ (byte_is-Works p 25 0x2A (omega arith))

  -- A test that works, with two branches that do.
  branch {ℓ} :
      {A : Type ℓ} (m : Option Bool) (x y : Option A)
      → Works m
      → Works x
      → Works y
      → Works (m >>= λ hit. if hit then x else y)
  branch m x y (true, e) (a, f) ky = (a, rw e f)
  branch m x y (false, e) kx (a, f) = (a, rw e f)

  webp_size-Works : (o : Meta) → 30 ≤ length p → Works (webp_size p o)
  unfolding webp_size webp_vp8x webp_vp8l webp_vp8
  webp_size-Works o h =
      branch _ _ _ (same_at-Works p 12 (codes "VP8X") (omega arith))
        (bind-Works _ _ (le24-Works p 24 (omega arith))
          λ w. bind-Works _ _ (le24-Works p 27 (omega arith)) λ k. (_, refl))
        (branch _ _ _ (is_vp8l-Works h)
          (bind-Works _ _ (le32-Works p 21 (omega arith)) λ b. (_, refl))
          (branch _ _ _ (is_vp8-Works h)
            (bind-Works _ _ (le16-Works p 26 (omega arith))
              λ w. bind-Works _ _ (le16-Works p 28 (omega arith)) λ k. (_, refl))
            (_, refl)))

  magnitude-Works : (v : ℕ) → v ≢ 2 ^ 31 → Works (magnitude v)
  unfolding magnitude
  magnitude-Works v h = elim (Bool-cases (ltb v (2 ^ 31))) [
    | inl e ↦ (v, ground (arith, e))
    | inr e ↦ (2 ^ 32 - v, ground (arith, e, h))
  ]

  -- Neither side of a BMP is the least int32_t.
  abbrev pub HasBmpSides : Type 0
  HasBmpSides = (le32 p 18 ≢ some (2 ^ 31)) × (le32 p 22 ≢ some (2 ^ 31))

  bmp_size-Works : (o : Meta) → 26 ≤ length p → HasBmpSides → Works (bmp_size p o)
  unfolding bmp_size
  bmp_size-Works o h (left, right) =
      let (v, e) = le32-Works p 18 (omega arith) in
      let (u, f) = le32-Works p 22 (omega arith) in
      let (w, g) = magnitude-Works v (λ k. left (e ∙ ap some k)) in
      let (x, k) = magnitude-Works u (λ k. right (f ∙ ap some k)) in
      ((true, record o { width = w; height = x }), rw (e, f, g, k))

-- The parser never reads outside the image and always ends, on any bytes; only for a BMP it has to be
-- assumed that no side is the least int32_t, which cannot be negated.
pub img_meta_parse-Works :
    (p : Bytes)
    → (is_bmp p ≡ some true → HasBmpSides p)
    → (r : Bool × Meta) × (img_meta_parse p ≡ some r)
unfolding img_meta_parse parse_gif parse_jpeg parse_webp parse_bmp
img_meta_parse-Works p sides =
    guarded _ _ _ _ (is_png-Ensures p) (png_size-Works p (of_format png)) (
      guarded _ _ _ _ (is_gif-Ensures p) (gif_size-Works p (of_format gif)) (
        guarded _ _ _ _ (is_jpeg-Ensures p) (λ _. jpeg_size-Works p (of_format jpeg))
          (guarded _ _ _ _ (is_webp-Ensures p) (webp_size-Works p (of_format webp))
            (bmp_branch (is_bmp-Ensures p)))))
  where
    bmp_branch :
        Ensures (OnlyIf (26 ≤ length p)) (is_bmp p)
        → Works
            (is_bmp p >>= λ hit. if hit then bmp_size p (of_format bmp) else some (false, empty))
    bmp_branch (true, e, h) =
        let (r, f) = bmp_size-Works p (of_format bmp) (h refl) (sides e) in (r, rw e f)
    bmp_branch (false, e, h) = ((false, empty), rw e)
