-- ===== src/Imgmeta/Tests.antt =====
-- Headers, and the theorems at them.
use clipnet.Base.{
  ℕ, ◌≡◌, refl, Bool, true, none, some, [], ◌∷◌, ◌++◌, arith, Bytes, codes, replicate, replicate,
}
use clipnet.Imgmeta.{
  Meta, bytes_at, same_at, be16, le32, is_sof, is_standalone, jpeg_frame, jpeg_segment, jpeg_marker,
  jpeg_round, jpeg_loop, jpeg_size, byte_is, bmp_size, is_png, is_gif, is_jpeg, parse_jpeg,
  parse_gif, img_meta_parse, jpeg, empty, magnitude,
}
use clipnet.Imgmeta.Safety.{img_meta_parse-Works, HasBmpSides}

abbrev jpeg_file : Bytes
jpeg_file =
    0xFF ∷ 0xD8 ∷ 0xFF ∷ 0xE0 ∷ 0 ∷ 4 ∷ 1 ∷ 2 ∷ 0xFF ∷ 0xC0 ∷ 0 ∷ 11 ∷ 8 ∷ 1 ∷ 2 ∷ 3 ∷ 4 ∷ 0 ∷ 0
    ∷ []

jpeg_file_size :
    img_meta_parse jpeg_file ≡ some (true, record { format = some jpeg; width = 772; height = 258 })
unfolding img_meta_parse parse_gif parse_jpeg is_png is_gif is_jpeg same_at bytes_at byte_is
    jpeg_size jpeg_loop jpeg_round jpeg_marker jpeg_segment jpeg_frame be16 is_sof is_standalone
jpeg_file_size = refl

abbrev bmp_file : ℕ → Bytes
bmp_file high = codes "BM" ++ (replicate 16 0 ++ (0 ∷ 1 ∷ 0 ∷ high ∷ 7 ∷ 0 ∷ 0 ∷ 0 ∷ []))

-- A BMP whose width is the least int32_t is negated, which C leaves undefined.
least_width :
    bmp_size (codes "BM" ++ (replicate 16 0 ++ (0 ∷ 0 ∷ 0 ∷ 128 ∷ 7 ∷ 0 ∷ 0 ∷ 0 ∷ []))) empty ≡ none
unfolding bmp_size le32 magnitude
least_width = refl

bmp_file-HasBmpSides : HasBmpSides (bmp_file 0)
unfolding le32
bmp_file-HasBmpSides = (λ e. ground arith, λ e. ground arith)

img_meta_parse-Works_example : (r : Bool × Meta) × (img_meta_parse (bmp_file 0) ≡ some r)
img_meta_parse-Works_example = img_meta_parse-Works (bmp_file 0) (λ e. bmp_file-HasBmpSides)
