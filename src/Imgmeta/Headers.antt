-- ===== src/Imgmeta/Headers.antt =====
-- `img_meta_parse` on the headers of PNG and GIF files.
use clipnet.Base.{ℕ, ◌/◌, ◌%◌, ◌^◌, ◌<◌, ◌≡◌, true, some, [], ◌∷◌, ◌++◌, arith, Bytes, codes}
use clipnet.Imgmeta.{
  bytes_at, same_at, be32, le16, png_size, gif_size, png_signature, is_png, is_gif, parse_gif,
  img_meta_parse, png, gif,
}

abbrev pub big32 : ℕ → Bytes
big32 v = (v / 16777216 % 256) ∷ (v / 65536 % 256) ∷ (v / 256 % 256) ∷ (v % 256) ∷ []

abbrev pub little16 : ℕ → Bytes
little16 v = (v % 256) ∷ (v / 256 % 256) ∷ []

-- The head of a PNG file: the signature, and the length, the name and the start of its IHDR.
abbrev pub png_file : ℕ → ℕ → Bytes → Bytes
png_file w h rest = png_signature ++ (big32 13 ++ (codes "IHDR" ++ (big32 w ++ (big32 h ++ rest))))

abbrev pub gif_file : ℕ → ℕ → Bytes → Bytes
gif_file w h rest = codes "GIF89a" ++ (little16 w ++ (little16 h ++ rest))

-- The width and the height of every image with the header of a PNG are read back, up to 2^32 - 1.
img_meta_parse-png_file :
    (w h : ℕ) (rest : Bytes)
    → w < 2 ^ 32
    → h < 2 ^ 32
    → img_meta_parse (png_file w h rest)
      ≡ some (true, record { format = some png; width = w; height = h })
unfolding img_meta_parse is_png same_at bytes_at png_size be32
img_meta_parse-png_file w h rest hw hh = ground arith

-- The width and the height of every image with the header of a GIF are read back, up to 65535.
img_meta_parse-gif_file :
    (w h : ℕ) (rest : Bytes)
    → w < 65536
    → h < 65536
    → img_meta_parse (gif_file w h rest)
      ≡ some (true, record { format = some gif; width = w; height = h })
unfolding img_meta_parse parse_gif is_png is_gif same_at bytes_at gif_size le16
img_meta_parse-gif_file w h rest hw hh = ground arith
