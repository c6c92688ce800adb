-- ===== src/Imgmeta.antt =====
-- daemon/src/imgmeta.c: the size of an image from its header. A read behind the `n` bytes of the image,
-- the negation of the least `int32_t`, and the end of the fuel are the fault `none`; `some (b, m)` is
-- the result `b` with `*o = m`.
pub mod Reading
pub mod Jpeg
pub mod Safety
pub mod Headers
pub mod Tests
use clipnet.Base.{
  ℕ, zero, suc, ◌+◌, ◌-◌, ◌*◌, ◌/◌, ◌%◌, ◌^◌, Bool, true, false, ◌&&◌, ◌||◌, not, Option, none,
  some, [], ◌∷◌, ltb, leb, ◌==◌, if◌then◌else◌, length, get_elem?, Bytes, codes, bytes_eq,
}

pub data Format : Type 0 where
  png gif jpeg webp bmp : Format

pub record Meta : Type 0 where
  pub format : Option Format
  pub width : ℕ
  pub height : ℕ

abbrev pub empty : Meta
empty = record { format = none; width = 0; height = 0 }

infixl 5 ◌>>=◌
abbrev pub ◌>>=◌ {ℓ κ} : {A : Type ℓ} {B : Type κ} → Option A → (A → Option B) → Option B
none >>= f = none
some a >>= f = f a

-- `c && m`, where `m` reads the image.
abbrev pub and_then : Bool → Option Bool → Option Bool
and_then true m = m
and_then false m = some false

-- The bytes `p[i]`, `p[i + 1]`, and so on, as many as `k`.
unfoldable pub bytes_at : Bytes → ℕ → ℕ → Option Bytes
bytes_at p i zero = some []
bytes_at p i (suc k) = do b ← get_elem? p i; bs ← bytes_at p (suc i) k; some (b ∷ bs)

-- !memcmp(p + i, s, strlen(s)).
unfoldable pub same_at : Bytes → ℕ → Bytes → Option Bool
same_at p i s = do bs ← bytes_at p i (length s); some (bytes_eq bs s)

unfoldable pub be16 : Bytes → ℕ → Option ℕ
be16 p i = do a ← get_elem? p i; b ← get_elem? p (i + 1); some (a * 256 + b)

unfoldable pub be32 : Bytes → ℕ → Option ℕ
be32 p i = do
  a ← get_elem? p i
  b ← get_elem? p (i + 1)
  c ← get_elem? p (i + 2)
  d ← get_elem? p (i + 3)
  some (a * 16777216 + b * 65536 + c * 256 + d)

unfoldable pub le16 : Bytes → ℕ → Option ℕ
le16 p i = do a ← get_elem? p i; b ← get_elem? p (i + 1); some (b * 256 + a)

unfoldable pub le24 : Bytes → ℕ → Option ℕ
le24 p i = do
  a ← get_elem? p i
  b ← get_elem? p (i + 1)
  c ← get_elem? p (i + 2)
  some (c * 65536 + b * 256 + a)

unfoldable pub le32 : Bytes → ℕ → Option ℕ
le32 p i = do
  a ← get_elem? p i
  b ← get_elem? p (i + 1)
  c ← get_elem? p (i + 2)
  d ← get_elem? p (i + 3)
  some (d * 16777216 + c * 65536 + b * 256 + a)

-- SOF0 to SOF15 without DHT, JPG and DAC.
unfoldable pub is_sof : ℕ → Bool
is_sof m = leb 0xC0 m && leb m 0xCF && not (m == 0xC4) && not (m == 0xC8) && not (m == 0xCC)

unfoldable pub is_standalone : ℕ → Bool
is_standalone m = m == 0xD8 || (leb 0xD0 m && leb m 0xD7) || m == 0x01

-- One round of `jpeg` at `i`: the result, or where the next round starts.
pub data JpegRound : Type 0 where
  found : Bool → Meta → JpegRound
  skip : ℕ → JpegRound

unfoldable pub jpeg_frame : Bytes → ℕ → Meta → Option JpegRound
jpeg_frame p i o = do
  height ← be16 p (i + 5)
  width ← be16 p (i + 7)
  some (found (not (width == 0) && not (height == 0)) (record o { width = width; height = height }))

unfoldable pub jpeg_segment : Bytes → ℕ → ℕ → Meta → Option JpegRound
unfolding jpeg_frame
jpeg_segment p i m o = be16 p (i + 2) >>= λ len.
    if is_sof m
    then jpeg_frame p i o
    else if ltb len 2
    then some (found false o)
    else some (skip (i + (2 + len)))

unfoldable pub jpeg_marker : Bytes → ℕ → ℕ → Meta → Option JpegRound
jpeg_marker p i m o =
    if m == 0xFF
    then some (skip (i + 1))
    else if is_standalone m
    then some (skip (i + 2))
    else jpeg_segment p i m o

unfoldable pub jpeg_round : Bytes → ℕ → Meta → Option JpegRound
unfolding jpeg_marker
jpeg_round p i o = get_elem? p i >>= λ mark.
    if mark == 0xFF
    then (get_elem? p (i + 1) >>= λ m. jpeg_marker p i m o)
    else some (found false o)

unfoldable pub jpeg_loop : ℕ → Bytes → ℕ → Meta → Option (Bool × Meta)
jpeg_loop zero p i o = none
jpeg_loop (suc fuel) p i o = elim (ltb (i + 9) (length p)) [
  | false ↦ some (false, o)
  | true ↦ elim (jpeg_round p i o) [
    | none ↦ none
    | some (found b o') ↦ some (b, o')
    | some (skip i') ↦ jpeg_loop fuel p i' o
  ]
]

-- `i` starts at 2 and grows in every round.
unfoldable pub jpeg_size : Bytes → Meta → Option (Bool × Meta)
jpeg_size p o = jpeg_loop (suc (length p)) p 2 o

-- (uint32_t)(v < 0 ? -v : v), for the int32_t with the bits `v`.
unfoldable pub magnitude : ℕ → Option ℕ
magnitude v = if ltb v (2 ^ 31) then some v else if v == 2 ^ 31 then none else some (2 ^ 32 - v)

unfoldable pub webp_vp8x : Bytes → Meta → Option (Bool × Meta)
webp_vp8x p o = do
  w ← le24 p 24
  h ← le24 p 27
  some (true, record o { width = w + 1; height = h + 1 })

unfoldable pub webp_vp8l : Bytes → Meta → Option (Bool × Meta)
webp_vp8l p o = do
  b ← le32 p 21
  some (true, record o { width = b % 16384 + 1; height = b / 16384 % 16384 + 1 })

unfoldable pub webp_vp8 : Bytes → Meta → Option (Bool × Meta)
webp_vp8 p o = do
  w ← le16 p 26
  h ← le16 p 28
  some (true, record o { width = w % 16384; height = h % 16384 })

unfoldable pub byte_is : Bytes → ℕ → ℕ → Option Bool
byte_is p i v = do b ← get_elem? p i; some (b == v)

unfoldable pub is_vp8l : Bytes → Option Bool
is_vp8l p = do lossless ← same_at p 12 (codes "VP8L"); and_then lossless (byte_is p 20 0x2F)

unfoldable pub is_vp8 : Bytes → Option Bool
is_vp8 p = do
  lossy ← same_at p 12 (codes "VP8 ")
  a ← and_then lossy (byte_is p 23 0x9D)
  b ← and_then a (byte_is p 24 0x01)
  and_then b (byte_is p 25 0x2A)

unfoldable pub webp_size : Bytes → Meta → Option (Bool × Meta)
webp_size p o = same_at p 12 (codes "VP8X") >>= λ extended.
    if extended
    then webp_vp8x p o
    else (is_vp8l p >>= λ lossless.
        if lossless
        then webp_vp8l p o
        else (is_vp8 p >>= λ lossy. if lossy then webp_vp8 p o else some (false, o)))

unfoldable pub bmp_size : Bytes → Meta → Option (Bool × Meta)
bmp_size p o = do
  v ← le32 p 18
  u ← le32 p 22
  w ← magnitude v
  h ← magnitude u
  some (true, record o { width = w; height = h })

unfoldable pub png_size : Bytes → Meta → Option (Bool × Meta)
png_size p o = do w ← be32 p 16; h ← be32 p 20; some (true, record o { width = w; height = h })

unfoldable pub gif_size : Bytes → Meta → Option (Bool × Meta)
gif_size p o = do w ← le16 p 6; h ← le16 p 8; some (true, record o { width = w; height = h })

abbrev pub png_signature : Bytes
png_signature = 0x89 ∷ b'P' ∷ b'N' ∷ b'G' ∷ 0x0D ∷ 0x0A ∷ 0x1A ∷ 0x0A ∷ []

unfoldable pub is_png : Bytes → Option Bool
is_png p = do
  a ← and_then (leb 24 (length p)) (same_at p 0 png_signature)
  and_then a (same_at p 12 (codes "IHDR"))

unfoldable pub is_gif : Bytes → Option Bool
is_gif p =
    and_then (leb 10 (length p))
      (same_at p 0 (codes "GIF87a") >>= λ a. if a then some true else same_at p 0 (codes "GIF89a"))

unfoldable pub is_jpeg : Bytes → Option Bool
is_jpeg p = do a ← and_then (leb 4 (length p)) (byte_is p 0 0xFF); and_then a (byte_is p 1 0xD8)

unfoldable pub is_webp : Bytes → Option Bool
is_webp p = do
  a ← and_then (leb 30 (length p)) (same_at p 0 (codes "RIFF"))
  and_then a (same_at p 8 (codes "WEBP"))

unfoldable pub is_bmp : Bytes → Option Bool
is_bmp p = do a ← and_then (leb 26 (length p)) (byte_is p 0 b'B'); and_then a (byte_is p 1 b'M')

abbrev pub of_format : Format → Meta
of_format f = record { format = some f; width = 0; height = 0 }

-- The tests of `img_meta_parse` in their order.
unfoldable pub parse_bmp : Bytes → Option (Bool × Meta)
parse_bmp p = is_bmp p >>= λ hit. if hit then bmp_size p (of_format bmp) else some (false, empty)

unfoldable pub parse_webp : Bytes → Option (Bool × Meta)
parse_webp p = is_webp p >>= λ hit. if hit then webp_size p (of_format webp) else parse_bmp p

unfoldable pub parse_jpeg : Bytes → Option (Bool × Meta)
parse_jpeg p = is_jpeg p >>= λ hit. if hit then jpeg_size p (of_format jpeg) else parse_webp p

unfoldable pub parse_gif : Bytes → Option (Bool × Meta)
parse_gif p = is_gif p >>= λ hit. if hit then gif_size p (of_format gif) else parse_jpeg p

unfoldable pub img_meta_parse : Bytes → Option (Bool × Meta)
img_meta_parse p = is_png p >>= λ hit. if hit then png_size p (of_format png) else parse_gif p
