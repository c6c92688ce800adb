-- ===== src/Db/Clips/Derive.antt =====
-- `dbi_derive` of daemon/src/db.c: what a clip's formats say about it. strtoul and printf are those
-- of `Libc`. Where
-- `html_to_text` and `img_meta_parse` have no result in the model the derived values are empty; they
-- always have one.
use clipnet.Base.{
  ℕ, ◌+◌, ◌*◌, min, Bool, false, ◌&&◌, not, Option, none, some, List, [], ◌∷◌, ◌++◌, ltb, ◌==◌,
  if◌then◌else◌, length, take, drop, Bytes, codes, bytes_eq,
}
use clipnet.Db.Clips.{Libc, FmtIn, Derived}
use clipnet.Imgmeta.{Meta, Format, png, gif, jpeg, webp, bmp, img_meta_parse}
use clipnet.Mime.{
  mime_text, mime_html, mime_uri_list, mime_is_image, mime_classify, kind_image, kind_files,
}
use clipnet.Textutil.{text_preview, uri_list_to_paths}
use clipnet.Textutil.Html.{html_to_text}
use clipnet.Util.Utf8.{utf8_valid, utf8_prefix, latin1_to_utf8}

abbrev pub plain_text_max_chars : ℕ
plain_text_max_chars = 1000000

abbrev pub preview_chars : ℕ
preview_chars = 300

unfoldable pub find_fmt : List FmtIn → Bytes → Option FmtIn
find_fmt [] m = none
find_fmt (f ∷ fs) m = if bytes_eq f.mime m then some f else find_fmt fs m

-- The text up to a NUL, which ends a C string.
abbrev pub to_nul : Bytes → Bytes
to_nul [] = []
to_nul (c ∷ s) = if c == 0 then [] else c ∷ to_nul s

unfoldable pub valid_text : Bytes → Bytes
unfolding utf8_valid utf8_prefix latin1_to_utf8
valid_text p =
    if utf8_valid p
    then to_nul (take (utf8_prefix p plain_text_max_chars) p)
    else to_nul (latin1_to_utf8 (take (min (length p) plain_text_max_chars) p))

unfoldable pub format_name : Option Format → Bytes
format_name none = []
format_name (some png) = codes "PNG"
format_name (some gif) = codes "GIF"
format_name (some jpeg) = codes "JPEG"
format_name (some webp) = codes "WEBP"
format_name (some bmp) = codes "BMP"

-- The bytes of " · " and of "×".
abbrev pub dot : Bytes
dot = 0x20 ∷ 0xC2 ∷ 0xB7 ∷ 0x20 ∷ []

abbrev pub times : Bytes
times = 0xC3 ∷ 0x97 ∷ []

abbrev pub bracketed : Bytes → Bytes → Bytes
bracketed what size = b'[' ∷ what ++ dot ++ size ++ b']' ∷ []

abbrev pub total_len : List FmtIn → ℕ
total_len [] = 0
total_len (f ∷ fs) = length f.bytes + total_len fs

abbrev pub fmt_mimes : List FmtIn → List Bytes
fmt_mimes [] = []
fmt_mimes (f ∷ fs) = f.mime ∷ fmt_mimes fs

unfoldable pub first_image : List FmtIn → Option FmtIn
unfolding mime_is_image
first_image [] = none
first_image (f ∷ fs) = if mime_is_image f.mime then some f else first_image fs

abbrev pub first_mime : List FmtIn → Bytes
first_mime [] = codes "empty"
first_mime (f ∷ fs) = f.mime

-- Whether the plain text is the markup of the HTML.
abbrev pub is_markup : Option FmtIn → FmtIn → Bool
is_markup none text = false
is_markup (some html) text = bytes_eq html.bytes text.bytes

module _ (libc : Libc) where
  unfoldable pub human_size : ℕ → Bytes
  human_size n =
      if ltb n 1024
      then libc.decimal n ++ codes " B"
      else if ltb n (1024 * 1024)
      then libc.one_decimal n 1024 ++ codes " KB"
      else if ltb n (1024 * 1024 * 1024)
      then libc.one_decimal n (1024 * 1024) ++ codes " MB"
      else libc.one_decimal n (1024 * 1024 * 1024) ++ codes " GB"

  unfoldable pub html_text : Bytes → Bytes
  unfolding html_to_text valid_text
  html_text p = elim (html_to_text libc.strtoul (valid_text p)) [ none ↦ [] | some t ↦ to_nul t ]

  abbrev pub html_plain : Option FmtIn → Option Bytes
  html_plain none = none
  html_plain (some html) = some (html_text html.bytes)

  -- `plain` of a clip that is no list of files.
  abbrev pub text_plain : Option FmtIn → Option FmtIn → Option Bytes
  text_plain none html = html_plain html
  text_plain (some text) html =
      if is_markup html text then html_plain html else some (valid_text text.bytes)

  unfoldable pub derive_plain : List FmtIn → Option Bytes
  unfolding mime_classify find_fmt uri_list_to_paths
  derive_plain fmts = elim (mime_classify (fmt_mimes fmts)) [
    | kind_files ↦ elim (find_fmt fmts mime_uri_list) [
      | some uris ↦ some (to_nul (uri_list_to_paths (valid_text uris.bytes)))
      | none ↦ text_plain (find_fmt fmts mime_text) (find_fmt fmts mime_html)
    ]
    | _ ↦ text_plain (find_fmt fmts mime_text) (find_fmt fmts mime_html)
  ]

  -- `flags`: the markup stands in for the text.
  unfoldable pub derive_flag : List FmtIn → Bool
  unfolding mime_classify find_fmt
  derive_flag fmts =
      let marked : Bool = elim (find_fmt fmts mime_text) [
        | none ↦ false
        | some text ↦ is_markup (find_fmt fmts mime_html) text
      ] in
      elim (mime_classify (fmt_mimes fmts)) [
        | kind_files ↦ elim (find_fmt fmts mime_uri_list) [ some uris ↦ false | none ↦ marked ]
        | _ ↦ marked
      ]

  unfoldable pub image_label : FmtIn → Option (Bool × Meta) → Bytes
  unfolding human_size format_name
  image_label f none = bracketed (drop 6 f.mime) (human_size (length f.bytes))
  image_label f (some (ok, m)) =
      if ok && not (m.width == 0)
      then bracketed
          (format_name m.format ++ b' ' ∷ libc.decimal m.width ++ times ++ libc.decimal m.height)
          (human_size (length f.bytes))
      else bracketed (drop 6 f.mime) (human_size (length f.bytes))

  -- No readable text: the richest format.
  unfoldable pub format_label : List FmtIn → Option Bytes → Bytes
  unfolding find_fmt human_size
  format_label fmts plain =
      let size = human_size (total_len fmts) in
      elim plain [
        | some [] ↦ elim (find_fmt fmts mime_text) [
          | some text ↦ bracketed (codes "whitespace") size
          | none ↦ bracketed (first_mime fmts) size
        ]
        | _ ↦ bracketed (first_mime fmts) size
      ]

  unfoldable pub text_label : List FmtIn → Option Bytes → Bytes
  unfolding format_label text_preview
  text_label fmts none = format_label fmts none
  text_label fmts (some []) = format_label fmts (some [])
  text_label fmts (some (c ∷ s)) = elim (text_preview (c ∷ s) preview_chars) [
    | [] ↦ format_label fmts (some (c ∷ s))
    | d ∷ t ↦ d ∷ t
  ]

  unfoldable pub derive_preview : List FmtIn → Bytes
  unfolding mime_classify first_image img_meta_parse derive_plain image_label text_label
  derive_preview fmts = elim (mime_classify (fmt_mimes fmts)) [
    | kind_image ↦ elim (first_image fmts) [
      | some f ↦ image_label f (img_meta_parse f.bytes)
      | none ↦ text_label fmts (derive_plain fmts)
    ]
    | _ ↦ text_label fmts (derive_plain fmts)
  ]

  unfoldable pub dbi_derive : List FmtIn → Derived
  unfolding mime_classify derive_plain derive_preview derive_flag
  dbi_derive fmts = record {
    kind = mime_classify (fmt_mimes fmts);
    plain = derive_plain fmts;
    preview = derive_preview fmts;
    text_is_html = derive_flag fmts;
  }
