-- ===== src/Db/Clips/Readable.antt =====
-- `dbi_derive` of daemon/src/db.c: what is searched and shown of a clip.
use clipnet.Base.{
  ℕ, zero, suc, ◌+◌, ◌/◌, ◌%◌, min, ◌≡◌, refl, sym, ap, ◌∙◌, ◌≢◌, inl, inr, Bool, false, ◌&&◌, not,
  Option, none, some, List, [], ◌∷◌, ◌++◌, arith, ltb, ◌==◌, if◌then◌else◌, ==_iff, Bool-cases,
  length, take, All, All-append, Bytes, AllBytes, if-both, option-both, list-both,
}
use clipnet.Db.Clips.{FmtIn, Libc}
use clipnet.Db.Clips.Derive.{
  plain_text_max_chars, to_nul, valid_text, is_markup, html_plain, text_plain, image_label,
  preview_chars, find_fmt, fmt_mimes, first_image, derive_plain, derive_flag, format_label,
  text_label, derive_preview, dbi_derive,
}
use clipnet.Mime.{
  mime_text, mime_html, ClipKind, mime_classify, kind_text, kind_rich, kind_image, kind_files,
  kind_other,
}
use clipnet.Imgmeta.{Meta, img_meta_parse}
use clipnet.Textutil.{text_preview}
use clipnet.Util.Utf8.{utf8_valid, decode, encode, utf8_prefix, latin1_to_utf8}
use clipnet.Util.Utf8.Prefix.{utf8_prefix-take, latin1-encode}

abbrev pub NoNul : Bytes → Type 0
NoNul = All (λ c. c ≢ 0)

NoNul-take : (n : ℕ) (s : Bytes) → NoNul s → NoNul (take n s)
NoNul-take zero s h = tt
NoNul-take (suc n) [] h = tt
NoNul-take (suc n) (c ∷ s) (here, h) = (here, NoNul-take n s h)

to_nul-NoNul : (s : Bytes) → NoNul s → to_nul s ≡ s
to_nul-NoNul [] h = refl
to_nul-NoNul (c ∷ s) (here, h) =
    if-both (λ (t : Bytes). t ≡ c ∷ s) (c == 0) _ _ (λ e. absurd (here ((==_iff c 0).0 e)))
      (λ _. ap (◌∷◌ c) (to_nul-NoNul s h))

NoNul-append : (s t : Bytes) → NoNul s → NoNul t → NoNul (s ++ t)
NoNul-append = All-append (λ c. c ≢ 0)

NoNul-latin1 : (s : Bytes) → NoNul s → NoNul (latin1_to_utf8 s)
unfolding latin1_to_utf8
NoNul-latin1 [] h = tt
NoNul-latin1 (c ∷ s) (here, h) =
    NoNul-append (if ltb c 0x80 then c ∷ [] else (0xC0 + c / 64) ∷ (0x80 + c % 64) ∷ [])
      (latin1_to_utf8 s)
      (if-both NoNul (ltb c 0x80) _ _ (λ _. (here, tt)) (λ _. (omega arith, (omega arith, tt))))
      (NoNul-latin1 s h)

take-min : (n : ℕ) (s : Bytes) → take (min (length s) n) s ≡ take n s
take-min zero s = let none_left : min (length s) 0 ≡ 0 = omega arith in ap (λ k. take k s) none_left
take-min (suc n) [] =
    let none_there : min (length {A = ℕ} []) (suc n) ≡ 0 = omega arith in
    ap (λ k. take k []) none_there
take-min (suc n) (c ∷ s) =
    let one_less : min (suc (length s)) (suc n) ≡ suc (min (length s) n) = omega arith in
    ap (λ k. take k (c ∷ s)) one_less ∙ ap (◌∷◌ c) (take-min n s)

AllBytes-take : (n : ℕ) (s : Bytes) → AllBytes s → AllBytes (take n s)
AllBytes-take zero s h = tt
AllBytes-take (suc n) [] h = tt
AllBytes-take (suc n) (c ∷ s) (here, h) = (here, AllBytes-take n s h)

-- The characters of a text: its code points when it is UTF-8, its bytes when it is not.
abbrev pub characters : Bytes → List ℕ
characters s = if utf8_valid s then decode s else s

valid_text_lem :
    (s : Bytes)
    → AllBytes s
    → NoNul s
    → valid_text s ≡ encode (take plain_text_max_chars (characters s))
unfolding valid_text
valid_text_lem s bytes no_nul = elim (Bool-cases (utf8_valid s)) [
  | inl valid ↦
      branch valid
      ∙ to_nul-NoNul (take (utf8_prefix s plain_text_max_chars) s)
          (NoNul-take (utf8_prefix s plain_text_max_chars) s no_nul)
      ∙ utf8_prefix-take s plain_text_max_chars bytes valid
      ∙ sym (ap (λ b. encode (take plain_text_max_chars (if b then decode s else s))) valid)
  | inr invalid ↦
      let n = min (length s) plain_text_max_chars in
      branch invalid
      ∙ to_nul-NoNul (latin1_to_utf8 (take n s)) (NoNul-latin1 (take n s) (NoNul-take n s no_nul))
      ∙ latin1-encode (take n s) (AllBytes-take n s bytes)
      ∙ ap encode (take-min plain_text_max_chars s)
      ∙ sym (ap (λ b. encode (take plain_text_max_chars (if b then decode s else s))) invalid)
]
  where
    branch :
        {b : Bool}
        → utf8_valid s ≡ b
        → valid_text s ≡ (
            if b
            then to_nul (take (utf8_prefix s plain_text_max_chars) s)
            else to_nul (latin1_to_utf8 (take (min (length s) plain_text_max_chars) s)))
    branch e =
        ap
          (λ b.
            if b
            then to_nul (take (utf8_prefix s plain_text_max_chars) s)
            else to_nul (latin1_to_utf8 (take (min (length s) plain_text_max_chars) s)))
          e

not_files {ℓ} :
    {A : Type ℓ} (k : ClipKind) (x y : A) → k ≢ kind_files → (elim k [ kind_files ↦ x | _ ↦ y ]) ≡ y
not_files kind_text x y h = refl
not_files kind_rich x y h = refl
not_files kind_image x y h = refl
not_files kind_files x y h = absurd (h refl)
not_files kind_other x y h = refl

module _ (libc : Libc) where
  text_plain-text :
      (text : FmtIn) (html : Option FmtIn)
      → is_markup html text ≡ false
      → text_plain libc (some text) html ≡ some (valid_text text.bytes)
  text_plain-text text html e =
      ap (λ b. if b then html_plain libc html else some (valid_text text.bytes)) e

  image_label-IsShown : (f : FmtIn) (m : Option (Bool × Meta)) → image_label libc f m ≢ []
  unfolding image_label
  image_label-IsShown f none = λ e. absurd cc
  image_label-IsShown f (some (ok, m)) =
      if-both (λ (s : Bytes). s ≢ []) (ok && not (m.width == 0)) _ _ (λ _ e. absurd cc)
        (λ _ e. absurd cc)

  format_label-IsShown :
      (fmts : List FmtIn) (plain : Option Bytes) → format_label libc fmts plain ≢ []
  unfolding format_label
  format_label-IsShown fmts none = λ e. absurd cc
  format_label-IsShown fmts (some (c ∷ s)) = λ e. absurd cc
  format_label-IsShown fmts (some []) =
      option-both (λ (s : Bytes). s ≢ []) (find_fmt fmts mime_text) _ _ (λ _ e. absurd cc)
        (λ text _ e. absurd cc)

  text_label-IsShown : (fmts : List FmtIn) (plain : Option Bytes) → text_label libc fmts plain ≢ []
  unfolding text_label
  text_label-IsShown fmts none = format_label-IsShown fmts none
  text_label-IsShown fmts (some []) = format_label-IsShown fmts (some [])
  text_label-IsShown fmts (some (c ∷ s)) =
      list-both (λ (t : Bytes). t ≢ []) (text_preview (c ∷ s) preview_chars) _ (λ d t. d ∷ t)
        (λ _. format_label-IsShown fmts (some (c ∷ s))) (λ d t _ e. absurd cc)

  derive_preview-IsShown : (fmts : List FmtIn) → derive_preview libc fmts ≢ []
  unfolding derive_preview
  derive_preview-IsShown fmts =
      elim (mime_classify (fmt_mimes fmts))
        as (λ k.
          (elim k [
            | kind_image ↦ elim (first_image fmts) [
              | some f ↦ image_label libc f (img_meta_parse f.bytes)
              | none ↦ text_label libc fmts (derive_plain libc fmts)
            ]
            | _ ↦ text_label libc fmts (derive_plain libc fmts)
          ])
          ≢ []) [
            | kind_image ↦
                option-both (λ (s : Bytes). s ≢ []) (first_image fmts) _ _
                  (λ _. text_label-IsShown fmts (derive_plain libc fmts))
                  (λ f _. image_label-IsShown f (img_meta_parse f.bytes))
            | _ ↦ text_label-IsShown fmts (derive_plain libc fmts)
          ]

  -- The text of a clip with a plain-text format, unless it is a list of files or the text repeats the HTML
  -- markup: it is the UTF-8 of the format's first characters, as many as are kept, where bytes that are no
  -- UTF-8 are read as Latin-1. The format has no NUL. The clip is not taken for markup, and its preview is
  -- not empty.
  pub dbi_derive_lem :
      (fmts : List FmtIn) (text : FmtIn)
      → find_fmt fmts mime_text ≡ some text
      → mime_classify (fmt_mimes fmts) ≢ kind_files
      → is_markup (find_fmt fmts mime_html) text ≡ false
      → AllBytes text.bytes
      → NoNul text.bytes
      → ((dbi_derive libc fmts).plain
          ≡ some (encode (take plain_text_max_chars (characters text.bytes))))
        × ((dbi_derive libc fmts).text_is_html ≡ false)
        × ((dbi_derive libc fmts).preview ≢ [])
  unfolding dbi_derive derive_plain derive_flag
  dbi_derive_lem fmts text e other unmarked bytes no_nul = (
    not_files (mime_classify (fmt_mimes fmts)) _ _ other
        ∙ ap (λ (t : Option FmtIn). text_plain libc t (find_fmt fmts mime_html)) e
        ∙ text_plain-text text (find_fmt fmts mime_html) unmarked
        ∙ ap (λ (s : Bytes). some s) (valid_text_lem text.bytes bytes no_nul),
    not_files (mime_classify (fmt_mimes fmts)) _ _ other
        ∙ ap
            (λ (t : Option FmtIn). elim t [
              | none ↦ false
              | some x ↦ is_markup (find_fmt fmts mime_html) x
            ])
            e
        ∙ unmarked,
    derive_preview-IsShown fmts,
  )
