-- ===== src/Db/Clips/Edit.antt =====
-- What the user changes of a clip, in daemon/src/db_edit.c.
use clipnet.Base.{
  ℕ, ◌⊎◌, inl, inr, Bool, true, false, ◌&&◌, ◌||◌, not, Option, none, some, List, [], ◌∷◌, ◌==◌,
  if◌then◌else◌, length, Bytes, bytes_eq,
}
use clipnet.Db.Groups.{trimmed}
use clipnet.Db.Clips.{
  FmtIn, FormatRow, Clip, Blob, Store, StoreEnv, dbi_insert_formats, dbi_blob_referenced, find_clip,
  Libc,
}
use clipnet.Db.Clips.Change.{update, unlink_unused}
use clipnet.Db.Clips.Content.{dbi_content_hash}
use clipnet.Db.Clips.Derive.{dbi_derive}
use clipnet.Mime.{mime_text, text_default_aliases}
use clipnet.Util.Utf8.{utf8_valid}

pub data ClipError : Type 0 where
  unknown_clip text_bad_utf8 has_spaces word_taken text_empty same_text database_error : ClipError

unfoldable pub db_exists : List Clip → ℕ → Bool
db_exists cs i = elim (find_clip i cs) [ none ↦ false | some c ↦ true ]

abbrev pub is_utf8 : Option Bytes → Bool
is_utf8 none = true
is_utf8 (some t) = utf8_valid t

unfoldable pub db_clip_set_title : ℕ → Option Bytes → Store → Store ⊎ ClipError
unfolding db_exists trimmed utf8_valid
db_clip_set_title i title s =
    if not (db_exists s.clips i)
    then inr unknown_clip
    else if not (is_utf8 (trimmed title))
    then inr text_bad_utf8
    else inl (record s { clips = update i (λ c. record c { title = trimmed title }) s.clips })

abbrev pub has_space : Bytes → Bool
has_space [] = false
has_space (c ∷ s) = c == b' ' || c == b'\t' || has_space s

abbrev pub spaced : Option Bytes → Bool
spaced none = false
spaced (some w) = has_space w

-- The UNIQUE column: does a clip other than `i` have the word?
abbrev pub word_used : ℕ → Option Bytes → List Clip → Bool
word_used i none cs = false
word_used i (some w) [] = false
word_used i (some w) (c ∷ cs) =
    not (c.id == i) && (elim c.quick_paste [ none ↦ false | some v ↦ bytes_eq v w ])
    || word_used i (some w) cs

unfoldable pub db_clip_set_quick_paste : ℕ → Option Bytes → Store → Store ⊎ ClipError
unfolding db_exists trimmed
db_clip_set_quick_paste i word s =
    if not (db_exists s.clips i)
    then inr unknown_clip
    else if spaced (trimmed word)
    then inr has_spaces
    else if word_used i (trimmed word) s.clips
    then inr word_taken
    else inl (record s { clips = update i (λ c. record c { quick_paste = trimmed word }) s.clips })

unfoldable pub db_clip_set_locked : ℕ → Bool → Store → Store ⊎ ClipError
unfolding db_exists
db_clip_set_locked i locked s =
    if not (db_exists s.clips i)
    then inr unknown_clip
    else inl (record s { clips = update i (λ c. record c { locked = locked }) s.clips })

abbrev pub hash_used : ℕ → Bytes → List Clip → Bool
hash_used i h [] = false
hash_used i h (c ∷ cs) = not (c.id == i) && bytes_eq c.content_hash h || hash_used i h cs

abbrev pub text_fmts : Bytes → List FmtIn
text_fmts text = record { mime = mime_text; bytes = text; aliases = text_default_aliases } ∷ []

module _ (libc : Libc) where
  abbrev pub with_text : Bytes → List FormatRow → Clip → Clip
  with_text text rows c = record c {
    derived = dbi_derive libc (text_fmts text);
    content_hash = dbi_content_hash (text_fmts text);
    total_size = length text;
    formats = rows;
  }

  abbrev pub edited_store : Clip → Bytes → Store → List Blob → List FormatRow → Store
  edited_store c text s bs rows =
      let cs = update c.id (with_text text rows) s.clips in
      record { clips = cs; blobs = unlink_unused cs c.formats bs }

  abbrev pub replace_text : StoreEnv → Clip → Bytes → Store → Store × Option ClipError
  replace_text env c text s = elim (dbi_insert_formats libc env (text_fmts text) s.blobs).0 [
    | none ↦ (
      record s { blobs = (dbi_insert_formats libc env (text_fmts text) s.blobs).1 },
      some database_error,
    )
    | some rows ↦
        (edited_store c text s (dbi_insert_formats libc env (text_fmts text) s.blobs).1 rows, none)
  ]

  -- `set_text_tx` and what follows it, for the clip `c`.
  unfoldable pub set_text : StoreEnv → Clip → Bytes → Store → Store × Option ClipError
  unfolding dbi_insert_formats dbi_content_hash dbi_derive dbi_blob_referenced
  set_text env c text s =
      if hash_used c.id (dbi_content_hash (text_fmts text)) s.clips
      then (s, some same_text)
      else replace_text env c text s

  unfoldable pub db_clip_set_text : StoreEnv → ℕ → Option Bytes → Store → Store × Option ClipError
  unfolding set_text utf8_valid
  db_clip_set_text env i text s = elim (find_clip i s.clips) [
    | none ↦ (s, some unknown_clip)
    | some c ↦ elim text [
      | none ↦ (s, some text_empty)
      | some [] ↦ (s, some text_empty)
      | some (b ∷ t) ↦
          if utf8_valid (b ∷ t) then set_text env c (b ∷ t) s else (s, some text_bad_utf8)
    ]
  ]
