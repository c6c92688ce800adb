-- ===== src/Db/Clips/Steps.antt =====
-- Every sequence of the operations of daemon/src/db.c and daemon/src/db_edit.c on clips.
pub mod Rows
pub mod Sound
pub mod Payload
use clipnet.Base.{ℕ, ◌≡◌, ◌⊎◌, inl, inr, Bool, Option, some, List, [], ◌∷◌, All, Bytes}
use clipnet.Db.Clips.{
  ClipIn, FormatRow, Clip, Blob, Store, StoreEnv, db_blob_gc, FmtIn, format_rows, Libc,
}
use clipnet.Db.Clips.Blobs.{FilesOk, FmtsOk, RowOk}
use clipnet.Db.Clips.Edit.{
  ClipError, db_clip_set_title, db_clip_set_quick_paste, db_clip_set_locked, text_fmts,
  db_clip_set_text,
}
use clipnet.Db.Clips.Change.{db_add_clip, db_delete, db_touch}
use clipnet.Db.Clips.Retention.{Settings, Holders, db_retention}

pub data Action : Type 0 where
  add : StoreEnv → ClipIn → Action
  delete : ℕ → Action
  touch : ℕ → ℕ → Bool → Action
  retitle : ℕ → Option Bytes → Action
  set_word : ℕ → Option Bytes → Action
  lock : ℕ → Bool → Action
  edit : StoreEnv → ℕ → Option Bytes → Action
  retain : Holders → Settings → ℕ → Action
  gc : Action

abbrev pub edited : Store → Store ⊎ ClipError → Store
edited s (inl t) = t
edited s (inr e) = s

module _ (libc : Libc) where
  unfoldable pub apply : Action → Store → Store
  unfolding db_add_clip db_delete db_touch db_clip_set_title db_clip_set_quick_paste
      db_clip_set_locked db_clip_set_text db_retention db_blob_gc
  apply (add env in_) s = (db_add_clip libc env in_ s).store
  apply (delete i) s = (db_delete i s).1
  apply (touch now i pasted) s = db_touch now i pasted s
  apply (retitle i title) s = edited s (db_clip_set_title i title s)
  apply (set_word i word) s = edited s (db_clip_set_quick_paste i word s)
  apply (lock i locked) s = edited s (db_clip_set_locked i locked s)
  apply (edit env i text) s = (db_clip_set_text libc env i text s).0
  apply (retain held set now) s = (db_retention held set now s).1
  apply gc s = db_blob_gc s

module _ (libc : Libc) (content : Bytes → Bytes) where
  -- The rows of a clip are those of at least one format, and the bytes of all are there.
  abbrev pub HasFormats : List FormatRow → Type 0
  HasFormats rows =
      (f : FmtIn) × (fs : List FmtIn) × (rows ≡ format_rows libc (f ∷ fs)) × FmtsOk content (f ∷ fs)

  abbrev pub ClipOk : List Blob → Clip → Type 0
  ClipOk bs c = All (RowOk content bs) c.formats × HasFormats c.formats

  pub record StoreOk (s : Store) : Type 0 where
    pub files : FilesOk content s.blobs
    pub clips : All (ClipOk s.blobs) s.clips

module _ (content : Bytes → Bytes) where
  -- The bytes that an operation brings are those of their name.
  abbrev pub IsAddressed : Action → Type 0
  IsAddressed (add env in_) = FmtsOk content in_.fmts
  IsAddressed (edit env i (some text)) = FmtsOk content (text_fmts text)
  IsAddressed _ = Unit

-- The store after the operations; the last one stands first.
unfoldable pub run : Libc → List Action → Store
unfolding apply
run libc [] = record { clips = []; blobs = [] }
run libc (a ∷ earlier) = apply libc a (run libc earlier)
