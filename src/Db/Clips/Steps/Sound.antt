-- ===== src/Db/Clips/Steps/Sound.antt =====
-- The operations of daemon/src/db.c and daemon/src/db_edit.c on clips, and the bytes of the formats.
use clipnet.Base.{
  ℕ, ◌≡◌, refl, sym, ap, ◌∙◌, subst, ◌⊎◌, Bool, not, Option, none, some, List, [], ◌∷◌, ◌==◌,
  if◌then◌else◌, All, All-append, Bytes, if-both, option-both, mem_id, list-both,
}
use clipnet.Db.Clips.{
  FmtIn, ClipIn, FormatRow, Clip, Blob, Store, StoreEnv, dbi_insert_formats, db_blob_gc, find_clip,
  format_rows, Libc,
}
use clipnet.Db.Clips.Blobs.{FilesOk, FmtsOk, RowOk, dbi_insert_formats_lem, format_rows-RowOk}
use clipnet.Db.Clips.Edit.{
  ClipError, db_exists, is_utf8, db_clip_set_title, spaced, word_used, db_clip_set_quick_paste,
  db_clip_set_locked, hash_used, text_fmts, with_text, edited_store, replace_text, set_text,
  db_clip_set_text, same_text, database_error,
}
use clipnet.Db.Clips.Change.{
  Added, update, insert_clip, add_tx, db_add_clip, db_delete, new_clip, find_hash, db_touch,
  failed_add, violates, inserted, insert_rows, without_clip,
}
use clipnet.Db.Clips.Content.{dbi_content_hash}
use clipnet.Db.Clips.Retention.{
  Settings, Holders, keep, drop_old, drop_large, drop_surplus, ret_tx, db_retention, stays_old,
  stays_large, surplus,
}
use clipnet.Db.Clips.Steps.{
  ClipOk, StoreOk, Action, edited, apply, IsAddressed, add, delete, touch, retitle, set_word, lock,
  edit, retain, gc, HasFormats, run,
}
use clipnet.Db.Groups.{trimmed}
use clipnet.Db.Clips.Steps.Rows.{
  All-update, All-without_clip, All-keep, clips_same, clips-Kept, unlink_unused-FilesOk,
  unlink_unused_same, collect-FilesOk, collect_same,
}

module _ (libc : Libc) (content : Bytes → Bytes) where
  -- A change that leaves the formats alone.
  update-StoreOk :
      (i : ℕ) (change : Clip → Clip) (s : Store)
      → ((c : Clip) → (change c).formats ≡ c.formats)
      → StoreOk libc content s
      → StoreOk libc content (record s { clips = update i change s.clips })
  update-StoreOk i change s same ok = record {
    files = ok.files;
    clips =
        All-update (ClipOk libc content s.blobs) i change s.clips
          (λ c h.
            subst
              (λ (rs : List FormatRow). All (RowOk content s.blobs) rs × HasFormats libc content rs)
              (sym (same c)) h)
          ok.clips;
  }

  db_blob_gc-StoreOk : (s : Store) → StoreOk libc content s → StoreOk libc content (db_blob_gc s)
  unfolding db_blob_gc
  db_blob_gc-StoreOk s ok = record {
    files = collect-FilesOk libc content s.clips s.blobs ok.files;
    clips =
        clips_same libc content s.blobs _ s.clips
          (λ n e. collect_same libc content s.clips s.blobs n e) ok.clips;
  }

  db_delete-StoreOk :
      (i : ℕ) (s : Store) → StoreOk libc content s → StoreOk libc content (db_delete i s).1
  unfolding db_delete
  db_delete-StoreOk i s ok =
      option-both (λ (r : Bool × Store). StoreOk libc content r.1) (find_clip i s.clips) _ _
        (λ _. ok)
        (λ c _.
          let left = without_clip i s.clips in
          record {
            files = unlink_unused-FilesOk libc content left c.formats s.blobs ok.files;
            clips =
                clips_same libc content s.blobs _ left
                  (λ n e. unlink_unused_same libc content left c.formats s.blobs n e)
                  (All-without_clip (ClipOk libc content s.blobs) i s.clips ok.clips);
          })

  ret_tx-All :
      (P : Clip → Type 0) (held : Holders) (set : Settings) (now : ℕ) (cs : List Clip)
      → All P cs
      → All P (ret_tx held set now cs)
  unfolding ret_tx drop_old drop_large drop_surplus
  ret_tx-All P held set now cs h =
      let old = drop_old held set now cs in
      let large = drop_large held set now old in
      step (set.max_clips == 0) (λ c. not (mem_id c.id (surplus held set.max_clips large))) large
        (step (set.large_age_days == 0) (stays_large held set now) old
          (step (set.max_age_days == 0) (stays_old held set now) cs h))
    where
      step :
          (b : Bool) (q : Clip → Bool) (xs : List Clip)
          → All P xs
          → All P (if b then xs else keep q xs)
      step b q xs g = if-both (All P) b _ _ (λ _. g) (λ _. All-keep P q xs g)

  db_retention-StoreOk :
      (held : Holders) (set : Settings) (now : ℕ) (s : Store)
      → StoreOk libc content s
      → StoreOk libc content (db_retention held set now s).1
  unfolding db_retention
  db_retention-StoreOk held set now s ok =
      let kept : StoreOk libc content (record s { clips = ret_tx held set now s.clips }) = record {
        files = ok.files;
        clips = ret_tx-All (ClipOk libc content s.blobs) held set now s.clips ok.clips;
      } in
      if-both (StoreOk libc content) _ _ _ (λ _. kept) (λ _. db_blob_gc-StoreOk _ kept)

  -- Rows that were inserted, for a clip that has them.
  inserted-ClipOk :
      (env : StoreEnv) (fmts : List FmtIn) (f : FmtIn) (fs : List FmtIn) (bs : List Blob)
      (rows : List FormatRow) (c : Clip)
      → fmts ≡ f ∷ fs
      → FilesOk content bs
      → FmtsOk content fmts
      → (dbi_insert_formats libc env fmts bs).0 ≡ some rows
      → c.formats ≡ rows
      → ClipOk libc content (dbi_insert_formats libc env fmts bs).1 c
  inserted-ClipOk env fmts f fs bs rows c shape files ok made has =
      let (_, later) = dbi_insert_formats_lem content libc env fmts bs files ok in
      let (same, stored) = later.1 rows made in
      let made_of : c.formats ≡ format_rows libc fmts = has ∙ same in
      (
        subst (All (RowOk content (dbi_insert_formats libc env fmts bs).1)) (sym made_of)
            (format_rows-RowOk content libc fmts _ ok stored),
        (
          f,
          fs,
          made_of ∙ ap (λ (t : List FmtIn). format_rows libc t) shape,
          subst (FmtsOk content) shape ok,
        ),
      )

  record AddedOk (r : Added) : Type 0 where
    store_ok : StoreOk libc content r.store

  insert_clip-StoreOk :
      (env : StoreEnv) (in_ : ClipIn) (f : FmtIn) (fs : List FmtIn) (s : Store)
      → in_.fmts ≡ f ∷ fs
      → FmtsOk content in_.fmts
      → StoreOk libc content s
      → AddedOk (insert_clip libc env in_ s)
  unfolding insert_clip
  insert_clip-StoreOk env in_ f fs s shape fmts ok =
      let made = dbi_insert_formats libc env in_.fmts s.blobs in
      let (files, later) = dbi_insert_formats_lem content libc env in_.fmts s.blobs ok.files fmts in
      let old = clips-Kept libc content s.blobs made.1 s.clips later.0 ok.clips in
      if-both AddedOk (violates env in_ s.clips) (failed_add s) (insert_rows libc env in_ s)
        (λ _. record { store_ok = ok })
        (λ _.
          option-both AddedOk made.0 (failed_add (record s { blobs = made.1 }))
            (inserted libc env in_ s made.1)
            (λ _. record { store_ok = record { files = files; clips = old } })
            (λ rows e. record {
              store_ok = record {
                files = files;
                clips =
                    All-append (ClipOk libc content made.1) s.clips
                      (new_clip libc env in_ s.clips rows ∷ []) old
                      (
                        inserted-ClipOk env in_.fmts f fs s.blobs rows
                            (new_clip libc env in_ s.clips rows) shape ok.files fmts e refl,
                        tt,
                      );
              };
            }))

  add-StoreOk :
      (env : StoreEnv) (in_ : ClipIn) (s : Store)
      → FmtsOk content in_.fmts
      → StoreOk libc content s
      → AddedOk (db_add_clip libc env in_ s)
  unfolding db_add_clip add_tx
  add-StoreOk env in_ s fmts ok =
      list-both AddedOk in_.fmts _ _ (λ _. record { store_ok = ok })
        (λ f fs shape.
          option-both AddedOk (find_hash (dbi_content_hash in_.fmts) s.clips) _ _
            (λ _. insert_clip-StoreOk env in_ f fs s shape fmts ok)
            (λ existing _. record { store_ok = update-StoreOk existing _ s (λ c. refl) ok }))

  record SetOk (s : Store) (r : Store ⊎ ClipError) : Type 0 where
    set_ok : StoreOk libc content (edited s r)

  record EditOk (r : Store × Option ClipError) : Type 0 where
    edit_ok : StoreOk libc content r.0

  set_text-StoreOk :
      (env : StoreEnv) (c : Clip) (text : Bytes) (s : Store)
      → FmtsOk content (text_fmts text)
      → StoreOk libc content s
      → EditOk (set_text libc env c text s)
  unfolding set_text
  set_text-StoreOk env c text s fmts ok =
      let made = dbi_insert_formats libc env (text_fmts text) s.blobs in
      let (files, later) =
        dbi_insert_formats_lem content libc env (text_fmts text) s.blobs ok.files fmts in
      let old = clips-Kept libc content s.blobs made.1 s.clips later.0 ok.clips in
      if-both EditOk (hash_used c.id (dbi_content_hash (text_fmts text)) s.clips)
        (s, some same_text) (replace_text libc env c text s) (λ _. record { edit_ok = ok })
        (λ _.
          option-both EditOk made.0 (record s { blobs = made.1 }, some database_error)
            (λ rows. (edited_store libc c text s made.1 rows, none))
            (λ _. record { edit_ok = record { files = files; clips = old } })
            (λ rows e.
              let cs = update c.id (with_text libc text rows) s.clips in
              let new =
                All-update (ClipOk libc content made.1) c.id (with_text libc text rows) s.clips
                  (λ d _.
                    inserted-ClipOk env (text_fmts text) _ [] s.blobs rows
                      (with_text libc text rows d) refl ok.files fmts e refl)
                  old in
              record {
                edit_ok = record {
                  files = unlink_unused-FilesOk libc content cs c.formats made.1 files;
                  clips =
                      clips_same libc content made.1 _ cs
                        (λ n f. unlink_unused_same libc content cs c.formats made.1 n f) new;
                };
              }))

  edit-StoreOk :
      (env : StoreEnv) (i : ℕ) (text : Option Bytes) (s : Store)
      → IsAddressed content (edit env i text)
      → StoreOk libc content s
      → EditOk (db_clip_set_text libc env i text s)
  unfolding db_clip_set_text
  edit-StoreOk env i none s at ok =
      option-both EditOk (find_clip i s.clips) _ _ (λ _. record { edit_ok = ok })
        (λ c _. record { edit_ok = ok })
  edit-StoreOk env i (some []) s at ok =
      option-both EditOk (find_clip i s.clips) _ _ (λ _. record { edit_ok = ok })
        (λ c _. record { edit_ok = ok })
  edit-StoreOk env i (some (b ∷ t)) s at ok =
      option-both EditOk (find_clip i s.clips) _ _ (λ _. record { edit_ok = ok })
        (λ c _.
          if-both EditOk _ _ _ (λ _. set_text-StoreOk env c (b ∷ t) s at ok)
            (λ _. record { edit_ok = ok }))

  apply-StoreOk :
      (a : Action) (s : Store)
      → IsAddressed content a
      → StoreOk libc content s
      → StoreOk libc content (apply libc a s)
  unfolding apply db_touch db_clip_set_title db_clip_set_quick_paste db_clip_set_locked
  apply-StoreOk (add env in_) s at ok = (add-StoreOk env in_ s at ok).store_ok
  apply-StoreOk (delete i) s at ok = db_delete-StoreOk i s ok
  apply-StoreOk (touch now i pasted) s at ok = update-StoreOk i _ s (λ c. refl) ok
  apply-StoreOk (retitle i title) s at ok =
      (if-both (SetOk s) (not (db_exists s.clips i)) _ _ (λ _. record { set_ok = ok })
        (λ _.
          if-both (SetOk s) (not (is_utf8 (trimmed title))) _ _ (λ _. record { set_ok = ok })
            (λ _. record {
              set_ok = update-StoreOk i (λ c. record c { title = trimmed title }) s (λ c. refl) ok;
            }))).set_ok
  apply-StoreOk (set_word i word) s at ok =
      (if-both (SetOk s) (not (db_exists s.clips i)) _ _ (λ _. record { set_ok = ok })
        (λ _.
          if-both (SetOk s) (spaced (trimmed word)) _ _ (λ _. record { set_ok = ok })
            (λ _.
              if-both (SetOk s) (word_used i (trimmed word) s.clips) _ _
                (λ _. record { set_ok = ok })
                (λ _. record {
                  set_ok =
                      update-StoreOk i (λ c. record c { quick_paste = trimmed word }) s (λ c. refl)
                        ok;
                })))).set_ok
  apply-StoreOk (lock i locked) s at ok =
      (if-both (SetOk s) (not (db_exists s.clips i)) _ _ (λ _. record { set_ok = ok })
        (λ _. record {
          set_ok = update-StoreOk i (λ c. record c { locked = locked }) s (λ c. refl) ok;
        })).set_ok
  apply-StoreOk (edit env i text) s at ok = (edit-StoreOk env i text s at ok).edit_ok
  apply-StoreOk (retain held set now) s at ok = db_retention-StoreOk held set now s ok
  apply-StoreOk gc s at ok = db_blob_gc-StoreOk s ok

  pub run-StoreOk :
      (earlier : List Action)
      → All (IsAddressed content) earlier
      → StoreOk libc content (run libc earlier)
  unfolding run
  run-StoreOk [] _ = record { files = tt; clips = tt }
  run-StoreOk (a ∷ earlier) (at, h) = apply-StoreOk a (run libc earlier) at (run-StoreOk earlier h)
