-- ===== src/Db/Clips/Steps/Payload.antt =====
-- `db_load_payload` of daemon/src/db.c, for clips that the other operations stored.
use clipnet.Base.{
  ℕ, ◌≡◌, refl, sym, ap, ◌∙◌, subst, false, none, some, List, [], ◌∷◌, ◌++◌, arith, ◌==◌,
  if◌then◌else◌, ==_iff, All, Bytes, or_false, if-both, option-both, mem_id, list-both,
}
use clipnet.Db.Clips.{
  FmtIn, ClipIn, FormatRow, Clip, Store, StoreEnv, dbi_insert_formats, find_clip, load_formats,
  db_load_payload, format_rows, Libc,
}
use clipnet.Db.Clips.Blobs.{
  FilesOk, FmtsOk, RowOk, dbi_insert_formats_lem, load_formats_rows, rows-AllStored,
}
use clipnet.Db.Clips.Change.{
  Added, clip_ids, find_hash, failed_add, violates, new_clip, inserted, insert_rows, insert_clip,
  add_tx, db_add_clip, add_new,
}
use clipnet.Db.Clips.Content.{dbi_content_hash}
use clipnet.Db.Clips.Steps.{ClipOk, Action, IsAddressed, run}
use clipnet.Db.Clips.Steps.Rows.{All-find}
use clipnet.Db.Clips.Steps.Sound.{run-StoreOk}
use clipnet.Db.Groups.Forest.Create.{next_id-IsNew}

module _ (libc : Libc) (content : Bytes → Bytes) where
  -- A payload is loaded when the formats of the clip are.
  load_found :
      (s : Store) (i : ℕ) (c : Clip) (f : FmtIn) (fs : List FmtIn)
      → find_clip i s.clips ≡ some c
      → load_formats libc s.blobs c.formats ≡ some (f ∷ fs)
      → db_load_payload libc s i ≡ some (f ∷ fs)
  unfolding db_load_payload
  load_found s i c f fs e g = ground (arith, e, g)

find_clip_last :
    (cs : List Clip) (c : Clip)
    → mem_id c.id (clip_ids cs) ≡ false
    → find_clip c.id (cs ++ c ∷ []) ≡ some c
find_clip_last [] c h = ap (λ b. if b then some c else none) ((==_iff c.id c.id).1 refl)
find_clip_last (d ∷ cs) c h =
    let (other, absent) = or_false (d.id == c.id) (mem_id c.id (clip_ids cs)) h in
    ap (λ b. if b then some d else find_clip c.id (cs ++ c ∷ [])) other ∙ find_clip_last cs c absent

-- However clips are added, edited, deleted, aged out and collected: the payload of every clip that is left
-- loads, and its names, aliases, sizes and SHA-256 values are those of the clip's rows. cJSON reads back
-- the arrays of strings that it prints, and no two contents that are stored on the way have one SHA-256.
pub db_load_payload-run :
    (libc : Libc)
    → ((names : List Bytes) → libc.parse_names (libc.print_names names) ≡ some names)
    → (content : Bytes → Bytes) (actions : List Action) (i : ℕ) (c : Clip)
    → All (IsAddressed content) actions
    → find_clip i (run libc actions).clips ≡ some c
    → (fmts : List FmtIn) × (db_load_payload libc (run libc actions) i ≡ some fmts)
      × (c.formats ≡ format_rows libc fmts)
db_load_payload-run libc json content actions i c at e =
    let s = run libc actions in
    let ok = run-StoreOk libc content actions at in
    let (rows, has) = All-find (ClipOk libc content s.blobs) i s.clips c ok.clips e in
    let (f, fs, shape, fmts) = has in
    let stored =
      rows-AllStored content libc (f ∷ fs) s.blobs fmts
        (subst (All (RowOk content s.blobs)) shape rows) in
    let loaded =
      ap (λ (t : List FormatRow). load_formats libc s.blobs t) shape
      ∙ load_formats_rows content libc json (f ∷ fs) s.blobs stored in
    (f ∷ fs, load_found libc content s i c f fs e loaded, shape)

module _ (libc : Libc)
    (json : (names : List Bytes) → libc.parse_names (libc.print_names names) ≡ some names)
    (content : Bytes → Bytes) (env : StoreEnv) (in_ : ClipIn) where
  record LoadsBack (r : Added) : Type 0 where
    loads : r.result ≡ add_new → db_load_payload libc r.store r.id ≡ some in_.fmts

  inserted-LoadsBack :
      (s : Store) (f : FmtIn) (fs : List FmtIn)
      → in_.fmts ≡ f ∷ fs
      → FilesOk content s.blobs
      → FmtsOk content in_.fmts
      → LoadsBack (insert_clip libc env in_ s)
  unfolding insert_clip
  inserted-LoadsBack s f fs shape files fmts =
      let made = dbi_insert_formats libc env in_.fmts s.blobs in
      let (_, later) = dbi_insert_formats_lem content libc env in_.fmts s.blobs files fmts in
      if-both LoadsBack (violates env in_ s.clips) (failed_add s) (insert_rows libc env in_ s)
        (λ _. record { loads = λ e. absurd cc })
        (λ _.
          option-both LoadsBack made.0 (failed_add (record s { blobs = made.1 }))
            (inserted libc env in_ s made.1) (λ _. record { loads = λ e. absurd cc })
            (λ rows e.
              let new = new_clip libc env in_ s.clips rows in
              let (same, stored) = later.1 rows e in
              let back : load_formats libc made.1 rows ≡ some (f ∷ fs) =
                ap (λ (t : List FormatRow). load_formats libc made.1 t) same
                ∙ load_formats_rows content libc json in_.fmts made.1 stored
                ∙ ap (λ (t : List FmtIn). some t) shape in
              record {
                loads = λ _.
                    load_found libc content (inserted libc env in_ s made.1 rows).store _ new f fs
                      (find_clip_last s.clips new
                        (next_id-IsNew (clip_ids s.clips) _ (omega arith)))
                      back
                    ∙ ap (λ (t : List FmtIn). some t) (sym shape);
              }))

  -- A clip that was added anew is loaded as it was given: the same names, bytes and aliases in the same
  -- order. cJSON reads back the arrays of strings that it prints. Every blob is the content of its name, and so are the bytes that are added: no two contents have
  -- one SHA-256.
  pub db_load_payload-db_add_clip :
      (s : Store)
      → FilesOk content s.blobs
      → FmtsOk content in_.fmts
      → (db_add_clip libc env in_ s).result ≡ add_new
      → db_load_payload libc (db_add_clip libc env in_ s).store (db_add_clip libc env in_ s).id
        ≡ some in_.fmts
  unfolding db_add_clip add_tx
  db_load_payload-db_add_clip s files fmts =
      (list-both LoadsBack in_.fmts (failed_add s) (λ _ _. add_tx libc env in_ s)
        (λ _. record { loads = λ e. absurd cc })
        (λ f fs shape.
          option-both LoadsBack (find_hash (dbi_content_hash in_.fmts) s.clips) _ _
            (λ _. inserted-LoadsBack s f fs shape files fmts)
            (λ existing _. record { loads = λ e. absurd cc }))).loads
