-- ===== src/Db/Clips/Change.antt =====
-- What daemon/src/db.c does to clips: adding, deleting and touching them.
use clipnet.Base.{
  ℕ, ◌+◌, max, Bool, true, false, ◌&&◌, ◌||◌, not, Option, none, some, List, [], ◌∷◌, ◌++◌, ◌==◌,
  if◌then◌else◌, take, Bytes, bytes_eq,
}
use clipnet.Db.{next_id}
use clipnet.Db.Clips.{
  ClipIn, FormatRow, Clip, Blob, Store, StoreEnv, blob_unlink, dbi_insert_formats,
  dbi_blob_referenced, find_clip, Libc,
}
use clipnet.Db.Clips.Content.{dbi_content_hash}
use clipnet.Db.Clips.Derive.{total_len, dbi_derive}

pub data AddResult : Type 0 where
  add_err add_new add_dup : AddResult

pub record Added : Type 0 where
  pub result : AddResult
  pub id : ℕ
  pub store : Store

abbrev pub clip_ids : List Clip → List ℕ
clip_ids [] = []
clip_ids (c ∷ cs) = c.id ∷ clip_ids cs

abbrev pub find_hash : Bytes → List Clip → Option ℕ
find_hash h [] = none
find_hash h (c ∷ cs) = if bytes_eq c.content_hash h then some c.id else find_hash h cs

abbrev pub has_uuid : Bytes → List Clip → Bool
has_uuid u [] = false
has_uuid u (c ∷ cs) = bytes_eq c.uuid u || has_uuid u cs

-- UPDATE … WHERE id = ?.
abbrev pub update : ℕ → (Clip → Clip) → List Clip → List Clip
update i change [] = []
update i change (c ∷ cs) = (if c.id == i then change c else c) ∷ update i change cs

abbrev pub or_else : Option Bytes → Option Bytes → Option Bytes
or_else none b = b
or_else (some a) b = some a

abbrev pub given : ℕ → ℕ → ℕ
given t other = if t == 0 then other else t

abbrev pub uuid_or : Option Bytes → Bytes → Bytes
uuid_or none u = u
uuid_or (some given_uuid) u = take 36 given_uuid

abbrev pub failed_add : Store → Added
failed_add s = record { result = add_err; id = 0; store = s }

-- The constraints on `uuid` and `group_id`.
abbrev pub violates : StoreEnv → ClipIn → List Clip → Bool
violates env in_ cs =
    has_uuid (uuid_or in_.uuid env.uuid_v4) cs
    || not (in_.group_id == 0) && not (env.has_group in_.group_id)

module _ (libc : Libc) where
  abbrev pub new_clip : StoreEnv → ClipIn → List Clip → List FormatRow → Clip
  new_clip env in_ cs rows =
      let created = given in_.created_at env.now in
      record {
        id = next_id (clip_ids cs);
        uuid = uuid_or in_.uuid env.uuid_v4;
        created_at = created;
        last_used_at = given in_.last_used_at created;
        paste_count = 0;
        title = in_.title;
        derived = dbi_derive libc in_.fmts;
        content_hash = dbi_content_hash in_.fmts;
        total_size = total_len in_.fmts;
        source_app = in_.source_app;
        source_title = in_.source_title;
        group_id = in_.group_id;
        sticky = false;
        locked = false;
        quick_paste = none;
        formats = rows;
      }

  abbrev pub inserted : StoreEnv → ClipIn → Store → List Blob → List FormatRow → Added
  inserted env in_ s bs rows = record {
    result = add_new;
    id = next_id (clip_ids s.clips);
    store = record { clips = s.clips ++ new_clip env in_ s.clips rows ∷ []; blobs = bs };
  }

  -- The INSERTs, behind the test for an identical clip.
  abbrev pub insert_rows : StoreEnv → ClipIn → Store → Added
  insert_rows env in_ s = elim (dbi_insert_formats libc env in_.fmts s.blobs).0 [
    | none ↦ failed_add (record s { blobs = (dbi_insert_formats libc env in_.fmts s.blobs).1 })
    | some rows ↦ inserted env in_ s (dbi_insert_formats libc env in_.fmts s.blobs).1 rows
  ]

  unfoldable pub insert_clip : StoreEnv → ClipIn → Store → Added
  unfolding dbi_insert_formats
  insert_clip env in_ s = if violates env in_ s.clips then failed_add s else insert_rows env in_ s

  unfoldable pub add_tx : StoreEnv → ClipIn → Store → Added
  unfolding dbi_content_hash insert_clip
  add_tx env in_ s = elim (find_hash (dbi_content_hash in_.fmts) s.clips) [
    | none ↦ insert_clip env in_ s
    | some existing ↦
        let used = given in_.last_used_at (given in_.created_at env.now) in
        record {
          result = add_dup;
          id = existing;
          store = record s {
            clips =
                update existing
                  (λ c. record c {
                    last_used_at = max c.last_used_at used;
                    source_app = or_else in_.source_app c.source_app;
                  })
                  s.clips;
          };
        }
  ]

  unfoldable pub db_add_clip : StoreEnv → ClipIn → Store → Added
  unfolding add_tx
  db_add_clip env in_ s = elim in_.fmts [ [] ↦ failed_add s | f ∷ fs ↦ add_tx env in_ s ]

-- The blobs of the rows that no clip names, unlinked.
abbrev pub unlink_unused : List Clip → List FormatRow → List Blob → List Blob
unlink_unused cs [] bs = bs
unlink_unused cs (r ∷ rs) bs =
    unlink_unused cs rs (elim r.blob [
      | none ↦ bs
      | some n ↦ if dbi_blob_referenced cs n then bs else blob_unlink n bs
    ])

abbrev pub without_clip : ℕ → List Clip → List Clip
without_clip i [] = []
without_clip i (c ∷ cs) = let others = without_clip i cs in if c.id == i then others else c ∷ others

-- The result is whether there was such a clip.
unfoldable pub db_delete : ℕ → Store → Bool × Store
unfolding dbi_blob_referenced
db_delete i s = elim (find_clip i s.clips) [
  | none ↦ (false, s)
  | some c ↦
      let kept = without_clip i s.clips in
      (true, record { clips = kept; blobs = unlink_unused kept c.formats s.blobs })
]

unfoldable pub db_touch : ℕ → ℕ → Bool → Store → Store
db_touch now i pasted s = record s {
  clips =
      update i
        (λ c. record c {
          last_used_at = now;
          paste_count = c.paste_count + (if pasted then 1 else 0);
        })
        s.clips;
}
