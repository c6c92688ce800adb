-- ===== src/Db/Clips/Retention.antt =====
-- `db_retention` of daemon/src/db.c. The settings are natural numbers and their products stay in an
-- `int64_t`. What `copy_buffers` and `hotkeys` hold are two tests.
pub mod Bound
pub mod Safe
use clipnet.Base.{
  ℕ, ◌+◌, ◌-◌, ◌*◌, Bool, true, false, ◌&&◌, ◌||◌, not, Option, none, some, List, [], ◌∷◌, ltb, leb,
  ◌==◌, if◌then◌else◌, length, drop, Bytes, mem_id,
}
use clipnet.Db.Clips.{Clip, Store, db_blob_gc}
use clipnet.Db.Clips.Change.{clip_ids}

pub record Settings : Type 0 where
  pub max_age_days : ℕ
  pub large_bytes : ℕ
  pub large_age_days : ℕ
  pub max_clips : ℕ

pub record Holders : Type 0 where
  pub buffered : ℕ → Bool
  pub hotkeyed : Bytes → Bool

abbrev pub day_ms : ℕ
day_ms = 86400000

abbrev pub no_word : Option Bytes → Bool
no_word none = true
no_word (some a) = false

-- EXPENDABLE.
abbrev pub expendable : Holders → Clip → Bool
expendable held c =
    not c.sticky
    && not c.locked
    && c.group_id == 0
    && no_word c.quick_paste
    && not (held.buffered c.id)
    && not (held.hotkeyed c.uuid)

abbrev pub keep : (Clip → Bool) → List Clip → List Clip
keep p [] = []
keep p (c ∷ cs) = if p c then c ∷ keep p cs else keep p cs

-- last_used_at < now - days * day.
abbrev pub unused_for : ℕ → ℕ → Clip → Bool
unused_for now days c = ltb (c.last_used_at + days * day_ms) now

-- What the first two DELETEs leave.
abbrev pub stays_old : Holders → Settings → ℕ → Clip → Bool
stays_old held set now c = not (expendable held c && unused_for now set.max_age_days c)

abbrev pub stays_large : Holders → Settings → ℕ → Clip → Bool
stays_large held set now c =
    not
      (expendable held c && leb set.large_bytes c.total_size && unused_for now set.large_age_days c)

unfoldable pub drop_old : Holders → Settings → ℕ → List Clip → List Clip
drop_old held set now cs = if set.max_age_days == 0 then cs else keep (stays_old held set now) cs

unfoldable pub drop_large : Holders → Settings → ℕ → List Clip → List Clip
drop_large held set now cs =
    if set.large_age_days == 0 then cs else keep (stays_large held set now) cs

-- ORDER BY last_used_at DESC, id DESC.
abbrev pub is_newer : Clip → Clip → Bool
is_newer a b =
    ltb b.last_used_at a.last_used_at || a.last_used_at == b.last_used_at && ltb b.id a.id

abbrev pub insert_recent : Clip → List Clip → List Clip
insert_recent c [] = c ∷ []
insert_recent c (d ∷ ds) = if is_newer c d then c ∷ d ∷ ds else d ∷ insert_recent c ds

unfoldable pub recent : List Clip → List Clip
recent [] = []
recent (c ∷ cs) = insert_recent c (recent cs)

-- The ids of the subquery: the expendable clips behind the newest that there is room for.
unfoldable pub surplus : Holders → ℕ → List Clip → List ℕ
unfolding recent
surplus held most cs = clip_ids (
    drop (most - length (keep (λ c. not (expendable held c)) cs))
      (recent (keep (expendable held) cs)))

unfoldable pub drop_surplus : Holders → Settings → List Clip → List Clip
unfolding surplus
drop_surplus held set cs =
    if set.max_clips == 0
    then cs
    else let ids = surplus held set.max_clips cs in keep (λ c. not (mem_id c.id ids)) cs

unfoldable pub ret_tx : Holders → Settings → ℕ → List Clip → List Clip
unfolding drop_old drop_large drop_surplus
ret_tx held set now cs = drop_surplus held set (drop_large held set now (drop_old held set now cs))

-- The number of clips removed, and the store.
unfoldable pub db_retention : Holders → Settings → ℕ → Store → ℕ × Store
unfolding ret_tx db_blob_gc
db_retention held set now s =
    let kept = ret_tx held set now s.clips in
    let removed = length s.clips - length kept in
    (
      removed,
      if removed == 0 then record s { clips = kept } else db_blob_gc (record s { clips = kept }),
    )
