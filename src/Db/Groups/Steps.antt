-- ===== src/Db/Groups/Steps.antt =====
-- Every sequence of the group operations of daemon/src/db_edit.c, with the clips that are in the groups.
pub mod Sound
use clipnet.Base.{ℕ, ◌≡◌, ◌⊎◌, inl, inr, Bool, Option, List, [], ◌∷◌, All, Bytes}
use clipnet.Db.{Group}
use clipnet.Db.Groups.{
  db_group_create, db_group_rename, db_group_move, Filed, db_group_delete, db_clip_move,
}
use clipnet.Db.Groups.Forest.{IsForest, Exists}
use clipnet.Db.Groups.Path.{db_group_ensure_path}

pub record Shelf : Type 0 where
  pub groups : List Group
  pub clips : List Filed

pub data Action : Type 0 where
  capture : ℕ → Action
  create : Bytes → Option Bytes → ℕ → Action
  ensure : (ℕ → Bytes) → Option Bytes → Action
  rename : ℕ → Option Bytes → Action
  move : ℕ → ℕ → Action
  delete : ℕ → Bool → Action
  file : ℕ → ℕ → Action

-- What an operation leaves. An error changes nothing, but for `db_group_ensure_path`.
unfoldable pub apply : Action → Shelf → Shelf
unfolding db_group_create db_group_ensure_path db_group_rename db_group_move db_group_delete
    db_clip_move
apply (capture clip) s = record s { clips = record { clip = clip; group_id = 0 } ∷ s.clips }
apply (create uuid name parent) s = elim (db_group_create uuid name parent s.groups) [
  | inl r ↦ record s { groups = r.0 }
  | inr _ ↦ s
]
apply (ensure uuids path) s = record s {
  groups = (db_group_ensure_path uuids path s.groups).groups;
}
apply (rename i name) s = elim (db_group_rename i name s.groups) [
  | inl gs ↦ record s { groups = gs }
  | inr _ ↦ s
]
apply (move i parent) s = elim (db_group_move i parent s.groups) [
  | inl gs ↦ record s { groups = gs }
  | inr _ ↦ s
]
apply (delete i cascade) s = elim (db_group_delete i cascade s.groups s.clips) [
  | inl d ↦ record { groups = d.groups; clips = d.clips }
  | inr _ ↦ s
]
apply (file i group) s = elim (db_clip_move i group s.groups s.clips) [
  | inl cs ↦ record s { clips = cs }
  | inr _ ↦ s
]

pub data Reachable : Shelf → Type 0 where
  fresh : Reachable (record { groups = []; clips = [] })
  after : {s : Shelf} (a : Action) → Reachable s → Reachable (apply a s)

-- A clip is in no group, or in one that there is.
abbrev pub IsHomed : List Group → Filed → Type 0
IsHomed gs c = (c.group_id ≡ 0) ⊎ Exists gs c.group_id

pub record IsSound (s : Shelf) : Type 0 where
  pub forest : IsForest s.groups
  pub homed : All (IsHomed s.groups) s.clips
