-- ===== src/Db/Groups/Path.antt =====
-- A path of group names, in daemon/src/db_edit.c.
pub mod Cases
pub mod Again
use clipnet.Base.{
  ℕ, ◌⊎◌, inl, inr, Bool, true, false, ◌&&◌, Option, none, some, List, [], ◌∷◌, ◌==◌, if◌then◌else◌,
  Bytes, bytes_eq,
}
use clipnet.Db.{Group, next_id}
use clipnet.Db.Groups.{GroupError, trimmed, group_ids, db_group_create, empty_path}

-- The pieces between slashes. strtok_r leaves out the empty ones; `db_group_ensure_path` passes over
-- these as over blank ones.
unfoldable pub pieces : Bytes → List Bytes
pieces [] = [] ∷ []
pieces (c ∷ s) = let more = pieces s in if c == b'/' then [] ∷ more else onto_first c more
  where
    onto_first : ℕ → List Bytes → List Bytes
    onto_first c [] = (c ∷ []) ∷ []
    onto_first c (p ∷ ps) = (c ∷ p) ∷ ps

abbrev pub find_group : List Group → ℕ → Bytes → Option ℕ
find_group [] parent name = none
find_group (g ∷ gs) parent name =
    if g.parent_id == parent && bytes_eq g.name name then some g.id else find_group gs parent name

pub record Ensured : Type 0 where
  pub groups : List Group
  pub outcome : ℕ ⊎ GroupError

-- What was made before an error stays.
unfoldable pub ensure_pieces : (ℕ → Bytes) → List Bytes → ℕ → Bool → List Group → Ensured
unfolding trimmed db_group_create
ensure_pieces uuids [] parent any gs = record {
  groups = gs;
  outcome = if any then inl parent else inr empty_path;
}
ensure_pieces uuids (p ∷ ps) parent any gs = elim (trimmed (some p)) [
  | none ↦ ensure_pieces uuids ps parent any gs
  | some name ↦ elim (find_group gs parent name) [
    | some i ↦ ensure_pieces uuids ps i true gs
    | none ↦ elim (db_group_create (uuids (next_id (group_ids gs))) (some name) parent gs) [
      | inl (more, i) ↦ ensure_pieces uuids ps i true more
      | inr e ↦ record { groups = gs; outcome = inr e }
    ]
  ]
]

-- `uuids` gives the `uuid_v4` of a new row.
unfoldable pub db_group_ensure_path : (ℕ → Bytes) → Option Bytes → List Group → Ensured
unfolding pieces ensure_pieces
db_group_ensure_path uuids none gs = ensure_pieces uuids (pieces []) 0 false gs
db_group_ensure_path uuids (some path) gs = ensure_pieces uuids (pieces path) 0 false gs
