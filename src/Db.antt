-- ===== src/Db.antt =====
-- daemon/src/db.c and daemon/src/db_edit.c: the clips and their groups. The tables are lists of rows, in
-- the order of their ids; a NULL reference is 0. SQLite keeps the constraints of daemon/src/schema.c,
-- and does not fail otherwise; the largest id plus one is the id of a new row.
pub mod Groups
pub mod Clips
use clipnet.Base.{ℕ, suc, max, List, [], ◌∷◌, Bytes}

-- A row of `groups`.
pub record Group : Type 0 where
  pub id : ℕ
  pub uuid : Bytes
  pub parent_id : ℕ
  pub name : Bytes

abbrev pub max_id : List ℕ → ℕ
max_id [] = 0
max_id (i ∷ is) = max i (max_id is)

-- The id that SQLite gives to a new row.
abbrev pub next_id : List ℕ → ℕ
next_id is = suc (max_id is)
