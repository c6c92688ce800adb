-- ===== src/Db/Groups.antt =====
-- The groups of daemon/src/db_edit.c. A clip is here its id and its `group_id`.
pub mod Closure
pub mod Forest
pub mod Path
pub mod Steps
pub mod Tests
use clipnet.Base.{
  ℕ, zero, suc, ◌⊎◌, inl, inr, Bool, true, false, ◌&&◌, ◌||◌, not, Option, none, some, List, [],
  ◌∷◌, ◌++◌, ◌==◌, if◌then◌else◌, length, take, Bytes, bytes_eq, mem_id,
}
use clipnet.Util.Utf8.{utf8_valid, utf8_prefix}
use clipnet.Db.{Group, next_id}

abbrev pub name_max_chars : ℕ
name_max_chars = 200

pub data GroupError : Type 0 where
  no_such_clip no_such_group no_such_parent : GroupError
  needs_name bad_utf8 name_taken inside_itself empty_path : GroupError

abbrev pub is_trimmed : ℕ → Bool
is_trimmed c = c == b' ' || c == b'\t' || c == b'\n' || c == b'\r'

unfoldable pub left_trimmed : Bytes → Bytes
left_trimmed [] = []
left_trimmed (c ∷ s) = if is_trimmed c then left_trimmed s else c ∷ s

unfoldable pub right_trimmed : Bytes → Bytes
right_trimmed [] = []
right_trimmed (c ∷ s) = elim (right_trimmed s) [
  | [] ↦ if is_trimmed c then [] else c ∷ []
  | d ∷ t ↦ c ∷ d ∷ t
]

unfoldable pub trimmed : Option Bytes → Option Bytes
unfolding left_trimmed right_trimmed
trimmed none = none
trimmed (some s) = elim (right_trimmed (left_trimmed s)) [ [] ↦ none | c ∷ t ↦ some (c ∷ t) ]

unfoldable pub valid_name : Option Bytes → Bytes ⊎ GroupError
unfolding trimmed utf8_valid utf8_prefix
valid_name name = elim (trimmed name) [
  | none ↦ inr needs_name
  | some n ↦ if utf8_valid n then inl (take (utf8_prefix n name_max_chars) n) else inr bad_utf8
]

abbrev pub group_ids : List Group → List ℕ
group_ids [] = []
group_ids (g ∷ gs) = g.id ∷ group_ids gs

-- The parent of a group, if there is such a group.
abbrev pub parent_of : List Group → ℕ → Option ℕ
parent_of [] i = none
parent_of (g ∷ gs) i = if g.id == i then some g.parent_id else parent_of gs i

unfoldable pub db_group_exists : List Group → ℕ → Bool
db_group_exists gs i = elim (parent_of gs i) [ none ↦ false | some p ↦ true ]

-- The unique index `groups_name`: does a group other than `self` have the name there?
abbrev pub is_taken : ℕ → ℕ → Bytes → List Group → Bool
is_taken self parent name [] = false
is_taken self parent name (g ∷ gs) =
    (not (g.id == self) && g.parent_id == parent && bytes_eq g.name name)
    || is_taken self parent name gs

abbrev pub new_group : Bytes → ℕ → Bytes → List Group → Group
new_group uuid parent name gs = record {
  id = next_id (group_ids gs);
  uuid = uuid;
  parent_id = parent;
  name = name;
}

-- INSERT, in the order of `sort_order`.
unfoldable pub insert_group : Bytes → ℕ → Bytes → List Group → (List Group × ℕ) ⊎ GroupError
insert_group uuid parent name gs =
    if is_taken 0 parent name gs
    then inr name_taken
    else inl (gs ++ new_group uuid parent name gs ∷ [], next_id (group_ids gs))

unfoldable pub db_group_create :
    Bytes → Option Bytes → ℕ → List Group → (List Group × ℕ) ⊎ GroupError
unfolding db_group_exists valid_name insert_group
db_group_create uuid name parent gs = elim (not (parent == 0) && not (db_group_exists gs parent)) [
  | true ↦ inr no_such_parent
  | false ↦ elim (valid_name name) [ inr e ↦ inr e | inl n ↦ insert_group uuid parent n gs ]
]

abbrev pub set_name : ℕ → Bytes → List Group → List Group
set_name i name [] = []
set_name i name (g ∷ gs) = (if g.id == i then record g { name = name } else g) ∷ set_name i name gs

abbrev pub set_parent : ℕ → ℕ → List Group → List Group
set_parent i parent [] = []
set_parent i parent (g ∷ gs) =
    (if g.id == i then record g { parent_id = parent } else g) ∷ set_parent i parent gs

unfoldable pub db_group_rename : ℕ → Option Bytes → List Group → List Group ⊎ GroupError
unfolding valid_name
db_group_rename i name gs = elim (parent_of gs i) [
  | none ↦ inr no_such_group
  | some p ↦ elim (valid_name name) [
    | inr e ↦ inr e
    | inl n ↦ if is_taken i p n gs then inr name_taken else inl (set_name i n gs)
  ]
]

-- A round of the recursive query `sub`: the groups whose parent it has, and which are new to it.
abbrev pub children : List ℕ → List Group → List ℕ
children set [] = []
children set (g ∷ gs) =
    if not (g.parent_id == 0) && mem_id g.parent_id set && not (mem_id g.id set)
    then g.id ∷ children set gs
    else children set gs

-- `n` rounds.
unfoldable pub sub_from : ℕ → List ℕ → List Group → List ℕ
sub_from zero set gs = set
sub_from (suc n) set gs = sub_from n (set ++ children set gs) gs

-- The whole query; with a round for every group it is complete.
unfoldable pub sub : ℕ → List Group → List ℕ
unfolding sub_from
sub i gs = sub_from (length gs) (i ∷ []) gs

unfoldable pub within : List Group → ℕ → ℕ → Bool
unfolding sub
within gs group maybe_descendant = mem_id maybe_descendant (sub group gs)

abbrev pub name_of : List Group → ℕ → Bytes
name_of [] i = []
name_of (g ∷ gs) i = if g.id == i then g.name else name_of gs i

unfoldable pub db_group_move : ℕ → ℕ → List Group → List Group ⊎ GroupError
unfolding db_group_exists within
db_group_move i parent gs = elim (db_group_exists gs i) [
  | false ↦ inr no_such_group
  | true ↦ elim (not (parent == 0) && not (db_group_exists gs parent)) [
    | true ↦ inr no_such_parent
    | false ↦ elim (not (parent == 0) && within gs i parent) [
      | true ↦ inr inside_itself
      | false ↦
          if is_taken i parent (name_of gs i) gs
          then inr name_taken
          else inl (set_parent i parent gs)
    ]
  ]
]

pub record Filed : Type 0 where
  pub clip : ℕ
  pub group_id : ℕ

-- The clips of the groups of a set.
abbrev pub filed_in : List ℕ → List Filed → List ℕ
filed_in set [] = []
filed_in set (c ∷ cs) =
    if not (c.group_id == 0) && mem_id c.group_id set
    then c.clip ∷ filed_in set cs
    else filed_in set cs

abbrev pub delete_filed : List ℕ → List Filed → List Filed
delete_filed set [] = []
delete_filed set (c ∷ cs) =
    if not (c.group_id == 0) && mem_id c.group_id set
    then delete_filed set cs
    else c ∷ delete_filed set cs

-- ON DELETE SET NULL.
abbrev pub unfile : List ℕ → List Filed → List Filed
unfile set [] = []
unfile set (c ∷ cs) =
    (if mem_id c.group_id set then record c { group_id = 0 } else c) ∷ unfile set cs

-- ON DELETE CASCADE: the group, its children, their children, and so on.
abbrev pub delete_groups : List ℕ → List Group → List Group
delete_groups set [] = []
delete_groups set (g ∷ gs) =
    if mem_id g.id set then delete_groups set gs else g ∷ delete_groups set gs

pub record Deleted : Type 0 where
  pub groups : List Group
  pub clips : List Filed
  pub affected : List ℕ

unfoldable pub db_group_delete : ℕ → Bool → List Group → List Filed → Deleted ⊎ GroupError
unfolding db_group_exists sub
db_group_delete i cascade gs cs = elim (db_group_exists gs i) [
  | false ↦ inr no_such_group
  | true ↦
      let set = sub i gs in
      inl (record {
        groups = delete_groups set gs;
        clips = if cascade then delete_filed set cs else unfile set cs;
        affected = filed_in set cs;
      })
]

abbrev pub is_filed : ℕ → List Filed → Bool
is_filed i [] = false
is_filed i (c ∷ cs) = c.clip == i || is_filed i cs

abbrev pub file_at : ℕ → ℕ → List Filed → List Filed
file_at i group [] = []
file_at i group (c ∷ cs) =
    (if c.clip == i then record c { group_id = group } else c) ∷ file_at i group cs

unfoldable pub db_clip_move : ℕ → ℕ → List Group → List Filed → List Filed ⊎ GroupError
unfolding db_group_exists
db_clip_move i group gs cs = elim (is_filed i cs) [
  | false ↦ inr no_such_clip
  | true ↦ elim (not (group == 0) && not (db_group_exists gs group)) [
    | true ↦ inr no_such_group
    | false ↦ inl (file_at i group cs)
  ]
]
