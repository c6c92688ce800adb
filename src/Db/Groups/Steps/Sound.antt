-- ===== src/Db/Groups/Steps/Sound.antt =====
-- The group operations of daemon/src/db_edit.c, one by one and in any order.
use clipnet.Base.{
  ℕ, ◌≡◌, refl, sym, ap, ◌∙◌, subst, ◌⊎◌, inl, inr, Bool, true, false, ◌&&◌, not, Option, none,
  some, List, [], ◌∷◌, arith, ◌==◌, Bool-cases, All, Bytes, if-both, elim-both, mem_id, sum-both,
}
use clipnet.Db.{Group}
use clipnet.Db.Groups.{
  GroupError, parent_of, db_group_exists, new_group, db_group_create, db_group_rename, sub,
  db_group_move, Filed, delete_filed, unfile, delete_groups, Deleted, db_group_delete, is_filed,
  file_at, db_clip_move,
}
use clipnet.Db.Groups.Forest.{IsForest, parent_of-append, Exists, known_group}
use clipnet.Db.Groups.Forest.Create.{db_group_create-IsForest}
use clipnet.Db.Groups.Forest.Change.{
  db_group_rename-IsForest, db_group_move-IsForest, db_group_rename_kept, db_group_move_kept,
}
use clipnet.Db.Groups.Forest.Delete.{delete_groups_kept, deleted-IsForest}
use clipnet.Db.Groups.Path.{pieces, Ensured, ensure_pieces, db_group_ensure_path}
use clipnet.Db.Groups.Path.Cases.{
  created, Extends, ensure_blank, ensure_found, ensure_made, ensure_failed, piece_case,
  ensure_pieces-Extends, blank, found, made, failed,
}
use clipnet.Db.Groups.Steps.{
  Shelf, Action, apply, Reachable, IsHomed, IsSound, capture, create, ensure, rename, move, delete,
  file, fresh, after,
}

-- Clips stay where they are when no group is lost.
Homed_kept :
    (gs gs' : List Group) (cs : List Filed)
    → ((i p : ℕ) → parent_of gs i ≡ some p → Exists gs' i)
    → All (IsHomed gs) cs
    → All (IsHomed gs') cs
Homed_kept gs gs' [] kept h = tt
Homed_kept gs gs' (c ∷ cs) kept (inl e, h) = (inl e, Homed_kept gs gs' cs kept h)
Homed_kept gs gs' (c ∷ cs) kept (inr (p, e), h) =
    (inr (kept c.group_id p e), Homed_kept gs gs' cs kept h)

Extends-IsHomed :
    (gs gs' : List Group) (cs : List Filed)
    → Extends gs gs'
    → All (IsHomed gs) cs
    → All (IsHomed gs') cs
Extends-IsHomed gs gs' cs (more, e) =
    Homed_kept gs gs' cs
      (λ i p f. (p, ap (λ (t : List Group). parent_of t i) e ∙ parent_of-append gs more i p f))

create-IsSound :
    (uuid : Bytes) (name : Option Bytes) (parent : ℕ) (s : Shelf)
    → IsSound s
    → IsSound (apply (create uuid name parent) s)
unfolding apply
create-IsSound uuid name parent s sound =
    sum-both IsSound (db_group_create uuid name parent s.groups) _ _
      (λ r e.
        let (n, _, is_new, _) = created uuid name parent s.groups r.0 r.1 e in
        record {
          forest = db_group_create-IsForest uuid name parent s.groups r.0 r.1 sound.forest e;
          homed =
              Extends-IsHomed s.groups r.0 s.clips (new_group uuid parent n s.groups ∷ [], is_new)
                sound.homed;
        })
      (λ _ _. sound)

rename-IsSound :
    (i : ℕ) (name : Option Bytes) (s : Shelf) → IsSound s → IsSound (apply (rename i name) s)
unfolding apply
rename-IsSound i name s sound =
    sum-both IsSound (db_group_rename i name s.groups) _ _
      (λ gs e. record {
        forest = db_group_rename-IsForest i name s.groups gs sound.forest e;
        homed =
            Homed_kept s.groups gs s.clips (db_group_rename_kept i name s.groups gs e) sound.homed;
      })
      (λ _ _. sound)

move-IsSound : (i parent : ℕ) (s : Shelf) → IsSound s → IsSound (apply (move i parent) s)
unfolding apply
move-IsSound i parent s sound =
    sum-both IsSound (db_group_move i parent s.groups) _ _
      (λ gs e. record {
        forest = db_group_move-IsForest i parent s.groups gs sound.forest e;
        homed =
            Homed_kept s.groups gs s.clips (db_group_move_kept i parent s.groups gs e) sound.homed;
      })
      (λ _ _. sound)

delete_filed-IsHomed :
    (set : List ℕ) (gs : List Group) (cs : List Filed)
    → All (IsHomed gs) cs
    → All (IsHomed (delete_groups set gs)) (delete_filed set cs)
delete_filed-IsHomed set gs [] h = tt
delete_filed-IsHomed set gs (c ∷ cs) (at, h) =
    let gs' = delete_groups set gs in
    if-both (All (IsHomed gs')) (not (c.group_id == 0) && mem_id c.group_id set) _ _
      (λ _. delete_filed-IsHomed set gs cs h)
      (λ e. (
        elim at [
          | inl none_set ↦ inl none_set
          | inr (p, f) ↦ elim (Bool-cases (mem_id c.group_id set)) [
            | inl gone ↦ inl (ground (arith, e, gone))
            | inr kept ↦ inr (p, delete_groups_kept set gs c.group_id kept ∙ f)
          ]
        ],
        delete_filed-IsHomed set gs cs h,
      ))

unfile-IsHomed :
    (set : List ℕ) (gs : List Group) (cs : List Filed)
    → All (IsHomed gs) cs
    → All (IsHomed (delete_groups set gs)) (unfile set cs)
unfile-IsHomed set gs [] h = tt
unfile-IsHomed set gs (c ∷ cs) (at, h) = (
  if-both (IsHomed (delete_groups set gs)) (mem_id c.group_id set) _ c (λ _. inl refl)
      (λ kept. elim at [
        | inl none_set ↦ inl none_set
        | inr (p, f) ↦ inr (p, delete_groups_kept set gs c.group_id kept ∙ f)
      ]),
  unfile-IsHomed set gs cs h,
)

delete-IsSound :
    (i : ℕ) (cascade : Bool) (s : Shelf) → IsSound s → IsSound (apply (delete i cascade) s)
unfolding apply db_group_delete
delete-IsSound i cascade s sound =
    elim-both
      (λ (r : Deleted ⊎ GroupError).
        IsSound (elim r [ inl d ↦ record { groups = d.groups; clips = d.clips } | inr _ ↦ s ]))
      (db_group_exists s.groups i) _ _
      (λ _. record {
        forest = deleted-IsForest i s.groups sound.forest;
        homed =
            if-both (All (IsHomed (delete_groups (sub i s.groups) s.groups))) cascade _ _
              (λ _. delete_filed-IsHomed (sub i s.groups) s.groups s.clips sound.homed)
              (λ _. unfile-IsHomed (sub i s.groups) s.groups s.clips sound.homed);
      })
      (λ _. sound)

file_at-IsHomed :
    (i group : ℕ) (gs : List Group) (cs : List Filed)
    → (group ≡ 0) ⊎ Exists gs group
    → All (IsHomed gs) cs
    → All (IsHomed gs) (file_at i group cs)
file_at-IsHomed i group gs [] ok h = tt
file_at-IsHomed i group gs (c ∷ cs) ok (at, h) =
    (if-both (IsHomed gs) (c.clip == i) _ c (λ _. ok) (λ _. at), file_at-IsHomed i group gs cs ok h)

file-IsSound : (i group : ℕ) (s : Shelf) → IsSound s → IsSound (apply (file i group) s)
unfolding apply db_clip_move
file-IsSound i group s sound =
    let P = λ (r : List Filed ⊎ GroupError).
      IsSound (elim r [ inl cs ↦ record s { clips = cs } | inr _ ↦ s ]) in
    elim-both P (is_filed i s.clips) _ _
      (λ _.
        elim-both P (not (group == 0) && not (db_group_exists s.groups group)) _ _ (λ _. sound)
          (λ known. record {
            forest = sound.forest;
            homed =
                file_at-IsHomed i group s.groups s.clips (known_group group s.groups known)
                  sound.homed;
          }))
      (λ _. sound)

ensure_pieces-IsForest :
    (uuids : ℕ → Bytes) (ps : List Bytes) (parent : ℕ) (any : Bool) (gs : List Group)
    → IsForest gs
    → IsForest (ensure_pieces uuids ps parent any gs).groups
unfolding ensure_pieces
ensure_pieces-IsForest uuids [] parent any gs forest = forest
ensure_pieces-IsForest uuids (p ∷ ps) parent any gs forest =
    let To = λ (r : Ensured). IsForest r.groups in
    elim (piece_case uuids p parent gs) [
      | blank e ↦
          subst To (sym (ensure_blank uuids p ps parent any gs e))
            (ensure_pieces-IsForest uuids ps parent any gs forest)
      | found name i e f ↦
          subst To (sym (ensure_found uuids p ps parent any gs name i e f))
            (ensure_pieces-IsForest uuids ps i true gs forest)
      | made name gs' i e f m ↦
          subst To (sym (ensure_made uuids p ps parent any gs gs' name i e f m)) (
            ensure_pieces-IsForest uuids ps i true gs'
              (db_group_create-IsForest _ (some name) parent gs gs' i forest m))
      | failed name err e f m ↦
          subst To (sym (ensure_failed uuids p ps parent any gs name err e f m)) forest
    ]

ensured-IsSound :
    (uuids : ℕ → Bytes) (ps : List Bytes) (s : Shelf)
    → IsSound s
    → IsSound (record s { groups = (ensure_pieces uuids ps 0 false s.groups).groups })
ensured-IsSound uuids ps s sound =
    let r = ensure_pieces uuids ps 0 false s.groups in
    record {
      forest = ensure_pieces-IsForest uuids ps 0 false s.groups sound.forest;
      homed =
          Extends-IsHomed s.groups r.groups s.clips
            (ensure_pieces-Extends uuids ps 0 false s.groups) sound.homed;
    }

ensure-IsSound :
    (uuids : ℕ → Bytes) (path : Option Bytes) (s : Shelf)
    → IsSound s
    → IsSound (apply (ensure uuids path) s)
unfolding apply db_group_ensure_path
ensure-IsSound uuids none s sound = ensured-IsSound uuids (pieces []) s sound
ensure-IsSound uuids (some path) s sound = ensured-IsSound uuids (pieces path) s sound

capture-IsSound : (clip : ℕ) (s : Shelf) → IsSound s → IsSound (apply (capture clip) s)
unfolding apply
capture-IsSound clip s sound = record { forest = sound.forest; homed = (inl refl, sound.homed) }

apply-IsSound : (a : Action) (s : Shelf) → IsSound s → IsSound (apply a s)
apply-IsSound (create uuid name parent) s sound = create-IsSound uuid name parent s sound
apply-IsSound (ensure uuids path) s sound = ensure-IsSound uuids path s sound
apply-IsSound (rename i name) s sound = rename-IsSound i name s sound
apply-IsSound (move i parent) s sound = move-IsSound i parent s sound
apply-IsSound (delete i cascade) s sound = delete-IsSound i cascade s sound
apply-IsSound (file i group) s sound = file-IsSound i group s sound
apply-IsSound (capture clip) s sound = capture-IsSound clip s sound

-- However the groups are made, renamed, moved and deleted and the clips filed: no id stands twice, the
-- chain of parents of every group ends at the top, and every clip is in no group or in one that exists.
pub Reachable-IsSound : (s : Shelf) → Reachable s → IsSound s
Reachable-IsSound s fresh = record {
  forest = record { distinct = tt; nonzero = refl; rooted = λ i p e. absurd cc };
  homed = tt;
}
Reachable-IsSound s (after {s = before} a r) = apply-IsSound a before (Reachable-IsSound before r)
