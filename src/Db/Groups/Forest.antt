-- ===== src/Db/Groups/Forest.antt =====
-- The operations of daemon/src/db_edit.c on the groups, and the order they keep: every chain of parents
-- ends at the top.
pub mod Create
pub mod Change
pub mod Delete
use clipnet.Base.{
  ℕ, ◌≡◌, refl, sym, subst, ◌≢◌, ◌⊎◌, inl, inr, true, false, ◌&&◌, not, none, some, List, [], ◌∷◌,
  ◌++◌, arith, ◌==◌, ==_iff, Bool-cases, Option-cases, mem_id,
}
use clipnet.Db.{Group}
use clipnet.Db.Groups.{group_ids, parent_of, sub, db_group_exists}
use clipnet.Db.Groups.Closure.{DistinctIds, sub-IsClosed}

-- A chain of parents leads from the group to the top, which is 0.
pub data Rooted (gs : List Group) : ℕ → Type 0 where
  top : Rooted gs 0
  up : {i p : ℕ} → parent_of gs i ≡ some p → Rooted gs p → Rooted gs i

-- Every id stands once and is not 0, and every group is below the top.
pub record IsForest (gs : List Group) : Type 0 where
  pub distinct : DistinctIds gs
  pub nonzero : mem_id 0 (group_ids gs) ≡ false
  pub rooted : (i p : ℕ) → parent_of gs i ≡ some p → Rooted gs i

pub parent_of-none :
    (gs : List Group) (i : ℕ) → mem_id i (group_ids gs) ≡ false → parent_of gs i ≡ none
parent_of-none [] i h = refl
parent_of-none (g ∷ gs) i h = ground (arith, h, parent_of-none gs i)

parent_of-mem :
    (gs : List Group) (i p : ℕ) → parent_of gs i ≡ some p → mem_id i (group_ids gs) ≡ true
parent_of-mem [] i p h = absurd cc
parent_of-mem (g ∷ gs) i p h = ground (arith, h, parent_of-mem gs i p)

pub parent_of-append :
    (gs more : List Group) (i p : ℕ) → parent_of gs i ≡ some p → parent_of (gs ++ more) i ≡ some p
parent_of-append [] more i p h = absurd cc
parent_of-append (g ∷ gs) more i p h = ground (arith, h, parent_of-append gs more i p)

-- A chain stays where no group on it has lost its place.
pub Rooted-kept :
    (gs gs' : List Group)
    → ((i p : ℕ) → parent_of gs i ≡ some p → parent_of gs' i ≡ some p)
    → (i : ℕ) → Rooted gs i
    → Rooted gs' i
Rooted-kept gs gs' kept i top = top
Rooted-kept gs gs' kept i (up {p = p} e r) = up (kept i p e) (Rooted-kept gs gs' kept p r)

-- A group outside a set that is closed below has its chain outside it.
pub Rooted-outside :
    (gs gs' : List Group) (t : ℕ)
    → ((i p : ℕ) → mem_id i (sub t gs) ≡ false → parent_of gs i ≡ some p → parent_of gs' i ≡ some p)
    → (i : ℕ) → Rooted gs i
    → (i ≢ 0 → mem_id i (sub t gs) ≡ false)
    → Rooted gs' i
Rooted-outside gs gs' t kept i top out = top
Rooted-outside gs gs' t kept i (up {p = p} e r) out = elim (Bool-cases (i == 0)) [
  | inl zero_id ↦ subst (λ j. Rooted gs' j) (sym ((==_iff i 0).0 zero_id)) top
  | inr nonzero ↦
      let outside : mem_id i (sub t gs) ≡ false = out (ground (arith, nonzero)) in
      up (kept i p outside e) (
        Rooted-outside gs gs' t kept p r (λ parent. elim (Bool-cases (mem_id p (sub t gs))) [
          | inl there ↦ absurd (cc (sub-IsClosed gs t i p e parent there, outside))
          | inr not_there ↦ not_there
        ]))
]

abbrev pub Exists : List Group → ℕ → Type 0
Exists gs i = (p : ℕ) × (parent_of gs i ≡ some p)

pub db_group_exists_sound : (gs : List Group) (i : ℕ) → db_group_exists gs i ≡ true → Exists gs i
unfolding db_group_exists
db_group_exists_sound gs i h = elim (Option-cases (parent_of gs i)) [
  | inl e ↦ absurd (ground (arith, e, h))
  | inr found ↦ found
]

pub known_group :
    (parent : ℕ) (gs : List Group)
    → (not (parent == 0) && not (db_group_exists gs parent)) ≡ false
    → (parent ≡ 0) ⊎ Exists gs parent
known_group parent gs h = elim (Bool-cases (parent == 0)) [
  | inl e ↦ inl ((==_iff parent 0).0 e)
  | inr e ↦ inr (db_group_exists_sound gs parent (ground (arith, e, h)))
]

-- A parent that the operations accept has a chain.
pub parent-IsRooted :
    (gs : List Group) (parent : ℕ)
    → IsForest gs
    → (not (parent == 0) && not (db_group_exists gs parent)) ≡ false
    → Rooted gs parent
parent-IsRooted gs parent forest h = elim (known_group parent gs h) [
  | inl e ↦ subst (λ i. Rooted gs i) (sym e) top
  | inr (p, found) ↦ forest.rooted parent p found
]
