-- ===== src/Db/Groups/Forest/Create.antt =====
-- `db_group_create` of daemon/src/db_edit.c and the chains of parents.
use clipnet.Base.{
  ℕ, ◌≤◌, ◌<◌, ◌≡◌, refl, sym, ap, ◌∙◌, subst, ◌⊎◌, inl, inr, true, false, ◌&&◌, not, Option, some,
  List, [], ◌∷◌, ◌++◌, arith, ◌==◌, Bool-cases, Bytes, if-both, elim-both, mem_id, mem_id-append,
  sum-both,
}
use clipnet.Db.{Group, max_id, next_id}
use clipnet.Db.Groups.{
  GroupError, valid_name, group_ids, parent_of, db_group_exists, is_taken, new_group, insert_group,
  db_group_create,
}
use clipnet.Db.Groups.Closure.{DistinctIds}
use clipnet.Db.Groups.Forest.{Rooted, IsForest, parent_of-append, Rooted-kept, parent-IsRooted, up}

ids_below : (is : List ℕ) (i : ℕ) → mem_id i is ≡ true → i ≤ max_id is
ids_below [] i h = absurd cc
ids_below (x ∷ xs) i h = ground (arith, h, ids_below xs i)

pub next_id-IsNew : (is : List ℕ) (i : ℕ) → max_id is < i → mem_id i is ≡ false
next_id-IsNew is i h = elim (Bool-cases (mem_id i is)) [
  | inl e ↦ absurd (omega (arith, h, ids_below is i e))
  | inr e ↦ e
]

group_ids-append : (gs more : List Group) → group_ids (gs ++ more) ≡ group_ids gs ++ group_ids more
group_ids-append [] more = refl
group_ids-append (g ∷ gs) more = ap (◌∷◌ g.id) (group_ids-append gs more)

DistinctIds-snoc :
    (gs : List Group) (g : Group)
    → DistinctIds gs
    → mem_id g.id (group_ids gs) ≡ false
    → DistinctIds (gs ++ g ∷ [])
DistinctIds-snoc [] g d h = (refl, tt)
DistinctIds-snoc (x ∷ gs) g (fresh, d) h = (
  rw (group_ids-append gs (g ∷ []))
      (rw (mem_id-append x.id (group_ids gs) (g.id ∷ [])) (ground (arith, fresh, h))),
  DistinctIds-snoc gs g d (ground (arith, h)),
)

parent_of-snoc :
    (gs : List Group) (g : Group) (i p : ℕ)
    → parent_of (gs ++ g ∷ []) i ≡ some p
    → (parent_of gs i ≡ some p) ⊎ ((i ≡ g.id) × (p ≡ g.parent_id))
parent_of-snoc [] g i p h = elim (Bool-cases (g.id == i)) [
  | inl e ↦ inr (ground (arith, e), ground (arith, e, h))
  | inr e ↦ absurd (ground (arith, e, h))
]
parent_of-snoc (x ∷ gs) g i p h = elim (Bool-cases (x.id == i)) [
  | inl e ↦ inl (ground (arith, e, h))
  | inr e ↦ elim (parent_of-snoc gs g i p (ground (arith, e, h))) [
    | inl found ↦ inl (ground (arith, e, found))
    | inr last ↦ inr last
  ]
]

parent_of_last :
    (gs : List Group) (g : Group)
    → mem_id g.id (group_ids gs) ≡ false
    → parent_of (gs ++ g ∷ []) g.id ≡ some g.parent_id
parent_of_last [] g new = ground arith
parent_of_last (x ∷ gs) g new = ground (arith, new, parent_of_last gs g)

snoc-IsForest :
    (gs : List Group) (g : Group)
    → IsForest gs
    → Rooted gs g.parent_id
    → g.id ≡ next_id (group_ids gs)
    → IsForest (gs ++ g ∷ [])
snoc-IsForest gs g forest r at =
    let new : mem_id g.id (group_ids gs) ≡ false =
      next_id-IsNew (group_ids gs) g.id (omega (arith, at)) in
    let old : (i : ℕ) → Rooted gs i → Rooted (gs ++ g ∷ []) i =
      Rooted-kept gs (gs ++ g ∷ []) (parent_of-append gs (g ∷ [])) in
    record {
      distinct = DistinctIds-snoc gs g forest.distinct new;
      nonzero =
          ap (λ (is : List ℕ). mem_id 0 is) (group_ids-append gs (g ∷ []))
          ∙ mem_id-append 0 (group_ids gs) (g.id ∷ [])
          ∙ ground (arith, at, forest.nonzero);
      rooted = λ i p e. elim (parent_of-snoc gs g i p e) [
        | inl found ↦ old i (forest.rooted i p found)
        | inr (is_last, _) ↦
            subst (λ j. Rooted (gs ++ g ∷ []) j) (sym is_last)
              (up (parent_of_last gs g new) (old g.parent_id r))
      ];
    }

insert_group-IsForest :
    (uuid : Bytes) (parent : ℕ) (name : Bytes) (gs gs' : List Group) (new : ℕ)
    → IsForest gs
    → Rooted gs parent
    → insert_group uuid parent name gs ≡ inl (gs', new)
    → IsForest gs'
unfolding insert_group
insert_group-IsForest uuid parent name gs gs' new forest r =
    if-both (λ res. res ≡ inl (gs', new) → IsForest gs') (is_taken 0 parent name gs) _ _
      (λ _ e. absurd cc)
      (λ _ e.
        subst IsForest (cc e) (snoc-IsForest gs (new_group uuid parent name gs) forest r refl))

pub db_group_create-IsForest :
    (uuid : Bytes) (name : Option Bytes) (parent : ℕ) (gs gs' : List Group) (new : ℕ)
    → IsForest gs
    → db_group_create uuid name parent gs ≡ inl (gs', new)
    → IsForest gs'
unfolding db_group_create
db_group_create-IsForest uuid name parent gs gs' new forest =
    let P = λ (res : (List Group × ℕ) ⊎ GroupError). res ≡ inl (gs', new) → IsForest gs' in
    elim-both P (not (parent == 0) && not (db_group_exists gs parent)) _ _ (λ _ e. absurd cc)
      (λ known.
        sum-both P (valid_name name) _ _
          (λ n _.
            insert_group-IsForest uuid parent n gs gs' new forest
              (parent-IsRooted gs parent forest known))
          (λ _ _ e. absurd cc))
