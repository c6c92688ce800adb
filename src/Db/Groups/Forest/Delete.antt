-- ===== src/Db/Groups/Forest/Delete.antt =====
-- `db_group_delete` of daemon/src/db_edit.c and the chains of parents.
use clipnet.Base.{
  ℕ, ◌≡◌, refl, sym, ◌∙◌, inl, inr, true, false, none, List, [], ◌∷◌, arith, ◌==◌, Bool-cases,
  if-both, mem_id,
}
use clipnet.Db.{Group}
use clipnet.Db.Groups.{group_ids, parent_of, sub, delete_groups}
use clipnet.Db.Groups.Closure.{DistinctIds}
use clipnet.Db.Groups.Forest.{IsForest, Rooted-outside}

delete_groups-ids :
    (set : List ℕ) (gs : List Group) (i : ℕ)
    → mem_id i (group_ids gs) ≡ false
    → mem_id i (group_ids (delete_groups set gs)) ≡ false
delete_groups-ids set [] i h = refl
delete_groups-ids set (g ∷ gs) i h = elim (Bool-cases (mem_id g.id set)) [
  | inl e ↦ ground (arith, e, h, delete_groups-ids set gs i)
  | inr e ↦ ground (arith, e, h, delete_groups-ids set gs i)
]

delete_groups-DistinctIds :
    (set : List ℕ) (gs : List Group) → DistinctIds gs → DistinctIds (delete_groups set gs)
delete_groups-DistinctIds set [] d = tt
delete_groups-DistinctIds set (g ∷ gs) (fresh, d) =
    if-both DistinctIds (mem_id g.id set) _ _ (λ _. delete_groups-DistinctIds set gs d)
      (λ _. (delete_groups-ids set gs g.id fresh, delete_groups-DistinctIds set gs d))

pub delete_groups_kept :
    (set : List ℕ) (gs : List Group) (i : ℕ)
    → mem_id i set ≡ false
    → parent_of (delete_groups set gs) i ≡ parent_of gs i
delete_groups_kept set [] i h = refl
delete_groups_kept set (g ∷ gs) i h = elim (Bool-cases (mem_id g.id set)) [
  | inl e ↦ elim (Bool-cases (g.id == i)) [
    | inl same ↦ absurd (ground (arith, e, h, same))
    | inr other ↦ ground (arith, e, other, delete_groups_kept set gs i h)
  ]
  | inr e ↦ ground (arith, e, delete_groups_kept set gs i h)
]

delete_groups_gone :
    (set : List ℕ) (gs : List Group) (i : ℕ)
    → mem_id i set ≡ true
    → parent_of (delete_groups set gs) i ≡ none
delete_groups_gone set [] i h = refl
delete_groups_gone set (g ∷ gs) i h = elim (Bool-cases (mem_id g.id set)) [
  | inl e ↦ ground (arith, e, delete_groups_gone set gs i h)
  | inr e ↦ elim (Bool-cases (g.id == i)) [
    | inl same ↦ absurd (ground (arith, e, h, same))
    | inr other ↦ ground (arith, e, other, delete_groups_gone set gs i h)
  ]
]

pub deleted-IsForest :
    (i : ℕ) (gs : List Group) → IsForest gs → IsForest (delete_groups (sub i gs) gs)
deleted-IsForest i gs forest =
    let S = sub i gs in
    record {
      distinct = delete_groups-DistinctIds S gs forest.distinct;
      nonzero = delete_groups-ids S gs 0 forest.nonzero;
      rooted = λ j p e. elim (Bool-cases (mem_id j S)) [
        | inl gone ↦ absurd (cc (e, delete_groups_gone S gs j gone))
        | inr kept ↦
            Rooted-outside gs (delete_groups S gs) i
              (λ k q out f. delete_groups_kept S gs k out ∙ f) j
              (forest.rooted j p (sym (delete_groups_kept S gs j kept) ∙ e)) (λ _. kept)
      ];
    }
