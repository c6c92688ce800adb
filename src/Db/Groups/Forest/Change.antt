-- ===== src/Db/Groups/Forest/Change.antt =====
-- `db_group_rename` and `db_group_move` of daemon/src/db_edit.c and the chains of parents.
use clipnet.Base.{
  ℕ, ◌≡◌, refl, sym, ap, ◌∙◌, subst, ◌⊎◌, inl, inr, false, ◌&&◌, not, Option, some, List, [], ◌∷◌,
  arith, ◌==◌, ==_iff, Bool-cases, Bytes, if-both, elim-both, option-both, mem_id, sum-both,
}
use clipnet.Db.{Group}
use clipnet.Db.Groups.{
  GroupError, valid_name, group_ids, parent_of, db_group_exists, is_taken, set_name, set_parent,
  db_group_rename, within, name_of, db_group_move,
}
use clipnet.Db.Groups.Closure.{sub-mem, DistinctIds}
use clipnet.Db.Groups.Forest.{
  Rooted, IsForest, Rooted-kept, Rooted-outside, Exists, db_group_exists_sound, parent-IsRooted,
  top, up,
}

-- A change that keeps the ids in their order.
keeps-IsForest :
    (gs gs' : List Group)
    → IsForest gs
    → group_ids gs' ≡ group_ids gs
    → ((i p : ℕ) → parent_of gs' i ≡ some p → Rooted gs' i)
    → IsForest gs'
keeps-IsForest gs gs' forest same r = record {
  distinct = ids_distinct gs gs' same forest.distinct;
  nonzero = ap (λ (is : List ℕ). mem_id 0 is) same ∙ forest.nonzero;
  rooted = r;
}
  where
    ids_distinct :
        (xs ys : List Group) → group_ids ys ≡ group_ids xs → DistinctIds xs → DistinctIds ys
    ids_distinct xs [] e d = tt
    ids_distinct [] (y ∷ ys) e d = absurd cc
    ids_distinct (x ∷ xs) (y ∷ ys) e (fresh, d) = (
      ap (λ (is : List ℕ). mem_id y.id is) (cc e)
          ∙ ap (λ i. mem_id i (group_ids xs)) (cc e)
          ∙ fresh,
      ids_distinct xs ys (cc e) d,
    )

set_name-ids : (i : ℕ) (n : Bytes) (gs : List Group) → group_ids (set_name i n gs) ≡ group_ids gs
set_name-ids i n [] = refl
set_name-ids i n (g ∷ gs) = elim (Bool-cases (g.id == i)) [
  | inl e ↦ ground (arith, e, set_name-ids i n gs)
  | inr e ↦ ground (arith, e, set_name-ids i n gs)
]

pub set_name-parent :
    (i : ℕ) (n : Bytes) (gs : List Group) (j : ℕ) → parent_of (set_name i n gs) j ≡ parent_of gs j
set_name-parent i n [] j = refl
set_name-parent i n (g ∷ gs) j = ground (arith, set_name-parent i n gs j)

pub db_group_rename-IsForest :
    (i : ℕ) (name : Option Bytes) (gs gs' : List Group)
    → IsForest gs
    → db_group_rename i name gs ≡ inl gs'
    → IsForest gs'
unfolding db_group_rename
db_group_rename-IsForest i name gs gs' forest =
    let P = λ (res : List Group ⊎ GroupError). res ≡ inl gs' → IsForest gs' in
    option-both P (parent_of gs i) _ _ (λ _ e. absurd cc)
      (λ p _.
        sum-both P (valid_name name) _ _
          (λ n _.
            if-both P (is_taken i p n gs) _ _ (λ _ e. absurd cc)
              (λ _ e. subst IsForest (cc e) (named n)))
          (λ _ _ e. absurd cc))
  where
    named : (n : Bytes) → IsForest (set_name i n gs)
    named n = keeps-IsForest gs (set_name i n gs) forest (set_name-ids i n gs) (λ j p e.
        Rooted-kept gs (set_name i n gs) (λ k q f. set_name-parent i n gs k ∙ f) j
          (forest.rooted j p (sym (set_name-parent i n gs j) ∙ e)))

set_parent-ids : (i q : ℕ) (gs : List Group) → group_ids (set_parent i q gs) ≡ group_ids gs
set_parent-ids i q [] = refl
set_parent-ids i q (g ∷ gs) = elim (Bool-cases (g.id == i)) [
  | inl e ↦ ground (arith, e, set_parent-ids i q gs)
  | inr e ↦ ground (arith, e, set_parent-ids i q gs)
]

pub set_parent_other :
    (i q : ℕ) (gs : List Group) (j : ℕ)
    → (j == i) ≡ false
    → parent_of (set_parent i q gs) j ≡ parent_of gs j
set_parent_other i q [] j h = refl
set_parent_other i q (g ∷ gs) j h = ground (arith, h, set_parent_other i q gs j)

pub set_parent_self :
    (i q : ℕ) (gs : List Group) → Exists gs i → parent_of (set_parent i q gs) i ≡ some q
set_parent_self i q [] (p, e) = absurd cc
set_parent_self i q (g ∷ gs) (p, e) = elim (Bool-cases (g.id == i)) [
  | inl same ↦ ground (arith, same)
  | inr other ↦ ground (arith, other, set_parent_self i q gs (p, ground (arith, other, e)))
]

module _ (i q : ℕ) (gs : List Group) (forest : IsForest gs) where
  -- The chain of the new parent does not pass the moved group.
  new_parent-IsRooted :
      (not (q == 0) && not (db_group_exists gs q)) ≡ false
      → (not (q == 0) && within gs i q) ≡ false
      → Rooted (set_parent i q gs) q
  unfolding within
  new_parent-IsRooted known apart =
      Rooted-outside gs (set_parent i q gs) i
        (λ j p out e. set_parent_other i q gs j (ground (arith, out, sub-mem gs i)) ∙ e) q
        (parent-IsRooted gs q forest known) (λ nonzero. ground (arith, nonzero, apart))

  moved-IsRooted :
      Exists gs i
      → Rooted (set_parent i q gs) q
      → (j : ℕ) → Rooted gs j
      → Rooted (set_parent i q gs) j
  moved-IsRooted there r j top = top
  moved-IsRooted there r j (up {p = p} e chain) = elim (Bool-cases (j == i)) [
    | inl same ↦
        subst (λ k. Rooted (set_parent i q gs) k) (sym ((==_iff j i).0 same))
          (up (set_parent_self i q gs there) r)
    | inr other ↦ up (set_parent_other i q gs j other ∙ e) (moved-IsRooted there r p chain)
  ]

  moved-IsForest : Exists gs i → Rooted (set_parent i q gs) q → IsForest (set_parent i q gs)
  moved-IsForest there r =
      keeps-IsForest gs (set_parent i q gs) forest (set_parent-ids i q gs) (λ j p e.
        elim (Bool-cases (j == i)) [
          | inl same ↦
              subst (λ k. Rooted (set_parent i q gs) k) (sym ((==_iff j i).0 same))
                (up (set_parent_self i q gs there) r)
          | inr other ↦
              moved-IsRooted there r j
                (forest.rooted j p (sym (set_parent_other i q gs j other) ∙ e))
        ])

pub db_group_move-IsForest :
    (i parent : ℕ) (gs gs' : List Group)
    → IsForest gs
    → db_group_move i parent gs ≡ inl gs'
    → IsForest gs'
unfolding db_group_move
db_group_move-IsForest i parent gs gs' forest =
    let P = λ (res : List Group ⊎ GroupError). res ≡ inl gs' → IsForest gs' in
    elim-both P (db_group_exists gs i) _ _
      (λ there.
        elim-both P (not (parent == 0) && not (db_group_exists gs parent)) _ _ (λ _ e. absurd cc)
          (λ known.
            elim-both P (not (parent == 0) && within gs i parent) _ _ (λ _ e. absurd cc)
              (λ apart.
                if-both P (is_taken i parent (name_of gs i) gs) _ _ (λ _ e. absurd cc)
                  (λ _ e. subst IsForest (cc e) (
                    moved-IsForest i parent gs forest (db_group_exists_sound gs i there)
                      (new_parent-IsRooted i parent gs forest known apart))))))
      (λ _ e. absurd cc)

-- Renaming and moving lose no group.
pub db_group_rename_kept :
    (i : ℕ) (name : Option Bytes) (gs gs' : List Group)
    → db_group_rename i name gs ≡ inl gs'
    → (j p : ℕ) → parent_of gs j ≡ some p
    → Exists gs' j
unfolding db_group_rename
db_group_rename_kept i name gs gs' done j q f =
    let P = λ (res : List Group ⊎ GroupError). res ≡ inl gs' → Exists gs' j in
    option-both P (parent_of gs i) _ _ (λ _ e. absurd cc)
      (λ p _.
        sum-both P (valid_name name) _ _
          (λ n _.
            if-both P (is_taken i p n gs) _ _ (λ _ e. absurd cc)
              (λ _ e.
                subst (λ (t : List Group). Exists t j) (cc e) (q, set_name-parent i n gs j ∙ f)))
          (λ _ _ e. absurd cc))
      done

set_parent_kept :
    (i q : ℕ) (gs : List Group) (j p : ℕ) → parent_of gs j ≡ some p → Exists (set_parent i q gs) j
set_parent_kept i q gs j p f = elim (Bool-cases (j == i)) [
  | inl same ↦
      let e : j ≡ i = (==_iff j i).0 same in
      subst (λ k. Exists (set_parent i q gs) k) (sym e)
        (q, set_parent_self i q gs (p, ap (λ k. parent_of gs k) (sym e) ∙ f))
  | inr other ↦ (p, set_parent_other i q gs j other ∙ f)
]

pub db_group_move_kept :
    (i parent : ℕ) (gs gs' : List Group)
    → db_group_move i parent gs ≡ inl gs'
    → (j p : ℕ) → parent_of gs j ≡ some p
    → Exists gs' j
unfolding db_group_move
db_group_move_kept i parent gs gs' done j p f =
    let P = λ (res : List Group ⊎ GroupError). res ≡ inl gs' → Exists gs' j in
    elim-both P (db_group_exists gs i) _ _
      (λ there.
        elim-both P (not (parent == 0) && not (db_group_exists gs parent)) _ _ (λ _ e. absurd cc)
          (λ known.
            elim-both P (not (parent == 0) && within gs i parent) _ _ (λ _ e. absurd cc)
              (λ apart.
                if-both P (is_taken i parent (name_of gs i) gs) _ _ (λ _ e. absurd cc)
                  (λ _ e.
                    subst (λ (t : List Group). Exists t j) (cc e)
                      (set_parent_kept i parent gs j p f)))))
      (λ _ e. absurd cc) done
