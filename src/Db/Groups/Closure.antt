-- ===== src/Db/Groups/Closure.antt =====
-- The recursive query `sub` of daemon/src/db_edit.c, which `within` and `gdel_tx` use.
use clipnet.Base.{
  ℕ, zero, suc, ◌≤◌, ◌<◌, ◌≡◌, refl, sym, ap, ◌∙◌, subst, ◌≢◌, ◌↔◌, inl, inr, Bool, true, false,
  ◌||◌, some, List, [], ◌∷◌, ◌++◌, append-nil, arith, ◌==◌, if◌then◌else◌, ==_iff, Bool-cases,
  length, or_cases, list_cases, mem_id, mem_id-append,
}
use clipnet.Db.{Group}
use clipnet.Db.Groups.{group_ids, children, parent_of, sub_from, sub, within}

-- How many rows the set does not have.
missing : List ℕ → List Group → ℕ
missing set [] = 0
missing set (g ∷ gs) = if mem_id g.id set then missing set gs else suc (missing set gs)

missing_le : (set : List ℕ) (gs : List Group) → missing set gs ≤ length gs
unfolding missing
missing_le set [] = omega arith
missing_le set (g ∷ gs) = ground (arith, missing_le set gs)

missing-append : (set more : List ℕ) (gs : List Group) → missing (set ++ more) gs ≤ missing set gs
unfolding missing
missing-append set more [] = omega arith
missing-append set more (g ∷ gs) =
    ground (arith, missing-append set more gs, mem_id-append g.id set more)

missing-append-lt :
    (set more : List ℕ) (gs : List Group) (x : ℕ)
    → mem_id x (group_ids gs) ≡ true
    → mem_id x set ≡ false
    → mem_id x more ≡ true
    → missing (set ++ more) gs < missing set gs
unfolding missing
missing-append-lt set more [] x known new there = absurd cc
missing-append-lt set more (g ∷ gs) x known new there =
    elim (or_cases (g.id == x) (mem_id x (group_ids gs)) known) [
      | inl here ↦
          let is_in : mem_id g.id (set ++ more) ≡ true =
            rw (mem_id-append g.id set more) (ground (arith, there)) in
          let was_out : mem_id g.id set ≡ false = ground (arith, new) in
          ground (arith, is_in, was_out, missing-append set more gs)
      | inr later ↦
          ground
            (arith, missing-append-lt set more gs x later new there, mem_id-append g.id set more)
    ]

missing-zero-children : (set : List ℕ) (gs : List Group) → missing set gs ≡ 0 → children set gs ≡ []
unfolding missing
missing-zero-children set [] none_left = refl
missing-zero-children set (g ∷ gs) none_left = elim (Bool-cases (mem_id g.id set)) [
  | inl e ↦ ground (arith, e, missing-zero-children set gs (ground (arith, e, none_left)))
  | inr e ↦ absurd (ground (arith, e, none_left))
]

children_new :
    (set : List ℕ) (gs : List Group) (x : ℕ)
    → mem_id x (children set gs) ≡ true
    → (mem_id x (group_ids gs) ≡ true) × (mem_id x set ≡ false)
children_new set [] x h = absurd cc
children_new set (g ∷ gs) x h = ground (arith, children_new set gs x, h)

-- A parent is in the set and its child is not: the next round takes the child in.
children_none :
    (set : List ℕ) (gs : List Group) (i p : ℕ)
    → children set gs ≡ []
    → parent_of gs i ≡ some p
    → p ≢ 0
    → mem_id p set ≡ true
    → mem_id i set ≡ true
children_none set [] i p done e nonzero there = absurd cc
children_none set (g ∷ gs) i p done e nonzero there = elim (Bool-cases (mem_id g.id set)) [
  | inl here ↦ elim (Bool-cases (g.id == i)) [
    | inl same ↦ ground (arith, here, same)
    | inr other ↦
        children_none set gs i p (ground (arith, done, here)) (ground (arith, e, other)) nonzero
          there
  ]
  | inr out ↦ elim (Bool-cases (g.id == i)) [
    | inl same ↦ absurd (ground (arith, done, e, out, same, there, nonzero))
    | inr other ↦
        let tail : children set gs ≡ [] = ground (arith, done, out) in
        children_none set gs i p tail (ground (arith, e, other)) nonzero there
  ]
]

sub_from_done :
    (n : ℕ) (set : List ℕ) (gs : List Group) → children set gs ≡ [] → sub_from n set gs ≡ set
unfolding sub_from
sub_from_done zero set gs e = refl
sub_from_done (suc n) set gs e =
    ap (λ (more : List ℕ). sub_from n (set ++ more) gs) e
    ∙ ap (λ (s : List ℕ). sub_from n s gs) (append-nil set)
    ∙ sub_from_done n set gs e

sub_from_complete :
    (n : ℕ) (set : List ℕ) (gs : List Group)
    → missing set gs ≤ n
    → children (sub_from n set gs) gs ≡ []
unfolding sub_from
sub_from_complete zero set gs enough = missing-zero-children set gs (omega arith)
sub_from_complete (suc n) set gs enough = elim (list_cases (children set gs)) [
  | inl e ↦ ap (λ (s : List ℕ). children s gs) (sub_from_done (suc n) set gs e) ∙ e
  | inr (x, xs, e) ↦
      let first : mem_id x (children set gs) ≡ true = rw e (ground arith) in
      let (known, new) = children_new set gs x first in
      sub_from_complete n (set ++ children set gs) gs
        (omega (arith, missing-append-lt set (children set gs) gs x known new first))
]

-- With a round for every group nothing below the group is missing.
pub sub-IsClosed :
    (gs : List Group) (top i p : ℕ)
    → parent_of gs i ≡ some p
    → p ≢ 0
    → mem_id p (sub top gs) ≡ true
    → mem_id i (sub top gs) ≡ true
unfolding sub
sub-IsClosed gs top i p =
    children_none (sub_from (length gs) (top ∷ []) gs) gs i p
      (sub_from_complete (length gs) (top ∷ []) gs (missing_le (top ∷ []) gs))

sub_from-mem :
    (n : ℕ) (set : List ℕ) (gs : List Group) (i : ℕ)
    → mem_id i set ≡ true
    → mem_id i (sub_from n set gs) ≡ true
unfolding sub_from
sub_from-mem zero set gs i h = h
sub_from-mem (suc n) set gs i h =
    sub_from-mem n (set ++ children set gs) gs i
      (mem_id-append i set (children set gs) ∙ ap (λ (b : Bool). b || mem_id i (children set gs)) h)

pub sub-mem : (gs : List Group) (i : ℕ) → mem_id i (sub i gs) ≡ true
unfolding sub
sub-mem gs i = sub_from-mem (length gs) (i ∷ []) gs i (ground arith)

-- `i` is `top`, or a group whose parent is under `top`.
pub data Under (gs : List Group) (top : ℕ) : ℕ → Type 0 where
  here : Under gs top top
  below : {i p : ℕ} → parent_of gs i ≡ some p → p ≢ 0 → Under gs top p → Under gs top i

abbrev pub DistinctIds : List Group → Type 0
DistinctIds [] = Unit
DistinctIds (g ∷ gs) = (mem_id g.id (group_ids gs) ≡ false) × DistinctIds gs

children-parent :
    (set : List ℕ) (gs : List Group) (i : ℕ)
    → DistinctIds gs
    → mem_id i (children set gs) ≡ true
    → (p : ℕ) × (parent_of gs i ≡ some p) × (p ≢ 0) × (mem_id p set ≡ true)
children-parent set [] i d h = absurd cc
children-parent set (g ∷ gs) i (fresh, d) h = elim (Bool-cases (g.id == i)) [
  | inl same ↦ elim (Bool-cases (mem_id i (children set gs))) [
    | inl again ↦ absurd (ground (arith, children_new set gs i again, same, fresh))
    | inr no_more ↦
        (g.parent_id, ground (arith, same), ground (arith, h, no_more), ground (arith, h, no_more))
  ]
  | inr other ↦
      let (p, e, lower, there) = children-parent set gs i d (ground (arith, h, other)) in
      (p, ground (arith, e, other), lower, there)
]

sub_from-IsUnder :
    (n : ℕ) (set : List ℕ) (gs : List Group) (top : ℕ)
    → DistinctIds gs
    → ((i : ℕ) → mem_id i set ≡ true → Under gs top i)
    → (i : ℕ) → mem_id i (sub_from n set gs) ≡ true
    → Under gs top i
unfolding sub_from
sub_from-IsUnder zero set gs top d under i h = under i h
sub_from-IsUnder (suc n) set gs top d under i h =
    sub_from-IsUnder n (set ++ children set gs) gs top d
      (λ j there. elim (or_cases _ _ (sym (mem_id-append j set (children set gs)) ∙ there)) [
        | inl old ↦ under j old
        | inr new ↦
            let (p, e, nonzero, in_set) = children-parent set gs j d new in
            below e nonzero (under p in_set)
      ])
      i h

Under-within : (gs : List Group) (top i : ℕ) → Under gs top i → within gs top i ≡ true
unfolding within
Under-within gs top i here = sub-mem gs top
Under-within gs top i (below e nonzero up) =
    sub-IsClosed gs top _ _ e nonzero (Under-within gs top _ up)

-- Where no id stands twice, `within` answers whether the second group is the first, or is below it: the
-- first is reached from the second by steps to a parent.
pub within_lem :
    (gs : List Group) (group maybe_descendant : ℕ)
    → DistinctIds gs
    → (within gs group maybe_descendant ≡ true) ↔ Under gs group maybe_descendant
unfolding within sub
within_lem gs group below_it d = (
  sub_from-IsUnder (length gs) (group ∷ []) gs group d
      (λ j h. elim (Bool-cases (group == j)) [
        | inl same ↦ subst (λ k. Under gs group k) ((==_iff group j).0 same) here
        | inr other ↦ absurd (ground (arith, h, other))
      ])
      below_it,
  Under-within gs group below_it,
)
