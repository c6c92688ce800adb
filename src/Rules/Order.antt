-- ===== src/Rules/Order.antt =====
-- The rows of the table under `rules_reorder`.
use clipnet.Base.{
  ℕ, ◌≡◌, refl, sym, ap, ◌∙◌, subst, inl, inr, true, false, ◌&&◌, ◌||◌, not, List, [], ◌∷◌, ◌++◌,
  map, append-nil, append_assoc, arith, ◌==◌, if◌then◌else◌, Bool-cases, mem_id, mem_id-append,
}
use clipnet.Rules.{Rule}
use clipnet.Rules.Edit.{
  dedup, unnamed, rows_of, in_order, new_order, rules_reorder, numbered, untouched_rows,
}

-- No id twice.
unfoldable pub AllDistinct : List ℕ → Type 0
AllDistinct [] = Unit
AllDistinct (i ∷ is) = (mem_id i is ≡ false) × AllDistinct is

rows_of-append : (i : ℕ) (xs ys : List Rule) → rows_of i (xs ++ ys) ≡ rows_of i xs ++ rows_of i ys
unfolding rows_of
rows_of-append i [] ys = refl
rows_of-append i (x ∷ xs) ys = ground (arith, rows_of-append i xs ys)

rows_of-rows_of :
    (i j : ℕ) (rs : List Rule) → rows_of i (rows_of j rs) ≡ (if j == i then rows_of i rs else [])
unfolding rows_of
rows_of-rows_of i j [] = ground arith
rows_of-rows_of i j (r ∷ rs) = ground (arith, rows_of-rows_of i j rs)

rows_of-numbered :
    (i : ℕ) (order : List ℕ) (rs : List Rule)
    → AllDistinct order
    → rows_of i (numbered order rs) ≡ (if mem_id i order then rows_of i rs else [])
unfolding numbered AllDistinct
rows_of-numbered i [] rs d = unfold rows_of in refl
rows_of-numbered i (j ∷ order) rs (new, d) =
    rw
      (
        rows_of-append i (rows_of j rs) (numbered order rs),
        rows_of-rows_of i j rs,
        rows_of-numbered i order rs d,
      )
      (elim (Bool-cases (j == i)) [
        | inl e ↦
            let same : j ≡ i = ground (arith, e) in
            let gone : mem_id i order ≡ false =
              subst (λ (k : ℕ). mem_id k order ≡ false) same new in
            rw (e, gone) (append-nil (rows_of i rs))
        | inr e ↦ rw e refl
      ])

AllDistinct-snoc :
    (xs : List ℕ) (i : ℕ) → AllDistinct xs → mem_id i xs ≡ false → AllDistinct (xs ++ i ∷ [])
unfolding AllDistinct
AllDistinct-snoc [] i d h = (refl, tt)
AllDistinct-snoc (x ∷ xs) i (new, d) h = (
  ground (arith, mem_id-append x xs (i ∷ []), new, h),
  AllDistinct-snoc xs i d (ground (arith, h)),
)

dedup_lem :
    (order ids : List ℕ)
    → AllDistinct order
    → AllDistinct (dedup order ids)
      × ((i : ℕ) → mem_id i (dedup order ids) ≡ (mem_id i order || mem_id i ids))
unfolding dedup
dedup_lem order [] d = (d, λ i. ground arith)
dedup_lem order (j ∷ ids) d = elim (Bool-cases (mem_id j order)) [
  | inl e ↦ let (d', same) = dedup_lem order ids d in rw e (d', λ i. same i ∙ known i e)
  | inr e ↦
      let (d', same) = dedup_lem (order ++ j ∷ []) ids (AllDistinct-snoc order j d e) in
      rw e (d', λ i. same i ∙ ground (arith, mem_id-append i order (j ∷ [])))
]
  where
    known :
        (i : ℕ)
        → mem_id j order ≡ true
        → (mem_id i order || mem_id i ids) ≡ (mem_id i order || (j == i || mem_id i ids))
    known i e = elim (Bool-cases (j == i)) [
      | inl f ↦
          let same : j ≡ i = ground (arith, f) in
          let hit : mem_id i order ≡ true = subst (λ (k : ℕ). mem_id k order ≡ true) same e in
          rw (hit) refl
      | inr f ↦ rw f refl
    ]

-- The ids of a table.
abbrev pub rule_ids : List Rule → List ℕ
rule_ids = map (λ r. r.id)

mem_id-unnamed :
    (i : ℕ) (ids : List ℕ) (rs : List Rule)
    → mem_id i (unnamed ids rs) ≡ (mem_id i (rule_ids rs) && not (mem_id i ids))
unfolding unnamed
mem_id-unnamed i ids [] = refl
mem_id-unnamed i ids (r ∷ rs) = elim (Bool-cases (r.id == i)) [
  | inl e ↦
      let same : r.id ≡ i = ground (arith, e) in rw same (ground (arith, mem_id-unnamed i ids rs))
  | inr e ↦ ground (arith, e, mem_id-unnamed i ids rs)
]

AllDistinct-unnamed :
    (ids : List ℕ) (rs : List Rule) → AllDistinct (rule_ids rs) → AllDistinct (unnamed ids rs)
unfolding AllDistinct unnamed
AllDistinct-unnamed ids [] d = tt
AllDistinct-unnamed ids (r ∷ rs) (new, d) = elim (Bool-cases (mem_id r.id ids)) [
  | inl e ↦ rw e (AllDistinct-unnamed ids rs d)
  | inr e ↦
      rw e (rw (mem_id-unnamed r.id ids rs) (ground (arith, new)), AllDistinct-unnamed ids rs d)
]

AllDistinct-append :
    (xs ys : List ℕ)
    → AllDistinct xs
    → AllDistinct ys
    → ((i : ℕ) → mem_id i xs ≡ true → mem_id i ys ≡ false)
    → AllDistinct (xs ++ ys)
unfolding AllDistinct
AllDistinct-append [] ys dx dy apart = dy
AllDistinct-append (x ∷ xs) ys (new, dx) dy apart = (
  rw (mem_id-append x xs ys) (rw new (apart x (ground arith))),
  AllDistinct-append xs ys dx dy (λ i h. apart i (ground (arith, h))),
)

mem_id-new_order :
    (i : ℕ) (ids : List ℕ) (rs : List Rule)
    → mem_id i (new_order ids rs) ≡ (mem_id i ids || (mem_id i (rule_ids rs) && not (mem_id i ids)))
unfolding new_order
mem_id-new_order i ids rs =
    rw
      (
        mem_id-append i (dedup [] ids) (unnamed ids rs),
        (dedup_lem [] ids (unfold AllDistinct in tt)).1 i,
        mem_id-unnamed i ids rs,
      )
      refl

AllDistinct-new_order :
    (ids : List ℕ) (rs : List Rule) → AllDistinct (rule_ids rs) → AllDistinct (new_order ids rs)
unfolding new_order
AllDistinct-new_order ids rs d =
    let (named, known) = dedup_lem [] ids (unfold AllDistinct in tt) in
    AllDistinct-append (dedup [] ids) (unnamed ids rs) named (AllDistinct-unnamed ids rs d)
      (λ i h. rw (mem_id-unnamed i ids rs) (ground (arith, known i, h)))

rows_of_missing : (i : ℕ) (rs : List Rule) → mem_id i (rule_ids rs) ≡ false → rows_of i rs ≡ []
unfolding rows_of
rows_of_missing i [] h = refl
rows_of_missing i (r ∷ rs) h = ground (arith, h, rows_of_missing i rs)

untouched_rows_none :
    (order : List ℕ) (rs : List Rule)
    → ((i : ℕ) → mem_id i (rule_ids rs) ≡ true → mem_id i order ≡ true)
    → untouched_rows order rs ≡ []
unfolding untouched_rows
untouched_rows_none order [] h = refl
untouched_rows_none order (r ∷ rs) h =
    let here : mem_id r.id order ≡ true = h r.id (ground arith) in
    ground (arith, here, untouched_rows_none order rs (λ i k. h i (ground (arith, k))))

-- Every row is numbered.
rules_reorder-numbered :
    (ids : List ℕ) (rules : List Rule)
    → rules_reorder ids rules ≡ numbered (new_order ids rules) rules
unfolding rules_reorder in_order
rules_reorder-numbered ids rules =
    ap (λ (rs : List Rule). numbered (new_order ids rules) rules ++ rs)
      (untouched_rows_none (new_order ids rules) rules
        (λ i h. rw (mem_id-new_order i ids rules) (ground (arith, h))))
    ∙ append-nil (numbered (new_order ids rules) rules)

-- The ids that are in, and those that are not in, the first list.
pub present : List ℕ → List ℕ → List ℕ
present known [] = []
present known (i ∷ is) = if mem_id i known then i ∷ present known is else present known is

pub absent : List ℕ → List ℕ → List ℕ
absent known [] = []
absent known (i ∷ is) = if mem_id i known then absent known is else i ∷ absent known is

-- Each id where it stands first.
pub firsts : List ℕ → List ℕ
firsts [] = []
firsts (i ∷ is) = i ∷ absent (i ∷ []) (firsts is)

absent-absent :
    (order : List ℕ) (i : ℕ) (xs : List ℕ)
    → absent (order ++ i ∷ []) xs ≡ absent order (absent (i ∷ []) xs)
unfolding absent
absent-absent order i [] = refl
absent-absent order i (x ∷ xs) =
    ground (arith, mem_id-append x order (i ∷ []), absent-absent order i xs)

absent-known :
    (order : List ℕ) (i : ℕ) (xs : List ℕ)
    → mem_id i order ≡ true
    → absent order (absent (i ∷ []) xs) ≡ absent order xs
unfolding absent
absent-known order i [] h = refl
absent-known order i (x ∷ xs) h = elim (Bool-cases (i == x)) [
  | inl e ↦
      let same : i ≡ x = ground (arith, e) in
      let here : mem_id x order ≡ true = subst (λ (j : ℕ). mem_id j order ≡ true) same h in
      ground (arith, e, here, absent-known order i xs h)
  | inr e ↦ ground (arith, e, absent-known order i xs h)
]

absent_head :
    (order : List ℕ) (i : ℕ) (xs : List ℕ)
    → mem_id i order ≡ true
    → absent order (i ∷ xs) ≡ absent order xs
unfolding absent
absent_head order i xs e = rw e refl

absent_new :
    (order : List ℕ) (i : ℕ) (xs : List ℕ)
    → mem_id i order ≡ false
    → absent order (i ∷ xs) ≡ i ∷ absent order xs
unfolding absent
absent_new order i xs e = rw e refl

dedup-firsts : (order ids : List ℕ) → dedup order ids ≡ order ++ absent order (firsts ids)
unfolding dedup firsts
dedup-firsts order [] = unfold absent in sym (append-nil order)
dedup-firsts order (i ∷ ids) = elim (Bool-cases (mem_id i order)) [
  | inl e ↦ rw e (dedup-firsts order ids ∙ ap (λ (xs : List ℕ). order ++ xs) (known e))
  | inr e ↦ rw e (
      dedup-firsts (order ++ i ∷ []) ids
      ∙ append_assoc order (i ∷ []) (absent (order ++ i ∷ []) (firsts ids))
      ∙ ap (λ (xs : List ℕ). order ++ xs) (fresh e))
]
  where
    known :
        mem_id i order ≡ true
        → absent order (firsts ids) ≡ absent order (i ∷ absent (i ∷ []) (firsts ids))
    known e = sym (absent_in e ∙ absent-known order i (firsts ids) e)
      where
        absent_in :
            mem_id i order ≡ true
            → absent order (i ∷ absent (i ∷ []) (firsts ids))
              ≡ absent order (absent (i ∷ []) (firsts ids))
        absent_in f = absent_head order i _ f

    fresh :
        mem_id i order ≡ false
        → i ∷ absent (order ++ i ∷ []) (firsts ids)
          ≡ absent order (i ∷ absent (i ∷ []) (firsts ids))
    fresh e = ap (◌∷◌ i) (absent-absent order i (firsts ids)) ∙ sym (absent_new order i _ e)

absent_nil : (xs : List ℕ) → absent [] xs ≡ xs
unfolding absent
absent_nil [] = refl
absent_nil (x ∷ xs) = ap (◌∷◌ x) (absent_nil xs)

unnamed-absent : (ids : List ℕ) (rs : List Rule) → unnamed ids rs ≡ absent ids (rule_ids rs)
unfolding unnamed absent
unnamed-absent ids [] = refl
unnamed-absent ids (r ∷ rs) = ground (arith, unnamed-absent ids rs)

rule_ids-append : (xs ys : List Rule) → rule_ids (xs ++ ys) ≡ rule_ids xs ++ rule_ids ys
rule_ids-append [] ys = refl
rule_ids-append (x ∷ xs) ys = ap (◌∷◌ x.id) (rule_ids-append xs ys)

rule_ids-rows_of :
    (i : ℕ) (rs : List Rule)
    → AllDistinct (rule_ids rs)
    → rule_ids (rows_of i rs) ≡ (if mem_id i (rule_ids rs) then i ∷ [] else [])
unfolding rows_of AllDistinct
rule_ids-rows_of i [] d = refl
rule_ids-rows_of i (r ∷ rs) (new, d) = elim (Bool-cases (r.id == i)) [
  | inl e ↦
      let same : r.id ≡ i = ground (arith, e) in
      let gone : rows_of i rs ≡ [] =
        rows_of_missing i rs (subst (λ (j : ℕ). mem_id j (rule_ids rs) ≡ false) same new) in
      rw (e, gone) (ap (λ (j : ℕ). j ∷ []) same)
  | inr e ↦ rw e (rule_ids-rows_of i rs d)
]

rule_ids-numbered :
    (order : List ℕ) (rs : List Rule)
    → AllDistinct (rule_ids rs)
    → rule_ids (numbered order rs) ≡ present (rule_ids rs) order
unfolding numbered present
rule_ids-numbered [] rs d = refl
rule_ids-numbered (i ∷ order) rs d =
    rule_ids-append (rows_of i rs) (numbered order rs)
    ∙ elim (Bool-cases (mem_id i (rule_ids rs))) [
      | inl e ↦ rw (rule_ids-rows_of i rs d, e) (ap (◌∷◌ i) (rule_ids-numbered order rs d))
      | inr e ↦ rw (rule_ids-rows_of i rs d, e) (rule_ids-numbered order rs d)
    ]

present-append :
    (known xs ys : List ℕ) → present known (xs ++ ys) ≡ present known xs ++ present known ys
unfolding present
present-append known [] ys = refl
present-append known (x ∷ xs) ys = ground (arith, present-append known xs ys)

present-absent :
    (known ids xs : List ℕ)
    → ((i : ℕ) → mem_id i xs ≡ true → mem_id i known ≡ true)
    → present known (absent ids xs) ≡ absent ids xs
unfolding present absent
present-absent known ids [] h = refl
present-absent known ids (x ∷ xs) h =
    let here : mem_id x known ≡ true = h x (ground arith) in
    let rest = present-absent known ids xs (λ i k. h i (ground (arith, k))) in
    ground (arith, here, rest)

-- In a table whose ids are distinct, the rules behind a reordering are first those that were named, in
-- the order given, each where it was named first and unknown ids left out, and then the others in their
-- old order; and for every id the row is the one it was.
pub rules_reorder_rows :
    (ids : List ℕ) (rules : List Rule)
    → AllDistinct (rule_ids rules)
    → (rule_ids (rules_reorder ids rules)
        ≡ present (rule_ids rules) (firsts ids) ++ absent ids (rule_ids rules))
      × ((i : ℕ) → rows_of i (rules_reorder ids rules) ≡ rows_of i rules)
rules_reorder_rows ids rules d =
    let known = rule_ids rules in
    let order : new_order ids rules ≡ firsts ids ++ absent ids known =
      unfold new_order in
      ap (λ (xs : List ℕ). xs ++ unnamed ids rules) (dedup-firsts [] ids ∙ absent_nil (firsts ids))
      ∙ ap (λ (xs : List ℕ). firsts ids ++ xs) (unnamed-absent ids rules) in
    (
      ap rule_ids (rules_reorder-numbered ids rules)
          ∙ rule_ids-numbered (new_order ids rules) rules d
          ∙ ap (present known) order
          ∙ present-append known (firsts ids) (absent ids known)
          ∙ ap (λ (xs : List ℕ). present known (firsts ids) ++ xs)
              (present-absent known ids known (λ i h. h)),
      λ i. ap (rows_of i) (rules_reorder-numbered ids rules) ∙ rows_kept i,
    )
  where
    rows_kept : (i : ℕ) → rows_of i (numbered (new_order ids rules) rules) ≡ rows_of i rules
    rows_kept i =
        rows_of-numbered i (new_order ids rules) rules (AllDistinct-new_order ids rules d)
        ∙ elim (Bool-cases (mem_id i (new_order ids rules))) [
          | inl e ↦ rw e refl
          | inr e ↦
              let gone : mem_id i (rule_ids rules) ≡ false =
                ground (arith, e, mem_id-new_order i ids rules) in
              rw e (sym (rows_of_missing i rules gone))
        ]
