-- ===== src/Db/Clips/Retention/Safe.antt =====
-- Which clips `db_retention` of daemon/src/db.c does not touch.
use clipnet.Base.{
  ℕ, zero, suc, ◌<◌, ◌≡◌, refl, sym, ap, ◌∙◌, subst, ◌⊎◌, inl, inr, Bool, true, false, ◌&&◌, ◌||◌,
  not, Option, some, List, [], ◌∷◌, arith, leb, ◌==◌, if◌then◌else◌, ==_iff, drop, Bytes, or_false,
  if-both, mem_id,
}
use clipnet.Db.Clips.{Clip, find_clip, Store, db_blob_gc}
use clipnet.Db.Clips.Change.{clip_ids}
use clipnet.Db.Clips.Retention.{
  keep, Settings, Holders, expendable, unused_for, drop_old, drop_large, is_newer, insert_recent,
  recent, surplus, drop_surplus, ret_tx, db_retention, stays_old, stays_large, no_word,
}

find_clip_cases :
    (d : Clip) (ds : List Clip) (i : ℕ) (c : Clip)
    → find_clip i (d ∷ ds) ≡ some c
    → ((d ≡ c) × ((d.id == i) ≡ true)) ⊎ (((d.id == i) ≡ false) × (find_clip i ds ≡ some c))
find_clip_cases d ds i c =
    if-both
      (λ (o : Option Clip).
        o ≡ some c
        → ((d ≡ c) × ((d.id == i) ≡ true)) ⊎ (((d.id == i) ≡ false) × (find_clip i ds ≡ some c)))
      (d.id == i) _ _ (λ e f. inl (cc f, e)) (λ e f. inr (e, f))

found_here :
    (c : Clip) (cs : List Clip) (i : ℕ) → (c.id == i) ≡ true → find_clip i (c ∷ cs) ≡ some c
found_here c cs i e = ap (λ b. if b then some c else find_clip i cs) e

found_later :
    (d : Clip) (ds : List Clip) (i : ℕ) (o : Option Clip)
    → (d.id == i) ≡ false
    → find_clip i ds ≡ o
    → find_clip i (d ∷ ds) ≡ o
found_later d ds i o e f = ap (λ b. if b then some d else find_clip i ds) e ∙ f

find_clip-keep :
    (q : Clip → Bool) (cs : List Clip) (i : ℕ) (c : Clip)
    → find_clip i cs ≡ some c
    → q c ≡ true
    → find_clip i (keep q cs) ≡ some c
find_clip-keep q [] i c h hq = absurd cc
find_clip-keep q (d ∷ ds) i c h hq =
    let Goal = λ (xs : List Clip). find_clip i xs ≡ some c in
    elim (find_clip_cases d ds i c h) [
      | inl (same, e) ↦
          subst (λ (xs : List Clip). Goal xs)
            (sym (ap (λ b. if b then d ∷ keep q ds else keep q ds) (ap q same ∙ hq)))
            (found_here d (keep q ds) i e ∙ ap (λ (x : Clip). some x) same)
      | inr (e, f) ↦
          if-both Goal (q d) _ _
            (λ _. found_later d (keep q ds) i (some c) e (find_clip-keep q ds i c f hq))
            (λ _. find_clip-keep q ds i c f hq)
    ]

find_clip-id : (cs : List Clip) (i : ℕ) (c : Clip) → find_clip i cs ≡ some c → c.id ≡ i
find_clip-id [] i c h = absurd cc
find_clip-id (d ∷ ds) i c h =
    if-both (λ (o : Option Clip). o ≡ some c → c.id ≡ i) (d.id == i) _ _
      (λ e f. let same : d ≡ c = cc f in ap (λ (x : Clip). x.id) (sym same) ∙ (==_iff d.id i).0 e)
      (λ _ f. find_clip-id ds i c f) h

-- No id stands twice, as it is the primary key.
abbrev pub DistinctClips : List Clip → Type 0
DistinctClips [] = Unit
DistinctClips (c ∷ cs) = (mem_id c.id (clip_ids cs) ≡ false) × DistinctClips cs

keep-ids :
    (q : Clip → Bool) (cs : List Clip) (i : ℕ)
    → mem_id i (clip_ids cs) ≡ false
    → mem_id i (clip_ids (keep q cs)) ≡ false
keep-ids q [] i h = refl
keep-ids q (c ∷ cs) i h =
    let (other, absent) = or_false (c.id == i) (mem_id i (clip_ids cs)) h in
    if-both (λ (xs : List Clip). mem_id i (clip_ids xs) ≡ false) (q c) _ _
      (λ _. ground (arith, other, keep-ids q cs i absent)) (λ _. keep-ids q cs i absent)

keep-DistinctClips :
    (q : Clip → Bool) (cs : List Clip) → DistinctClips cs → DistinctClips (keep q cs)
keep-DistinctClips q [] d = tt
keep-DistinctClips q (c ∷ cs) (fresh, d) =
    if-both DistinctClips (q c) _ _ (λ _. (keep-ids q cs c.id fresh, keep-DistinctClips q cs d))
      (λ _. keep-DistinctClips q cs d)

-- The id of a clip that is not kept is not among the ids of those that are.
keep_absent :
    (q : Clip → Bool) (cs : List Clip) (i : ℕ) (c : Clip)
    → DistinctClips cs
    → find_clip i cs ≡ some c
    → q c ≡ false
    → mem_id i (clip_ids (keep q cs)) ≡ false
keep_absent q [] i c d h hq = refl
keep_absent q (x ∷ xs) i c (fresh, d) h hq =
    let Goal = λ (ys : List Clip). mem_id i (clip_ids ys) ≡ false in
    elim (find_clip_cases x xs i c h) [
      | inl (same, e) ↦
          subst Goal (sym (ap (λ b. if b then x ∷ keep q xs else keep q xs) (ap q same ∙ hq)))
            (keep-ids q xs i (ap (λ j. mem_id j (clip_ids xs)) (sym ((==_iff x.id i).0 e)) ∙ fresh))
      | inr (e, f) ↦
          if-both Goal (q x) _ _ (λ _. ground (arith, e, keep_absent q xs i c d f hq))
            (λ _. keep_absent q xs i c d f hq)
    ]

insert_recent-ids :
    (c : Clip) (cs : List Clip) (i : ℕ)
    → mem_id i (clip_ids (insert_recent c cs)) ≡ (c.id == i || mem_id i (clip_ids cs))
insert_recent-ids c [] i = refl
insert_recent-ids c (d ∷ ds) i =
    if-both
      (λ (xs : List Clip).
        mem_id i (clip_ids xs) ≡ (c.id == i || (d.id == i || mem_id i (clip_ids ds))))
      (is_newer c d) _ _ (λ _. refl) (λ _. ground (arith, insert_recent-ids c ds i))

recent-ids : (cs : List Clip) (i : ℕ) → mem_id i (clip_ids (recent cs)) ≡ mem_id i (clip_ids cs)
unfolding recent
recent-ids [] i = refl
recent-ids (c ∷ cs) i = insert_recent-ids c (recent cs) i ∙ ground (arith, recent-ids cs i)

drop-ids :
    (n : ℕ) (cs : List Clip) (i : ℕ)
    → mem_id i (clip_ids cs) ≡ false
    → mem_id i (clip_ids (drop n cs)) ≡ false
drop-ids zero cs i h = h
drop-ids (suc n) [] i h = h
drop-ids (suc n) (c ∷ cs) i h = drop-ids n cs i (or_false (c.id == i) (mem_id i (clip_ids cs)) h).1

module _ (held : Holders) (set : Settings) (now i : ℕ) (c : Clip)
    (safe : expendable held c ≡ false) where
  surplus_absent :
      (most : ℕ) (cs : List Clip)
      → DistinctClips cs
      → find_clip i cs ≡ some c
      → mem_id i (surplus held most cs) ≡ false
  unfolding surplus
  surplus_absent most cs d h =
      drop-ids _ (recent (keep (expendable held) cs)) i
        (recent-ids (keep (expendable held) cs) i ∙ keep_absent (expendable held) cs i c d h safe)

  -- A step of `ret_tx` that spares what is not expendable.
  step-find :
      (b : Bool) (q : Clip → Bool) (cs : List Clip)
      → q c ≡ true
      → find_clip i cs ≡ some c
      → find_clip i (if b then cs else keep q cs) ≡ some c
  step-find b q cs hq h =
      if-both (λ (xs : List Clip). find_clip i xs ≡ some c) b _ _ (λ _. h)
        (λ _. find_clip-keep q cs i c h hq)

  step-distinct :
      (b : Bool) (q : Clip → Bool) (cs : List Clip)
      → DistinctClips cs
      → DistinctClips (if b then cs else keep q cs)
  step-distinct b q cs d = if-both DistinctClips b _ _ (λ _. d) (λ _. keep-DistinctClips q cs d)

  ret_tx-find :
      (cs : List Clip)
      → DistinctClips cs
      → find_clip i cs ≡ some c
      → find_clip i (ret_tx held set now cs) ≡ some c
  unfolding ret_tx drop_old drop_large drop_surplus
  ret_tx-find cs d h =
      let old = drop_old held set now cs in
      let large = drop_large held set now old in
      let h1 =
        step-find (set.max_age_days == 0) (stays_old held set now) cs
          (ap (λ b. not (b && unused_for now set.max_age_days c)) safe) h in
      let d1 = step-distinct (set.max_age_days == 0) (stays_old held set now) cs d in
      let h2 =
        step-find (set.large_age_days == 0) (stays_large held set now) old
          (ap
            (λ b.
              not (b && leb set.large_bytes c.total_size && unused_for now set.large_age_days c))
            safe)
          h1 in
      let d2 = step-distinct (set.large_age_days == 0) (stays_large held set now) old d1 in
      step-find (set.max_clips == 0) (λ x. not (mem_id x.id (surplus held set.max_clips large)))
        large
        (ap (λ j. not (mem_id j (surplus held set.max_clips large))) (find_clip-id large i c h2)
          ∙ ap not (surplus_absent set.max_clips large d2 h2))
        h2

-- A clip is invested in if it is sticky, locked, in a group, bound to a quick-paste word, in a copy
-- buffer, or on a hotkey.
unfoldable pub IsInvested : Holders → Clip → Type 0
IsInvested held c =
    (c.sticky ≡ true)
    ⊎ ((c.locked ≡ true)
        ⊎ ((0 < c.group_id)
            ⊎ (((word : Bytes) × (c.quick_paste ≡ some word))
                ⊎ ((held.buffered c.id ≡ true) ⊎ (held.hotkeyed c.uuid ≡ true)))))

IsInvested-expendable : (held : Holders) (c : Clip) → IsInvested held c → expendable held c ≡ false
unfolding IsInvested
IsInvested-expendable held c (inl e) = ground (arith, e)
IsInvested-expendable held c (inr (inl e)) = ground (arith, e)
IsInvested-expendable held c (inr (inr (inl e))) = ground (arith, e)
IsInvested-expendable held c (inr (inr (inr (inl (word, e))))) =
    let bound : no_word c.quick_paste ≡ false = ap no_word e in ground (arith, bound)
IsInvested-expendable held c (inr (inr (inr (inr (inl e))))) = ground (arith, e)
IsInvested-expendable held c (inr (inr (inr (inr (inr e))))) = ground (arith, e)

-- Where no id stands twice, a clip that is sticky, locked, in a group, in a copy buffer, or bound to a
-- hotkey or a quick-paste word is still in the store after a retention, and unchanged, whatever the
-- limits.
pub db_retention-find_clip :
    (held : Holders) (set : Settings) (now i : ℕ) (c : Clip) (s : Store)
    → IsInvested held c
    → DistinctClips s.clips
    → find_clip i s.clips ≡ some c
    → find_clip i (db_retention held set now s).1.clips ≡ some c
unfolding db_retention db_blob_gc
db_retention-find_clip held set now i c s invested d h =
    let safe = IsInvested-expendable held c invested in
    if-both (λ (t : Store). find_clip i t.clips ≡ some c) _ _ _
      (λ _. ret_tx-find held set now i c safe s.clips d h)
      (λ _. ret_tx-find held set now i c safe s.clips d h)
