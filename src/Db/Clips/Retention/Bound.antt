-- ===== src/Db/Clips/Retention/Bound.antt =====
-- How many clips `db_retention` of daemon/src/db.c leaves.
use clipnet.Base.{
  ℕ, zero, suc, ◌+◌, ◌-◌, ◌≤◌, max, ◌≡◌, refl, sym, ap, ◌∙◌, ◌≢◌, inl, inr, Bool, true, false, not,
  List, [], ◌∷◌, ◌++◌, append_assoc, arith, ◌==◌, if◌then◌else◌, Bool-cases, length, take, drop,
  length-take-le, if-both, mem_id, mem_id-append,
}
use clipnet.Db.Clips.{Clip, Store, db_blob_gc}
use clipnet.Db.Clips.Change.{clip_ids}
use clipnet.Db.Clips.Retention.{
  keep, is_newer, insert_recent, recent, Settings, Holders, expendable, drop_old, drop_large,
  surplus, drop_surplus, ret_tx, db_retention,
}

one : Bool → ℕ
one true = 1
one false = 0

one-le : (b : Bool) → one b ≤ 1
unfolding one
one-le b = ground arith

abbrev count : (Clip → Bool) → List Clip → ℕ
count p [] = 0
count p (c ∷ cs) = one (p c) + count p cs

length-keep : (p : Clip → Bool) (cs : List Clip) → length (keep p cs) ≡ count p cs
unfolding one
length-keep p [] = refl
length-keep p (c ∷ cs) = ground (arith, length-keep p cs)

count-keep-le : (p q : Clip → Bool) (cs : List Clip) → count p (keep q cs) ≤ count p cs
unfolding one
count-keep-le p q [] = omega arith
count-keep-le p q (c ∷ cs) =
    if-both (λ (xs : List Clip). count p xs ≤ one (p c) + count p cs) (q c) _ _
      (λ _. omega (arith, count-keep-le p q cs)) (λ _. omega (arith, count-keep-le p q cs))

count_split :
    (p : Clip → Bool) (cs : List Clip) → length cs ≡ count (λ c. not (p c)) cs + count p cs
unfolding one
count_split p [] = omega arith
count_split p (c ∷ cs) = elim (Bool-cases (p c)) [
  | inl e ↦ ground (arith, e, count_split p cs)
  | inr e ↦ ground (arith, e, count_split p cs)
]

keep_swap : (p q : Clip → Bool) (cs : List Clip) → keep p (keep q cs) ≡ keep q (keep p cs)
keep_swap p q [] = refl
keep_swap p q (c ∷ cs) = elim (Bool-cases (p c)) [
  | inl e ↦ elim (Bool-cases (q c)) [
    | inl f ↦ ground (arith, e, f, keep_swap p q cs)
    | inr f ↦ ground (arith, e, f, keep_swap p q cs)
  ]
  | inr e ↦ elim (Bool-cases (q c)) [
    | inl f ↦ ground (arith, e, f, keep_swap p q cs)
    | inr f ↦ ground (arith, e, f, keep_swap p q cs)
  ]
]

count-insert_recent :
    (p : Clip → Bool) (c : Clip) (cs : List Clip)
    → count p (insert_recent c cs) ≡ one (p c) + count p cs
count-insert_recent p c [] = refl
count-insert_recent p c (d ∷ ds) =
    if-both (λ (xs : List Clip). count p xs ≡ one (p c) + (one (p d) + count p ds)) (is_newer c d) _
      _ (λ _. refl) (λ _. omega (arith, count-insert_recent p c ds))

count-recent : (p : Clip → Bool) (cs : List Clip) → count p (recent cs) ≡ count p cs
unfolding recent
count-recent p [] = refl
count-recent p (c ∷ cs) = omega (arith, count-insert_recent p c (recent cs), count-recent p cs)

count-append : (p : Clip → Bool) (xs ys : List Clip) → count p (xs ++ ys) ≡ count p xs + count p ys
count-append p [] ys = omega arith
count-append p (c ∷ xs) ys = omega (arith, count-append p xs ys)

take-drop : (n : ℕ) (xs : List Clip) → take n xs ++ drop n xs ≡ xs
take-drop zero xs = refl
take-drop (suc n) [] = refl
take-drop (suc n) (x ∷ xs) = ap (◌∷◌ x) (take-drop n xs)

count-le : (p : Clip → Bool) (cs : List Clip) → count p cs ≤ length cs
count-le p [] = omega arith
count-le p (c ∷ cs) = omega (arith, one-le (p c), count-le p cs)

-- None of the clips has an id that is not among their ids.
count_own :
    (cs : List Clip) (more : List ℕ) → count (λ c. not (mem_id c.id (more ++ clip_ids cs))) cs ≡ 0
unfolding one
count_own [] more = refl
count_own (c ∷ cs) more =
    let there : mem_id c.id (more ++ c.id ∷ clip_ids cs) ≡ true =
      mem_id-append c.id more (c.id ∷ clip_ids cs) ∙ ground arith in
    let later =
      ap (λ (is : List ℕ). count (λ d. not (mem_id d.id is)) cs)
        (sym (append_assoc more (c.id ∷ []) (clip_ids cs)))
      ∙ count_own cs (more ++ c.id ∷ []) in
    ground (arith, there, later)

-- Of the expendable clips as many stay as there is room for.
count-surplus :
    (held : Holders) (most : ℕ) (cs : List Clip)
    → count (expendable held) (keep (λ c. not (mem_id c.id (surplus held most cs))) cs)
      ≤ most - count (λ c. not (expendable held c)) cs
unfolding surplus
count-surplus held most cs =
    let E = expendable held in
    let room = most - length (keep (λ c. not (E c)) cs) in
    let newest = recent (keep E cs) in
    let stays = λ (c : Clip). not (mem_id c.id (clip_ids (drop room newest))) in
    let swapped : length (keep stays (keep E cs)) ≡ count E (keep stays cs) =
      ap (λ (xs : List Clip). length xs) (sym (keep_swap E stays cs))
      ∙ length-keep E (keep stays cs) in
    let parts : count stays newest
        ≡ count stays (take room newest) + count stays (drop room newest) =
      ap (λ (xs : List Clip). count stays xs) (sym (take-drop room newest))
      ∙ count-append stays (take room newest) (drop room newest) in
    omega (
      arith,
      swapped,
      parts,
      length-keep stays (keep E cs),
      count-recent stays (keep E cs),
      count_own (drop room newest) [],
      count-le stays (take room newest),
      length-take-le room newest,
      length-keep (λ c. not (E c)) cs,
    )

drop_surplus-le :
    (held : Holders) (set : Settings) (cs : List Clip)
    → set.max_clips ≢ 0
    → length (drop_surplus held set cs)
      ≤ max set.max_clips (count (λ c. not (expendable held c)) cs)
unfolding drop_surplus
drop_surplus-le held set cs limited =
    let E = expendable held in
    let stays = λ (c : Clip). not (mem_id c.id (surplus held set.max_clips cs)) in
    let whole : length (keep stays cs) ≤ max set.max_clips (count (λ c. not (E c)) cs) = omega (
      arith,
      count_split E (keep stays cs),
      count-keep-le (λ c. not (E c)) stays cs,
      count-surplus held set.max_clips cs,
    ) in
    ground (arith, whole, limited)

step-count-le :
    (p q : Clip → Bool) (b : Bool) (cs : List Clip)
    → count p (if b then cs else keep q cs) ≤ count p cs
step-count-le p q true cs = omega arith
step-count-le p q false cs = count-keep-le p q cs

-- With a limit on the number of clips, no more clips than the limit are left, or than there were
-- protected clips, whichever is the larger number.
pub db_retention-le :
    (held : Holders) (set : Settings) (now : ℕ) (s : Store)
    → set.max_clips ≢ 0
    → length (db_retention held set now s).1.clips
      ≤ max set.max_clips (length (keep (λ c. not (expendable held c)) s.clips))
unfolding db_retention ret_tx drop_old drop_large db_blob_gc
db_retention-le held set now s limited =
    let kept = λ (c : Clip). not (expendable held c) in
    let old = drop_old held set now s.clips in
    let large = drop_large held set now old in
    let whole : length (ret_tx held set now s.clips)
        ≤ max set.max_clips (length (keep kept s.clips)) =
      omega (
        arith,
        drop_surplus-le held set large limited,
        step-count-le kept _ (set.max_age_days == 0) s.clips,
        step-count-le kept _ (set.large_age_days == 0) old,
        length-keep kept s.clips,
      ) in
    if-both (λ (t : Store). length t.clips ≤ max set.max_clips (length (keep kept s.clips))) _ _ _
      (λ _. whole) (λ _. whole)
