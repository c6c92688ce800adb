-- ===== src/Db/Clips/Twice.antt =====
-- `db_add_clip` of daemon/src/db.c, called again with the formats of a clip that it stored.
use clipnet.Base.{
  ℕ, suc, ◌<◌, ◌≡◌, refl, sym, ap, ◌∙◌, Option, none, some, List, [], ◌∷◌, ◌++◌, arith,
  if◌then◌else◌, length, Bytes, bytes_eq, bytes_eq_refl, if-both, option-both, list-both,
}
use clipnet.Db.Clips.{FmtIn, ClipIn, Clip, Store, StoreEnv, dbi_insert_formats, Libc}
use clipnet.Db.Clips.Change.{
  Added, find_hash, update, failed_add, violates, new_clip, inserted, insert_rows, insert_clip,
  add_tx, db_add_clip, add_new, add_dup,
}
use clipnet.Db.Clips.Content.{dbi_content_hash}
use clipnet.Db.Clips.Hash.{Reordered, dbi_content_hash-Reordered, same, under, swapped, through}

find_hash_last :
    (h : Bytes) (cs : List Clip) (c : Clip)
    → find_hash h cs ≡ none
    → c.content_hash ≡ h
    → find_hash h (cs ++ c ∷ []) ≡ some c.id
find_hash_last h [] c absent e =
    ap (λ b. if b then some c.id else none) (ap (λ (x : Bytes). bytes_eq x h) e ∙ bytes_eq_refl h)
find_hash_last h (d ∷ cs) c absent e =
    if-both
      (λ (o : Option ℕ).
        o ≡ none
        → (if bytes_eq d.content_hash h then some d.id else find_hash h (cs ++ c ∷ [])) ≡ some c.id)
      (bytes_eq d.content_hash h) _ _ (λ _ f. absurd cc)
      (λ other f.
        ap (λ b. if b then some d.id else find_hash h (cs ++ c ∷ [])) other
        ∙ find_hash_last h cs c f e)
      absent

update-length :
    (i : ℕ) (change : Clip → Clip) (cs : List Clip) → length (update i change cs) ≡ length cs
update-length i change [] = refl
update-length i change (c ∷ cs) = ap suc (update-length i change cs)

Reordered-length : (fs gs : List FmtIn) → Reordered fs gs → length fs ≡ length gs
Reordered-length fs gs same = refl
Reordered-length fs gs (under r) = ap suc (Reordered-length _ _ r)
Reordered-length fs gs (swapped apart) = refl
Reordered-length fs gs (through {gs = hs} r q) = Reordered-length fs hs r ∙ Reordered-length hs gs q

module _ (libc : Libc) where
  record Recorded (h : Bytes) (r : Added) : Type 0 where
    recorded : r.result ≡ add_new → find_hash h r.store.clips ≡ some r.id

  insert_clip-Recorded :
      (env : StoreEnv) (in_ : ClipIn) (s : Store)
      → find_hash (dbi_content_hash in_.fmts) s.clips ≡ none
      → Recorded (dbi_content_hash in_.fmts) (insert_clip libc env in_ s)
  unfolding insert_clip
  insert_clip-Recorded env in_ s absent =
      let h = dbi_content_hash in_.fmts in
      let made = dbi_insert_formats libc env in_.fmts s.blobs in
      if-both (Recorded h) (violates env in_ s.clips) (failed_add s) (insert_rows libc env in_ s)
        (λ _. record { recorded = λ e. absurd cc })
        (λ _.
          option-both (Recorded h) made.0 (failed_add (record s { blobs = made.1 }))
            (inserted libc env in_ s made.1) (λ _. record { recorded = λ e. absurd cc })
            (λ rows _. record {
              recorded =
                  λ _. find_hash_last h s.clips (new_clip libc env in_ s.clips rows) absent refl;
            }))

  db_add_clip-Recorded :
      (env : StoreEnv) (in_ : ClipIn) (s : Store)
      → Recorded (dbi_content_hash in_.fmts) (db_add_clip libc env in_ s)
  unfolding db_add_clip add_tx
  db_add_clip-Recorded env in_ s =
      let h = dbi_content_hash in_.fmts in
      list-both (Recorded h) in_.fmts (failed_add s) (λ _ _. add_tx libc env in_ s)
        (λ _. record { recorded = λ e. absurd cc })
        (λ f fs _.
          option-both (Recorded h) (find_hash h s.clips) _ _
            (λ absent. insert_clip-Recorded env in_ s absent)
            (λ existing _. record { recorded = λ e. absurd cc }))

  -- An identical clip is found, whatever else is given with it.
  record IsDup (i n : ℕ) (r : Added) : Type 0 where
    is_dup : (r.result ≡ add_dup) × ((r.id ≡ i) × (length r.store.clips ≡ n))

  db_add_clip-IsDup :
      (env : StoreEnv) (in_ : ClipIn) (s : Store) (i : ℕ)
      → 0 < length in_.fmts
      → find_hash (dbi_content_hash in_.fmts) s.clips ≡ some i
      → IsDup i (length s.clips) (db_add_clip libc env in_ s)
  unfolding db_add_clip add_tx
  db_add_clip-IsDup env in_ s i some_fmt e =
      let P = IsDup i (length s.clips) in
      list-both P in_.fmts (failed_add s) (λ _ _. add_tx libc env in_ s)
        (λ none_given.
          absurd (omega (arith, some_fmt, ap (λ (t : List FmtIn). length t) none_given)))
        (λ f fs _.
          option-both P (find_hash (dbi_content_hash in_.fmts) s.clips) _ _
            (λ absent. absurd (cc (absent, e)))
            (λ existing at. record {
              is_dup = (refl, (cc (at, e), update-length existing _ s.clips));
            }))

  -- The formats of a new clip, offered again in any order: the clip is found under its id, and there is
  -- no further clip. The clip has a format.
  pub db_add_clip-again :
      (env env' : StoreEnv) (in_ in' : ClipIn) (s : Store)
      → 0 < length in_.fmts
      → Reordered in_.fmts in'.fmts
      → (db_add_clip libc env in_ s).result ≡ add_new
      → let first = db_add_clip libc env in_ s in
        let again = db_add_clip libc env' in' first.store in
        (again.result ≡ add_dup)
        × ((again.id ≡ first.id) × (length again.store.clips ≡ length first.store.clips))
  db_add_clip-again env env' in_ in' s some_fmt r new =
      let first = db_add_clip libc env in_ s in
      let found = (db_add_clip-Recorded env in_ s).recorded new in
      (db_add_clip-IsDup env' in' first.store first.id
        (omega (arith, some_fmt, Reordered-length in_.fmts in'.fmts r))
        (ap (λ (h : Bytes). find_hash h first.store.clips)
            (sym (dbi_content_hash-Reordered in_.fmts in'.fmts r))
          ∙ found)).is_dup
