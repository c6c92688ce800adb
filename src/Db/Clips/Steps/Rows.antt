-- ===== src/Db/Clips/Steps/Rows.antt =====
-- What unlinking, updating and deleting in daemon/src/db.c leave of the blobs.
use clipnet.Base.{
  ℕ, ◌≡◌, refl, ap, ◌∙◌, subst, inl, inr, Bool, true, false, ◌||◌, Option, none, some, List, [],
  ◌∷◌, arith, ◌==◌, Bool-cases, All, Bytes, bytes_eq, bytes_eq_sound, bytes_eq_refl, if-both,
  option-both, or_left, or_right,
}
use clipnet.Db.Clips.{
  Libc, FormatRow, Clip, Blob, file_of, has_blob, dbi_blob_referenced, collect, find_clip,
}
use clipnet.Db.Clips.Blobs.{FilesOk, Kept, RowOk, blob_unlink-FilesOk, blob_unlink_other}
use clipnet.Db.Clips.Change.{update, unlink_unused, without_clip}
use clipnet.Db.Clips.Retention.{keep}
use clipnet.Db.Clips.Steps.{ClipOk}

module _ (P : Clip → Type 0) where
  pub All-update :
      (i : ℕ) (change : Clip → Clip) (cs : List Clip)
      → ((c : Clip) → P c → P (change c))
      → All P cs
      → All P (update i change cs)
  All-update i change [] f h = tt
  All-update i change (c ∷ cs) f (here, h) =
      (if-both P (c.id == i) _ _ (λ _. f c here) (λ _. here), All-update i change cs f h)

  pub All-without_clip : (i : ℕ) (cs : List Clip) → All P cs → All P (without_clip i cs)
  All-without_clip i [] h = tt
  All-without_clip i (c ∷ cs) (here, h) =
      if-both (All P) (c.id == i) _ _ (λ _. All-without_clip i cs h)
        (λ _. (here, All-without_clip i cs h))

  pub All-keep : (q : Clip → Bool) (cs : List Clip) → All P cs → All P (keep q cs)
  All-keep q [] h = tt
  All-keep q (c ∷ cs) (here, h) =
      if-both (All P) (q c) _ _ (λ _. (here, All-keep q cs h)) (λ _. All-keep q cs h)

  pub All-find : (i : ℕ) (cs : List Clip) (c : Clip) → All P cs → find_clip i cs ≡ some c → P c
  All-find i [] c h e = absurd cc
  All-find i (d ∷ ds) c (here, h) e =
      if-both (λ (o : Option Clip). o ≡ some c → P c) (d.id == i) _ _
        (λ _ f. let same : d ≡ c = cc f in subst P same here) (λ _ f. All-find i ds c h f) e

module _ (libc : Libc) (content : Bytes → Bytes) where
  -- A row keeps its bytes where its file stays.
  RowOk-same :
      (bs bs' : List Blob) (r : FormatRow) (rs : List FormatRow)
      → ((n : Bytes) → has_blob n (r ∷ rs) ≡ true → file_of n bs' ≡ file_of n bs)
      → RowOk content bs r
      → RowOk content bs' r
  RowOk-same bs bs' r rs same (inl h) = inl h
  RowOk-same bs bs' r rs same (inr (n, e, f)) =
      let named : has_blob n (r ∷ rs) ≡ true =
        ap
          (λ (o : Option Bytes). (elim o [ none ↦ false | some b ↦ bytes_eq b n ]) || has_blob n rs)
          e
        ∙ ap (λ b. b || has_blob n rs) (bytes_eq_refl n) in
      inr (n, e, same n named ∙ f)

  rows_same :
      (bs bs' : List Blob) (rs : List FormatRow)
      → ((n : Bytes) → has_blob n rs ≡ true → file_of n bs' ≡ file_of n bs)
      → All (RowOk content bs) rs
      → All (RowOk content bs') rs
  rows_same bs bs' [] same h = tt
  rows_same bs bs' (r ∷ rs) same (here, h) =
      (RowOk-same bs bs' r rs same here, rows_same bs bs' rs (λ n e. same n (or_right _ _ e)) h)

  pub clips_same :
      (bs bs' : List Blob) (cs : List Clip)
      → ((n : Bytes) → dbi_blob_referenced cs n ≡ true → file_of n bs' ≡ file_of n bs)
      → All (ClipOk libc content bs) cs
      → All (ClipOk libc content bs') cs
  unfolding dbi_blob_referenced
  clips_same bs bs' [] same h = tt
  clips_same bs bs' (c ∷ cs) same (here, h) = (
    (rows_same bs bs' c.formats (λ n e. same n (or_left _ _ e)) here.0, here.1),
    clips_same bs bs' cs (λ n e. same n (or_right _ _ e)) h,
  )

  pub clips-Kept :
      (bs bs' : List Blob) (cs : List Clip)
      → Kept content bs bs'
      → All (ClipOk libc content bs) cs
      → All (ClipOk libc content bs') cs
  clips-Kept bs bs' [] kept h = tt
  clips-Kept bs bs' (c ∷ cs) kept (here, h) =
      ((rows-Kept c.formats here.0, here.1), clips-Kept bs bs' cs kept h)
    where
      rows-Kept : (rs : List FormatRow) → All (RowOk content bs) rs → All (RowOk content bs') rs
      rows-Kept [] g = tt
      rows-Kept (r ∷ rs) (inl a, g) = (inl a, rows-Kept rs g)
      rows-Kept (r ∷ rs) (inr (n, e, f), g) = (inr (n, e, kept n f), rows-Kept rs g)

  pub unlink_unused-FilesOk :
      (cs : List Clip) (rs : List FormatRow) (bs : List Blob)
      → FilesOk content bs
      → FilesOk content (unlink_unused cs rs bs)
  unlink_unused-FilesOk cs [] bs ok = ok
  unlink_unused-FilesOk cs (r ∷ rs) bs ok = unlink_unused-FilesOk cs rs _ (
      option-both (FilesOk content) r.blob bs _ (λ _. ok)
        (λ n _.
          if-both (FilesOk content) (dbi_blob_referenced cs n) _ _ (λ _. ok)
            (λ _. blob_unlink-FilesOk content n bs ok)))

  pub unlink_unused_same :
      (cs : List Clip) (rs : List FormatRow) (bs : List Blob) (n : Bytes)
      → dbi_blob_referenced cs n ≡ true
      → file_of n (unlink_unused cs rs bs) ≡ file_of n bs
  unlink_unused_same cs [] bs n used = refl
  unlink_unused_same cs (r ∷ rs) bs n used =
      unlink_unused_same cs rs _ n used
      ∙ option-both (λ (t : List Blob). file_of n t ≡ file_of n bs) r.blob bs _ (λ _. refl)
          (λ m _.
            if-both (λ (t : List Blob). file_of n t ≡ file_of n bs) (dbi_blob_referenced cs m) _ _
              (λ _. refl) (λ unused. blob_unlink_other content m n bs (differ m unused)))
    where
      differ : (m : Bytes) → dbi_blob_referenced cs m ≡ false → bytes_eq m n ≡ false
      differ m unused = elim (Bool-cases (bytes_eq m n)) [
        | inl e ↦ absurd (cc (ap (dbi_blob_referenced cs) (bytes_eq_sound m n e), unused, used))
        | inr e ↦ e
      ]

  pub collect-FilesOk :
      (cs : List Clip) (bs : List Blob) → FilesOk content bs → FilesOk content (collect cs bs)
  collect-FilesOk cs [] ok = tt
  collect-FilesOk cs (b ∷ bs) (here, ok) =
      if-both (FilesOk content) (dbi_blob_referenced cs b.name) _ _
        (λ _. (here, collect-FilesOk cs bs ok)) (λ _. collect-FilesOk cs bs ok)

  pub collect_same :
      (cs : List Clip) (bs : List Blob) (n : Bytes)
      → dbi_blob_referenced cs n ≡ true
      → file_of n (collect cs bs) ≡ file_of n bs
  collect_same cs [] n used = refl
  collect_same cs (b ∷ bs) n used = elim (Bool-cases (bytes_eq b.name n)) [
    | inl e ↦
        let here : dbi_blob_referenced cs b.name ≡ true =
          ap (dbi_blob_referenced cs) (bytes_eq_sound b.name n e) ∙ used in
        ground (arith, e, here)
    | inr e ↦ ground (arith, e, collect_same cs bs n used)
  ]
