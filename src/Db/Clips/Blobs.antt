-- ===== src/Db/Clips/Blobs.antt =====
-- The blob directory under daemon/src/blob.c, and the rows of daemon/src/db.c that name its files.
use clipnet.Base.{
  ◌≡◌, refl, sym, ap, ◌∙◌, ◌⊎◌, inl, inr, Bool, true, false, ◌&&◌, not, Option, none, some, List,
  [], ◌∷◌, arith, if◌then◌else◌, Bool-cases, length, All, Bytes, bytes_eq, bytes_eq_sound,
  bytes_eq_refl, mem, and_true, if-both,
}
use clipnet.Sha256.{sha256}
use clipnet.Db.Clips.{
  Libc, aliases_json, aliases_of, FmtIn, FormatRow, Blob, StoreEnv, blob_name, file_of, blob_unlink,
  has_size, blob_put, as_blob, format_row, dbi_insert_formats, with_row, format_bytes, load_formats,
  insert_from, format_rows,
}

-- What stands under each name. Two contents of one name would be a collision of SHA-256.
module _ (content : Bytes → Bytes) where
  abbrev pub FilesOk : List Blob → Type 0
  FilesOk = All (λ (b : Blob). b.content ≡ content b.name)

  abbrev pub FmtsOk : List FmtIn → Type 0
  FmtsOk = All (λ (f : FmtIn). content (blob_name (sha256 f.bytes)) ≡ f.bytes)

  -- A file that is there stays there.
  abbrev pub Kept : List Blob → List Blob → Type 0
  Kept bs bs' = (n : Bytes) → file_of n bs ≡ some (content n) → file_of n bs' ≡ some (content n)

  -- The bytes of a row are in it, or in a file that is there.
  abbrev pub RowOk : List Blob → FormatRow → Type 0
  RowOk bs r =
      ((r.blob ≡ none) × (d : Bytes) × (r.bytes ≡ some d))
      ⊎ ((n : Bytes) × (r.blob ≡ some n) × (file_of n bs ≡ some (content n)))

  file_of-FilesOk :
      (bs : List Blob) (n x : Bytes) → FilesOk bs → file_of n bs ≡ some x → x ≡ content n
  file_of-FilesOk [] n x ok h = absurd cc
  file_of-FilesOk (b ∷ bs) n x (here, ok) h =
      if-both (λ (o : Option Bytes). o ≡ some x → x ≡ content n) (bytes_eq b.name n) _ _
        (λ e f.
          let same : b.content ≡ x = cc f in
          sym same ∙ here ∙ ap content (bytes_eq_sound b.name n e))
        (λ _ f. file_of-FilesOk bs n x ok f) h

  pub blob_unlink-FilesOk : (n : Bytes) (bs : List Blob) → FilesOk bs → FilesOk (blob_unlink n bs)
  blob_unlink-FilesOk n [] ok = tt
  blob_unlink-FilesOk n (b ∷ bs) (here, ok) =
      if-both FilesOk (bytes_eq b.name n) _ _ (λ _. blob_unlink-FilesOk n bs ok)
        (λ _. (here, blob_unlink-FilesOk n bs ok))

  pub blob_unlink_other :
      (n m : Bytes) (bs : List Blob)
      → bytes_eq n m ≡ false
      → file_of m (blob_unlink n bs) ≡ file_of m bs
  blob_unlink_other n m [] h = refl
  blob_unlink_other n m (b ∷ bs) h = elim (Bool-cases (bytes_eq b.name n)) [
    | inl e ↦
        let other : bytes_eq b.name m ≡ false =
          ap (λ (x : Bytes). bytes_eq x m) (bytes_eq_sound b.name n e) ∙ h in
        ground (arith, e, other, blob_unlink_other n m bs h)
    | inr e ↦ ground (arith, e, blob_unlink_other n m bs h)
  ]

  has_size-file :
      (n d : Bytes) (o : Option Bytes) → has_size (length d) o ≡ true → (x : Bytes) × (o ≡ some x)
  has_size-file n d none h = absurd cc
  has_size-file n d (some x) h = (x, refl)

  -- A call of blob_put keeps what there is; after a success the bytes are there.
  abbrev PutOk : Bytes → Bytes → List Blob → Bool × List Blob → Type 0
  PutOk n d bs r = FilesOk r.1 × (Kept bs r.1 × (r.0 ≡ true → file_of n r.1 ≡ some d))

  blob_put_lem :
      (env : StoreEnv) (n d : Bytes) (bs : List Blob)
      → FilesOk bs
      → content n ≡ d
      → PutOk n d bs (blob_put env n d bs)
  unfolding blob_put
  blob_put_lem env n d bs ok at =
      if-both (PutOk n d bs) (has_size (length d) (file_of n bs)) _ _
        (λ e.
          let (x, f) = has_size-file n d (file_of n bs) e in
          (ok, (λ m h. h, λ _. f ∙ ap (λ (y : Bytes). some y) (file_of-FilesOk bs n x ok f ∙ at))))
        (λ _.
          if-both (PutOk n d bs) (env.writes n) _ _
            (λ _. (
              (sym at, blob_unlink-FilesOk n bs ok),
              (
                λ m h.
                    if-both (λ (o : Option Bytes). o ≡ some (content m)) (bytes_eq n m) _ _
                      (λ e. ap (λ (y : Bytes). some y) (sym at ∙ ap content (bytes_eq_sound n m e)))
                      (λ e. blob_unlink_other n m bs e ∙ h),
                λ _. ap (λ b. if b then some d else file_of n (blob_unlink n bs)) (bytes_eq_refl n),
              ),
            ))
            (λ _. (ok, (λ m h. h, λ f. absurd cc))))

  -- The blobs of the formats are there.
  abbrev pub AllStored : List Blob → List FmtIn → Type 0
  AllStored bs =
      All (λ (f : FmtIn). as_blob f ≡ true → file_of (blob_name (sha256 f.bytes)) bs ≡ some f.bytes)

  put_fmt_lem :
      (env : StoreEnv) (f : FmtIn) (bs : List Blob)
      → FilesOk bs
      → content (blob_name (sha256 f.bytes)) ≡ f.bytes
      → let put =
          if as_blob f then blob_put env (blob_name (sha256 f.bytes)) f.bytes bs else (true, bs) in
        FilesOk put.1
        × (Kept bs put.1
            × (put.0 ≡ true
                → as_blob f ≡ true
                → file_of (blob_name (sha256 f.bytes)) put.1 ≡ some f.bytes))
  put_fmt_lem env f bs ok at =
      let n = blob_name (sha256 f.bytes) in
      if-both
        (λ (r : Bool × List Blob).
          FilesOk r.1
          × (Kept bs r.1 × (r.0 ≡ true → as_blob f ≡ true → file_of n r.1 ≡ some f.bytes)))
        (as_blob f) _ _
        (λ _.
          let (files, rest) = blob_put_lem env n f.bytes bs ok at in
          (files, (rest.0, λ e _. rest.1 e)))
        (λ no_blob. (ok, (λ m h. h, λ _ e. absurd (cc (e, no_blob)))))

  module _ (libc : Libc) where
    -- What `dbi_insert_formats` leaves: on success the rows of all formats, with their blobs there.
    abbrev pub InsertOk : List FmtIn → List Blob → Option (List FormatRow) × List Blob → Type 0
    InsertOk fs bs r =
        FilesOk r.1
        × (Kept bs r.1
            × ((rows : List FormatRow)
                → r.0 ≡ some rows
                → (rows ≡ format_rows libc fs) × AllStored r.1 fs))

    with_row-some :
        (f : FmtIn) (o : Option (List FormatRow)) (rows : List FormatRow)
        → with_row libc f o ≡ some rows
        → (later : List FormatRow) × ((o ≡ some later) × (format_row libc f ∷ later ≡ rows))
    with_row-some f none rows e = absurd cc
    with_row-some f (some later) rows e = (later, (refl, cc e))

    insert_from_lem :
        (env : StoreEnv) (used : List Bytes) (fs : List FmtIn) (bs : List Blob)
        → FilesOk bs
        → FmtsOk fs
        → InsertOk fs bs (insert_from libc env used fs bs)
    unfolding insert_from
    insert_from_lem env used [] bs ok _ = (ok, (λ m h. h, λ rows e. (cc e, tt)))
    insert_from_lem env used (f ∷ fs) bs ok (at, fmts) =
        let n = blob_name (sha256 f.bytes) in
        let put = if as_blob f then blob_put env n f.bytes bs else (true, bs) in
        let more = insert_from libc env (f.mime ∷ used) fs put.1 in
        let (files, first) = put_fmt_lem env f bs ok at in
        let (files', others) = insert_from_lem env (f.mime ∷ used) fs put.1 files fmts in
        if-both (InsertOk (f ∷ fs) bs) (put.0 && not (mem f.mime used)) _ _
          (λ done. (
            files',
            (
              λ m h. others.0 m (first.0 m h),
              λ rows e.
                  let (tail, shape) = with_row-some f more.0 rows e in
                  let (same, stored) = others.1 tail shape.0 in
                  (
                    sym shape.1 ∙ ap (◌∷◌ (format_row libc f)) same,
                    (
                      λ is_blob.
                          others.0 n (
                            first.1 (and_true _ _ done).0 is_blob
                            ∙ ap (λ (y : Bytes). some y) (sym at))
                          ∙ ap (λ (y : Bytes). some y) at,
                      stored,
                    ),
                  ),
            ),
          ))
          (λ _. (files, (first.0, λ rows e. absurd cc)))

    pub dbi_insert_formats_lem :
        (env : StoreEnv) (fs : List FmtIn) (bs : List Blob)
        → FilesOk bs
        → FmtsOk fs
        → InsertOk fs bs (dbi_insert_formats libc env fs bs)
    unfolding dbi_insert_formats
    dbi_insert_formats_lem env = insert_from_lem env []

    pub load_first :
        (bs : List Blob) (r : FormatRow) (rs : List FormatRow) (d : Bytes) (fs : List FmtIn)
        → format_bytes bs r ≡ some d
        → load_formats libc bs rs ≡ some fs
        → load_formats libc bs (r ∷ rs)
          ≡ some (record { mime = r.mime; bytes = d; aliases = aliases_of libc r.aliases } ∷ fs)
    unfolding load_formats
    load_first bs r rs d fs e f = ground (arith, e, f)

    -- The names that are printed are read back, as are none.
    aliases_back :
        (names : List Bytes)
        → libc.parse_names (libc.print_names names) ≡ some names
        → aliases_of libc (aliases_json libc names) ≡ names
    aliases_back [] h = refl
    aliases_back (a ∷ others) h =
        ap (λ (o : Option (List Bytes)). elim o [ none ↦ [] | some names ↦ names ]) h

    -- Rows whose blobs are there give back the formats.
    pub load_formats_rows :
        (json : (names : List Bytes) → libc.parse_names (libc.print_names names) ≡ some names)
        (fs : List FmtIn) (bs : List Blob)
        → AllStored bs fs
        → load_formats libc bs (format_rows libc fs) ≡ some fs
    unfolding load_formats format_bytes
    load_formats_rows json [] bs _ = refl
    load_formats_rows json (f ∷ fs) bs (here, h) =
        let n = blob_name (sha256 f.bytes) in
        let reading : Bool → Option Bytes = λ b. elim (if b then some n else none) [
          | none ↦ if b then none else some f.bytes
          | some m ↦ file_of m bs
        ] in
        let read : format_bytes bs (format_row libc f) ≡ some f.bytes =
          elim (Bool-cases (as_blob f)) [ inl e ↦ ap reading e ∙ here e | inr e ↦ ap reading e ] in
        load_first bs (format_row libc f) (format_rows libc fs) f.bytes fs read
          (load_formats_rows json fs bs h)
        ∙ ap
            (λ (names : List Bytes).
              some (record { mime = f.mime; bytes = f.bytes; aliases = names } ∷ fs))
            (aliases_back f.aliases (json f.aliases))

    pub format_rows-RowOk :
        (fs : List FmtIn) (bs : List Blob)
        → FmtsOk fs
        → AllStored bs fs
        → All (RowOk bs) (format_rows libc fs)
    format_rows-RowOk [] bs _ _ = tt
    format_rows-RowOk (f ∷ fs) bs (at, ok) (here, h) = (
      elim (Bool-cases (as_blob f)) [
        | inl e ↦ inr (
          blob_name (sha256 f.bytes),
          (ap (λ b. if b then some (blob_name (sha256 f.bytes)) else none) e),
          here e ∙ ap (λ (y : Bytes). some y) (sym at),
        )
        | inr e ↦ inl (
          ap (λ b. if b then some (blob_name (sha256 f.bytes)) else none) e,
          f.bytes,
          ap (λ b. if b then none else some f.bytes) e,
        )
      ],
      format_rows-RowOk fs bs ok h,
    )

    -- The other way: a row that has its bytes has those that it was made from.
    row-stored :
        (f : FmtIn) (bs : List Blob)
        → content (blob_name (sha256 f.bytes)) ≡ f.bytes
        → RowOk bs (format_row libc f)
        → as_blob f ≡ true
        → file_of (blob_name (sha256 f.bytes)) bs ≡ some f.bytes
    row-stored f bs at (inl (none_set, d, e)) is_blob =
        let named = ap (λ b. if b then some (blob_name (sha256 f.bytes)) else none) is_blob in
        absurd (cc (sym named, none_set))
    row-stored f bs at (inr (n, e, there)) is_blob =
        let named : n ≡ blob_name (sha256 f.bytes) =
          cc (e, ap (λ b. if b then some (blob_name (sha256 f.bytes)) else none) is_blob) in
        ap (λ (m : Bytes). file_of m bs) (sym named)
        ∙ there
        ∙ ap (λ (m : Bytes). some (content m)) named
        ∙ ap (λ (y : Bytes). some y) at

    pub rows-AllStored :
        (fs : List FmtIn) (bs : List Blob)
        → FmtsOk fs
        → All (RowOk bs) (format_rows libc fs)
        → AllStored bs fs
    rows-AllStored [] bs _ _ = tt
    rows-AllStored (f ∷ fs) bs (at, ok) (here, h) =
        (row-stored f bs at here, rows-AllStored fs bs ok h)
