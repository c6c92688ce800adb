-- ===== src/Db/Groups/Path/Cases.antt =====
-- The branches of `db_group_ensure_path` of daemon/src/db_edit.c at one piece, and what they add.
use clipnet.Base.{
  ℕ, ◌≡◌, sym, ap, ◌∙◌, subst, ◌⊎◌, inl, inr, Bool, true, ◌&&◌, not, Option, none, some, List, [],
  ◌∷◌, ◌++◌, append-nil, append_assoc, arith, ◌==◌, Option-cases, Bytes, if-both, elim-both,
  sum-both, Sum-cases,
}
use clipnet.Db.{Group, next_id}
use clipnet.Db.Groups.{
  GroupError, trimmed, valid_name, group_ids, db_group_exists, is_taken, new_group, insert_group,
  db_group_create,
}
use clipnet.Db.Groups.Path.{find_group, Ensured, ensure_pieces}

-- What a successful call of db_group_create adds.
pub created :
    (uuid : Bytes) (name : Option Bytes) (parent : ℕ) (gs gs' : List Group) (i : ℕ)
    → db_group_create uuid name parent gs ≡ inl (gs', i)
    → (n : Bytes) × (valid_name name ≡ inl n)
      × (gs' ≡ gs ++ new_group uuid parent n gs ∷ [])
      × (i ≡ next_id (group_ids gs))
unfolding db_group_create insert_group
created uuid name parent gs gs' i =
    let P = λ (res : (List Group × ℕ) ⊎ GroupError).
      res ≡ inl (gs', i)
      → (n : Bytes) × (valid_name name ≡ inl n)
        × (gs' ≡ gs ++ new_group uuid parent n gs ∷ [])
        × (i ≡ next_id (group_ids gs)) in
    elim-both P (not (parent == 0) && not (db_group_exists gs parent)) _ _ (λ _ e. absurd cc)
      (λ _.
        sum-both P (valid_name name) _ _
          (λ n valid.
            if-both P (is_taken 0 parent n gs) _ _ (λ _ e. absurd cc)
              (λ _ e. (n, valid, cc e, cc e)))
          (λ _ _ e. absurd cc))

abbrev pub Extends : List Group → List Group → Type 0
Extends gs big = (more : List Group) × (big ≡ gs ++ more)

pub Extends-self : (xs : List Group) → Extends xs xs
Extends-self xs = ([], sym (append-nil xs))

pub Extends-trans : (xs ys zs : List Group) → Extends xs ys → Extends ys zs → Extends xs zs
Extends-trans xs ys zs (more, e) (most, f) =
    (more ++ most, f ∙ ap (λ (t : List Group). t ++ most) e ∙ append_assoc xs more most)

module _ (uuids : ℕ → Bytes) where
  pub ensure_blank :
      (p : Bytes) (ps : List Bytes) (parent : ℕ) (any : Bool) (gs : List Group)
      → trimmed (some p) ≡ none
      → ensure_pieces uuids (p ∷ ps) parent any gs ≡ ensure_pieces uuids ps parent any gs
  unfolding ensure_pieces
  ensure_blank p ps parent any gs e = ground (arith, e)

  pub ensure_found :
      (p : Bytes) (ps : List Bytes) (parent : ℕ) (any : Bool) (gs : List Group) (name : Bytes)
      (i : ℕ)
      → trimmed (some p) ≡ some name
      → find_group gs parent name ≡ some i
      → ensure_pieces uuids (p ∷ ps) parent any gs ≡ ensure_pieces uuids ps i true gs
  unfolding ensure_pieces
  ensure_found p ps parent any gs name i e f = ground (arith, e, f)

  pub ensure_made :
      (p : Bytes) (ps : List Bytes) (parent : ℕ) (any : Bool) (gs gs' : List Group) (name : Bytes)
      (i : ℕ)
      → trimmed (some p) ≡ some name
      → find_group gs parent name ≡ none
      → db_group_create (uuids (next_id (group_ids gs))) (some name) parent gs ≡ inl (gs', i)
      → ensure_pieces uuids (p ∷ ps) parent any gs ≡ ensure_pieces uuids ps i true gs'
  unfolding ensure_pieces
  ensure_made p ps parent any gs gs' name i e f m = ground (arith, e, f, m)

  pub ensure_failed :
      (p : Bytes) (ps : List Bytes) (parent : ℕ) (any : Bool) (gs : List Group) (name : Bytes)
      (err : GroupError)
      → trimmed (some p) ≡ some name
      → find_group gs parent name ≡ none
      → db_group_create (uuids (next_id (group_ids gs))) (some name) parent gs ≡ inr err
      → ensure_pieces uuids (p ∷ ps) parent any gs ≡ record { groups = gs; outcome = inr err }
  unfolding ensure_pieces
  ensure_failed p ps parent any gs name err e f m = ground (arith, e, f, m)

  -- What becomes of one piece.
  pub data PieceCase (p : Bytes) (parent : ℕ) (gs : List Group) : Type 0 where
    blank : trimmed (some p) ≡ none → PieceCase p parent gs
    found :
        (name : Bytes) (i : ℕ)
        → trimmed (some p) ≡ some name
        → find_group gs parent name ≡ some i
        → PieceCase p parent gs
    made :
        (name : Bytes) (gs' : List Group) (i : ℕ)
        → trimmed (some p) ≡ some name
        → find_group gs parent name ≡ none
        → db_group_create (uuids (next_id (group_ids gs))) (some name) parent gs ≡ inl (gs', i)
        → PieceCase p parent gs
    failed :
        (name : Bytes) (e : GroupError)
        → trimmed (some p) ≡ some name
        → find_group gs parent name ≡ none
        → db_group_create (uuids (next_id (group_ids gs))) (some name) parent gs ≡ inr e
        → PieceCase p parent gs

  pub piece_case : (p : Bytes) (parent : ℕ) (gs : List Group) → PieceCase p parent gs
  piece_case p parent gs = elim (Option-cases (trimmed (some p))) [
    | inl e ↦ blank e
    | inr (name, e) ↦ elim (Option-cases (find_group gs parent name)) [
      | inr (i, f) ↦ found name i e f
      | inl f ↦
          elim (Sum-cases
            (db_group_create (uuids (next_id (group_ids gs))) (some name) parent gs)) [
              | inl (r, m) ↦ made name r.0 r.1 e f m
              | inr (err, m) ↦ failed name err e f m
            ]
    ]
  ]

  pub ensure_pieces-Extends :
      (ps : List Bytes) (parent : ℕ) (any : Bool) (gs : List Group)
      → Extends gs (ensure_pieces uuids ps parent any gs).groups
  unfolding ensure_pieces
  ensure_pieces-Extends [] parent any gs = ([], sym (append-nil gs))
  ensure_pieces-Extends (p ∷ ps) parent any gs =
      let To = λ (r : Ensured). Extends gs r.groups in
      elim (piece_case p parent gs) [
        | blank e ↦
            subst To (sym (ensure_blank p ps parent any gs e))
              (ensure_pieces-Extends ps parent any gs)
        | found name i e f ↦
            subst To (sym (ensure_found p ps parent any gs name i e f))
              (ensure_pieces-Extends ps i true gs)
        | made name gs' i e f m ↦
            let (n, _, is_new, _) =
              created (uuids (next_id (group_ids gs))) (some name) parent gs gs' i m in
            let grown = new_group (uuids (next_id (group_ids gs))) parent n gs ∷ [] in
            subst To (sym (ensure_made p ps parent any gs gs' name i e f m))
              (Extends-trans gs gs' _ (grown, is_new) (ensure_pieces-Extends ps i true gs'))
        | failed name err e f m ↦
            subst To (sym (ensure_failed p ps parent any gs name err e f m))
              ([], sym (append-nil gs))
      ]
