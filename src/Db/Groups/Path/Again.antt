-- ===== src/Db/Groups/Path/Again.antt =====
-- A second call of `db_group_ensure_path` of daemon/src/db_edit.c.
use clipnet.Base.{
  ℕ, ◌≡◌, refl, sym, ap, ◌∙◌, subst, ◌⊎◌, inl, inr, Bool, true, false, ◌&&◌, none, some, List, [],
  ◌∷◌, ◌++◌, arith, ◌==◌, Bool-cases, length, take, All, Bytes, bytes_eq, bytes_eq_refl, list_cases,
  take_all,
}
use clipnet.Db.{Group, next_id}
use clipnet.Db.Groups.{
  name_max_chars, is_trimmed, left_trimmed, right_trimmed, trimmed, valid_name, group_ids,
  new_group, db_group_create,
}
use clipnet.Db.Groups.Path.{pieces, find_group, Ensured, ensure_pieces, db_group_ensure_path}
use clipnet.Db.Groups.Path.Cases.{
  created, Extends, Extends-self, Extends-trans, ensure_blank, ensure_found, ensure_made,
  ensure_failed, piece_case, ensure_pieces-Extends, blank, found, made, failed,
}
use clipnet.Util.Utf8.{utf8_prefix}

right_trimmed_twice : (s : Bytes) → right_trimmed (right_trimmed s) ≡ right_trimmed s
unfolding right_trimmed
right_trimmed_twice [] = refl
right_trimmed_twice (c ∷ s) = elim (list_cases (right_trimmed s)) [
  | inl e ↦ ground (arith, e)
  | inr (d, t, e) ↦ ground (arith, e, right_trimmed_twice s)
]

left_trimmed_head :
    (s : Bytes)
    → (left_trimmed s ≡ [])
      ⊎ ((c : ℕ) × (t : Bytes) × (left_trimmed s ≡ c ∷ t) × (is_trimmed c ≡ false))
unfolding left_trimmed
left_trimmed_head [] = inl refl
left_trimmed_head (c ∷ s) = elim (Bool-cases (is_trimmed c)) [
  | inl e ↦
      subst
        (λ (t : Bytes). (t ≡ []) ⊎ ((d : ℕ) × (u : Bytes) × (t ≡ d ∷ u) × (is_trimmed d ≡ false)))
        (ground (arith, e)) (left_trimmed_head s)
  | inr e ↦ inr (c, s, ground (arith, e), e)
]

right_trimmed_head :
    (c : ℕ) (t : Bytes) → is_trimmed c ≡ false → (u : Bytes) × (right_trimmed (c ∷ t) ≡ c ∷ u)
unfolding right_trimmed
right_trimmed_head c t h = elim (list_cases (right_trimmed t)) [
  | inl e ↦ ([], ground (arith, e, h))
  | inr (d, u, e) ↦ (d ∷ u, ground (arith, e, h))
]

-- Trimming leaves nothing to trim.
trimmed_twice : (s n : Bytes) → trimmed (some s) ≡ some n → trimmed (some n) ≡ some n
unfolding trimmed left_trimmed
trimmed_twice s n h = elim (left_trimmed_head s) [
  | inl e ↦ absurd (ground (arith, e, h))
  | inr (c, t, e, keep) ↦
      let (u, f) = right_trimmed_head c t keep in
      let is_n : n ≡ c ∷ u = ground (arith, e, f, h) in
      let again : right_trimmed (c ∷ u) ≡ c ∷ u = cc (f, right_trimmed_twice (c ∷ t)) in
      ground (arith, is_n, again, keep)
]

find_group-append :
    (gs more : List Group) (parent : ℕ) (name : Bytes) (i : ℕ)
    → find_group gs parent name ≡ some i
    → find_group (gs ++ more) parent name ≡ some i
find_group-append [] more parent name i h = absurd cc
find_group-append (g ∷ gs) more parent name i h =
    elim (Bool-cases (g.parent_id == parent && bytes_eq g.name name)) [
      | inl e ↦ ground (arith, e, h)
      | inr e ↦ ground (arith, e, find_group-append gs more parent name i (ground (arith, e, h)))
    ]

find_group_last :
    (gs : List Group) (g : Group)
    → find_group gs g.parent_id g.name ≡ none
    → find_group (gs ++ g ∷ []) g.parent_id g.name ≡ some g.id
find_group_last [] g h = ground (arith, bytes_eq_refl g.name)
find_group_last (x ∷ gs) g h =
    elim (Bool-cases (x.parent_id == g.parent_id && bytes_eq x.name g.name)) [
      | inl e ↦ absurd (ground (arith, e, h))
      | inr e ↦ ground (arith, e, find_group_last gs g (ground (arith, e, h)))
    ]

-- A name that is not cut is stored as it is.
valid_name_short :
    (name n : Bytes)
    → trimmed (some name) ≡ some name
    → utf8_prefix name name_max_chars ≡ length name
    → valid_name (some name) ≡ inl n
    → n ≡ name
unfolding valid_name
valid_name_short name n trim short h =
    let whole : take (utf8_prefix name name_max_chars) name ≡ name =
      ap (λ k. take k name) short ∙ take_all (length name) name (omega arith) in
    ground (arith, trim, whole, h)

-- Every piece, without its blanks, has at most the number of characters that are kept.
abbrev pub AllShort : List Bytes → Type 0
AllShort = All (λ (p : Bytes).
    (n : Bytes) → trimmed (some p) ≡ some n → utf8_prefix n name_max_chars ≡ length n)

Extends-find :
    (gs big : List Group) (parent : ℕ) (name : Bytes) (i : ℕ)
    → Extends gs big
    → find_group gs parent name ≡ some i
    → find_group big parent name ≡ some i
Extends-find gs big parent name i (more, e) h =
    ap (λ (t : List Group). find_group t parent name) e ∙ find_group-append gs more parent name i h

module _ (uuids : ℕ → Bytes) where
  -- A group that was made is found under the name that was asked for.
  made_found :
      (p : Bytes) (parent : ℕ) (gs gs' : List Group) (name : Bytes) (i : ℕ)
      → trimmed (some p) ≡ some name
      → find_group gs parent name ≡ none
      → db_group_create (uuids (next_id (group_ids gs))) (some name) parent gs ≡ inl (gs', i)
      → utf8_prefix name name_max_chars ≡ length name
      → find_group gs' parent name ≡ some i
  made_found p parent gs gs' name i e f m short =
      let uuid = uuids (next_id (group_ids gs)) in
      let (n, valid, is_new, is_next) = created uuid (some name) parent gs gs' i m in
      let same : n ≡ name = valid_name_short name n (trimmed_twice p name e) short valid in
      ap (λ (t : List Group). find_group t parent name)
        (is_new ∙ ap (λ (x : Bytes). gs ++ new_group uuid parent x gs ∷ []) same)
      ∙ find_group_last gs (new_group uuid parent name gs) f
      ∙ ap (λ k. some k) (sym is_next)

  ensure_pieces_again :
      (ps : List Bytes) (parent : ℕ) (any : Bool) (gs big : List Group) (i : ℕ)
      → AllShort ps
      → (ensure_pieces uuids ps parent any gs).outcome ≡ inl i
      → Extends (ensure_pieces uuids ps parent any gs).groups big
      → ensure_pieces uuids ps parent any big ≡ record { groups = big; outcome = inl i }
  unfolding ensure_pieces
  ensure_pieces_again [] parent any gs big i short done grows = ground (arith, done)
  ensure_pieces_again (p ∷ ps) parent any gs big i (fits, short) done grows =
      elim (piece_case uuids p parent gs) [
        | blank e ↦
            let same = ensure_blank uuids p ps parent any gs e in
            ensure_blank uuids p ps parent any big e
            ∙ ensure_pieces_again ps parent any gs big i short
                (ap (λ (r : Ensured). r.outcome) (sym same) ∙ done)
                (subst (λ (r : Ensured). Extends r.groups big) same grows)
        | found name j e f ↦
            let same = ensure_found uuids p ps parent any gs name j e f in
            let grows' = subst (λ (r : Ensured). Extends r.groups big) same grows in
            ensure_found uuids p ps parent any big name j e (
              Extends-find gs big parent name j
                (Extends-trans gs _ big (ensure_pieces-Extends uuids ps j true gs) grows') f)
            ∙ ensure_pieces_again ps j true gs big i short
                (ap (λ (r : Ensured). r.outcome) (sym same) ∙ done) grows'
        | made name gs' j e f m ↦
            let same = ensure_made uuids p ps parent any gs gs' name j e f m in
            let grows' = subst (λ (r : Ensured). Extends r.groups big) same grows in
            ensure_found uuids p ps parent any big name j e (
              Extends-find gs' big parent name j
                (Extends-trans gs' _ big (ensure_pieces-Extends uuids ps j true gs') grows')
                (made_found p parent gs gs' name j e f m (fits name e)))
            ∙ ensure_pieces_again ps j true gs' big i short
                (ap (λ (r : Ensured). r.outcome) (sym same) ∙ done) grows'
        | failed name err e f m ↦
            let same = ensure_failed uuids p ps parent any gs name err e f m in
            absurd (cc (ap (λ (r : Ensured). r.outcome) same, done))
      ]

-- A path that could be made is found when it is asked for again, and nothing is added: the second call
-- gives the same group and the same table. No name on the path is longer than the stored part of it.
pub db_group_ensure_path-again :
    (uuids : ℕ → Bytes) (path : Bytes) (gs : List Group) (i : ℕ)
    → AllShort (pieces path)
    → (db_group_ensure_path uuids (some path) gs).outcome ≡ inl i
    → db_group_ensure_path uuids (some path) (db_group_ensure_path uuids (some path) gs).groups
      ≡ record { groups = (db_group_ensure_path uuids (some path) gs).groups; outcome = inl i }
unfolding db_group_ensure_path
db_group_ensure_path-again uuids path gs i short done =
    ensure_pieces_again uuids (pieces path) 0 false gs _ i short done
      (Extends-self (ensure_pieces uuids (pieces path) 0 false gs).groups)
