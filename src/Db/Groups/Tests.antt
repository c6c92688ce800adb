-- ===== src/Db/Groups/Tests.antt =====
-- The groups of daemon/src/db_edit.c on concrete tables.
use clipnet.Base.{
  ℕ, ◌≡◌, refl, subst, ◌↔◌, inl, inr, true, false, some, List, [], ◌∷◌, length, Bytes, codes,
  replicate, replicate,
}
use clipnet.Db.{Group}
use clipnet.Db.Groups.{
  name_max_chars, left_trimmed, right_trimmed, trimmed, db_group_exists, set_parent, sub_from, sub,
  within, db_group_move, db_group_delete, db_clip_move, no_such_clip, name_taken, inside_itself,
}
use clipnet.Db.Groups.Closure.{Under, DistinctIds, within_lem}
use clipnet.Db.Groups.Path.{pieces, ensure_pieces, db_group_ensure_path}
use clipnet.Db.Groups.Path.Again.{AllShort, db_group_ensure_path-again}
use clipnet.Db.Groups.Steps.Sound.{Reachable-IsSound}
use clipnet.Db.Groups.Steps.{Shelf, apply, IsSound, capture, ensure, delete, file, fresh, after}
use clipnet.Util.Utf8.{utf8_valid, utf8_prefix}

abbrev row : ℕ → ℕ → Bytes → Group
row i parent name = record { id = i; uuid = []; parent_id = parent; name = name }

abbrev family : List Group
family = row 1 0 (codes "work") ∷ row 2 1 (codes "mail") ∷ row 3 2 (codes "old") ∷ []

moving_inside_itself : db_group_move 1 3 family ≡ inr inside_itself
unfolding db_group_move db_group_exists within sub sub_from
moving_inside_itself = refl

moving_up : db_group_move 3 0 family ≡ inl (set_parent 3 0 family)
unfolding db_group_move db_group_exists within sub sub_from
moving_up = refl

deleting_takes_subgroups :
    db_group_delete 2 false family (record { clip = 9; group_id = 3 } ∷ [])
    ≡ inl (record {
      groups = row 1 0 (codes "work") ∷ [];
      clips = record { clip = 9; group_id = 0 } ∷ [];
      affected = 9 ∷ [];
    })
unfolding db_group_delete db_group_exists sub sub_from
deleting_takes_subgroups = refl

filing_an_unknown_clip : db_clip_move 7 1 family [] ≡ inr no_such_clip
unfolding db_clip_move db_group_exists
filing_an_unknown_clip = refl

family-DistinctIds : DistinctIds family
family-DistinctIds = (refl, (refl, (refl, tt)))

within_lem_example : (within family 1 3 ≡ true) ↔ Under family 1 3
within_lem_example = within_lem family 1 3 family-DistinctIds

abbrev no_uuids : ℕ → Bytes
no_uuids i = []

abbrev shelf : Shelf
shelf = record { groups = []; clips = [] }

abbrev sample : Shelf
sample =
    apply (delete 1 false)
      (apply (file 5 2) (apply (ensure no_uuids (some (codes "a/b"))) (apply (capture 5) shelf)))

Reachable-IsSound_example : IsSound sample
Reachable-IsSound_example = Reachable-IsSound sample (after _ (after _ (after _ (after _ fresh))))

abbrev mail_path : Bytes
mail_path = codes " work / mail"

mail-short : AllShort (pieces mail_path)
unfolding pieces trimmed left_trimmed right_trimmed utf8_prefix
mail-short =
    let Fits = λ (s : Bytes). utf8_prefix s name_max_chars ≡ length s in
    (
      λ n e. subst Fits {x = codes "work"} (cc e) refl,
      (λ n e. subst Fits {x = codes "mail"} (cc e) refl, tt),
    )

mail_made : (db_group_ensure_path no_uuids (some mail_path) []).outcome ≡ inl 2
unfolding db_group_ensure_path ensure_pieces pieces trimmed left_trimmed right_trimmed utf8_prefix
    utf8_valid
mail_made = refl

db_group_ensure_path-again_example :
    db_group_ensure_path no_uuids
      (some mail_path)
      (db_group_ensure_path no_uuids (some mail_path) []).groups
    ≡ record {
      groups = (db_group_ensure_path no_uuids (some mail_path) []).groups;
      outcome = inl 2;
    }
db_group_ensure_path-again_example =
    db_group_ensure_path-again no_uuids mail_path [] 2 mail-short mail_made

-- A name of 201 characters is cut when it is stored, and not found again.
abbrev long_path : Bytes
long_path = replicate 201 b'a'

long_path_fails_again :
    (db_group_ensure_path no_uuids
      (some long_path)
      (db_group_ensure_path no_uuids (some long_path) []).groups).outcome
    ≡ inr name_taken
unfolding db_group_ensure_path ensure_pieces pieces trimmed left_trimmed right_trimmed utf8_prefix
    utf8_valid
long_path_fails_again = refl
