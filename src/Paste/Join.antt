-- ===== src/Paste/Join.antt =====
-- The joined texts against a plain description.
use clipnet.Base.{
  ℕ, ◌≡◌, refl, sym, ap, ◌∙◌, Option, none, some, List, [], ◌∷◌, ◌++◌, append-nil, append_assoc,
  Bytes,
}
use clipnet.Paste.{join_from, PasteReq, PasteEnv, join_texts}

-- The texts that there are.
abbrev pub present : (ℕ → Option Bytes) → List ℕ → List Bytes
present clip_text [] = []
present clip_text (i ∷ ids) = elim (clip_text i) [
  | none ↦ present clip_text ids
  | some t ↦ t ∷ present clip_text ids
]

abbrev pub without_leading_empty : List Bytes → List Bytes
without_leading_empty [] = []
without_leading_empty ([] ∷ ts) = without_leading_empty ts
without_leading_empty ((b ∷ t) ∷ ts) = (b ∷ t) ∷ ts

-- Every text but the first has the separator before it.
abbrev pub with_separators : Bytes → List Bytes → Bytes
with_separators sep [] = []
with_separators sep (t ∷ ts) = sep ++ t ++ with_separators sep ts

abbrev pub separated : Bytes → List Bytes → Bytes
separated sep [] = []
separated sep (t ∷ ts) = t ++ with_separators sep ts

join_from_nonempty :
    (clip_text : ℕ → Option Bytes) (sep : Bytes) (b : ℕ) (out : Bytes) (ids : List ℕ)
    → join_from clip_text sep (b ∷ out) ids
      ≡ (b ∷ out) ++ with_separators sep (present clip_text ids)
unfolding join_from
join_from_nonempty clip_text sep b out [] = sym (append-nil (b ∷ out))
join_from_nonempty clip_text sep b out (i ∷ ids) =
    step (clip_text i) (join_from_nonempty clip_text sep b out ids)
      (λ t. join_from_nonempty clip_text sep b (out ++ sep ++ t) ids)
  where
    step :
        (o : Option Bytes)
        → join_from clip_text sep (b ∷ out) ids
          ≡ (b ∷ out) ++ with_separators sep (present clip_text ids)
        → ((t : Bytes)
            → join_from clip_text sep (b ∷ out ++ sep ++ t) ids
              ≡ (b ∷ out ++ sep ++ t) ++ with_separators sep (present clip_text ids))
        → elim o [
          | none ↦ join_from clip_text sep (b ∷ out) ids
          | some t ↦ join_from clip_text sep (b ∷ out ++ sep ++ t) ids
        ]
          ≡ (b ∷ out)
            ++ with_separators sep
                (elim o [ none ↦ present clip_text ids | some t ↦ t ∷ present clip_text ids ])
    step none same more = same
    step (some t) same more =
        more t
        ∙ ap (λ (x : Bytes). b ∷ x)
            (ap (λ (x : Bytes). x ++ with_separators sep (present clip_text ids))
                (append_assoc out sep t)
              ∙ append_assoc out (sep ++ t) (with_separators sep (present clip_text ids)))

join_from_empty :
    (clip_text : ℕ → Option Bytes) (sep : Bytes) (ids : List ℕ)
    → join_from clip_text sep [] ids ≡ separated sep (without_leading_empty (present clip_text ids))
unfolding join_from
join_from_empty clip_text sep [] = refl
join_from_empty clip_text sep (i ∷ ids) = step (clip_text i) (join_from_empty clip_text sep ids)
  where
    step :
        (o : Option Bytes)
        → join_from clip_text sep [] ids
          ≡ separated sep (without_leading_empty (present clip_text ids))
        → elim o [ none ↦ join_from clip_text sep [] ids | some t ↦ join_from clip_text sep t ids ]
          ≡ separated sep (
              without_leading_empty
                (elim o [ none ↦ present clip_text ids | some t ↦ t ∷ present clip_text ids ]))
    step none same = same
    step (some []) same = same
    step (some (b ∷ t)) same = join_from_nonempty clip_text sep b t ids

-- The texts of the clips that have one, in the order given: leading empty texts are left out, and every
-- text after the first that is kept has the separator before it.
pub join_texts_lem :
    (env : PasteEnv) (req : PasteReq)
    → join_texts env req
      ≡ separated
          (elim req.separator [ none ↦ env.multi_separator | some s ↦ s ])
          (without_leading_empty (present env.clip_text req.ids))
unfolding join_texts
join_texts_lem env req =
    join_from_empty env.clip_text (elim req.separator [ none ↦ env.multi_separator | some s ↦ s ])
      req.ids
