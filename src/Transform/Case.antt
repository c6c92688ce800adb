-- ===== src/Transform/Case.antt =====
-- The transforms that change the case of single code points, and the list of transforms.
use clipnet.Base.{
  ℕ, ◌≡◌, refl, sym, subst, ◌⊎◌, inl, inr, Bool, true, false, ◌&&◌, ◌||◌, Option, none, some, List,
  [], ◌∷◌, arith, ◌==◌, if◌then◌else◌, Bool-cases, Bytes, mem, all_keys, all_keys_sound,
}
use clipnet.Transform.{
  Locale, defs, joins_word, title_from, t_title, sentence_round, sentence_from, t_sentence,
  t_invert, apply_points, transform_apply,
}

module _ (c : Locale) where
  -- The same code points, each as it was, in upper case or in lower case.
  unfoldable pub IsRecased : List ℕ → List ℕ → Type 0
  IsRecased [] [] = Unit
  IsRecased [] (y ∷ ys) = ⊥
  IsRecased (x ∷ xs) [] = ⊥
  IsRecased (x ∷ xs) (y ∷ ys) = ((y ≡ x) ⊎ ((y ≡ c.up x) ⊎ (y ≡ c.low x))) × IsRecased xs ys

  title_letter :
      (in_word : Bool) (prev : Option ℕ) (x : ℕ) (xs : List ℕ)
      → (c.alnum x || (in_word && joins_word c prev x xs)) ≡ true
      → title_from c in_word prev (x ∷ xs)
        ≡ (if in_word then c.low x else c.up x)
          ∷ title_from c true (some (if in_word then c.low x else c.up x)) xs
  unfolding title_from
  title_letter in_word prev x xs e = ground (arith, e)

  title_other :
      (in_word : Bool) (prev : Option ℕ) (x : ℕ) (xs : List ℕ)
      → (c.alnum x || (in_word && joins_word c prev x xs)) ≡ false
      → title_from c in_word prev (x ∷ xs) ≡ x ∷ title_from c false (some x) xs
  unfolding title_from
  title_other in_word prev x xs e = ground (arith, e)

  title_from-IsRecased :
      (in_word : Bool) (prev : Option ℕ) (xs : List ℕ) → IsRecased xs (title_from c in_word prev xs)
  unfolding IsRecased
  title_from-IsRecased in_word prev [] = unfold title_from in tt
  title_from-IsRecased in_word prev (x ∷ xs) =
      elim (Bool-cases (c.alnum x || (in_word && joins_word c prev x xs))) [
        | inr e ↦
            subst (IsRecased (x ∷ xs)) (sym (title_other in_word prev x xs e))
              (inl refl, title_from-IsRecased false (some x) xs)
        | inl e ↦ subst (IsRecased (x ∷ xs)) (sym (title_letter in_word prev x xs e)) (
          letter in_word,
          title_from-IsRecased true (some (if in_word then c.low x else c.up x)) xs,
        )
      ]
    where
      letter :
          (b : Bool)
          → ((if b then c.low x else c.up x) ≡ x)
            ⊎ (((if b then c.low x else c.up x) ≡ c.up x)
                ⊎ ((if b then c.low x else c.up x) ≡ c.low x))
      letter true = inr (inr refl)
      letter false = inr (inl refl)

  sentence_round_lem :
      (start after_end : Bool) (x : ℕ) (xs : List ℕ)
      → let y = (sentence_round c start after_end x xs).0 in
        (y ≡ x) ⊎ ((y ≡ c.up x) ⊎ (y ≡ c.low x))
  unfolding sentence_round
  sentence_round_lem start after_end x xs = elim (Bool-cases (c.alpha x)) [
    | inl e ↦ elim (Bool-cases start) [
      | inl f ↦ inr (inl (ground (arith, e, f)))
      | inr f ↦ inr (inr (ground (arith, e, f)))
    ]
    | inr e ↦ inl (ground (arith, e))
  ]

  sentence_from-IsRecased :
      (start after_end : Bool) (xs : List ℕ) → IsRecased xs (sentence_from c start after_end xs)
  unfolding IsRecased sentence_from
  sentence_from-IsRecased start after_end [] = tt
  sentence_from-IsRecased start after_end (x ∷ xs) =
      let (y, start', after') = sentence_round c start after_end x xs in
      (sentence_round_lem start after_end x xs, sentence_from-IsRecased start' after' xs)

  invert-IsRecased : (xs : List ℕ) → IsRecased xs (t_invert c xs)
  unfolding IsRecased t_invert
  invert-IsRecased [] = tt
  invert-IsRecased (x ∷ xs) = elim (Bool-cases (x == c.up x)) [
    | inl e ↦ rw e (inr (inr refl), invert-IsRecased xs)
    | inr e ↦ rw e (inr (inl refl), invert-IsRecased xs)
  ]

  -- Title case, sentence case and inverted case keep the code points, their number and their order, and
  -- change nothing but the case of some of them.
  pub t_title-IsRecased :
      (xs : List ℕ)
      → IsRecased xs (t_title c xs) × IsRecased xs (t_sentence c xs) × IsRecased xs (t_invert c xs)
  unfolding t_title t_sentence
  t_title-IsRecased xs = (
    title_from-IsRecased false none xs,
    sentence_from-IsRecased true false xs,
    invert-IsRecased xs,
  )

abbrev pub is_some : Option Bytes → Bool
is_some none = false
is_some (some s) = true

-- A transform that is listed is applied, whatever the text.
transform_apply_known :
    (c : Locale) (date id s : Bytes)
    → mem id defs ≡ true
    → is_some (transform_apply c date id s) ≡ true
transform_apply_known c date id s known =
    all_keys_sound (λ k. is_some (transform_apply c date k s)) defs id
      (unfold all_keys transform_apply apply_points in refl) known
