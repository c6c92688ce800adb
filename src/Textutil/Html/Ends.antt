-- ===== src/Textutil/Html/Ends.antt =====
-- The end of `html_to_text`: of its loop and of its result.
use clipnet.Base.{
  ℕ, zero, suc, ◌≤◌, ◌≡◌, refl, sym, ap, ◌∙◌, subst, inl, inr, Bool, true, false, ◌||◌, Option,
  none, some, [], ◌∷◌, ◌++◌, append-nil, append_assoc, arith, ◌==◌, if◌then◌else◌, Bool-cases,
  length, drop, length-drop, All, Bytes, codes, is_alnum, starts_with, if-both, elim-both,
  option-both,
}
use clipnet.Util.Utf8.{put_utf8}
use clipnet.Textutil.Html.{
  entity_name, behind_name, behind_gt, behind_comment, HtmlState, is_blank_end, trim_blank_end,
  entity_code, entity, html_round, comment_start, comment_end, html_tag, entity_text, html_loop,
  html_to_text,
}

behind_name_le : (s : Bytes) → length (behind_name s) ≤ length s
unfolding behind_name
behind_name_le [] = omega arith
behind_name_le (c ∷ s) =
    if-both (λ (r : Bytes). length r ≤ suc (length s)) (is_alnum c) _ _
      (λ e. omega (arith, behind_name_le s)) (λ e. omega arith)

behind_gt_le : (s : Bytes) → length (behind_gt s) ≤ length s
unfolding behind_gt
behind_gt_le [] = omega arith
behind_gt_le (c ∷ s) =
    if-both (λ (r : Bytes). length r ≤ suc (length s)) (c == b'>') _ _ (λ e. omega arith)
      (λ e. omega (arith, behind_gt_le s))

behind_comment_le : (s : Bytes) → length (behind_comment s) ≤ length s
unfolding behind_comment
behind_comment_le [] = omega arith
behind_comment_le (c ∷ s) =
    if-both (λ (r : Bytes). length r ≤ suc (length s)) (starts_with comment_end (c ∷ s)) _ _
      (λ e. omega (arith, length-drop 2 s)) (λ e. omega (arith, behind_comment_le s))

-- What is left is no longer than `n`.
abbrev Within : ℕ → Option (Bytes × Bytes) → Type 0
Within n none = Unit
Within n (some (t, r)) = length r ≤ n

entity_name-Within : (n : ℕ) (s : Bytes) → Within (length s) (entity_name n s)
unfolding entity_name
entity_name-Within n [] = tt
entity_name-Within zero (c ∷ s) =
    if-both (Within (suc (length s))) (c == b';') _ _ (λ e. omega arith) (λ e. tt)
entity_name-Within (suc n) (c ∷ s) =
    elim-both (Within (suc (length s))) (c == b';') _ _ (λ e. omega arith)
      (λ e. go (entity_name n s) (entity_name-Within n s))
  where
    go :
        (o : Option (Bytes × Bytes))
        → Within (length s) o
        → Within
            (suc (length s))
            (elim o [ none ↦ none | some (name, rest) ↦ some (c ∷ name, rest) ])
    go none h = tt
    go (some (name, rest)) h = omega (arith, h)

html_tag_le :
    (s : Bytes) (skip : Option Bytes) (out : Bytes) → length (html_tag s skip out).rest ≤ length s
unfolding html_tag
html_tag_le s skip out =
    let closing = starts_with (codes "/") s in
    let t = if closing then drop 1 s else s in
    let shorter : length t ≤ length s =
      if-both (λ (r : Bytes). length r ≤ length s) closing _ _ (λ e. omega (arith, length-drop 1 s))
        (λ e. omega arith) in
    if-both (λ (st : HtmlState). length st.rest ≤ length s) (starts_with comment_start s) _ _
      (λ e. omega (arith, behind_comment_le (drop 3 s), length-drop 3 s))
      (λ e. omega (arith, behind_gt_le (behind_name t), behind_name_le t, shorter))

-- A line feed, a space or a tab.
abbrev pub blank_byte : ℕ → Bool
blank_byte c = c == 9 || c == 10 || c == 32

is_blank_end-blank_byte : (c : ℕ) → is_blank_end c ≡ blank_byte c
unfolding is_blank_end
is_blank_end-blank_byte c = ground arith

-- A blank at the end.
abbrev pub ends_blank : Bytes → Bool
ends_blank [] = false
ends_blank (c ∷ []) = blank_byte c
ends_blank (c ∷ d ∷ s) = ends_blank (d ∷ s)

trim_blank_end-lem : (s : Bytes) → ends_blank (trim_blank_end s) ≡ false
unfolding trim_blank_end
trim_blank_end-lem [] = refl
trim_blank_end-lem (c ∷ s) = go (trim_blank_end s) (trim_blank_end-lem s)
  where
    go :
        (t : Bytes)
        → ends_blank t ≡ false
        → ends_blank (elim t [ [] ↦ if is_blank_end c then [] else c ∷ [] | d ∷ u ↦ c ∷ d ∷ u ])
          ≡ false
    go [] h =
        if-both (λ (r : Bytes). ends_blank r ≡ false) (is_blank_end c) _ _ (λ e. refl)
          (λ e. sym (is_blank_end-blank_byte c) ∙ e)
    go (d ∷ u) h = h

-- The text is what is left of it, and then blanks.
trim_blank_end_split :
    (s : Bytes)
    → (gone : Bytes) × (s ≡ trim_blank_end s ++ gone) × All (λ c. blank_byte c ≡ true) gone
unfolding trim_blank_end
trim_blank_end_split [] = ([], refl, tt)
trim_blank_end_split (c ∷ s) =
    let (gone, split, all) = trim_blank_end_split s in go (trim_blank_end s) gone split all
  where
    go :
        (t gone : Bytes)
        → s ≡ t ++ gone
        → All (λ b. blank_byte b ≡ true) gone
        → (gone' : Bytes) × (c ∷ s
            ≡ (elim t [ [] ↦ if is_blank_end c then [] else c ∷ [] | d ∷ u ↦ c ∷ d ∷ u ]) ++ gone')
          × All (λ b. blank_byte b ≡ true) gone'
    go [] gone split all = elim (Bool-cases (is_blank_end c)) [
      | inl e ↦ (c ∷ gone, rw e (ap (◌∷◌ c) split), (sym (is_blank_end-blank_byte c) ∙ e, all))
      | inr e ↦ (gone, rw e (ap (◌∷◌ c) split), all)
    ]
    go (d ∷ u) gone split all = (gone, ap (◌∷◌ c) split, all)

-- A byte that starts neither a tag nor an entity.
abbrev pub IsPlain : ℕ → Type 0
IsPlain c = ((c == b'<') ≡ false) × ((c == b'&') ≡ false)

module _ (strtoul : ℕ → Bytes → ℕ × Bytes) where
  entity_text-Within : (name rest : Bytes) → Within (length rest) (entity_text strtoul name rest)
  unfolding entity_text
  entity_text-Within name rest =
      option-both (Within (length rest)) (entity_code strtoul name) none
        (λ cp. some (put_utf8 cp, rest)) (λ e. tt) (λ cp e. omega arith)

  entity-Within : (s : Bytes) → Within (length s) (entity strtoul s)
  unfolding entity
  entity-Within s = go (entity_name 11 s) (entity_name-Within 11 s)
    where
      wider : (o : Option (Bytes × Bytes)) (m n : ℕ) → m ≤ n → Within m o → Within n o
      wider none m n k h = tt
      wider (some (t, r)) m n k h = omega (arith, h, k)

      go :
          (o : Option (Bytes × Bytes))
          → Within (length s) o
          → Within
              (length s)
              (elim o [ none ↦ none | some (name, rest) ↦ entity_text strtoul name rest ])
      go none h = tt
      go (some (name, rest)) h =
          wider (entity_text strtoul name rest) (length rest) (length s) h
            (entity_text-Within name rest)

  -- A round leaves less to read.
  html_round_le :
      (c : ℕ) (s : Bytes) (skip : Option Bytes) (out : Bytes)
      → length (html_round strtoul c s skip out).rest ≤ length s
  unfolding html_round
  html_round_le c s skip out =
      let Goal = λ (st : HtmlState). length st.rest ≤ length s in
      let seen =
        if-both (Within (length s)) (c == b'&') (entity strtoul s) none (λ e. entity-Within s)
          (λ e. tt) in
      elim-both Goal (c == b'<') _ _ (λ e. html_tag_le s skip out)
        (λ e.
          option-both Goal skip _ (λ until. record { rest = s; skip = some until; out = out })
            (λ f. go (if c == b'&' then entity strtoul s else none) seen) (λ until f. omega arith))
    where
      go :
          (o : Option (Bytes × Bytes))
          → Within (length s) o
          → length
              (elim o as (λ x. HtmlState) [
                | none ↦ record { rest = s; skip = none; out = out ++ c ∷ [] }
                | some (text, rest) ↦ record { rest = rest; skip = none; out = out ++ text }
              ]).rest
            ≤ length s
      go none h = omega arith
      go (some (text, rest)) h = h

  html_loop-enough :
      (fuel : ℕ) (s : Bytes) (skip : Option Bytes) (out : Bytes)
      → length s ≤ fuel
      → (r : Bytes) × (html_loop strtoul fuel s skip out ≡ some r)
  unfolding html_loop
  html_loop-enough fuel [] skip out h = (out, refl)
  html_loop-enough zero (c ∷ s) skip out h = absurd (omega arith)
  html_loop-enough (suc fuel) (c ∷ s) skip out h =
      let st = html_round strtoul c s skip out in
      html_loop-enough fuel st.rest st.skip st.out (omega (arith, html_round_le c s skip out))

  html_round-plain :
      (c : ℕ) (s out : Bytes)
      → IsPlain c
      → html_round strtoul c s none out ≡ record { rest = s; skip = none; out = out ++ c ∷ [] }
  unfolding html_round
  html_round-plain c s out (tag, amp) =
      elim-both (λ (st : HtmlState). st ≡ record { rest = s; skip = none; out = out ++ c ∷ [] })
        (c == b'<') _ _ (λ e. absurd (cc (e, tag)))
        (λ e. ap (λ (b : Bool). added (if b then entity strtoul s else none)) amp)
    where
      added : Option (Bytes × Bytes) → HtmlState
      added o = elim o [
        | none ↦ record { rest = s; skip = none; out = out ++ c ∷ [] }
        | some (text, rest) ↦ record { rest = rest; skip = none; out = out ++ text }
      ]

  html_loop-plain :
      (s out : Bytes) → All IsPlain s → html_loop strtoul (length s) s none out ≡ some (out ++ s)
  unfolding html_loop
  html_loop-plain [] out h = ap some (sym (append-nil out))
  html_loop-plain (c ∷ s) out h =
      ap (λ (st : HtmlState). html_loop strtoul (length s) st.rest st.skip st.out)
        (html_round-plain c s out h.0)
      ∙ html_loop-plain s (out ++ c ∷ []) h.1
      ∙ ap some (append_assoc out (c ∷ []) s)

  -- On any text the loop ends and the result has no line feed, space or tab at its end. Of a text with
  -- no `<` and no `&` the result is the text up to some such bytes at its end.
  pub html_to_text_lem :
      (s : Bytes)
      → (r : Bytes) × (html_to_text strtoul s ≡ some r)
        × (ends_blank r ≡ false)
        × (All IsPlain s → (gone : Bytes) × (s ≡ r ++ gone) × All (λ c. blank_byte c ≡ true) gone)
  unfolding html_to_text
  html_to_text_lem s =
      let (out, done) = html_loop-enough (length s) s none [] (omega arith) in
      (
        trim_blank_end out,
        ap ends done,
        trim_blank_end-lem out,
        λ h.
            let same : some out ≡ some s = sym done ∙ html_loop-plain s [] h in
            let plain : out ≡ s = cc same in
            subst
              (λ (t : Bytes).
                (gone : Bytes) × (t ≡ trim_blank_end out ++ gone)
                × All (λ c. blank_byte c ≡ true) gone)
              plain (trim_blank_end_split out),
      )
    where
      ends : Option Bytes → Option Bytes
      ends o = elim o [ none ↦ none | some out ↦ some (trim_blank_end out) ]
