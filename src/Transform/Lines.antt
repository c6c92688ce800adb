-- ===== src/Transform/Lines.antt =====
-- `t_trim` and `t_one_line`.
use clipnet.Base.{
  ℕ, zero, suc, ◌≤◌, ◌≡◌, refl, sym, ap, ◌∙◌, subst, inl, inr, Bool, true, false, [], ◌∷◌, ◌++◌,
  append-nil, append_assoc, arith, Bool-cases, length, All, All-append, Bytes, list_cases,
}
use clipnet.Textutil.{is_space, is_eol}
use clipnet.Transform.{
  trim_start, trim_end, t_trim, is_blank_tab, line_break, skip_breaks, one_line_from, t_one_line,
}

trim_end-All : (P : ℕ → Type 0) (p : ℕ → Bool) (s : Bytes) → All P s → All P (trim_end p s)
unfolding trim_end
trim_end-All P p [] h = tt
trim_end-All P p (x ∷ s) (hx, hs) =
    let rest = trim_end-All P p s hs in
    elim (list_cases (trim_end p s)) [
      | inl e ↦ elim (Bool-cases (p x)) [ inl f ↦ rw e (rw f tt) | inr f ↦ rw e (rw f (hx, tt)) ]
      | inr (y, ys, e) ↦ let tail = subst (All P) e rest in rw e (hx, tail)
    ]

-- No byte of a class.
abbrev pub IsNot : (ℕ → Bool) → ℕ → Type 0
IsNot p x = p x ≡ false

line_break_empty :
    (out : Bytes) (x : ℕ) (rest : Bytes)
    → trim_end is_blank_tab out ≡ []
    → line_break out (x ∷ rest) ≡ []
unfolding line_break
line_break_empty out x rest e = ground (arith, e)

line_break_space :
    (out : Bytes) (x : ℕ) (rest : Bytes) (y : ℕ) (ys : Bytes)
    → trim_end is_blank_tab out ≡ y ∷ ys
    → line_break out (x ∷ rest) ≡ (y ∷ ys) ++ b' ' ∷ []
unfolding line_break
line_break_space out x rest y ys e = ground (arith, e)

line_break-All :
    (out rest : Bytes) → All (IsNot is_eol) out → All (IsNot is_eol) (line_break out rest)
line_break-All out [] h = unfold line_break in trim_end-All (IsNot is_eol) is_blank_tab out h
line_break-All out (x ∷ rest) h =
    let kept = trim_end-All (IsNot is_eol) is_blank_tab out h in
    elim (list_cases (trim_end is_blank_tab out)) [
      | inl e ↦ rw (line_break_empty out x rest e) tt
      | inr (y, ys, e) ↦
          let all = subst (All (IsNot is_eol)) e kept in
          subst (All (IsNot is_eol)) (sym (line_break_space out x rest y ys e))
            (All-append (IsNot is_eol) (y ∷ ys) (b' ' ∷ []) all (refl, tt))
    ]

one_line_break :
    (fuel x : ℕ) (s out : Bytes)
    → is_eol x ≡ true
    → one_line_from (suc fuel) (x ∷ s) out
      ≡ one_line_from fuel (skip_breaks s) (line_break out (skip_breaks s))
unfolding one_line_from
one_line_break fuel x s out e = ground (arith, e)

one_line_copy :
    (fuel x : ℕ) (s out : Bytes)
    → is_eol x ≡ false
    → one_line_from (suc fuel) (x ∷ s) out ≡ one_line_from fuel s (out ++ x ∷ [])
unfolding one_line_from
one_line_copy fuel x s out e = ground (arith, e)

one_line_from-All :
    (fuel : ℕ) (s out : Bytes)
    → All (IsNot is_eol) out
    → All (IsNot is_eol) (one_line_from fuel s out)
one_line_from-All fuel [] out h = unfold one_line_from in h
one_line_from-All zero (x ∷ s) out h = unfold one_line_from in h
one_line_from-All (suc fuel) (x ∷ s) out h = elim (Bool-cases (is_eol x)) [
  | inl e ↦ rw (one_line_break fuel x s out e) (
      one_line_from-All fuel (skip_breaks s) (line_break out (skip_breaks s))
        (line_break-All out (skip_breaks s) h))
  | inr e ↦
      rw (one_line_copy fuel x s out e) (
        one_line_from-All fuel s (out ++ x ∷ []) (All-append (IsNot is_eol) out (x ∷ []) h (e, tt)))
]

no_breaks :
    (s out : Bytes) (fuel : ℕ)
    → All (IsNot is_eol) s
    → length s ≤ fuel
    → one_line_from fuel s out ≡ out ++ s
no_breaks [] out fuel h enough = unfold one_line_from in sym (append-nil out)
no_breaks (x ∷ s) out zero h enough = absurd (omega arith)
no_breaks (x ∷ s) out (suc fuel) (hx, hs) enough =
    one_line_copy fuel x s out hx
    ∙ no_breaks s (out ++ x ∷ []) fuel hs (omega arith)
    ∙ append_assoc out (x ∷ []) s

length-skip_breaks : (s : Bytes) → length (skip_breaks s) ≤ length s
unfolding skip_breaks
length-skip_breaks [] = omega arith
length-skip_breaks (x ∷ s) = ground (arith, length-skip_breaks s)

-- The length of the text is enough fuel: more of it changes nothing.
one_line_from_enough :
    (m n : ℕ) (s out : Bytes)
    → length s ≤ m
    → length s ≤ n
    → one_line_from m s out ≡ one_line_from n s out
one_line_from_enough m n [] out hm hn = unfold one_line_from in refl
one_line_from_enough zero n (x ∷ s) out hm hn = absurd (omega arith)
one_line_from_enough (suc m) zero (x ∷ s) out hm hn = absurd (omega arith)
one_line_from_enough (suc m) (suc n) (x ∷ s) out hm hn = elim (Bool-cases (is_eol x)) [
  | inl e ↦
      one_line_break m x s out e
      ∙ one_line_from_enough m n (skip_breaks s) (line_break out (skip_breaks s))
          (omega (arith, length-skip_breaks s)) (omega (arith, length-skip_breaks s))
      ∙ sym (one_line_break n x s out e)
  | inr e ↦
      one_line_copy m x s out e
      ∙ one_line_from_enough m n s (out ++ x ∷ []) (omega arith) (omega arith)
      ∙ sym (one_line_copy n x s out e)
]

-- The loop of `t_one_line` ends by itself: with any fuel from the length of the text on, the result is
-- the same, and it has no line break.
t_one_line_lem :
    (fuel : ℕ) (s : Bytes)
    → length s ≤ fuel
    → (one_line_from fuel s [] ≡ t_one_line s) × All (IsNot is_eol) (t_one_line s)
unfolding t_one_line
t_one_line_lem fuel s enough = (
  one_line_from_enough fuel (length s) s [] enough (omega arith),
  one_line_from-All (length s) s [] tt,
)

-- A text without line breaks stays as it is.
t_one_line_same : (s : Bytes) → All (IsNot is_eol) s → t_one_line s ≡ s
unfolding t_one_line
t_one_line_same s h = no_breaks s [] (length s) h (omega arith)

-- The text without its last bytes of the class, and those bytes.
trim_end_split :
    (p : ℕ → Bool) (s : Bytes)
    → (gone : Bytes) × (s ≡ trim_end p s ++ gone) × All (λ x. p x ≡ true) gone
unfolding trim_end
trim_end_split p [] = ([], refl, tt)
trim_end_split p (x ∷ s) =
    let (gone, split, all) = trim_end_split p s in
    elim (list_cases (trim_end p s)) [
      | inr (y, ys, e) ↦
          let whole : s ≡ (y ∷ ys) ++ gone = split ∙ ap (λ (t : Bytes). t ++ gone) e in
          (gone, rw e (ap (◌∷◌ x) whole), all)
      | inl e ↦
          let whole : s ≡ gone = split ∙ ap (λ (t : Bytes). t ++ gone) e in
          elim (Bool-cases (p x)) [
            | inl f ↦ (x ∷ gone, rw e (rw f (ap (◌∷◌ x) whole)), (f, all))
            | inr f ↦ (gone, rw e (rw f (ap (◌∷◌ x) whole)), all)
          ]
    ]

trim_start_split :
    (s : Bytes) → (gone : Bytes) × (s ≡ gone ++ trim_start s) × All (λ x. is_space x ≡ true) gone
unfolding trim_start
trim_start_split [] = ([], refl, tt)
trim_start_split (x ∷ s) =
    let (gone, split, all) = trim_start_split s in
    elim (Bool-cases (is_space x)) [
      | inl e ↦ (x ∷ gone, rw e (ap (◌∷◌ x) split), (e, all))
      | inr e ↦ ([], rw e refl, tt)
    ]

-- The first byte, if any, is not of the class.
abbrev pub StartsOutside : (ℕ → Bool) → Bytes → Type 0
StartsOutside p [] = Unit
StartsOutside p (x ∷ s) = p x ≡ false

abbrev pub EndsOutside : (ℕ → Bool) → Bytes → Type 0
EndsOutside p [] = Unit
EndsOutside p (x ∷ []) = p x ≡ false
EndsOutside p (x ∷ y ∷ s) = EndsOutside p (y ∷ s)

trim_start-StartsOutside : (s : Bytes) → StartsOutside is_space (trim_start s)
unfolding trim_start
trim_start-StartsOutside [] = tt
trim_start-StartsOutside (x ∷ s) = elim (Bool-cases (is_space x)) [
  | inl e ↦ rw e (trim_start-StartsOutside s)
  | inr e ↦ rw e e
]

trim_end-EndsOutside : (p : ℕ → Bool) (s : Bytes) → EndsOutside p (trim_end p s)
unfolding trim_end
trim_end-EndsOutside p [] = tt
trim_end-EndsOutside p (x ∷ s) =
    let rest = trim_end-EndsOutside p s in
    elim (list_cases (trim_end p s)) [
      | inl e ↦ elim (Bool-cases (p x)) [ inl f ↦ rw e (rw f tt) | inr f ↦ rw e (rw f f) ]
      | inr (y, ys, e) ↦ let tail = subst (EndsOutside p) e rest in rw e tail
    ]

trim_end-StartsOutside :
    (p : ℕ → Bool) (s : Bytes) → StartsOutside p s → StartsOutside p (trim_end p s)
unfolding trim_end
trim_end-StartsOutside p [] h = tt
trim_end-StartsOutside p (x ∷ s) h = elim (list_cases (trim_end p s)) [
  | inl e ↦ rw e (rw h h)
  | inr (y, ys, e) ↦ rw e h
]

-- Trimming takes white space, and only white space, off both ends: the text is the result between two
-- runs of white space, and the result neither starts nor ends with white space.
t_trim_lem :
    (s : Bytes)
    → (before : Bytes) × (after : Bytes) × (s ≡ before ++ (t_trim s ++ after))
      × All (λ x. is_space x ≡ true) before
      × All (λ x. is_space x ≡ true) after
      × StartsOutside is_space (t_trim s)
      × EndsOutside is_space (t_trim s)
unfolding t_trim
t_trim_lem s =
    let (before, first, low) = trim_start_split s in
    let (after, second, high) = trim_end_split is_space (trim_start s) in
    (
      before,
      after,
      first ∙ ap (◌++◌ before) second,
      low,
      high,
      trim_end-StartsOutside is_space (trim_start s) (trim_start-StartsOutside s),
      trim_end-EndsOutside is_space (trim_start s),
    )
