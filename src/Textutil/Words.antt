-- ===== src/Textutil/Words.antt =====
-- What a preview is, and how a round extends it.
use mathlib.Core.List.{cons-ne-nil}
use clipnet.Base.{
  ℕ, ◌+◌, ◌≤◌, ◌<◌, ◌≡◌, refl, sym, ap, ◌∙◌, ◌≢◌, inl, Bool, true, false, ◌||◌, List, [], ◌∷◌, ◌++◌,
  append-nil, append_assoc, arith, ltb, if◌then◌else◌, length, length-append, All, All-append,
  Bytes,
}
use clipnet.Util.Utf8.Prefix.{encode-append}
use clipnet.Util.Utf8.{put, encode, IsScalar}
use clipnet.Textutil.{is_space}
use clipnet.Textutil.Rounds.{is_control}

abbrev pub IsVisible : ℕ → Type 0
IsVisible c = (is_space c ≡ false) × (is_control c ≡ false)

-- Words of visible characters with one space between them, and none at the ends.
pub data Tidy : List ℕ → Type 0 where
  tidy_nil : Tidy []
  tidy_next : (c : ℕ) {xs ys : List ℕ} → Tidy xs → IsVisible c → ys ≡ xs ++ c ∷ [] → Tidy ys
  tidy_gap :
      (c : ℕ) {xs ys : List ℕ}
      → Tidy xs
      → xs ≢ []
      → IsVisible c
      → ys ≡ (xs ++ b' ' ∷ []) ++ c ∷ []
      → Tidy ys

-- The characters that are neither white space nor control characters.
unfoldable pub visible : List ℕ → List ℕ
visible [] = []
visible (c ∷ cs) = if is_space c || is_control c then visible cs else c ∷ visible cs

visible-append : (xs ys : List ℕ) → visible (xs ++ ys) ≡ visible xs ++ visible ys
unfolding visible
visible-append [] ys = refl
visible-append (x ∷ xs) ys = ground (arith, visible-append xs ys)

-- `bytes` spells a tidy text of at most `most` characters, whose visible ones start `content`.
pub record IsPreview (most : ℕ) (content : List ℕ) (bytes : Bytes) : Type 0 where
  pub points : List ℕ
  pub rest : List ℕ
  pub scalar : All IsScalar points
  pub spelled : bytes ≡ encode points
  pub tidy : Tidy points
  pub short : length points ≤ most
  pub complete : content ≡ visible points ++ rest

-- What the loop has when it stands before `cps`.
pub record Before (most chars : ℕ) (pending : Bool) (done : List ℕ) : Type 0 where
  pub scalar : All IsScalar done
  pub tidy : Tidy done
  pub counted : length done ≡ chars
  pub fits : chars ≤ most
  pub started : pending ≡ true → done ≢ []

pub finished :
    (most chars : ℕ) (pending : Bool) (done : List ℕ) (more : List ℕ)
    → Before most chars pending done
    → IsPreview most (visible done ++ more) (encode done)
finished most chars pending done more b = record {
  points = done;
  rest = more;
  scalar = b.scalar;
  spelled = refl;
  tidy = b.tidy;
  short = omega (arith, b.counted, b.fits);
  complete = refl;
}

pub after_space : (done : List ℕ) → ltb 0 (length (encode done)) ≡ true → done ≢ []
unfolding encode
after_space [] h = λ _. cc
after_space (x ∷ xs) h = cons-ne-nil x xs

snoc-ne-nil : (xs : List ℕ) (c : ℕ) → xs ++ c ∷ [] ≢ []
snoc-ne-nil xs c e = absurd (omega (arith, ap length e, length-append xs (c ∷ [])))

pub encode-snoc : (xs : List ℕ) (c : ℕ) → encode xs ++ put c ≡ encode (xs ++ c ∷ [])
encode-snoc xs c =
    sym (encode-append xs (c ∷ []) ∙ ap (◌++◌ (encode xs)) (unfold encode in append-nil (put c)))

encode-space : (xs : List ℕ) → encode xs ++ b' ' ∷ [] ≡ encode (xs ++ b' ' ∷ [])
unfolding put
encode-space xs = encode-snoc xs b' '

pub encode-gap :
    (xs : List ℕ) (c : ℕ) → (encode xs ++ b' ' ∷ []) ++ put c ≡ encode ((xs ++ b' ' ∷ []) ++ c ∷ [])
encode-gap xs c = ap (λ (s : Bytes). s ++ put c) (encode-space xs) ∙ encode-snoc (xs ++ b' ' ∷ []) c

pub Before-next :
    (most chars cp : ℕ) (done : List ℕ)
    → chars < most
    → IsScalar cp
    → IsVisible cp
    → Before most chars false done
    → Before most (chars + 1) false (done ++ cp ∷ [])
Before-next most chars cp done room s v b = record {
  scalar = All-append IsScalar done (cp ∷ []) b.scalar (s, tt);
  tidy = tidy_next cp b.tidy v refl;
  counted = omega (arith, length-append done (cp ∷ []), b.counted);
  fits = omega arith;
  started = λ _. snoc-ne-nil done cp;
}

pub Before-gap :
    (most chars cp : ℕ) (done : List ℕ)
    → chars + 1 < most
    → IsScalar cp
    → IsVisible cp
    → Before most chars true done
    → Before most (chars + 1 + 1) false ((done ++ b' ' ∷ []) ++ cp ∷ [])
Before-gap most chars cp done room s v b = record {
  scalar =
      All-append IsScalar (done ++ b' ' ∷ []) (cp ∷ [])
        (All-append IsScalar done (b' ' ∷ []) b.scalar ((omega arith, inl (omega arith)), tt))
        (s, tt);
  tidy = tidy_gap cp b.tidy (b.started refl) v refl;
  counted = omega (
    arith,
    length-append (done ++ b' ' ∷ []) (cp ∷ []),
    length-append done (b' ' ∷ []),
    b.counted,
  );
  fits = omega arith;
  started = λ _. snoc-ne-nil (done ++ b' ' ∷ []) cp;
}

pub content_next :
    (done : List ℕ) (cp : ℕ) (more : List ℕ)
    → IsVisible cp
    → visible done ++ cp ∷ more ≡ visible (done ++ cp ∷ []) ++ more
content_next done cp more (s, c) =
    rw (visible-append done (cp ∷ []), append_assoc)
      (ap (◌++◌ (visible done)) (unfold visible in ground (arith, s, c)))

visible_space : visible (b' ' ∷ []) ≡ []
unfolding visible is_space
visible_space = refl

pub visible_cons : (cp : ℕ) (cps : List ℕ) → IsVisible cp → visible (cp ∷ cps) ≡ cp ∷ visible cps
unfolding visible
visible_cons cp cps (s, c) = ground (arith, s, c)

pub content_gap :
    (done : List ℕ) (cp : ℕ) (more : List ℕ)
    → IsVisible cp
    → visible done ++ cp ∷ more ≡ visible ((done ++ b' ' ∷ []) ++ cp ∷ []) ++ more
content_gap done cp more v =
    let gap = visible-append done (b' ' ∷ []) in
    ap (λ (l : List ℕ). l ++ cp ∷ more)
      (sym (gap ∙ ap (◌++◌ (visible done)) visible_space ∙ append-nil _))
    ∙ content_next (done ++ b' ' ∷ []) cp more v
