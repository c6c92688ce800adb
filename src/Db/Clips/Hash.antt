-- ===== src/Db/Clips/Hash.antt =====
-- `dbi_content_hash` of daemon/src/db.c, for formats in another order.
use clipnet.Base.{
  ◌≡◌, refl, sym, ap, ◌∙◌, inl, inr, true, false, not, List, [], ◌∷◌, arith, if◌then◌else◌,
  Bool-cases, Bytes, bytes_eq,
}
use clipnet.Db.Clips.{FmtIn}
use clipnet.Db.Clips.Content.{before, insert_fmt, sort_fmts, hash_fmts, dbi_content_hash}
use clipnet.Sha256.{sha256_init, sha256_final}

before_total : (xs ys : Bytes) → bytes_eq xs ys ≡ false → before ys xs ≡ not (before xs ys)
unfolding before
before_total [] [] h = absurd cc
before_total [] (y ∷ ys) h = refl
before_total (x ∷ xs) [] h = refl
before_total (x ∷ xs) (y ∷ ys) h = ground (arith, h, before_total xs ys)

-- Not above `ys`, and below `zs`.
before_skip : (xs ys zs : Bytes) → before xs ys ≡ false → before xs zs ≡ true → before ys zs ≡ true
unfolding before
before_skip [] [] zs h k = k
before_skip [] (y ∷ ys) zs h k = absurd cc
before_skip (x ∷ xs) ys [] h k = absurd cc
before_skip (x ∷ xs) [] (z ∷ zs) h k = refl
before_skip (x ∷ xs) (y ∷ ys) (z ∷ zs) h k = ground (arith, h, k, before_skip xs ys zs)

insert_above :
    (f h : FmtIn) (s : List FmtIn)
    → before h.mime f.mime ≡ true
    → insert_fmt f (h ∷ s) ≡ h ∷ insert_fmt f s
insert_above f h s e = ap (λ b. if b then h ∷ insert_fmt f s else f ∷ h ∷ s) e

insert_below :
    (f h : FmtIn) (s : List FmtIn) → before h.mime f.mime ≡ false → insert_fmt f (h ∷ s) ≡ f ∷ h ∷ s
insert_below f h s e = ap (λ b. if b then h ∷ insert_fmt f s else f ∷ h ∷ s) e

-- Two formats of different names, in front of what neither is above.
insert_pair :
    (f g : FmtIn) (s : List FmtIn)
    → bytes_eq f.mime g.mime ≡ false
    → insert_fmt f s ≡ f ∷ s
    → insert_fmt g s ≡ g ∷ s
    → insert_fmt f (g ∷ s) ≡ insert_fmt g (f ∷ s)
insert_pair f g s apart ef eg =
    let total = before_total f.mime g.mime apart in
    elim (Bool-cases (before f.mime g.mime)) [
      | inl e ↦ insert_below f g s (total ∙ ap not e) ∙ sym (insert_above g f s e ∙ ap (◌∷◌ f) eg)
      | inr e ↦ insert_above f g s (total ∙ ap not e) ∙ ap (◌∷◌ g) ef ∙ sym (insert_below g f s e)
    ]

-- One goes behind the head and the other in front of it.
insert_across :
    (f g h : FmtIn) (s : List FmtIn)
    → before h.mime f.mime ≡ true
    → before h.mime g.mime ≡ false
    → insert_fmt f (insert_fmt g (h ∷ s)) ≡ insert_fmt g (insert_fmt f (h ∷ s))
insert_across f g h s ef eg =
    ap (λ (t : List FmtIn). insert_fmt f t) (insert_below g h s eg)
    ∙ insert_above f g (h ∷ s) (before_skip h.mime g.mime f.mime eg ef)
    ∙ ap (◌∷◌ g) (insert_above f h s ef)
    ∙ sym (
        ap (λ (t : List FmtIn). insert_fmt g t) (insert_above f h s ef)
        ∙ insert_below g h (insert_fmt f s) eg)

insert_comm :
    (f g : FmtIn) (s : List FmtIn)
    → bytes_eq f.mime g.mime ≡ false
    → insert_fmt f (insert_fmt g s) ≡ insert_fmt g (insert_fmt f s)
insert_comm f g [] apart = insert_pair f g [] apart refl refl
insert_comm f g (h ∷ s) apart = elim (Bool-cases (before h.mime f.mime)) [
  | inl ef ↦ elim (Bool-cases (before h.mime g.mime)) [
    | inl eg ↦
        ap (λ (t : List FmtIn). insert_fmt f t) (insert_above g h s eg)
        ∙ insert_above f h (insert_fmt g s) ef
        ∙ ap (◌∷◌ h) (insert_comm f g s apart)
        ∙ sym (
            ap (λ (t : List FmtIn). insert_fmt g t) (insert_above f h s ef)
            ∙ insert_above g h (insert_fmt f s) eg)
    | inr eg ↦ insert_across f g h s ef eg
  ]
  | inr ef ↦ elim (Bool-cases (before h.mime g.mime)) [
    | inl eg ↦ sym (insert_across g f h s eg ef)
    | inr eg ↦
        ap (λ (t : List FmtIn). insert_fmt f t) (insert_below g h s eg)
        ∙ insert_pair f g (h ∷ s) apart (insert_below f h s ef) (insert_below g h s eg)
        ∙ sym (ap (λ (t : List FmtIn). insert_fmt g t) (insert_below f h s ef))
  ]
]

-- The same formats in another order, by exchanges of neighbours with different names.
pub data Reordered : List FmtIn → List FmtIn → Type 0 where
  same : {fs : List FmtIn} → Reordered fs fs
  under : {f : FmtIn} {fs gs : List FmtIn} → Reordered fs gs → Reordered (f ∷ fs) (f ∷ gs)
  swapped :
      {f g : FmtIn} {fs : List FmtIn}
      → bytes_eq f.mime g.mime ≡ false
      → Reordered (f ∷ g ∷ fs) (g ∷ f ∷ fs)
  through : {fs gs hs : List FmtIn} → Reordered fs gs → Reordered gs hs → Reordered fs hs

sort_fmts-Reordered : (fs gs : List FmtIn) → Reordered fs gs → sort_fmts fs ≡ sort_fmts gs
sort_fmts-Reordered fs gs same = refl
sort_fmts-Reordered fs gs (under {f = f} r) = ap (insert_fmt f) (sort_fmts-Reordered _ _ r)
sort_fmts-Reordered fs gs (swapped {f = f} {g = g} {fs = more} apart) =
    insert_comm f g (sort_fmts more) apart
sort_fmts-Reordered fs gs (through {gs = hs} r q) =
    sort_fmts-Reordered fs hs r ∙ sort_fmts-Reordered hs gs q

-- The content hash does not depend on the order in which the formats are offered.
pub dbi_content_hash-Reordered :
    (fs gs : List FmtIn) → Reordered fs gs → dbi_content_hash fs ≡ dbi_content_hash gs
unfolding dbi_content_hash
dbi_content_hash-Reordered fs gs r =
    ap (λ (t : List FmtIn). sha256_final (hash_fmts t sha256_init)) (sort_fmts-Reordered fs gs r)
