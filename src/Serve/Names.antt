-- ===== src/Serve/Names.antt =====
-- The names that `own` offers, and what `on_send` sends for them.
use clipnet.Base.{
  ℕ, suc, ◌≡◌, refl, sym, ap, subst, ◌⊎◌, inl, inr, true, false, some, List, [], ◌∷◌, ◌++◌,
  append_assoc, arith, Bool-cases, length, get_elem?, length-append, All, All-append, Bytes,
  bytes_eq, bytes_eq_sound, bytes_eq_refl, mem, mem-append, Distinct, Distinct-snoc,
}
use clipnet.Mime.{mime_text, mime_marker, text_default_aliases}
use clipnet.Serve.{
  FmtOut, ClipPayload, Offer, names, add_name, add_names, own_format, own_from, own_names,
  find_name, on_send,
}

names-append : (xs ys : List Offer) → names (xs ++ ys) ≡ names xs ++ names ys
names-append [] ys = refl
names-append (x ∷ xs) ys = ap (◌∷◌ x.name) (names-append xs ys)

add_name-Distinct :
    (n : Bytes) (i : ℕ) (os : List Offer) → Distinct (names os) → Distinct (names (add_name n i os))
unfolding add_name
add_name-Distinct n i os d = elim (Bool-cases (mem n (names os))) [
  | inl e ↦ rw e d
  | inr e ↦
      rw e
        (rw (names-append os (record { name = n; fmt = i } ∷ [])) (Distinct-snoc (names os) n d e))
]

add_names-Distinct :
    (ns : List Bytes) (i : ℕ) (os : List Offer)
    → Distinct (names os)
    → Distinct (names (add_names ns i os))
unfolding add_names
add_names-Distinct [] i os d = d
add_names-Distinct (n ∷ ns) i os d =
    add_names-Distinct ns i (add_name n i os) (add_name-Distinct n i os d)

own_format_text :
    (f : FmtOut) (i : ℕ) (os : List Offer)
    → bytes_eq f.mime mime_text ≡ true
    → own_format f i os
      ≡ add_names text_default_aliases i (add_names f.aliases i (add_name mime_text i os))
unfolding own_format
own_format_text f i os e = rw e

own_format_other :
    (f : FmtOut) (i : ℕ) (os : List Offer)
    → bytes_eq f.mime mime_text ≡ false
    → own_format f i os ≡ add_name f.mime i os
unfolding own_format
own_format_other f i os e = rw e

own_format-Distinct :
    (f : FmtOut) (i : ℕ) (os : List Offer)
    → Distinct (names os)
    → Distinct (names (own_format f i os))
own_format-Distinct f i os d = elim (Bool-cases (bytes_eq f.mime mime_text)) [
  | inl e ↦ rw (own_format_text f i os e) (
      add_names-Distinct text_default_aliases i _
        (add_names-Distinct f.aliases i _ (add_name-Distinct mime_text i os d)))
  | inr e ↦ rw (own_format_other f i os e) (add_name-Distinct f.mime i os d)
]

own_from-Distinct :
    (i : ℕ) (fs : List FmtOut) (os : List Offer)
    → Distinct (names os)
    → Distinct (names (own_from i fs os))
unfolding own_from
own_from-Distinct i [] os d = d
own_from-Distinct i (f ∷ fs) os d =
    own_from-Distinct (suc i) fs (own_format f i os) (own_format-Distinct f i os d)

-- No name is offered twice for a payload.
own_names-Distinct : (pl : ClipPayload) → Distinct (names (own_names pl))
unfolding own_names
own_names-Distinct pl = own_from-Distinct 0 pl.fmts [] tt

-- The format goes by this name: its own, or, for text, one of its aliases or the usual ones.
abbrev pub GoesBy : FmtOut → Bytes → Type 0
GoesBy f n =
    (n ≡ f.mime)
    ⊎ ((f.mime ≡ mime_text) × ((mem n f.aliases ≡ true) ⊎ (mem n text_default_aliases ≡ true)))

abbrev pub IsOffer : List FmtOut → Offer → Type 0
IsOffer fmts o = (f : FmtOut) × (get_elem? fmts o.fmt ≡ some f) × GoesBy f o.name

module _ (fmts : List FmtOut) (f : FmtOut) (i : ℕ) (at : get_elem? fmts i ≡ some f) where
  add_name-IsOffer :
      (n : Bytes) (os : List Offer)
      → GoesBy f n
      → All (IsOffer fmts) os
      → All (IsOffer fmts) (add_name n i os)
  unfolding add_name
  add_name-IsOffer n os g h = elim (Bool-cases (mem n (names os))) [
    | inl e ↦ rw e h
    | inr e ↦
        rw e (All-append (IsOffer fmts) os (record { name = n; fmt = i } ∷ []) h ((f, at, g), tt))
  ]

  add_names-IsOffer :
      (front ns : List Bytes) (os : List Offer)
      → ((n : Bytes) → mem n (front ++ ns) ≡ true → GoesBy f n)
      → All (IsOffer fmts) os
      → All (IsOffer fmts) (add_names ns i os)
  unfolding add_names
  add_names-IsOffer front [] os g h = h
  add_names-IsOffer front (n ∷ ns) os g h =
      add_names-IsOffer (front ++ n ∷ []) ns (add_name n i os)
        (λ m k. g m (subst (λ (l : List Bytes). mem m l ≡ true) (append_assoc front (n ∷ []) ns) k))
        (add_name-IsOffer n os
          (g n (rw (mem-append n front (n ∷ ns)) (ground (arith, bytes_eq_refl n)))) h)

  own_format-IsOffer :
      (os : List Offer) → All (IsOffer fmts) os → All (IsOffer fmts) (own_format f i os)
  own_format-IsOffer os h = elim (Bool-cases (bytes_eq f.mime mime_text)) [
    | inr e ↦ rw (own_format_other f i os e) (add_name-IsOffer f.mime os (inl refl) h)
    | inl e ↦
        let text = bytes_eq_sound f.mime mime_text e in
        rw (own_format_text f i os e) (
          add_names-IsOffer [] text_default_aliases _ (λ n k. inr (text, inr k))
            (add_names-IsOffer [] f.aliases _ (λ n k. inr (text, inl k))
              (add_name-IsOffer mime_text os (inl (sym text)) h)))
  ]

get_elem?-append :
    (front : List FmtOut) (f : FmtOut) (fs : List FmtOut)
    → get_elem? (front ++ f ∷ fs) (length front) ≡ some f
get_elem?-append [] f fs = refl
get_elem?-append (x ∷ front) f fs = get_elem?-append front f fs

own_from-IsOffer :
    (front fs : List FmtOut) (os : List Offer)
    → All (IsOffer (front ++ fs)) os
    → All (IsOffer (front ++ fs)) (own_from (length front) fs os)
unfolding own_from
own_from-IsOffer front [] os h = h
own_from-IsOffer front (f ∷ fs) os h =
    let next = own_from-IsOffer (front ++ f ∷ []) fs (own_format f (length front) os) (
      subst (λ (l : List FmtOut). All (IsOffer l) (own_format f (length front) os))
        (sym (append_assoc front (f ∷ []) fs))
        (own_format-IsOffer (front ++ f ∷ fs) f (length front) (get_elem?-append front f fs) os
          h)) in
    let count : length (front ++ f ∷ []) ≡ suc (length front) =
      omega (arith, length-append front (f ∷ [])) in
    subst
      (λ (n : ℕ). All (IsOffer (front ++ f ∷ fs)) (own_from n fs (own_format f (length front) os)))
      count
      (subst
        (λ (l : List FmtOut).
          All (IsOffer l) (own_from (length (front ++ f ∷ [])) fs (own_format f (length front) os)))
        (append_assoc front (f ∷ []) fs) next)

find_name-IsOffer :
    (fmts : List FmtOut) (m : Bytes) (os : List Offer)
    → All (IsOffer fmts) os
    → mem m (names os) ≡ true
    → (i : ℕ) × (f : FmtOut) × (find_name m os ≡ some i) × (get_elem? fmts i ≡ some f) × GoesBy f m
unfolding find_name
find_name-IsOffer fmts m [] h k = absurd (ground arith)
find_name-IsOffer fmts m (o ∷ os) ((f, at, g), hs) k = elim (Bool-cases (bytes_eq o.name m)) [
  | inl e ↦ (o.fmt, f, rw e refl, at, subst (GoesBy f) (bytes_eq_sound o.name m e) g)
  | inr e ↦
      let (i, f', found, at', g') = find_name-IsOffer fmts m os hs (ground (arith, e, k)) in
      (i, f', rw e found, at', g')
]

-- A reader that asks for any name on offer, the marker apart, gets the bytes of a format that is in the
-- payload and goes by this name.
pub on_send_offered :
    (pl : ClipPayload) (mime : Bytes)
    → bytes_eq mime mime_marker ≡ false
    → mem mime (names (own_names pl)) ≡ true
    → (i : ℕ) × (f : FmtOut) × (get_elem? pl.fmts i ≡ some f)
      × (on_send pl mime ≡ some f.content)
      × GoesBy f mime
unfolding on_send
on_send_offered pl mime other offered =
    let all : All (IsOffer pl.fmts) (own_names pl) =
      unfold own_names in own_from-IsOffer [] pl.fmts [] tt in
    let (i, f, found, at, g) = find_name-IsOffer pl.fmts mime (own_names pl) all offered in
    (i, f, at, ground (arith, other, found, at), g)
