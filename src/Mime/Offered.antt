-- ===== src/Mime/Offered.antt =====
-- The reads of a plan and its flags against what was offered.
use clipnet.Base.{
  ℕ, ◌<◌, ◌≡◌, refl, sym, ap, ◌∙◌, subst, ◌⊎◌, inl, inr, Bool, true, false, ◌&&◌, ◌||◌, Option,
  none, some, List, [], ◌∷◌, arith, ltb, if◌then◌else◌, Bool-cases, Option-cases, length, All,
  All-append, Bytes, bytes_eq, bytes_eq_sound, bytes_eq_refl, mem, mem-append, or_false,
}
use clipnet.Mime.{
  mime_text, mime_marker, mime_password_hint, mime_png, text_rank, mime_is_text_alias, Read,
  canonicals, seen, Scan, scan_start, scan_offer, scan_offers, skipped, plan_visit, plan_loop,
  text_read, mime_plan_build,
}
use clipnet.Mime.Reads.{canonicals-append, plan_loop_step, plan_loop_inv, All-mem}

-- What a read stands for: the text under its best name, or a wanted name under itself.
abbrev pub IsRead : Bool → List Bytes → Read → Type 0
IsRead png offered r =
    (mem r.offered offered ≡ true)
    × (((r.canonical ≡ mime_text) × (mime_is_text_alias r.offered ≡ true))
        ⊎ ((r.canonical ≡ r.offered) × (skipped png r.offered ≡ false)))

plan_visit-IsRead :
    (png : Bool) (offered : List Bytes) (reads : List Read) (m : Bytes)
    → mem m offered ≡ true
    → All (IsRead png offered) reads
    → All (IsRead png offered) (plan_visit png reads m)
unfolding plan_visit seen
plan_visit-IsRead png offered reads m here h =
    elim (Bool-cases (skipped png m || mem m (canonicals reads))) [
      | inl e ↦ rw e h
      | inr e ↦ rw e (
          All-append (IsRead png offered) reads (record { offered = m; canonical = m } ∷ []) h
            ((here, inr (refl, (or_false (skipped png m) (mem m (canonicals reads)) e).0)), tt))
    ]

-- The best text name so far is one of the names, and an alias.
abbrev pub BestIn : List Bytes → Option Bytes → Type 0
BestIn offered none = Unit {0}
BestIn offered (some m) = (mem m offered ≡ true) × (mime_is_text_alias m ≡ true)

mime_is_text_alias_rank : (m : Bytes) (r : ℕ) → text_rank m ≡ some r → mime_is_text_alias m ≡ true
unfolding mime_is_text_alias
mime_is_text_alias_rank m r e = rw (e, mime_is_text_alias)

pick-BestIn :
    (offered : List Bytes) (b : Bool) (m : Bytes) (o : Option Bytes)
    → BestIn offered (some m)
    → BestIn offered o
    → BestIn offered (if b then some m else o)
pick-BestIn offered true m o h k = h
pick-BestIn offered false m o h k = k

scan_offer-BestIn :
    (offered : List Bytes) (st : Scan) (m : Bytes)
    → mem m offered ≡ true
    → BestIn offered st.best_text
    → BestIn offered (scan_offer st m).best_text
scan_offer-BestIn offered st m here h = elim (Option-cases (text_rank m)) [
  | inl e ↦ unfold scan_offer in rw (e, scan_offer) h
  | inr (r, e) ↦
      unfold scan_offer in
      rw (e, scan_offer)
        (pick-BestIn offered (ltb r st.best_rank) m st.best_text
          (here, mime_is_text_alias_rank m r e) h)
]

pub scan_offers-BestIn :
    (offered ms : List Bytes) (st : Scan)
    → All (λ m. mem m offered ≡ true) ms
    → BestIn offered st.best_text
    → BestIn offered (scan_offers st ms).best_text
unfolding scan_offers
scan_offers-BestIn offered [] st inside h = h
scan_offers-BestIn offered (m ∷ ms) st (here, inside) h =
    scan_offers-BestIn offered ms (scan_offer st m) inside (scan_offer-BestIn offered st m here h)

text_read-IsRead :
    (png : Bool) (offered : List Bytes) (o : Option Bytes)
    → BestIn offered o
    → All (IsRead png offered) (text_read o)
text_read-IsRead png offered none h = tt
text_read-IsRead png offered (some m) (here, alias) = ((here, inl (refl, alias)), tt)

scan_offer_flags :
    (st : Scan) (m : Bytes)
    → ((scan_offer st m).has_png ≡ (st.has_png || bytes_eq m mime_png))
      × ((scan_offer st m).ours ≡ (st.ours || bytes_eq m mime_marker))
      × ((scan_offer st m).sensitive ≡ (st.sensitive || bytes_eq m mime_password_hint))
unfolding scan_offer
scan_offer_flags st m = elim (Option-cases (text_rank m)) [
  | inl e ↦ rw (e, scan_offer) (refl, refl, refl)
  | inr (r, e) ↦ rw (e, scan_offer) (refl, refl, refl)
]

or_assoc : (a b c : Bool) → (a || b || c) ≡ (a || (b || c))
or_assoc a b c = ground arith

scan_offers_flags :
    (st : Scan) (ms : List Bytes)
    → ((scan_offers st ms).has_png ≡ (st.has_png || mem mime_png ms))
      × ((scan_offers st ms).ours ≡ (st.ours || mem mime_marker ms))
      × ((scan_offers st ms).sensitive ≡ (st.sensitive || mem mime_password_hint ms))
unfolding scan_offers
scan_offers_flags st [] = ground arith
scan_offers_flags st (m ∷ ms) =
    let here = scan_offer_flags st m in
    let rest = scan_offers_flags (scan_offer st m) ms in
    (
      rest.0 ∙ rw here.0 (or_assoc st.has_png _ _),
      rest.1 ∙ rw here.1 (or_assoc st.ours _ _),
      rest.2 ∙ rw here.2 (or_assoc st.sensitive _ _),
    )

-- The two flags say exactly whether our marker and the password manager's hint were offered.
pub mime_plan_build_flags :
    (offered : List Bytes)
    → ((mime_plan_build offered).is_ours ≡ mem mime_marker offered)
      × ((mime_plan_build offered).is_sensitive ≡ mem mime_password_hint offered)
unfolding mime_plan_build
mime_plan_build_flags offered =
    let flags = scan_offers_flags scan_start offered in (flags.1, flags.2)

-- Everything that is read was offered. It is the text under an alias, or a name read as itself, which is
-- neither ignored nor an alias, nor, where a PNG is offered, another rendering of the picture.
mime_plan_build-IsRead :
    (offered : List Bytes)
    → All (IsRead (mem mime_png offered) offered) (mime_plan_build offered).reads
unfolding mime_plan_build
mime_plan_build-IsRead offered =
    let st = scan_offers scan_start offered in
    rw (← (scan_offers_flags scan_start offered).0) (
      plan_loop_inv st.has_png offered (All (IsRead st.has_png offered))
        (plan_visit-IsRead st.has_png offered) (text_read st.best_text) offered (All-mem [] offered)
        (text_read-IsRead st.has_png offered st.best_text
          (scan_offers-BestIn offered offered scan_start (All-mem [] offered) tt)))

-- A wanted name that the reads lack.
abbrev Missing : Bool → Bytes → List Read → Type 0
Missing png m reads = (skipped png m ≡ false) × (mem m (canonicals reads) ≡ false)

plan_visit-keeps :
    (png : Bool) (reads : List Read) (m x : Bytes)
    → mem x (canonicals reads) ≡ true
    → mem x (canonicals (plan_visit png reads m)) ≡ true
unfolding plan_visit seen
plan_visit-keeps png reads m x h = elim (Bool-cases (skipped png m || mem m (canonicals reads))) [
  | inl e ↦ rw e h
  | inr e ↦
      rw (e, canonicals-append reads (record { offered = m; canonical = m } ∷ []))
        (ground (arith, mem-append x (canonicals reads) (m ∷ []), h))
]

plan_loop-keeps :
    (png : Bool) (reads : List Read) (ms : List Bytes) (x : Bytes)
    → mem x (canonicals reads) ≡ true
    → mem x (canonicals (plan_loop png reads ms)) ≡ true
unfolding plan_loop
plan_loop-keeps png reads [] x h = h
plan_loop-keeps png reads (m ∷ ms) x h = elim (plan_loop_step png reads m ms) [
  | inl (e, _) ↦ subst (λ rs. mem x (canonicals rs) ≡ true) (sym e) h
  | inr e ↦
      subst (λ rs. mem x (canonicals rs) ≡ true) (sym e)
        (plan_loop-keeps png (plan_visit png reads m) ms x (plan_visit-keeps png reads m x h))
]

plan_visit-adds :
    (png : Bool) (reads : List Read) (m : Bytes)
    → skipped png m ≡ false
    → mem m (canonicals (plan_visit png reads m)) ≡ true
unfolding plan_visit seen
plan_visit-adds png reads m wanted = elim (Bool-cases (mem m (canonicals reads))) [
  | inl e ↦ rw (wanted, e) e
  | inr e ↦
      rw (wanted, e, canonicals-append reads (record { offered = m; canonical = m } ∷ []))
        (ground (arith, mem-append m (canonicals reads) (m ∷ []), bytes_eq_refl m))
]

plan_loop_complete :
    (png : Bool) (reads : List Read) (ms : List Bytes) (x : Bytes)
    → skipped png x ≡ false
    → mem x ms ≡ true
    → length (plan_loop png reads ms) < 32
    → mem x (canonicals (plan_loop png reads ms)) ≡ true
plan_loop_complete png reads [] x wanted h room = cc
plan_loop_complete png reads (m ∷ ms) x wanted h room = elim (plan_loop_step png reads m ms) [
  | inl (e, full) ↦ absurd (omega (arith, ap length e))
  | inr e ↦
      let reads' = plan_visit png reads m in
      subst (λ rs. mem x (canonicals rs) ≡ true) (sym e)
        (elim (Bool-cases (bytes_eq m x)) [
          | inl same ↦ plan_loop-keeps png reads' ms x (
              subst (λ (y : Bytes). mem y (canonicals reads') ≡ true) (bytes_eq_sound m x same)
                (plan_visit-adds png reads m (
                  subst (λ (y : Bytes). skipped png y ≡ false) (sym (bytes_eq_sound m x same))
                    wanted)))
          | inr other ↦
              plan_loop_complete png reads' ms x wanted (ground (arith, h, other))
                (omega (arith, ap length e))
        ])
]

-- The name is requested, and what is read is stored under it.
pub has_read : Bytes → List Read → Bool
has_read x [] = false
has_read x (r ∷ rs) = bytes_eq r.offered x && bytes_eq r.canonical x || has_read x rs

skipped-mime_text : (png : Bool) → skipped png mime_text ≡ true
unfolding skipped mime_is_text_alias text_rank
skipped-mime_text false = refl
skipped-mime_text true = refl

canonicals-has_read :
    (png : Bool) (offered : List Bytes) (x : Bytes) (reads : List Read)
    → All (IsRead png offered) reads
    → skipped png x ≡ false
    → mem x (canonicals reads) ≡ true
    → has_read x reads ≡ true
unfolding has_read
canonicals-has_read png offered x [] h wanted k = cc
canonicals-has_read png offered x (r ∷ reads) ((_, kind), hs) wanted k =
    elim (Bool-cases (bytes_eq r.canonical x)) [
      | inr other ↦
          ground
            (arith, canonicals-has_read png offered x reads hs wanted (ground (arith, k, other)))
      | inl same ↦ elim kind [
        | inl (text, _) ↦
            let is_text : x ≡ mime_text = sym (bytes_eq_sound r.canonical x same) ∙ text in
            absurd cc (sym wanted ∙ ap (skipped png) is_text ∙ skipped-mime_text png)
        | inr (itself, _) ↦
            let asked : bytes_eq r.offered x ≡ true =
              subst (λ (y : Bytes). bytes_eq y x ≡ true) itself same in
            ground (arith, same, asked)
      ]
    ]

-- Every offered name that `skipped` lets through is requested and stored under itself, unless the plan
-- is full.
pub mime_plan_build_complete :
    (offered : List Bytes) (x : Bytes)
    → mem x offered ≡ true
    → skipped (mem mime_png offered) x ≡ false
    → length (mime_plan_build offered).reads < 32
    → has_read x (mime_plan_build offered).reads ≡ true
unfolding mime_plan_build
mime_plan_build_complete offered x here wanted room =
    let st = scan_offers scan_start offered in
    let reads = plan_loop st.has_png (text_read st.best_text) offered in
    canonicals-has_read (mem mime_png offered) offered x reads (mime_plan_build-IsRead offered)
      wanted
      (plan_loop_complete st.has_png (text_read st.best_text) offered x
        (rw (scan_offers_flags scan_start offered).0 wanted) here room)
