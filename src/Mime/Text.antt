-- ===== src/Mime/Text.antt =====
-- The text among the reads of a plan.
use clipnet.Base.{
  ℕ, ◌≤◌, ◌≡◌, refl, sym, subst, inl, inr, Bool, true, false, ◌||◌, Option, none, some, List, [],
  ◌∷◌, ◌++◌, arith, ltb, if◌then◌else◌, Bool-cases, Option-cases, length, Bytes, bytes_eq,
  bytes_eq_sound, mem,
}
use clipnet.Mime.Reads.{All-mem}
use clipnet.Mime.Offered.{BestIn, scan_offers-BestIn}
use clipnet.Mime.{
  mime_text, text_rank, Read, seen, Scan, scan_start, scan_offer, scan_offers, skipped, plan_visit,
  plan_loop, mime_plan_build,
}

text_rank_bound : (m : Bytes) (r : ℕ) → text_rank m ≡ some r → r ≤ 4
unfolding text_rank
text_rank_bound m r h = ground arith

-- The best name has the best rank, and 99 stands for no name.
abbrev IsBest : Option Bytes → ℕ → Type 0
IsBest none r = r ≡ 99
IsBest (some b) r = text_rank b ≡ some r

pick-IsBest :
    (t : Bool) (m : Bytes) (r : ℕ) (o : Option Bytes) (k : ℕ)
    → text_rank m ≡ some r
    → IsBest o k
    → IsBest (if t then some m else o) (if t then r else k)
pick-IsBest true m r o k e h = e
pick-IsBest false m r o k e h = h

scan_offer-IsBest :
    (st : Scan) (m : Bytes)
    → IsBest st.best_text st.best_rank
    → IsBest (scan_offer st m).best_text (scan_offer st m).best_rank
unfolding scan_offer
scan_offer-IsBest st m h = elim (Option-cases (text_rank m)) [
  | inl e ↦ rw (e, scan_offer) h
  | inr (r, e) ↦
      rw (e, scan_offer) (pick-IsBest (ltb r st.best_rank) m r st.best_text st.best_rank e h)
]

scan_offer-rank_le : (st : Scan) (m : Bytes) → (scan_offer st m).best_rank ≤ st.best_rank
unfolding scan_offer
scan_offer-rank_le st m = elim (Option-cases (text_rank m)) [
  | inl e ↦ rw (e, scan_offer) (omega arith)
  | inr (r, e) ↦ rw (e, scan_offer) (ground arith)
]

scan_offer-rank_this :
    (st : Scan) (m : Bytes) (r : ℕ) → text_rank m ≡ some r → (scan_offer st m).best_rank ≤ r
unfolding scan_offer
scan_offer-rank_this st m r e = rw (e, scan_offer) (ground arith)

scan_offers-IsBest :
    (st : Scan) (ms : List Bytes)
    → IsBest st.best_text st.best_rank
    → IsBest (scan_offers st ms).best_text (scan_offers st ms).best_rank
      × ((scan_offers st ms).best_rank ≤ st.best_rank)
unfolding scan_offers
scan_offers-IsBest st [] h = (h, omega arith)
scan_offers-IsBest st (m ∷ ms) h =
    let rest = scan_offers-IsBest (scan_offer st m) ms (scan_offer-IsBest st m h) in
    (rest.0, omega (arith, rest.1, scan_offer-rank_le st m))

scan_offers-rank :
    (st : Scan) (ms : List Bytes) (m : Bytes) (r : ℕ)
    → IsBest st.best_text st.best_rank
    → mem m ms ≡ true
    → text_rank m ≡ some r
    → (scan_offers st ms).best_rank ≤ r
unfolding scan_offers
scan_offers-rank st [] m r best h e = cc
scan_offers-rank st (x ∷ ms) m r best h e = elim (Bool-cases (bytes_eq x m)) [
  | inl same ↦
      let rest = scan_offers-IsBest (scan_offer st x) ms (scan_offer-IsBest st x best) in
      omega (
        arith,
        rest.1,
        scan_offer-rank_this st x r
            (subst (λ (y : Bytes). text_rank y ≡ some r) (sym (bytes_eq_sound x m same)) e),
      )
  | inr other ↦
      scan_offers-rank (scan_offer st x) ms m r (scan_offer-IsBest st x best)
        (ground (arith, h, other)) e
]

plan_visit_head :
    (png : Bool) (x : Read) (xs : List Read) (m : Bytes)
    → (ys : List Read) × (plan_visit png (x ∷ xs) m ≡ x ∷ ys)
unfolding plan_visit
plan_visit_head png x xs m = elim (Bool-cases (skipped png m || seen (x ∷ xs) m)) [
  | inl e ↦ (xs, rw e)
  | inr e ↦ (xs ++ record { offered = m; canonical = m } ∷ [], rw e)
]

plan_loop_head :
    (png : Bool) (x : Read) (xs : List Read) (ms : List Bytes)
    → (ys : List Read) × (plan_loop png (x ∷ xs) ms ≡ x ∷ ys)
unfolding plan_loop
plan_loop_head png x xs [] = (xs, refl)
plan_loop_head png x xs (m ∷ ms) = elim (Bool-cases (ltb (length (x ∷ xs)) 32)) [
  | inr e ↦ (xs, ground (arith, e))
  | inl e ↦
      let (ys, first) = plan_visit_head png x xs m in
      let (zs, rest) = plan_loop_head png x ys ms in (zs, ground (arith, e, first, rest))
]

abbrev pub StartsWithText : List Bytes → List Read → ℕ → Type 0
StartsWithText offered reads r =
    (best : Bytes) × (k : ℕ) × (rest : List Read) × (reads
      ≡ record { offered = best; canonical = mime_text } ∷ rest)
    × (mem best offered ≡ true)
    × (text_rank best ≡ some k)
    × (k ≤ r)

-- Where a text name is offered, the first read is the text, under an offered name whose rank is at least
-- as good as that of any text name offered.
pub mime_plan_build_text :
    (offered : List Bytes) (m : Bytes) (r : ℕ)
    → mem m offered ≡ true
    → text_rank m ≡ some r
    → StartsWithText offered (mime_plan_build offered).reads r
unfolding mime_plan_build
mime_plan_build_text offered m r here e =
    let st = scan_offers scan_start offered in
    let best = (scan_offers-IsBest scan_start offered refl).0 in
    let low = scan_offers-rank scan_start offered m r refl here e in
    elim (Option-cases st.best_text) [
      | inl missing ↦
          let rank : st.best_rank ≡ 99 = subst (λ o. IsBest o st.best_rank) missing best in
          absurd (omega (arith, low, rank, text_rank_bound m r e))
      | inr (b, found) ↦
          let (rest, first) =
            plan_loop_head st.has_png (record { offered = b; canonical = mime_text }) [] offered in
          (
            b,
            st.best_rank,
            rest,
            rw found first,
            (subst (BestIn offered) found
                (scan_offers-BestIn offered offered scan_start (All-mem [] offered) tt)).0,
            subst (λ o. IsBest o st.best_rank) found best,
            low,
          )
    ]
