-- ===== src/Mime/Reads.antt =====
-- The reads of a plan: their number and their names.
use clipnet.Base.{
  ◌+◌, ◌≤◌, ◌≡◌, refl, sym, ap, subst, ◌⊎◌, inl, inr, Bool, true, ◌||◌, Option, none, some, List,
  [], ◌∷◌, ◌++◌, append_assoc, arith, ltb, Bool-cases, length, length-append, All, Bytes,
  bytes_eq_refl, mem, mem-append, Distinct, Distinct-snoc, or_false,
}
use clipnet.Mime.{
  Read, canonicals, seen, Scan, scan_start, scan_offer, scan_offers, skipped, plan_visit, plan_loop,
  text_read, mime_plan_build,
}

pub length-plan_visit :
    (png : Bool) (reads : List Read) (m : Bytes)
    → (length reads ≤ length (plan_visit png reads m))
      × (length (plan_visit png reads m) ≤ length reads + 1)
unfolding plan_visit
length-plan_visit png reads m =
    ground (arith, length-append reads (record { offered = m; canonical = m } ∷ []))

plan_loop_bound :
    (png : Bool) (reads : List Read) (ms : List Bytes)
    → length reads ≤ 32
    → length (plan_loop png reads ms) ≤ 32
unfolding plan_loop
plan_loop_bound png reads [] h = h
plan_loop_bound png reads (m ∷ ms) h =
    ground (arith, plan_loop_bound png (plan_visit png reads m) ms, length-plan_visit png reads m)

scan_offers_bound :
    (st : Scan) (ms : List Bytes) → length st.aliases ≤ 16 → length (scan_offers st ms).aliases ≤ 16
unfolding scan_offers scan_offer
scan_offers_bound st [] h = h
scan_offers_bound st (m ∷ ms) h =
    scan_offers_bound (scan_offer st m) ms (ground (arith, length-append st.aliases (m ∷ [])))

-- The arrays of a plan are never overrun: 32 reads and 16 text aliases at most.
pub mime_plan_build_bounds :
    (offered : List Bytes)
    → (length (mime_plan_build offered).reads ≤ 32)
      × (length (mime_plan_build offered).text_aliases ≤ 16)
unfolding mime_plan_build
mime_plan_build_bounds offered =
    let st = scan_offers scan_start offered in
    (
      plan_loop_bound st.has_png (text_read st.best_text) offered (ground arith),
      scan_offers_bound scan_start offered (omega arith),
    )

pub canonicals-append : (xs ys : List Read) → canonicals (xs ++ ys) ≡ canonicals xs ++ canonicals ys
canonicals-append [] ys = refl
canonicals-append (x ∷ xs) ys = ap (◌∷◌ x.canonical) (canonicals-append xs ys)

plan_visit-Distinct :
    (png : Bool) (reads : List Read) (m : Bytes)
    → Distinct (canonicals reads)
    → Distinct (canonicals (plan_visit png reads m))
unfolding plan_visit seen
plan_visit-Distinct png reads m d = elim (Bool-cases (skipped png m || mem m (canonicals reads))) [
  | inl e ↦ rw e d
  | inr e ↦
      rw (e, canonicals-append reads (record { offered = m; canonical = m } ∷ []))
        (Distinct-snoc (canonicals reads) m d
          (or_false (skipped png m) (mem m (canonicals reads)) e).1)
]

pub plan_loop_step :
    (png : Bool) (reads : List Read) (m : Bytes) (ms : List Bytes)
    → ((plan_loop png reads (m ∷ ms) ≡ reads) × (32 ≤ length reads))
      ⊎ (plan_loop png reads (m ∷ ms) ≡ plan_loop png (plan_visit png reads m) ms)
unfolding plan_loop
plan_loop_step png reads m ms = elim (Bool-cases (ltb (length reads) 32)) [
  | inl e ↦ inr (ground (arith, e))
  | inr e ↦ inl (ground (arith, e), ground (arith, e))
]

-- What every round keeps holds behind the loop; a round is at a name of the list.
module _ (png : Bool) (offered : List Bytes) (P : List Read → Type 0) where
  pub plan_loop_inv :
      ((reads : List Read) (m : Bytes)
        → mem m offered ≡ true
        → P reads
        → P (plan_visit png reads m))
      → (reads : List Read) (ms : List Bytes) → All (λ m. mem m offered ≡ true) ms
      → P reads
      → P (plan_loop png reads ms)
  unfolding plan_loop
  plan_loop_inv keep reads [] inside h = h
  plan_loop_inv keep reads (m ∷ ms) (here, inside) h = elim (plan_loop_step png reads m ms) [
    | inl (e, _) ↦ subst P (sym e) h
    | inr e ↦
        subst P (sym e)
          (plan_loop_inv keep (plan_visit png reads m) ms inside (keep reads m here h))
  ]

pub All-mem : (front ms : List Bytes) → All (λ m. mem m (front ++ ms) ≡ true) ms
All-mem front [] = tt
All-mem front (m ∷ ms) = (
  ground (arith, mem-append m front (m ∷ ms), bytes_eq_refl m),
  subst (λ (l : List Bytes). All (λ x. mem x l ≡ true) ms) (append_assoc front (m ∷ []) ms)
      (All-mem (front ++ m ∷ []) ms),
)

text_read-Distinct : (o : Option Bytes) → Distinct (canonicals (text_read o))
text_read-Distinct none = tt
text_read-Distinct (some m) = (refl, tt)

-- No canonical name is read twice.
pub mime_plan_build-Distinct :
    (offered : List Bytes) → Distinct (canonicals (mime_plan_build offered).reads)
unfolding mime_plan_build
mime_plan_build-Distinct offered =
    let st = scan_offers scan_start offered in
    plan_loop_inv st.has_png offered (λ reads. Distinct (canonicals reads))
      (λ reads m _. plan_visit-Distinct st.has_png reads m) (text_read st.best_text) offered
      (All-mem [] offered) (text_read-Distinct st.best_text)
