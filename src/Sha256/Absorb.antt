-- ===== src/Sha256/Absorb.antt =====
-- `sha256_update`, and the blocks of a message that comes in pieces.
use clipnet.Base.{
  ℕ, zero, suc, ◌+◌, ◌-◌, ◌%◌, ◌^◌, ◌≤◌, ◌<◌, min, ◌≡◌, refl, sym, ap, ◌∙◌, ◌++◌, arith, ltb, leb,
  ltb→lt, length, take, drop, length-append, length-drop, Bytes, dec_lt, elim-both, take_within,
  drop_within, take_past, drop_past, take_all, length-take, length-zero,
}
use clipnet.Sha256.{Words, compress, Sha256, whole_blocks, with_total, sha256_update}

-- What is left of a message when its whole blocks are compressed.
abbrev pub whole : Words → Bytes → Words × Bytes
whole w p = whole_blocks (length p) w p

whole_blocks_none : (n : ℕ) (w : Words) (p : Bytes) → length p < 64 → whole_blocks n w p ≡ (w, p)
unfolding whole_blocks
whole_blocks_none zero w p h = refl
whole_blocks_none (suc n) w p h =
    elim-both (λ (r : Words × Bytes). r ≡ (w, p)) (leb 64 (length p)) _ _
      (λ e. absurd (ground (arith, e))) (λ e. refl)

whole_blocks_more :
    (n : ℕ) (w : Words) (p : Bytes)
    → 64 ≤ length p
    → whole_blocks (suc n) w p ≡ whole_blocks n (compress w (take 64 p)) (drop 64 p)
unfolding whole_blocks
whole_blocks_more n w p h =
    elim-both (λ (r : Words × Bytes). r ≡ whole_blocks n (compress w (take 64 p)) (drop 64 p))
      (leb 64 (length p)) _ _ (λ e. refl) (λ e. absurd (ground (arith, e)))

whole_blocks_fuel :
    (n m : ℕ) (w : Words) (p : Bytes)
    → length p ≤ n
    → length p ≤ m
    → whole_blocks n w p ≡ whole_blocks m w p
whole_blocks_fuel zero m w p a b =
    whole_blocks_none zero w p (omega arith) ∙ sym (whole_blocks_none m w p (omega arith))
whole_blocks_fuel (suc n) zero w p a b =
    whole_blocks_none (suc n) w p (omega arith) ∙ sym (whole_blocks_none zero w p (omega arith))
whole_blocks_fuel (suc n) (suc m) w p a b =
    let shorter = length-drop 64 p in
    let again = whole_blocks_fuel n m (compress w (take 64 p)) (drop 64 p) in
    elim (dec_lt (length p) 64) [
      | yes small ↦ whole_blocks_none (suc n) w p small ∙ sym (whole_blocks_none (suc m) w p small)
      | no large ↦
          whole_blocks_more n w p (omega arith)
          ∙ again (omega (arith, shorter)) (omega (arith, shorter))
          ∙ sym (whole_blocks_more m w p (omega arith))
    ]

pub whole_more :
    (w : Words) (p : Bytes) → 64 ≤ length p → whole w p ≡ whole (compress w (take 64 p)) (drop 64 p)
whole_more w p h =
    whole_blocks_fuel (length p) (suc (length p)) w p (omega arith) (omega arith)
    ∙ whole_blocks_more (length p) w p h
    ∙ whole_blocks_fuel (length p) (length (drop 64 p)) (compress w (take 64 p)) (drop 64 p)
        (omega (arith, length-drop 64 p)) (omega arith)

pub whole_none : (w : Words) (p : Bytes) → length p < 64 → whole w p ≡ (w, p)
whole_none w p h = whole_blocks_none (length p) w p h

-- Induction on the blocks of a message.
pub by_blocks {ℓ} :
    (P : Words → Bytes → Type ℓ)
    → ((w : Words) (p : Bytes) → length p < 64 → P w p)
    → ((w : Words) (p : Bytes) → 64 ≤ length p → P (compress w (take 64 p)) (drop 64 p) → P w p)
    → (n : ℕ) (w : Words) (p : Bytes) → length p ≤ n
    → P w p
by_blocks P small large zero w p h = small w p (omega arith)
by_blocks P small large (suc n) w p h =
    let rest = by_blocks P small large n (compress w (take 64 p)) (drop 64 p) in
    elim (dec_lt (length p) 64) [
      | yes s ↦ small w p s
      | no l ↦ large w p (omega arith) (rest (omega (arith, length-drop 64 p)))
    ]

pub length-whole : (w : Words) (p : Bytes) → length (whole w p).1 ≡ length p % 64
length-whole w p =
    by_blocks (λ w p. length (whole w p).1 ≡ length p % 64)
      (λ w p h. ap (λ (r : Words × Bytes). length r.1) (whole_none w p h) ∙ omega arith)
      (λ w p h r.
        ap (λ (r : Words × Bytes). length r.1) (whole_more w p h)
        ∙ r
        ∙ omega (arith, length-drop 64 p))
      (length p) w p (omega arith)

pub whole-append :
    (w : Words) (p q : Bytes) → whole w (p ++ q) ≡ whole (whole w p).0 ((whole w p).1 ++ q)
whole-append w p q =
    by_blocks (λ w p. whole w (p ++ q) ≡ whole (whole w p).0 ((whole w p).1 ++ q))
      (λ w p h. rw (whole_none w p h) refl)
      (λ w p h r.
        whole_more w (p ++ q) (omega (arith, length-append p q))
        ∙ rw (take_within 64 p q h, drop_within 64 p q h, whole_more w p h) r)
      (length p) w p (omega arith)

-- One update, whether the buffer is empty, stays short of a block or completes one.
pub sha256_update_lem :
    (s : Sha256) (p : Bytes)
    → length s.block < 64
    → sha256_update s p ≡ with_total ((s.total + length p) % 2 ^ 64) (whole s.words (s.block ++ p))
unfolding sha256_update
sha256_update_lem s p h =
    let n = min (64 - length s.block) (length p) in
    let total = (s.total + length p) % 2 ^ 64 in
    let block = s.block ++ take n p in
    let rest = drop n p in
    let Goal = λ (r : Sha256). r ≡ with_total total (whole s.words (s.block ++ p)) in
    elim-both Goal (ltb 0 (length s.block)) _ _
      (λ e.
        elim-both Goal (ltb (length block) 64) _ _ (λ f. short (ltb→lt (length block) 64 f))
          (λ f. full (ground (arith, f))))
      (λ e.
        let empty = length-zero s.block (ground (arith, e)) in
        ap (λ (b : Bytes). with_total total (whole s.words (b ++ p))) (sym empty))
  where
    n : ℕ
    n = min (64 - length s.block) (length p)

    total : ℕ
    total = (s.total + length p) % 2 ^ 64

    count : length (s.block ++ take n p) ≡ length s.block + n
    count = omega (arith, length-append s.block (take n p), length-take n p (omega arith))

    short :
        length (s.block ++ take n p) < 64
        → record { words = s.words; total = total; block = s.block ++ take n p }
          ≡ with_total total (whole s.words (s.block ++ p))
    short f =
        let all = take_all n p (omega (arith, count, f)) in
        let few : length (s.block ++ p) < 64 = rw (sym all) f in
        rw (all, whole_none s.words (s.block ++ p) few) refl

    full :
        64 ≤ length (s.block ++ take n p)
        → with_total total (whole (compress s.words (s.block ++ take n p)) (drop n p))
          ≡ with_total total (whole s.words (s.block ++ p))
    full f =
        let exact : 64 ≡ length s.block + n = omega (arith, count, f, h) in
        ap (with_total total) (
          sym (
            whole_more s.words (s.block ++ p) (omega (arith, exact, length-append s.block p))
            ∙ ap (λ (b : Bytes). whole (compress s.words b) (drop 64 (s.block ++ p)))
                (take_past 64 n s.block p exact)
            ∙ ap (λ (d : Bytes). whole (compress s.words (s.block ++ take n p)) d)
                (drop_past 64 n s.block p exact)))
