-- ===== src/Sha256/Padding.antt =====
-- `sha256_final` against the padding and the hash of the standard (FIPS 180-4, 5.1.1 and 6.2.2).
use clipnet.Base.{
  ℕ, zero, suc, ◌+◌, ◌-◌, ◌*◌, ◌/◌, ◌%◌, ◌^◌, ◌<◌, ◌≡◌, refl, sym, ap, ◌∙◌, subst, List, [], ◌∷◌,
  ◌++◌, append-nil, append_assoc, arith, ◌==◌, ==_iff, length, take, drop, length-append,
  length-drop, Bytes, replicate, elim-both, replicate,
}
use clipnet.Sha256.{
  Words, initial, compress, Sha256, sha256_init, with_total, sha256_update, fill_zeros, big_endian,
  digest, sha256_final,
}
use clipnet.Sha256.Absorb.{
  whole, whole_more, whole_none, by_blocks, length-whole, whole-append, sha256_update_lem,
}

-- The standard: 0x80, as few zeros as lead to 56 bytes modulo 64, and the length in bits.
abbrev pub padded : Bytes → Bytes
padded m =
    m
    ++ 0x80 ∷ []
    ++ replicate ((119 - length m % 64) % 64) 0
    ++ big_endian 8 (length m * 8 % 2 ^ 64)

-- `n` blocks, one after the other.
pub hash_blocks : ℕ → Words → Bytes → Words
hash_blocks zero w p = w
hash_blocks (suc n) w p = hash_blocks n (compress w (take 64 p)) (drop 64 p)

abbrev pub updates : List Bytes → Sha256 → Sha256
updates [] s = s
updates (p ∷ ps) s = updates ps (sha256_update s p)

abbrev pub joined : List Bytes → Bytes
joined [] = []
joined (p ∷ ps) = p ++ joined ps

-- The state in which a message has been taken in.
abbrev Took : Bytes → Sha256 → Type 0
Took m s = s ≡ with_total (length m % 2 ^ 64) (whole initial m)

sha256_update-Took : (m p : Bytes) (s : Sha256) → Took m s → Took (m ++ p) (sha256_update s p)
sha256_update-Took m p s h =
    let left : length s.block ≡ length m % 64 =
      ap (λ (t : Sha256). length t.block) h ∙ length-whole initial m in
    let total : (s.total + length p) % 2 ^ 64 ≡ length (m ++ p) % 2 ^ 64 =
      omega (arith, ap (λ (t : Sha256). t.total) h, length-append m p) in
    sha256_update_lem s p (omega (arith, left))
    ∙ ap (λ t. with_total t (whole s.words (s.block ++ p))) total
    ∙ ap (λ (t : Sha256). with_total (length (m ++ p) % 2 ^ 64) (whole t.words (t.block ++ p))) h
    ∙ ap (with_total (length (m ++ p) % 2 ^ 64)) (sym (whole-append initial m p))

updates-Took :
    (m : Bytes) (ps : List Bytes) (s : Sha256) → Took m s → Took (m ++ joined ps) (updates ps s)
updates-Took m [] s h = subst (λ (x : Bytes). Took x s) (sym (append-nil m)) h
updates-Took m (p ∷ ps) s h =
    subst (λ (x : Bytes). Took x (updates ps (sha256_update s p))) (append_assoc m p (joined ps))
      (updates-Took (m ++ p) ps (sha256_update s p) (sha256_update-Took m p s h))

-- The loop adds exactly `k` zeros.
fill_zeros-Took :
    (n k : ℕ) (m : Bytes) (s : Sha256)
    → k < n
    → k < 64
    → (length m + k) % 64 ≡ 56
    → Took m s
    → Took (m ++ replicate k 0) (fill_zeros n s)
unfolding fill_zeros
fill_zeros-Took zero k m s few short ends h = absurd (omega arith)
fill_zeros-Took (suc n) zero m s few short ends h =
    let left : length s.block ≡ length m % 64 =
      ap (λ (t : Sha256). length t.block) h ∙ length-whole initial m in
    elim-both (λ (t : Sha256). Took (m ++ []) t) (length s.block == 56) _ _
      (λ e. subst (λ (x : Bytes). Took x s) (sym (append-nil m)) h)
      (λ e.
        let last = (==_iff (length s.block) 56).1 (omega (arith, left, ends)) in
        absurd (cc (e, last)))
fill_zeros-Took (suc n) (suc k) m s few short ends h =
    let left : length s.block ≡ length m % 64 =
      ap (λ (t : Sha256). length t.block) h ∙ length-whole initial m in
    let more = length-append m (0 ∷ []) in
    let again =
      fill_zeros-Took n k (m ++ 0 ∷ []) (sha256_update s (0 ∷ [])) (omega arith) (omega arith)
        (omega (arith, more, ends)) (sha256_update-Took m (0 ∷ []) s h) in
    elim-both (λ (t : Sha256). Took (m ++ replicate (suc k) 0) t) (length s.block == 56) _ _
      (λ e. absurd (omega (arith, (==_iff (length s.block) 56).0 e, left, ends, short)))
      (λ e.
        subst (λ (x : Bytes). Took x (fill_zeros n (sha256_update s (0 ∷ []))))
          (append_assoc m (0 ∷ []) (replicate k 0)) again)

length-big_endian : (n x : ℕ) → length (big_endian n x) ≡ n
unfolding big_endian
length-big_endian zero x = refl
length-big_endian (suc n) x = omega (arith, length-big_endian n x)

length-replicate : (n : ℕ) → length {A = ℕ} (replicate n 0) ≡ n
length-replicate zero = refl
length-replicate (suc n) = omega (arith, length-replicate n)

length-padded : (m : Bytes) → length (padded m) % 64 ≡ 0
length-padded m =
    let k = (119 - length m % 64) % 64 in
    let bits = big_endian 8 (length m * 8 % 2 ^ 64) in
    omega (
      arith,
      length-append (m ++ 0x80 ∷ [] ++ replicate k 0) bits,
      length-append (m ++ 0x80 ∷ []) (replicate k 0),
      length-append m (0x80 ∷ []),
      length-replicate k,
      length-big_endian 8 (length m * 8 % 2 ^ 64),
    )

whole-hash_blocks : (w : Words) (p : Bytes) → (whole w p).0 ≡ hash_blocks (length p / 64) w p
unfolding hash_blocks
whole-hash_blocks w p =
    by_blocks (λ w p. (whole w p).0 ≡ hash_blocks (length p / 64) w p)
      (λ w p h.
        ap (λ (r : Words × Bytes). r.0) (whole_none w p h)
        ∙ ap (λ n. hash_blocks n w p) {x = 0} {y = length p / 64} (omega arith))
      (λ w p h r.
        ap (λ (r : Words × Bytes). r.0) (whole_more w p h)
        ∙ r
        ∙ ap (λ n. hash_blocks n w p) {x = suc (length (drop 64 p) / 64)} {y = length p / 64}
            (omega (arith, length-drop 64 p)))
      (length p) w p (omega arith)

final-Took :
    (m : Bytes) (s : Sha256)
    → Took m s
    → sha256_final s ≡ digest (hash_blocks (length (padded m) / 64) initial (padded m))
unfolding sha256_final
final-Took m s h =
    let one = sha256_update-Took m (0x80 ∷ []) s h in
    let k = (119 - length m % 64) % 64 in
    let zeros =
      fill_zeros-Took 64 k (m ++ 0x80 ∷ []) (sha256_update s (0x80 ∷ [])) (omega arith)
        (omega arith) (omega (arith, length-append m (0x80 ∷ []))) one in
    let bits : s.total * 8 % 2 ^ 64 ≡ length m * 8 % 2 ^ 64 =
      omega (arith, ap (λ (t : Sha256). t.total) h) in
    let filled = fill_zeros 64 (sha256_update s (0x80 ∷ [])) in
    let all =
      sha256_update-Took (m ++ 0x80 ∷ [] ++ replicate k 0) (big_endian 8 (length m * 8 % 2 ^ 64))
        filled zeros in
    ap (λ b. digest (sha256_update filled (big_endian 8 b)).words) bits
    ∙ ap (λ (t : Sha256). digest t.words) all
    ∙ ap digest (whole-hash_blocks initial (padded m))

-- However a message is cut into pieces, the digest is that of the standard: the padded message is a
-- whole number of blocks, and the result is the hash of these blocks in order.
pub sha256_final-updates :
    (ps : List Bytes)
    → (length (padded (joined ps)) % 64 ≡ 0)
      × (sha256_final (updates ps sha256_init)
          ≡ digest (hash_blocks (length (padded (joined ps)) / 64) initial (padded (joined ps))))
unfolding sha256_init
sha256_final-updates ps = (
  length-padded (joined ps),
  final-Took (joined ps) (updates ps sha256_init) (
      updates-Took [] ps sha256_init
        (sym (ap (with_total 0) (whole_none initial [] (omega arith))))),
)
