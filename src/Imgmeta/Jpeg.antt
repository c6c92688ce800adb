-- ===== src/Imgmeta/Jpeg.antt =====
-- The loop over the segments of a JPEG.
use clipnet.Base.{
  ℕ, zero, suc, ◌+◌, ◌≤◌, ◌<◌, ◌≡◌, refl, inl, inr, Bool, true, false, ◌&&◌, not, Option, some,
  arith, ltb, ◌==◌, if◌then◌else◌, ltb→lt, Bool-cases, length, Bytes,
}
use clipnet.Imgmeta.{
  Meta, ◌>>=◌, is_sof, is_standalone, JpegRound, jpeg_frame, jpeg_segment, jpeg_marker, jpeg_round,
  jpeg_loop, jpeg_size, found, skip,
}
use clipnet.Imgmeta.Reading.{Ensures, Works, OnlyIf, get_elem?-Works, be16-Works}

-- A round that goes on has moved.
abbrev Moves : ℕ → JpegRound → Type 0
Moves i (found b o) = Unit {0}
Moves i (skip i') = i < i'

module _ (p : Bytes) (i : ℕ) (o : Meta) (h : i + 9 < length p) where
  jpeg_frame-Ensures : Ensures (Moves i) (jpeg_frame p i o)
  unfolding jpeg_frame
  jpeg_frame-Ensures =
      let (a, e) = be16-Works p (i + 5) (omega arith) in
      let (b, f) = be16-Works p (i + 7) (omega arith) in
      (found (not (b == 0) && not (a == 0)) (record o { width = b; height = a }), rw (e, f), tt)

  jpeg_segment-Ensures : (m : ℕ) → Ensures (Moves i) (jpeg_segment p i m o)
  unfolding jpeg_segment
  jpeg_segment-Ensures m =
      let (len, e) = be16-Works p (i + 2) (omega arith) in
      let (r, f, moves) = jpeg_frame-Ensures in
      elim (Bool-cases (is_sof m)) [
        | inl s ↦ (r, rw (e, s, f), moves)
        | inr s ↦ elim (Bool-cases (ltb len 2)) [
          | inl t ↦ (found false o, ground (arith, e, s, t), tt)
          | inr t ↦ (skip (i + (2 + len)), ground (arith, e, s, t), omega arith)
        ]
      ]

  jpeg_marker-Ensures : (m : ℕ) → Ensures (Moves i) (jpeg_marker p i m o)
  unfolding jpeg_marker
  jpeg_marker-Ensures m =
      let (r, f, moves) = jpeg_segment-Ensures m in
      elim (Bool-cases (m == 0xFF)) [
        | inl s ↦ (skip (i + 1), ground (arith, s), omega arith)
        | inr s ↦ elim (Bool-cases (is_standalone m)) [
          | inl t ↦ (skip (i + 2), ground (arith, s, t), omega arith)
          | inr t ↦ (r, ground (arith, s, t, f), moves)
        ]
      ]

  jpeg_round-Ensures : Ensures (Moves i) (jpeg_round p i o)
  unfolding jpeg_round
  jpeg_round-Ensures =
      let (mark, e) = get_elem?-Works p i (omega arith) in
      let (m, g) = get_elem?-Works p (i + 1) (omega arith) in
      let (r, f, moves) = jpeg_marker-Ensures m in
      elim (Bool-cases (mark == 0xFF)) [
        | inl s ↦ (r, ground (arith, e, g, s, f), moves)
        | inr s ↦ (found false o, ground (arith, e, s), tt)
      ]

after_round :
    (fuel : ℕ) (p : Bytes) (i : ℕ) (o : Meta) (r : JpegRound)
    → ltb (i + 9) (length p) ≡ true
    → jpeg_round p i o ≡ some r
    → Moves i r
    → ((i' : ℕ) → i < i' → Works (jpeg_loop fuel p i' o))
    → Works (jpeg_loop (suc fuel) p i o)
unfolding jpeg_loop
after_round fuel p i o (found b o') inside e moves go = ((b, o'), ground (arith, inside, e))
after_round fuel p i o (skip i') inside e moves go =
    let (r, f) = go i' moves in (r, ground (arith, inside, e, f))

jpeg_loop-Works :
    (fuel : ℕ) (p : Bytes) (i : ℕ) (o : Meta)
    → 1 ≤ fuel
    → length p ≤ i + fuel
    → Works (jpeg_loop fuel p i o)
jpeg_loop-Works zero p i o some_fuel enough = absurd (omega arith)
jpeg_loop-Works (suc fuel) p i o some_fuel enough = elim (Bool-cases (ltb (i + 9) (length p))) [
  | inr e ↦ ((false, o), unfold jpeg_loop in ground (arith, e))
  | inl e ↦
      let inside = ltb→lt (i + 9) (length p) e in
      let (r, f, moves) = jpeg_round-Ensures p i o inside in
      after_round fuel p i o r e f moves
        λ i' h. jpeg_loop-Works fuel p i' o (omega arith) (omega arith)
]

pub jpeg_size-Works : (p : Bytes) (o : Meta) → Works (jpeg_size p o)
unfolding jpeg_size
jpeg_size-Works p o = jpeg_loop-Works (suc (length p)) p 2 o (omega arith) (omega arith)

-- A guarded part: the rest is tried where the guard fails.
unfoldable pub guarded {ℓ} :
    {A : Type ℓ} (N : Type 0) (m : Option Bool) (x y : Option A)
    → Ensures (OnlyIf N) m
    → (N → Works x)
    → Works y
    → Works (m >>= λ hit. if hit then x else y)
guarded N m x y (true, e, h) kx ky = let (a, f) = kx (h refl) in (a, rw e f)
guarded N m x y (false, e, h) kx (a, f) = (a, rw e f)
