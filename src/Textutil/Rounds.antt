-- ===== src/Textutil/Rounds.antt =====
-- One round of the loop of `text_preview`, at the encoding of a code point.
use clipnet.Base.{
  ℕ, suc, ◌+◌, ◌/◌, ◌%◌, ◌<◌, ◌≡◌, refl, inl, inr, Bool, true, false, ◌||◌, [], ◌∷◌, ◌++◌, arith,
  ltb, leb, ◌==◌, if◌then◌else◌, Bool-cases, length, length-append, Bytes, take-append, drop-append,
}
use clipnet.Util.Utf8.{put, seq_len}
use clipnet.Textutil.{is_space, Round, preview_copy, preview_round, preview_loop, next, stop}

pub is_control : ℕ → Bool
is_control cp = ltb cp 0x20 || cp == 0x7F

seq_len-put : (cp c : ℕ) (t : Bytes) → cp < 0x200000 → put cp ≡ c ∷ t → seq_len c ≡ suc (length t)
unfolding put seq_len
seq_len-put cp c t h e = ground arith

-- A copied sequence is the whole encoding.
preview_copy-put :
    (cp c : ℕ) (t rest : Bytes) (chars : ℕ) (out : Bytes)
    → cp < 0x200000
    → put cp ≡ c ∷ t
    → preview_copy c (t ++ rest) chars out ≡ next rest (chars + 1) false (out ++ put cp)
unfolding preview_copy
preview_copy-put cp c t rest chars out h e =
    rw (seq_len-put cp c t h e, e, drop-append t rest, take-append t rest)
      (ground (arith, length-append t rest))

-- The lead byte is of a class exactly if the code point is.
lead_class :
    (cp c : ℕ) (t : Bytes)
    → put cp ≡ c ∷ t
    → (is_space c ≡ is_space cp) × (is_control c ≡ is_control cp)
unfolding put is_space is_control
lead_class cp c t e = ground arith

-- One round at the encoding of a code point.
abbrev pub point_round : ℕ → ℕ → Bytes → ℕ → Bool → Bytes → Round
point_round most cp rest chars pending out =
    if is_space cp
    then next rest chars (ltb 0 (length out)) out
    else if is_control cp
    then next rest chars pending out
    else if pending
    then if leb most (chars + 1)
      then stop out
      else next rest (chars + 1 + 1) false ((out ++ b' ' ∷ []) ++ put cp)
    else next rest (chars + 1) false (out ++ put cp)

is_control_lem : (c : ℕ) → is_control c ≡ (ltb c 0x20 || c == 0x7F)
unfolding is_control
is_control_lem c = refl

module _ (cp c : ℕ) (t rest : Bytes) (h : cp < 0x200000) (e : put cp ≡ c ∷ t) where
  -- Only a one-byte sequence is a space or a control character.
  short_class : (is_space cp || is_control cp) ≡ true → t ≡ []
  unfolding put is_space is_control
  short_class k = ground arith

  preview_round-put :
      (most chars : ℕ) (pending : Bool) (out : Bytes)
      → preview_round most c (t ++ rest) chars pending out
        ≡ point_round most cp rest chars pending out
  unfolding preview_round
  preview_round-put most chars pending out = ground (
    arith,
    (lead_class cp c t e).0,
    (lead_class cp c t e).1,
    is_control_lem c,
    short_class,
    preview_copy-put cp c t rest chars out h e,
    preview_copy-put cp c t rest (chars + 1) (out ++ b' ' ∷ []) h e,
  )

put_cons : (cp : ℕ) → (c : ℕ) × (t : Bytes) × (put cp ≡ c ∷ t)
unfolding put
put_cons cp = elim (Bool-cases (ltb cp 0x80)) [
  | inl e ↦ (cp, [], rw e)
  | inr e ↦ elim (Bool-cases (ltb cp 0x800)) [
    | inl f ↦ (0xC0 + cp / 64, (0x80 + cp % 64) ∷ [], rw e (rw f))
    | inr f ↦ elim (Bool-cases (ltb cp 0x10000)) [
      | inl g ↦
          (0xE0 + cp / 4096, (0x80 + cp / 64 % 64) ∷ (0x80 + cp % 64) ∷ [], rw e (rw f (rw g)))
      | inr g ↦ (
        0xF0 + cp / 262144,
        (0x80 + cp / 4096 % 64) ∷ (0x80 + cp / 64 % 64) ∷ (0x80 + cp % 64) ∷ [],
        rw e (rw f (rw g)),
      )
    ]
  ]
]

module _ (most fuel cp : ℕ) (rest : Bytes) (chars : ℕ) (pending : Bool) (out : Bytes) where
  pub loop_full :
      ltb chars most ≡ false → preview_loop most (suc fuel) (put cp ++ rest) chars pending out ≡ out
  unfolding preview_loop
  loop_full h = let (c, t, e) = put_cons cp in ground (arith, e, h)

  pub loop_point :
      cp < 0x200000
      → ltb chars most ≡ true
      → preview_loop most (suc fuel) (put cp ++ rest) chars pending out
        ≡ elim (point_round most cp rest chars pending out) [
          | stop r ↦ r
          | next s' chars' pending' out' ↦ preview_loop most fuel s' chars' pending' out'
        ]
  unfolding preview_loop
  loop_point small h =
      let (c, t, e) = put_cons cp in
      ground (arith, e, h, preview_round-put cp c t rest small e most chars pending out)
