-- ===== src/Accel/Sound.antt =====
-- The values of `accel_parse`.
use Prim.Native.Nat.{bit_or}
use clipnet.Base.{
  ℕ, ◌≡◌, refl, subst, inl, inr, Bool, true, false, ◌&&◌, ◌||◌, Option, none, some, List, [], ◌∷◌,
  map, arith, ◌==◌, Bool-cases, Option-cases, Bytes, codes, case_eq, mem, and_true, all_keys,
}
use clipnet.Accel.{
  accel_shift, accel_ctrl, accel_alt, accel_super, Accel, Named, named, is_fkey, print_fkey,
  any_case, find_named, single, canon_key, mod_bit, tokens, check_binding, parse_key, parse_tokens,
  parse, ok,
}
use clipnet.Accel.Canonical.{
  canonical_keys, masks, has_mask, IsCanonical, all_masks, all_masks_sound, single-canonical,
  fkey-canonical,
}

named_canonical : all_keys (λ k. mem k canonical_keys) (map (λ e. e.name) named) ≡ true
unfolding all_keys canonical_keys
named_canonical = refl

find_named-canonical :
    (tok : Bytes) (es : List Named) (k : Bytes)
    → all_keys (λ x. mem x canonical_keys) (map (λ e. e.name) es) ≡ true
    → find_named tok es ≡ some k
    → mem k canonical_keys ≡ true
unfolding find_named all_keys
find_named-canonical tok [] k h f = cc
find_named-canonical tok (e ∷ es) k h f =
    let (here, rest) =
      and_true (mem e.name canonical_keys)
        (all_keys (λ x. mem x canonical_keys) (map (λ e. e.name) es)) h in
    elim (Bool-cases (case_eq tok e.name || case_eq tok e.keysym || any_case tok e.aliases)) [
      | inl hit ↦
          let same : e.name ≡ k = ground (arith, hit, f) in
          subst (λ (x : Bytes). mem x canonical_keys ≡ true) same here
      | inr miss ↦ find_named-canonical tok es k rest (ground (arith, miss, f))
    ]

canon_key-canonical : (tok k : Bytes) → canon_key tok ≡ some k → mem k canonical_keys ≡ true
unfolding canon_key
canon_key-canonical tok k h = elim (Option-cases (single tok)) [
  | inr (c, e) ↦
      let same : c ∷ [] ≡ k = ground (arith, e, h) in
      subst (λ (x : Bytes). mem x canonical_keys ≡ true) same (single-canonical tok c e)
  | inl e ↦ elim (Option-cases (is_fkey tok)) [
    | inr (n, f) ↦
        let same : print_fkey n ≡ k = ground (arith, e, f, h) in
        subst (λ (x : Bytes). mem x canonical_keys ≡ true) same (fkey-canonical tok n f)
    | inl f ↦ find_named-canonical tok named k named_canonical (ground (arith, e, f, h))
  ]
]

with_bits : ℕ → Bool
with_bits m =
    has_mask m masks
    && has_mask (bit_or m accel_ctrl) masks
    && has_mask (bit_or m accel_alt) masks
    && has_mask (bit_or m accel_shift) masks
    && has_mask (bit_or m accel_super) masks

mod_table : all_masks with_bits masks ≡ true
unfolding all_masks with_bits
mod_table = refl

mod_bit_known :
    (m : ℕ) (t : Bytes)
    → has_mask m masks ≡ true
    → (mod_bit t == 0) ≡ false
    → has_mask (bit_or m (mod_bit t)) masks ≡ true
unfolding mod_bit with_bits
mod_bit_known m t known h =
    let all = all_masks_sound with_bits masks m mod_table known in
    let (three, super) = and_true _ _ all in
    let (two, shift) = and_true _ _ three in
    let (one, alt) = and_true _ _ two in
    let (none_, ctrl) = and_true _ _ one in
    elim (Bool-cases (case_eq t (codes "Ctrl") || case_eq t (codes "Control"))) [
      | inl e ↦ rw e ctrl
      | inr e ↦ elim (Bool-cases (case_eq t (codes "Alt") || case_eq t (codes "Mod1"))) [
        | inl f ↦ rw e (rw f alt)
        | inr f ↦ elim (Bool-cases (case_eq t (codes "Shift"))) [
          | inl g ↦ rw e (rw f (rw g shift))
          | inr g ↦
              elim (Bool-cases (
                case_eq t (codes "Super")
                || case_eq t (codes "Meta")
                || case_eq t (codes "Win")
                || case_eq t (codes "Mod4"))) [
                  | inl s ↦ rw e (rw f (rw g (rw s super)))
                  | inr s ↦ absurd (ground (arith, e, f, g, s, h))
                ]
        ]
      ]
    ]

check_binding-same : (a b : Accel) → check_binding a ≡ ok b → a ≡ b
unfolding check_binding
check_binding-same a b h = ground arith

parse_key-IsCanonical :
    (binding : Bool) (m : ℕ) (tok : Bytes) (a : Accel)
    → has_mask m masks ≡ true
    → parse_key binding m tok ≡ ok a
    → IsCanonical a
unfolding parse_key
parse_key-IsCanonical binding m tok a known h = elim (Option-cases (canon_key tok)) [
  | inl e ↦ absurd (ground (arith, e, h))
  | inr (k, e) ↦
      let same : record { mods = m; key = k } ≡ a =
        ground (arith, e, h, check_binding-same (record { mods = m; key = k }) a) in
      subst IsCanonical same
        (record { known_mods = known; known_key = canon_key-canonical tok k e })
]

parse_tokens-IsCanonical :
    (binding : Bool) (m : ℕ) (ts : List Bytes) (a : Accel)
    → has_mask m masks ≡ true
    → parse_tokens binding m ts ≡ ok a
    → IsCanonical a
unfolding parse_tokens
parse_tokens-IsCanonical binding m [] a known h = absurd (ground arith)
parse_tokens-IsCanonical binding m (t ∷ []) a known h = parse_key-IsCanonical binding m t a known h
parse_tokens-IsCanonical binding m (t ∷ u ∷ ts) a known h = elim (Bool-cases (mod_bit t == 0)) [
  | inl e ↦ absurd (ground (arith, e, h))
  | inr e ↦
      parse_tokens-IsCanonical binding (bit_or m (mod_bit t)) (u ∷ ts) a (mod_bit_known m t known e)
        (ground (arith, e, h))
]

-- What the reader accepts, for a binding or for sending, is canonical: one of the sixteen sums of
-- modifiers, and a key in its canonical spelling.
pub parse-IsCanonical :
    (s : Option Bytes) (binding : Bool) (a : Accel) → parse s binding ≡ ok a → IsCanonical a
unfolding parse
parse-IsCanonical none binding a h = absurd (ground arith)
parse-IsCanonical (some s) binding a h =
    parse_tokens-IsCanonical binding 0 (tokens s) a refl (ground (arith, h))
