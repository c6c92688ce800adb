-- ===== src/Accel/Canonical.antt =====
-- The shortcuts that `accel_parse` can return.
use clipnet.Base.Masks.{all_below, all_below_sound}
use clipnet.Base.{
  ℕ, zero, suc, ◌≤◌, ◌<◌, ◌≡◌, refl, sym, subst, inl, inr, Bool, true, false, ◌&&◌, ◌||◌, not, some,
  List, [], ◌∷◌, ◌++◌, map, arith, leb, ◌==◌, ==_iff, Bool-cases, Bytes, codes, is_alnum, to_upper,
  mem, and_true, or_cases, all_keys, all_keys_sound,
}
use clipnet.Accel.{Accel, named, print_fkey, is_fkey, single}

abbrev pub letters : List Bytes
letters = map (λ c. c ∷ []) (codes "ABCDEFGHIJKLMNOPQRSTUVWXYZ0123456789")

unfoldable pub fkeys : ℕ → List Bytes
fkeys zero = []
fkeys (suc n) = print_fkey (suc n) ∷ fkeys n

-- Every key name in its canonical spelling: 36 letters and digits, 24 F keys, 27 names.
unfoldable pub canonical_keys : List Bytes
unfolding fkeys print_fkey named
canonical_keys = letters ++ (fkeys 24 ++ map (λ e. e.name) named)

-- The sums of modifier bits.
abbrev pub masks : List ℕ
masks = 0 ∷ 1 ∷ 4 ∷ 5 ∷ 8 ∷ 9 ∷ 12 ∷ 13 ∷ 64 ∷ 65 ∷ 68 ∷ 69 ∷ 72 ∷ 73 ∷ 76 ∷ 77 ∷ []

abbrev pub has_mask : ℕ → List ℕ → Bool
has_mask m [] = false
has_mask m (x ∷ xs) = m == x || has_mask m xs

pub record IsCanonical (a : Accel) : Type 0 where
  pub known_mods : has_mask a.mods masks ≡ true
  pub known_key : mem a.key canonical_keys ≡ true

-- Checking a test at every member of a list by evaluation.
unfoldable pub all_masks : (ℕ → Bool) → List ℕ → Bool
all_masks p [] = true
all_masks p (m ∷ ms) = p m && all_masks p ms

pub all_masks_sound :
    (p : ℕ → Bool) (ms : List ℕ) (m : ℕ) → all_masks p ms ≡ true → has_mask m ms ≡ true → p m ≡ true
unfolding all_masks
all_masks_sound p [] m h k = cc
all_masks_sound p (x ∷ ms) m h k =
    let (here, rest) = and_true (p x) (all_masks p ms) h in
    elim (or_cases (m == x) (has_mask m ms) k) [
      | inl e ↦ subst (λ (y : ℕ). p y ≡ true) (sym ((==_iff m x).0 e)) here
      | inr e ↦ all_masks_sound p ms m rest e
    ]

abbrev pub every_shortcut : (ℕ → Bytes → Bool) → Bool
every_shortcut p = all_masks (λ m. all_keys (p m) canonical_keys) masks

pub every_shortcut_sound :
    (p : ℕ → Bytes → Bool) (a : Accel)
    → every_shortcut p ≡ true
    → IsCanonical a
    → p a.mods a.key ≡ true
every_shortcut_sound p a h c =
    all_keys_sound (p a.mods) canonical_keys a.key
      (all_masks_sound (λ m. all_keys (p m) canonical_keys) masks a.mods h c.known_mods) c.known_key

-- What a key token stands for is canonical.
single_table : all_below 128 (λ c. not (is_alnum c) || mem (to_upper c ∷ []) canonical_keys) ≡ true
unfolding all_below canonical_keys
single_table = refl

fkey_table : all_below 25 (λ n. not (leb 1 n) || mem (print_fkey n) canonical_keys) ≡ true
unfolding all_below canonical_keys
fkey_table = refl

is_alnum_bound : (c : ℕ) → is_alnum c ≡ true → c < 128
is_alnum_bound c h = ground arith

pub single-canonical :
    (tok : Bytes) (c : ℕ) → single tok ≡ some c → mem (c ∷ []) canonical_keys ≡ true
unfolding single
single-canonical [] c h = cc
single-canonical (x ∷ []) c h = elim (Bool-cases (is_alnum x)) [
  | inl e ↦
      let hit = all_below_sound 128 _ x single_table (is_alnum_bound x e) in
      let same : c ≡ to_upper x = ground (arith, e, h) in rw same (ground (arith, hit, e))
  | inr e ↦ ground (arith, e, h)
]
single-canonical (x ∷ y ∷ s) c h = cc

is_fkey_bound : (tok : Bytes) (n : ℕ) → is_fkey tok ≡ some n → (1 ≤ n) × (n ≤ 24)
unfolding is_fkey
is_fkey_bound [] n h = ground arith
is_fkey_bound (f ∷ []) n h = ground arith
is_fkey_bound (f ∷ d ∷ s) n h = ground arith

pub fkey-canonical :
    (tok : Bytes) (n : ℕ) → is_fkey tok ≡ some n → mem (print_fkey n) canonical_keys ≡ true
fkey-canonical tok n h =
    let (low, high) = is_fkey_bound tok n h in
    let hit = all_below_sound 25 _ n fkey_table (omega (arith, high)) in ground (arith, hit, low)
