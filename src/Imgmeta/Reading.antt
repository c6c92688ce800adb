-- ===== src/Imgmeta/Reading.antt =====
-- Reads that stay inside of the image, and tests that keep the next read inside.
use clipnet.Base.{
  ℕ, zero, suc, ◌+◌, ◌*◌, ◌≤◌, ◌<◌, ◌≡◌, refl, Bool, true, false, Option, some, [], ◌∷◌, arith,
  ◌==◌, length, get_elem?, Bytes, bytes_eq,
}
use clipnet.Imgmeta.{◌>>=◌, and_then, bytes_at, same_at, be16, be32, le16, le24, le32, byte_is}

-- The steps do not fail, and the result has the property.
abbrev pub Ensures {ℓ κ} : {A : Type ℓ} → (A → Type κ) → Option A → Type (ℓ ⊔ κ)
Ensures {A = A} P m = (a : A) × (m ≡ some a) × P a

abbrev pub Works {ℓ} : {A : Type ℓ} → Option A → Type ℓ
Works {A = A} m = (a : A) × (m ≡ some a)

module _ {ℓ κ} {A : Type ℓ} {B : Type κ} where
  pub bind-Ensures :
      (P : A → Type 0) (Q : B → Type 0) (m : Option A) (f : A → Option B)
      → Ensures P m
      → ((a : A) → P a → Ensures Q (f a))
      → Ensures Q (m >>= f)
  bind-Ensures P Q m f (a, e, h) k = rw e (k a h)

  unfoldable pub bind-Works :
      (m : Option A) (f : A → Option B) → Works m → ((a : A) → Works (f a)) → Works (m >>= f)
  bind-Works m f (a, e) k = rw e (k a)

  bind-Works_of :
      (P : A → Type 0) (m : Option A) (f : A → Option B)
      → Ensures P m
      → ((a : A) → P a → Works (f a))
      → Works (m >>= f)
  bind-Works_of P m f (a, e, h) k = rw e (k a h)

-- A guard that is passed only where `N` holds.
abbrev pub OnlyIf : Type 0 → Bool → Type 0
OnlyIf N b = b ≡ true → N

unfoldable pub and_then-Ensures :
    (N : Type 0) (c : Bool) (m : Option Bool)
    → OnlyIf N c
    → (N → Works m)
    → Ensures (OnlyIf N) (and_then c m)
and_then-Ensures N true m h k = let (a, e) = k (h refl) in (a, e, λ _. h refl)
and_then-Ensures N false m h k = (false, refl, λ e. cc)

pub get_elem?-Works : (p : Bytes) (i : ℕ) → i < length p → Works (get_elem? p i)
get_elem?-Works [] i h = absurd (omega arith)
get_elem?-Works (x ∷ p) zero h = (x, refl)
get_elem?-Works (x ∷ p) (suc i) h = get_elem?-Works p i (omega arith)

bytes_at-Works : (p : Bytes) (i k : ℕ) → i + k ≤ length p → Works (bytes_at p i k)
unfolding bytes_at
bytes_at-Works p i zero h = ([], refl)
bytes_at-Works p i (suc k) h =
    let (b, e) = get_elem?-Works p i (omega arith) in
    let (bs, f) = bytes_at-Works p (suc i) k (omega arith) in (b ∷ bs, rw (e, f))

module _ (p : Bytes) (i : ℕ) where
  pub same_at-Works : (s : Bytes) → i + length s ≤ length p → Works (same_at p i s)
  unfolding same_at
  same_at-Works s h = bind-Works _ _ (bytes_at-Works p i (length s) h) (λ bs. (bytes_eq bs s, refl))

  pub byte_is-Works : (v : ℕ) → i < length p → Works (byte_is p i v)
  unfolding byte_is
  byte_is-Works v h = bind-Works _ _ (get_elem?-Works p i h) (λ b. (b == v, refl))

  pub be16-Works : i + 2 ≤ length p → Works (be16 p i)
  unfolding be16
  be16-Works h =
      bind-Works _ _ (get_elem?-Works p i (omega arith))
        λ a. bind-Works _ _ (get_elem?-Works p (i + 1) (omega arith)) λ b. (a * 256 + b, refl)

  pub le16-Works : i + 2 ≤ length p → Works (le16 p i)
  unfolding le16
  le16-Works h =
      bind-Works _ _ (get_elem?-Works p i (omega arith))
        λ a. bind-Works _ _ (get_elem?-Works p (i + 1) (omega arith)) λ b. (b * 256 + a, refl)

  pub le24-Works : i + 3 ≤ length p → Works (le24 p i)
  unfolding le24
  le24-Works h = bind-Works _ _ (get_elem?-Works p i (omega arith)) λ a.
      bind-Works _ _ (get_elem?-Works p (i + 1) (omega arith)) λ b.
        bind-Works _ _ (get_elem?-Works p (i + 2) (omega arith))
          λ c. (c * 65536 + b * 256 + a, refl)

  pub be32-Works : i + 4 ≤ length p → Works (be32 p i)
  unfolding be32
  be32-Works h = bind-Works _ _ (get_elem?-Works p i (omega arith)) λ a.
      bind-Works _ _ (get_elem?-Works p (i + 1) (omega arith)) λ b.
        bind-Works _ _ (get_elem?-Works p (i + 2) (omega arith)) λ c.
          bind-Works _ _ (get_elem?-Works p (i + 3) (omega arith))
            λ d. (a * 16777216 + b * 65536 + c * 256 + d, refl)

  pub le32-Works : i + 4 ≤ length p → Works (le32 p i)
  unfolding le32
  le32-Works h = bind-Works _ _ (get_elem?-Works p i (omega arith)) λ a.
      bind-Works _ _ (get_elem?-Works p (i + 1) (omega arith)) λ b.
        bind-Works _ _ (get_elem?-Works p (i + 2) (omega arith)) λ c.
          bind-Works _ _ (get_elem?-Works p (i + 3) (omega arith))
            λ d. (d * 16777216 + c * 65536 + b * 256 + a, refl)
