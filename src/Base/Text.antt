-- ===== src/Base/Text.antt =====
-- Byte strings as lists of numbers, and the C library's tests on single characters.
use Prim.Native.Nat.{ℕ, ◌+◌, ◌-◌, ◌<◌}
use Prim.Native.Char.{code}
use Prim.Native.String.{String}
use mathlib.Core.Bool.{Bool, true, false, ◌&&◌, ◌||◌}
use mathlib.Core.List.{List, [], ◌∷◌, ◌++◌}
use mathlib.Core.Logic.{◌↔◌, inl, inr}
use mathlib.Core.Path.{◌≡◌, refl, subst}
use native.Mathlib.Omega.{arith}
use clipnet.Base.Lists.{All}
use clipnet.Base.Tests.{leb, ◌==◌, if◌then◌else◌, and_true, or_cases}

abbrev pub Bytes : Type 0
Bytes = List ℕ

abbrev pub IsByte : ℕ → Type 0
IsByte c = c < 256

abbrev pub AllBytes : Bytes → Type 0
AllBytes = All IsByte

-- The code points of a literal; these are its bytes when the text is ASCII.
abbrev pub codes : String → Bytes
codes String.[] = []
codes (String.◌∷◌ c s) = code c ∷ codes s

-- strcmp(a, b) == 0 on strings without a NUL.
abbrev pub bytes_eq : Bytes → Bytes → Bool
bytes_eq [] [] = true
bytes_eq [] (y ∷ ys) = false
bytes_eq (x ∷ xs) [] = false
bytes_eq (x ∷ xs) (y ∷ ys) = x == y && bytes_eq xs ys

pub bytes_eq_sound : (xs ys : Bytes) → bytes_eq xs ys ≡ true → xs ≡ ys
bytes_eq_sound [] [] h = refl
bytes_eq_sound [] (y ∷ ys) h = ground arith
bytes_eq_sound (x ∷ xs) [] h = ground arith
bytes_eq_sound (x ∷ xs) (y ∷ ys) h = ground (arith, bytes_eq_sound xs ys)

pub bytes_eq_refl : (xs : Bytes) → bytes_eq xs xs ≡ true
bytes_eq_refl [] = refl
bytes_eq_refl (x ∷ xs) = ground (arith, bytes_eq_refl xs)

pub bytes_eq_iff : (xs ys : Bytes) → (bytes_eq xs ys ≡ true) ↔ (xs ≡ ys)
bytes_eq_iff xs ys = (bytes_eq_sound xs ys, λ e. ground (arith, e, bytes_eq_refl xs))

-- isdigit, isalnum, tolower and toupper of the C locale.
abbrev pub is_digit : ℕ → Bool
is_digit c = leb b'0' c && leb c b'9'

abbrev pub is_lower : ℕ → Bool
is_lower c = leb b'a' c && leb c b'z'

abbrev pub is_upper : ℕ → Bool
is_upper c = leb b'A' c && leb c b'Z'

abbrev pub is_alnum : ℕ → Bool
is_alnum c = is_digit c || is_lower c || is_upper c

abbrev pub to_lower : ℕ → ℕ
to_lower c = if is_upper c then c + 32 else c

abbrev pub to_upper : ℕ → ℕ
to_upper c = if is_lower c then c - 32 else c

-- strncmp(s, p, strlen(p)) == 0.
abbrev pub starts_with : Bytes → Bytes → Bool
starts_with [] s = true
starts_with (p ∷ ps) [] = false
starts_with (p ∷ ps) (c ∷ s) = p == c && starts_with ps s

-- strcasecmp(a, b) == 0.
abbrev pub case_eq : Bytes → Bytes → Bool
case_eq [] [] = true
case_eq [] (y ∷ ys) = false
case_eq (x ∷ xs) [] = false
case_eq (x ∷ xs) (y ∷ ys) = to_lower x == to_lower y && case_eq xs ys

-- A linear search by strcmp through an array of strings.
abbrev pub mem : Bytes → List Bytes → Bool
mem m [] = false
mem m (x ∷ xs) = bytes_eq x m || mem m xs

pub mem-append : (m : Bytes) (xs ys : List Bytes) → mem m (xs ++ ys) ≡ (mem m xs || mem m ys)
mem-append m [] ys = refl
mem-append m (x ∷ xs) ys = ground (arith, mem-append m xs ys)

-- No string stands twice.
abbrev pub Distinct : List Bytes → Type 0
Distinct [] = Unit {0}
Distinct (x ∷ xs) = (mem x xs ≡ false) × Distinct xs

pub bytes_eq_sym : (xs ys : Bytes) → bytes_eq xs ys ≡ bytes_eq ys xs
bytes_eq_sym [] [] = refl
bytes_eq_sym [] (y ∷ ys) = refl
bytes_eq_sym (x ∷ xs) [] = refl
bytes_eq_sym (x ∷ xs) (y ∷ ys) = ground (arith, bytes_eq_sym xs ys)

-- A string that is not there may be put at the end.
pub Distinct-snoc :
    (xs : List Bytes) (y : Bytes) → Distinct xs → mem y xs ≡ false → Distinct (xs ++ y ∷ [])
Distinct-snoc [] y d h = (refl, tt)
Distinct-snoc (x ∷ xs) y (fresh, d) h = (
  ground (arith, mem-append x xs (y ∷ []), bytes_eq_sym x y),
  Distinct-snoc xs y d (ground arith),
)

-- A test at every member of a list, by evaluation.
unfoldable pub all_keys : (Bytes → Bool) → List Bytes → Bool
all_keys p [] = true
all_keys p (k ∷ ks) = p k && all_keys p ks

pub all_keys_sound :
    (p : Bytes → Bool) (ks : List Bytes) (k : Bytes)
    → all_keys p ks ≡ true
    → mem k ks ≡ true
    → p k ≡ true
unfolding all_keys
all_keys_sound p [] k h e = cc
all_keys_sound p (x ∷ ks) k h e =
    let (here, rest) = and_true (p x) (all_keys p ks) h in
    elim (or_cases (bytes_eq x k) (mem k ks) e) [
      | inl f ↦ subst (λ (y : Bytes). p y ≡ true) (bytes_eq_sound x k f) here
      | inr f ↦ all_keys_sound p ks k rest f
    ]
