-- ===== src/Base/Ids.antt =====
-- Sets of numbers as lists.
use Prim.Native.Nat.{ℕ}
use mathlib.Core.Path.{◌≡◌, refl}
use mathlib.Core.Bool.{Bool, false, ◌||◌}
use mathlib.Core.List.{List, [], ◌∷◌, ◌++◌}
use native.Mathlib.Omega.{arith}
use clipnet.Base.Tests.{◌==◌}

abbrev pub mem_id : ℕ → List ℕ → Bool
mem_id i [] = false
mem_id i (x ∷ xs) = x == i || mem_id i xs

pub mem_id-append : (i : ℕ) (xs ys : List ℕ) → mem_id i (xs ++ ys) ≡ (mem_id i xs || mem_id i ys)
mem_id-append i [] ys = refl
mem_id-append i (x ∷ xs) ys = rw (mem_id-append i xs ys) (ground arith)
