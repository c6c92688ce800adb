-- ===== src/Base/Masks.antt =====
-- The C code masks and shifts bytes; the model divides and takes remainders. For every byte the two
-- agree.
use Prim.Native.Nat.{ℕ, zero, suc, ◌+◌, ◌/◌, ◌%◌, ◌<◌, bit_and, bit_or}
use mathlib.Core.Bool.{Bool, true, false}
use mathlib.Core.Path.{◌≡◌, refl}
use native.Mathlib.Omega.{arith}
use clipnet.Base.Tests.{◌==◌, ==_iff, if◌then◌else◌}

-- The test holds of every number below the bound.
unfoldable pub all_below : (bound : ℕ) (holds : ℕ → Bool) → Bool
all_below zero holds = true
all_below (suc last) holds = if holds last then all_below last holds else false

pub all_below_sound :
    (bound : ℕ) (holds : ℕ → Bool) (c : ℕ)
    → all_below bound holds ≡ true
    → c < bound
    → holds c ≡ true
unfolding all_below
all_below_sound zero holds c table small = absurd (omega arith)
all_below_sound (suc last) holds c table small = ground (arith, table, all_below_sound last holds c)

same : Bool → Bool → Bool
same true b = b
same false true = false
same false false = true

same_sound : (a b : Bool) → same a b ≡ true → a ≡ b
unfolding same
same_sound a b h = ground arith

module _ (c : ℕ) (byte : c < 256) where
  -- (c & 0xE0) == 0xC0, and the two like it.
  pub lead_two : (bit_and c 0xE0 == 0xC0) ≡ (c / 32 == 6)
  unfolding all_below same
  lead_two =
      same_sound _ _
        (all_below_sound 256 (λ x. same (bit_and x 0xE0 == 0xC0) (x / 32 == 6)) c refl byte)

  pub lead_three : (bit_and c 0xF0 == 0xE0) ≡ (c / 16 == 14)
  unfolding all_below same
  lead_three =
      same_sound _ _
        (all_below_sound 256 (λ x. same (bit_and x 0xF0 == 0xE0) (x / 16 == 14)) c refl byte)

  pub lead_four : (bit_and c 0xF8 == 0xF0) ≡ (c / 8 == 30)
  unfolding all_below same
  lead_four =
      same_sound _ _
        (all_below_sound 256 (λ x. same (bit_and x 0xF8 == 0xF0) (x / 8 == 30)) c refl byte)

  -- (c & 0xC0) == 0x80.
  pub continuation : (bit_and c 0xC0 == 0x80) ≡ (c / 64 == 2)
  unfolding all_below same
  continuation =
      same_sound _ _
        (all_below_sound 256 (λ x. same (bit_and x 0xC0 == 0x80) (x / 64 == 2)) c refl byte)

  -- c & 0x3F, and 0x80 | (c & 0x3F).
  pub low_six : (bit_and c 0x3F ≡ c % 64) × (bit_or 0x80 (bit_and c 0x3F) ≡ 128 + c % 64)
  unfolding all_below
  low_six = (
    (==_iff _ _).0 (all_below_sound 256 (λ x. bit_and x 0x3F == x % 64) c refl byte),
    (==_iff _ _).0
        (all_below_sound 256 (λ x. bit_or 0x80 (bit_and x 0x3F) == 128 + x % 64) c refl byte),
  )
