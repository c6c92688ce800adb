-- ===== src/Resource.antt =====
-- What the daemon holds of its surroundings: timers of the loop (daemon/src/loop.c), and numbered things
-- that have to be given back once, such as descriptors, watches and offers.
use clipnet.Base.{
  ℕ, ◌≡◌, refl, ◌⊎◌, inl, inr, Bool, true, false, ◌&&◌, ◌||◌, Option, none, some, List, [], ◌∷◌,
  arith, ◌==◌, if◌then◌else◌,
}

-- A pointer to a timer, and the timer as the loop has it. `lost` is set when a timer is armed while the
-- last one of the slot still runs, which nobody could cancel any more.
pub record Slot : Type 0 where
  pub pointer : Bool
  pub due : Option ℕ
  pub lost : Bool

abbrev pub idle_slot : Slot
idle_slot = record { pointer = false; due = none; lost = false }

abbrev pub armed_slot : ℕ → Slot
armed_slot due = record { pointer = true; due = some due; lost = false }

abbrev pub is_running : Option ℕ → Bool
is_running none = false
is_running (some due) = true

-- `s = loop_timer(...)`.
unfoldable pub arm : ℕ → Slot → Slot
arm due s = record { pointer = true; due = some due; lost = s.lost || is_running s.due }

-- `loop_timer_cancel(s)`; NULL is no timer.
unfoldable pub cancel : Slot → Slot
cancel s = if s.pointer then record s { due = none } else s

-- `s = NULL`.
unfoldable pub clear : Slot → Slot
clear s = record s { pointer = false }

-- The loop takes the timer off its list before it calls it.
unfoldable pub fire : Slot → Slot
fire s = record s { due = none }

-- The things that are held; `sound` says that nothing was given back that was not held.
pub record Table : Type 0 where
  pub held : List ℕ
  pub sound : Bool

abbrev pub nothing : Table
nothing = record { held = []; sound = true }

abbrev pub only : ℕ → Table
only n = record { held = n ∷ []; sound = true }

abbrev pub is_held : ℕ → List ℕ → Bool
is_held n [] = false
is_held n (x ∷ xs) = x == n || is_held n xs

abbrev pub without : ℕ → List ℕ → List ℕ
without n [] = []
without n (x ∷ xs) = if x == n then xs else x ∷ without n xs

unfoldable pub acquire : ℕ → Table → Table
acquire n t = record t { held = n ∷ t.held }

unfoldable pub release : ℕ → Table → Table
release n t = record { held = without n t.held; sound = t.sound && is_held n t.held }

-- Give back what there is.
unfoldable pub release_any : Option ℕ → Table → Table
unfolding release
release_any none t = t
release_any (some n) t = release n t

abbrev pub table_of : Option ℕ → Table
table_of none = nothing
table_of (some n) = only n

-- The pointer and the loop agree, and no timer is lost.
abbrev pub IsSlot : Slot → Type 0
IsSlot s = (s ≡ idle_slot) ⊎ ((due : ℕ) × (s ≡ armed_slot due))

pub release_any-own : (o : Option ℕ) (t : Table) → t ≡ table_of o → release_any o t ≡ nothing
unfolding release_any
release_any-own none t h = h
release_any-own (some n) t h = rw h (ground arith)

pub clear-cancel : (s : Slot) → IsSlot s → clear (cancel s) ≡ idle_slot
unfolding clear cancel
clear-cancel s (inl e) = rw e refl
clear-cancel s (inr (d, e)) = rw e refl
