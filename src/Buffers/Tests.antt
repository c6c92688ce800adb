-- ===== src/Buffers/Tests.antt =====
-- Two buffers pasted on top of one another, and a copy.
use clipnet.Base.{ℕ, ◌≡◌, refl, ◌⊎◌, true, false, some, [], ◌∷◌, arith}
use clipnet.Resource.{idle_slot, armed_slot, fire}
use clipnet.Buffers.{
  BuffersEnv, Buffers, slot_clip, on_copied, buffers_copy, on_restore, on_read, buffers_paste,
  buffer_empty,
}
use clipnet.Buffers.Home.{Pasting_returns, pasted, was_read, restored, no_paste, and_then}

abbrev env : BuffersEnv
env = record {
  hypr = true;
  wl = true;
  paused = false;
  armed = 100;
  exists = λ id. true;
  serves = λ id. true;
  stores = true;
  sends_copy = true;
  sends_paste = true;
}

abbrev two_buffers : Buffers
two_buffers = record {
  copy_slot = 0;
  copy_prev = 0;
  paste_clip = 0;
  paste_prev = 0;
  restore_timer = idle_slot;
  rows = record { slot = 1; clip = 8 } ∷ record { slot = 2; clip = 9 } ∷ [];
  served = 0;
  current_clip = 5;
  read_cb = false;
  out = [];
}

abbrev first : Buffers
first = on_read env (buffers_paste env 1 two_buffers).0

abbrev second : Buffers
second = (buffers_paste env 2 first).0

abbrev back : Buffers
back = on_restore env (record second { restore_timer = fire second.restore_timer })

abbrev copied : Buffers
copied = on_copied env 12 (record (buffers_copy env 3 false two_buffers).0 { current_clip = 12 })

runs :
    (first.current_clip ≡ 8)
    × (second.current_clip ≡ 9)
    × (second.paste_prev ≡ 5)
    × (second.restore_timer.due ≡ some 3100)
    × (back.current_clip ≡ 5)
    × (slot_clip 3 copied ≡ 12)
    × (copied.current_clip ≡ 5)
    × ((buffers_paste env 3 two_buffers).1 ≡ some buffer_empty)
unfolding buffers_paste buffers_copy on_copied on_read on_restore slot_clip fire
runs = (refl, refl, refl, refl, refl, refl, refl, refl)

Pasting_returns_example :
    (back.current_clip ≡ 5)
    ⊎ ((back.paste_prev ≡ 5) × (d : ℕ) × (back.restore_timer ≡ armed_slot d))
Pasting_returns_example = Pasting_returns 5 two_buffers back (ground arith) refl refl refl (
    and_then
      (and_then (and_then (and_then no_paste (pasted env 1 refl refl)) (was_read env))
        (pasted env 2 refl refl))
      (restored env 3100 refl refl runs.3))
