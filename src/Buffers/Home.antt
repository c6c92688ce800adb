-- ===== src/Buffers/Home.antt =====
-- The clip that is put back after `buffers_paste`: runs of pastes, first reads and time-outs.
use clipnet.Base.{
  ℕ, ◌+◌, ◌≡◌, refl, sym, ap, ◌∙◌, ◌⊎◌, inl, inr, true, false, ◌&&◌, not, Option, some, ◌==◌,
  if◌then◌else◌, ==_iff, Bool-cases, elim-both,
}
use clipnet.Resource.{idle_slot, armed_slot, clear, fire, IsSlot, Slot, arm, cancel, clear-cancel}
use clipnet.Buffers.{
  BuffersEnv, Buffers, restore, on_restore, on_read, buffers_paste, restore_after_read_ms,
  restore_fallback_ms, BufferError, slot_clip, valid_slot, finish_paste, begin_paste,
}

-- What happens while buffers are pasted: pastes, first reads of the sources, and the timer. The clip
-- `p` stays in the database and can be loaded.
pub data PasteStep (p : ℕ) (b : Buffers) : Buffers → Type 0 where
  pasted :
      (env : BuffersEnv) (slot : ℕ)
      → env.exists p ≡ true
      → env.serves p ≡ true
      → PasteStep p b (buffers_paste env slot b).0
  was_read : (env : BuffersEnv) → PasteStep p b (on_read env b)
  restored :
      (env : BuffersEnv) (d : ℕ)
      → env.exists p ≡ true
      → env.serves p ≡ true
      → b.restore_timer.due ≡ some d
      → PasteStep p b (on_restore env (record b { restore_timer = fire b.restore_timer }))

pub data Pasting (p : ℕ) (b : Buffers) : Buffers → Type 0 where
  no_paste : Pasting p b b
  and_then : {c d : Buffers} → Pasting p b c → PasteStep p c d → Pasting p b d

-- The clip is current, and nothing else is to be put back.
pub record IsHome (p : ℕ) (b : Buffers) : Type 0 where
  pub current : b.current_clip ≡ p
  pub prev : b.paste_prev ≡ 0
  pub timer : IsSlot b.restore_timer

-- A buffer is on the clipboard, and the timer that puts the clip back is running.
pub record IsAway (p : ℕ) (b : Buffers) : Type 0 where
  pub prev : b.paste_prev ≡ p
  pub served : b.served ≡ b.paste_clip
  pub timer : (d : ℕ) × (b.restore_timer ≡ armed_slot d)

abbrev pub IsSafe : ℕ → Buffers → Type 0
IsSafe p b = IsHome p b ⊎ IsAway p b

-- Restoring, with the timer's slot already taken off the loop.
on_restore-IsHome :
    (env : BuffersEnv) (p : ℕ) (b : Buffers)
    → (p == 0) ≡ false
    → env.exists p ≡ true
    → env.serves p ≡ true
    → clear b.restore_timer ≡ idle_slot
    → ((b.current_clip ≡ p) × (b.paste_prev ≡ 0)) ⊎ ((b.paste_prev ≡ p) × (b.served ≡ b.paste_clip))
    → IsHome p (on_restore env b) × ((on_restore env b).restore_timer ≡ idle_slot)
unfolding on_restore restore
on_restore-IsHome env p b nonzero e s t (inl (now, prev)) =
    rw prev (record { current = now; prev = refl; timer = inl t }, t)
on_restore-IsHome env p b nonzero e s t (inr (prev, served)) =
    rw (prev, served, nonzero, e, s, same b.paste_clip)
      (record { current = refl; prev = refl; timer = inl t }, t)
  where
    same : (n : ℕ) → (n == n) ≡ true
    same n = (==_iff n n).1 refl

arm-cancel : (d : ℕ) (s : Slot) → IsSlot s → arm d (cancel s) ≡ armed_slot d
unfolding arm cancel
arm-cancel d s (inl e) = rw e refl
arm-cancel d s (inr (t, e)) = rw e refl

on_read-IsSafe : (env : BuffersEnv) (p : ℕ) (b : Buffers) → IsSafe p b → IsSafe p (on_read env b)
unfolding on_read
on_read-IsSafe env p b (inl h) =
    let due = env.armed + restore_after_read_ms in
    inl (record {
      current = h.current;
      prev = h.prev;
      timer = inr (due, arm-cancel due b.restore_timer h.timer);
    })
on_read-IsSafe env p b (inr h) =
    let due = env.armed + restore_after_read_ms in
    inr (record {
      prev = h.prev;
      served = h.served;
      timer = (due, arm-cancel due b.restore_timer (inr h.timer));
    })

-- The two cases in the form of `on_restore-IsHome`.
owed :
    (p : ℕ) (b : Buffers)
    → IsSafe p b
    → ((b.current_clip ≡ p) × (b.paste_prev ≡ 0)) ⊎ ((b.paste_prev ≡ p) × (b.served ≡ b.paste_clip))
owed p b (inl h) = inl (h.current, h.prev)
owed p b (inr h) = inr (h.prev, h.served)

safe-IsSlot : (p : ℕ) (b : Buffers) → IsSafe p b → IsSlot b.restore_timer
safe-IsSlot p b (inl h) = h.timer
safe-IsSlot p b (inr h) = inr h.timer

clear-fire : (s : Slot) → IsSlot s → clear (fire s) ≡ idle_slot
unfolding clear fire
clear-fire s (inl e) = rw e refl
clear-fire s (inr (d, e)) = rw e refl

-- A pointer that is not set: nothing was owed.
unset_idle :
    (p : ℕ) (b : Buffers)
    → b.restore_timer.pointer ≡ false
    → IsSafe p b
    → IsHome p b × (b.restore_timer ≡ idle_slot)
unset_idle p b e (inl h) = elim h.timer [
  | inl t ↦ (h, t)
  | inr (d, t) ↦ absurd (cc (e, ap (λ (s : Slot). s.pointer) t))
]
unset_idle p b e (inr h) = absurd (cc (e, ap (λ (s : Slot). s.pointer) h.timer.1))

finish_paste-IsHome :
    (env : BuffersEnv) (p : ℕ) (b : Buffers)
    → (p == 0) ≡ false
    → env.exists p ≡ true
    → env.serves p ≡ true
    → IsSafe p b
    → IsHome p (finish_paste env b) × ((finish_paste env b).restore_timer ≡ idle_slot)
unfolding finish_paste
finish_paste-IsHome env p b nonzero e s h =
    elim-both (λ (c : Buffers). IsHome p c × (c.restore_timer ≡ idle_slot)) b.restore_timer.pointer
      _ _
      (λ f.
        on_restore-IsHome env p (record b { restore_timer = cancel b.restore_timer }) nonzero e s
          (clear-cancel b.restore_timer (safe-IsSlot p b h)) (owed p b h))
      (λ f. unset_idle p b f h)

begin_paste-IsSafe :
    (env : BuffersEnv) (p clip : ℕ) (b : Buffers)
    → IsHome p b
    → b.restore_timer ≡ idle_slot
    → IsSafe p (begin_paste env clip b.current_clip b)
unfolding begin_paste arm
begin_paste-IsSafe env p clip b h t =
    let due = env.armed + restore_fallback_ms in
    let timer : arm due b.restore_timer ≡ armed_slot due = unfold arm in rw t refl in
    elim (Bool-cases (b.current_clip == clip)) [
      | inl f ↦ inl (record {
        current = sym ((==_iff b.current_clip clip).0 f) ∙ h.current;
        prev = rw f refl;
        timer = inr (due, timer);
      })
      | inr f ↦ inr (record {
        prev = ap (λ x. if x then 0 else b.current_clip) f ∙ h.current;
        served = refl;
        timer = (due, timer);
      })
    ]

buffers_paste-IsSafe :
    (env : BuffersEnv) (slot p : ℕ) (b : Buffers)
    → (p == 0) ≡ false
    → env.exists p ≡ true
    → env.serves p ≡ true
    → IsSafe p b
    → IsSafe p (buffers_paste env slot b).0
unfolding buffers_paste
buffers_paste-IsSafe env slot p b nonzero e s h =
    let Goal = λ (r : Buffers × Option BufferError). IsSafe p r.0 in
    let clip = slot_clip slot b in
    let (home, idle) = finish_paste-IsHome env p b nonzero e s h in
    elim-both Goal (valid_slot slot) _ _
      (λ f.
        elim-both Goal (env.hypr && env.wl) _ _
          (λ g.
            elim-both Goal (not (clip == 0) && env.exists clip) _ _
              (λ k.
                elim-both Goal (env.serves clip) _ _
                  (λ l. begin_paste-IsSafe env p clip (finish_paste env b) home idle)
                  (λ l. inl home))
              (λ k. h))
          (λ g. h))
      (λ f. h)

PasteStep-IsSafe :
    (p : ℕ) {b c : Buffers} → (p == 0) ≡ false → PasteStep p b c → IsSafe p b → IsSafe p c
PasteStep-IsSafe p {b = b} nonzero (pasted env slot e s) h =
    buffers_paste-IsSafe env slot p b nonzero e s h
PasteStep-IsSafe p {b = b} nonzero (was_read env) h = on_read-IsSafe env p b h
PasteStep-IsSafe p {b = b} nonzero (restored env d e s f) h =
    inl
      (on_restore-IsHome env p (record b { restore_timer = fire b.restore_timer }) nonzero e s
        (clear-fire b.restore_timer (safe-IsSlot p b h)) (owed p b h)).0

Pasting-IsSafe :
    (p : ℕ) {b c : Buffers} → (p == 0) ≡ false → Pasting p b c → IsSafe p b → IsSafe p c
Pasting-IsSafe p nonzero no_paste h = h
Pasting-IsSafe p nonzero (and_then r s) h =
    PasteStep-IsSafe p nonzero s (Pasting-IsSafe p nonzero r h)

-- From a state with a current clip and no paste in flight, any pastes, reads and time-outs, also pastes
-- on top of one another, lead to a state where that clip is current, or where the timer is armed and has
-- that clip to put back, as long as the clip stays in the database and can be loaded.
pub Pasting_returns :
    (p : ℕ) (b c : Buffers)
    → (p == 0) ≡ false
    → b.current_clip ≡ p
    → b.paste_prev ≡ 0
    → b.restore_timer ≡ idle_slot
    → Pasting p b c
    → (c.current_clip ≡ p) ⊎ ((c.paste_prev ≡ p) × (d : ℕ) × (c.restore_timer ≡ armed_slot d))
Pasting_returns p b c nonzero now prev timer steps =
    let home : IsHome p b = record { current = now; prev = prev; timer = inl timer } in
    elim (Pasting-IsSafe p nonzero steps (inl home)) [
      | inl h ↦ inl h.current
      | inr h ↦ inr (h.prev, h.timer.0, h.timer.1)
    ]
