-- ===== src/Capture/Progress.antt =====
-- Time-outs of the reads of a capture (`on_format_timeout`), one after the other.
use clipnet.Base.{
  ℕ, suc, ◌+◌, ◌≤◌, ◌<◌, ◌≡◌, refl, ap, ◌∙◌, ◌⊎◌, inl, inr, none, some, List, [], ◌∷◌, arith, leb,
  length, get_elem?, elim-both, option-both,
}
use clipnet.Mime.{Plan}
use clipnet.Resource.{Slot, clear, fire, idle_slot}
use clipnet.Capture.{Env, Capture, stop_reading, abort_current, finish}
use clipnet.Capture.Events.{open_read, read_next, end_format, on_format_timeout}
use clipnet.Capture.Phase.{holdings, Phase, IsReady, idle, waiting, reading}
use clipnet.Capture.Ready.{get_elem?_bound, on_format_timeout-IsReady}

-- The format timer fires again and again, as long as it is armed.
unfoldable pub time_outs : List Env → Capture → Capture
time_outs [] c = c
time_outs (env ∷ envs) c = elim c.format_timer.due [
  | none ↦ c
  | some d ↦
      time_outs envs (on_format_timeout env (record c { format_timer = fire c.format_timer }))
]

-- The capture is over, or it reads the format at `next`.
abbrev Advanced : Plan → ℕ → Slot → Capture → Type 0
Advanced p n b c =
    (c.offer ≡ none) ⊎ ((c.plan ≡ p) × (c.next ≡ n) × (n < length p.reads) × (c.debounce_timer ≡ b))

finish_over : (env : Env) (c : Capture) → (finish env c).offer ≡ none
unfolding finish abort_current stop_reading
finish_over env c = refl

read_next-Advanced :
    (env : Env) (c : Capture) → Advanced c.plan c.next c.debounce_timer (read_next env c)
unfolding read_next open_read
read_next-Advanced env c =
    let Goal = Advanced c.plan c.next c.debounce_timer in
    elim-both Goal (leb c.deadline env.checked) _ _ (λ e. inl (finish_over env c))
      (λ e.
        option-both Goal (get_elem? c.plan.reads c.next) (finish env c) _
          (λ f. inl (finish_over env c))
          (λ r f.
            option-both Goal env.pipe (finish env c) (λ fd. open_read env r fd c)
              (λ g. inl (finish_over env c))
              (λ fd g. inr (refl, refl, get_elem?_bound c.plan.reads c.next r f, refl))))

on_format_timeout-Advanced :
    (env : Env) (c : Capture)
    → Advanced c.plan (suc c.next) c.debounce_timer (on_format_timeout env c)
unfolding on_format_timeout end_format stop_reading
on_format_timeout-Advanced env c =
    let s : Capture = stop_reading (record c { format_timer = clear c.format_timer }) in
    read_next-Advanced env (record s { next = suc s.next })

none_armed : (c : Capture) → IsReady (holdings c) → c.offer ≡ none → c.format_timer.due ≡ none
none_armed c h e = go h.phase
  where
    go : Phase (holdings c) → c.format_timer.due ≡ none
    go (idle o d g closed) = ap (λ (s : Slot). s.due) closed.format
    go (waiting o t offer d g closed) = absurd (cc (e, offer))
    go (reading o f t offer d opened timer at got) = absurd (cc (e, offer))

time_outs_over :
    (envs : List Env) (c : Capture)
    → IsReady (holdings c)
    → c.offer ≡ none
    → (time_outs envs c).offer ≡ none
unfolding time_outs
time_outs_over [] c h o = o
time_outs_over (env ∷ envs) c h o = rw (none_armed c h o) o

armed_reading :
    (c : Capture) (fd : ℕ)
    → IsReady (holdings c)
    → c.fd ≡ some fd
    → (d : ℕ) × (c.format_timer.due ≡ some d)
armed_reading c fd h e = go h.phase
  where
    go : Phase (holdings c) → (d : ℕ) × (c.format_timer.due ≡ some d)
    go (idle o d g closed) = absurd (cc (e, closed.fd))
    go (waiting o t offer d g closed) = absurd (cc (e, closed.fd))
    go (reading o f t offer d opened timer at got) = (t, ap (λ (s : Slot). s.due) timer)

time_outs_step :
    (env : Env) (envs : List Env) (c : Capture) (d : ℕ)
    → c.format_timer.due ≡ some d
    → time_outs (env ∷ envs) c
      ≡ time_outs envs (on_format_timeout env (record c { format_timer = fire c.format_timer }))
unfolding time_outs
time_outs_step env envs c d e = ground (arith, e)

-- A capture that holds what its phase needs, and does not wait for the dust to settle, is over after as
-- many time-outs as there are formats left to read: no source can hold it up by keeping its pipe open.
pub time_outs_end :
    (envs : List Env) (c : Capture)
    → IsReady (holdings c)
    → c.debounce_timer ≡ idle_slot
    → length c.plan.reads ≤ c.next + length envs
    → (time_outs envs c).offer ≡ none
time_outs_end [] c h b enough = unfold time_outs in go h.phase
  where
    go : Phase (holdings c) → c.offer ≡ none
    go (idle o d g closed) = o
    go (waiting o t offer d g closed) = absurd cc
    go (reading o f t offer d opened timer at got) = absurd (omega (arith, at, enough))
time_outs_end (env ∷ envs) c h b enough = go (λ r b e. time_outs_end envs fired r b e) h.phase
  where
    fired : Capture
    fired = on_format_timeout env (record c { format_timer = fire c.format_timer })

    go :
        (IsReady (holdings fired)
          → fired.debounce_timer ≡ idle_slot
          → length fired.plan.reads ≤ fired.next + length envs
          → (time_outs envs fired).offer ≡ none)
        → Phase (holdings c)
        → (time_outs (env ∷ envs) c).offer ≡ none
    go later_rounds (idle o d g closed) = time_outs_over (env ∷ envs) c h o
    go later_rounds (waiting o t offer d g closed) = absurd cc
    go later_rounds (reading o f t offer d opened timer at got) =
        let due = ap (λ (s : Slot). s.due) timer in
        let ready = on_format_timeout-IsReady env c t due h in
        ap (λ (x : Capture). x.offer) (time_outs_step env envs c t due)
        ∙ elim (on_format_timeout-Advanced env (record c { format_timer = fire c.format_timer })) [
          | inl over ↦ time_outs_over envs fired ready over
          | inr (plan, next, more, rested) ↦
              later_rounds ready (rested ∙ b)
                (omega (arith, ap (λ (p : Plan). length p.reads) plan, next, enough))
        ]
