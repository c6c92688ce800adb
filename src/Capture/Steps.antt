-- ===== src/Capture/Steps.antt =====
-- Runs of the capture: any events, in any order that the loop allows.
use clipnet.Base.{ℕ, ◌≤◌, ◌≡◌, refl, inl, Bool, Option, some, List, arith}
use clipnet.Resource.{fire}
use clipnet.Capture.{WlOffer, Env, Capture, capture_new, capture_set_current_clip, capture_expect}
use clipnet.Capture.Events.{
  on_format_timeout, ReadResult, on_readable, on_debounced, on_keepalive, on_recheck,
  capture_owner_may_have_left, capture_on_selection,
}
use clipnet.Capture.Phase.{holdings, Phase, IsReady, rest, idle, waiting, reading}
use clipnet.Capture.Ready.{on_readable-IsReady, on_format_timeout-IsReady, on_debounced-IsReady}
use clipnet.Capture.Selection.{
  owner_left-IsReady, on_keepalive-IsReady, on_recheck-IsReady, IsFair,
  capture_on_selection-IsReady,
}

-- An event other than a new selection. A timer's callback runs when the loop has the timer, and the
-- recheck runs only if the earlier timer is not due before it; a pipe is read while it is watched.
pub data QuietStep (c : Capture) : Capture → Type 0 where
  debounced :
      (env : Env) (d : ℕ)
      → c.debounce_timer.due ≡ some d
      → QuietStep c (on_debounced env (record c { debounce_timer = fire c.debounce_timer }))
  timed_out :
      (env : Env) (d : ℕ)
      → c.format_timer.due ≡ some d
      → QuietStep c (on_format_timeout env (record c { format_timer = fire c.format_timer }))
  readable :
      (env : Env) (rs : List ReadResult) (fd : ℕ)
      → c.watch ≡ some fd
      → QuietStep c (on_readable env rs c)
  owner_left : (env : Env) → QuietStep c (capture_owner_may_have_left env c)
  kept_alive :
      (env : Env) (has_selection : Bool) (d : ℕ)
      → c.keepalive_timer.due ≡ some d
      → QuietStep c
          (on_keepalive env has_selection (record c { keepalive_timer = fire c.keepalive_timer }))
  rechecked :
      (env : Env) (has_selection : Bool) (d : ℕ)
      → c.recheck_timer.due ≡ some d
      → ((k : ℕ) → c.keepalive_timer.due ≡ some k → d ≤ k)
      → QuietStep c
          (on_recheck env has_selection (record c { recheck_timer = fire c.recheck_timer }))
  made_current : (id : ℕ) → QuietStep c (capture_set_current_clip id c)
  expected : (now timeout_ms : ℕ) → QuietStep c (capture_expect now timeout_ms c)

pub data Step (c : Capture) : Capture → Type 0 where
  selected :
      (env : Env) (offer : Option WlOffer) → IsFair env → Step c (capture_on_selection env offer c)
  other : {d : Capture} → QuietStep c d → Step c d

pub data Reach (c : Capture) : Capture → Type 0 where
  here : Reach c c
  then_step : {d e : Capture} → Reach c d → Step d e → Reach c e

watched_reads :
    (c : Capture) (fd : ℕ) → c.watch ≡ some fd → IsReady (holdings c) → (f : ℕ) × (c.fd ≡ some f)
watched_reads c fd e h = go h.phase
  where
    go : Phase (holdings c) → (f : ℕ) × (c.fd ≡ some f)
    go (idle o d g closed) = absurd (cc (e, closed.watch))
    go (waiting o t offer d g closed) = absurd (cc (e, closed.watch))
    go (reading o f t offer d opened timer at got) = (f, opened)

pub QuietStep-IsReady :
    {c d : Capture} → QuietStep c d → IsReady (holdings c) → IsReady (holdings d)
QuietStep-IsReady {c = c} (debounced env t e) h = on_debounced-IsReady env c t e h
QuietStep-IsReady {c = c} (timed_out env t e) h = on_format_timeout-IsReady env c t e h
QuietStep-IsReady {c = c} (readable env rs fd e) h =
    let (f, opened) = watched_reads c fd e h in on_readable-IsReady env rs c f opened h
QuietStep-IsReady {c = c} (owner_left env) h = owner_left-IsReady env c h
QuietStep-IsReady {c = c} (kept_alive env b t e) h = on_keepalive-IsReady env b c t e h
QuietStep-IsReady {c = c} (rechecked env b t e first) h = on_recheck-IsReady env b c t e first h
QuietStep-IsReady (made_current id) h = unfold capture_set_current_clip in h
QuietStep-IsReady (expected now t) h = unfold capture_expect in h

pub Step-IsReady : {c d : Capture} → Step c d → IsReady (holdings c) → IsReady (holdings d)
Step-IsReady {c = c} (selected env offer fair) h = capture_on_selection-IsReady env offer c fair h
Step-IsReady (other s) h = QuietStep-IsReady s h

pub capture_new-IsReady : IsReady (holdings capture_new)
capture_new-IsReady = record {
  held = record {
    offers = refl;
    fds = refl;
    watched = refl;
    debounce = inl refl;
    format = inl refl;
    pair = rest refl refl;
  };
  phase = idle refl refl refl (record { fd = refl; watch = refl; format = refl; cur = refl });
  reads = omega arith;
}

-- Whatever selections, data, time-outs and failures come, if only the filter of the rules adds no read
-- to a plan, a capture is in one of its phases and holds exactly what the phase needs: every descriptor,
-- watch, offer and timer is given back once, none is given back twice, and no timer loses its pointer.
pub Reach-IsReady : {c : Capture} → Reach capture_new c → IsReady (holdings c)
Reach-IsReady here = capture_new-IsReady
Reach-IsReady (then_step r s) = Step-IsReady s (Reach-IsReady r)
