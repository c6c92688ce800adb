-- ===== src/Capture/Store.antt =====
-- The clips that a capture has had stored, and what a selection with a password hint does to them.
use clipnet.Base.{
  ℕ, ◌≡◌, refl, ap, ◌∙◌, Bool, true, false, ◌&&◌, ◌||◌, not, none, some, List, [], ◌∷◌, ◌++◌,
  append-nil, ◌==◌, mem, if-both, elim-both,
}
use clipnet.Mime.Offered.{mime_plan_build_flags}
use clipnet.Mime.{mime_password_hint, mime_plan_build}
use clipnet.Resource.{Slot, cancel, clear, fire}
use clipnet.Capture.{
  WlOffer, ClipIn, Effect, Env, Capture, log, stop_reading, abort_current, capture_set_current_clip,
  capture_expect, serve_clip, receive, store, set_sticky, set_locked, set_title, emit, call_hook,
  serve, probe,
}
use clipnet.Capture.Events.{
  keepalive_wanted, on_probe, on_keepalive, on_recheck, capture_owner_may_have_left, discard,
  consider, capture_on_selection,
}
use clipnet.Capture.Phase.{holdings, Phase, IsReady, idle, waiting, reading}
use clipnet.Capture.Selection.{IsFair, capture_on_selection-IsReady}
use clipnet.Capture.Steps.{
  QuietStep, QuietStep-IsReady, debounced, timed_out, readable, owner_left, kept_alive, rechecked,
  made_current, expected,
}

-- The clips that were stored.
unfoldable pub clips : List Effect → List ClipIn
clips [] = []
clips (store c ∷ es) = c ∷ clips es
clips (receive m ∷ es) = clips es
clips (set_sticky i b ∷ es) = clips es
clips (set_locked i b ∷ es) = clips es
clips (set_title i t ∷ es) = clips es
clips (emit r ∷ es) = clips es
clips (call_hook i ∷ es) = clips es
clips (serve i ∷ es) = clips es
clips (probe ∷ es) = clips es

clips-append : (xs ys : List Effect) → clips (xs ++ ys) ≡ clips xs ++ clips ys
unfolding clips
clips-append [] ys = refl
clips-append (store c ∷ xs) ys = ap (◌∷◌ c) (clips-append xs ys)
clips-append (receive m ∷ xs) ys = clips-append xs ys
clips-append (set_sticky i b ∷ xs) ys = clips-append xs ys
clips-append (set_locked i b ∷ xs) ys = clips-append xs ys
clips-append (set_title i t ∷ xs) ys = clips-append xs ys
clips-append (emit r ∷ xs) ys = clips-append xs ys
clips-append (call_hook i ∷ xs) ys = clips-append xs ys
clips-append (serve i ∷ xs) ys = clips-append xs ys
clips-append (probe ∷ xs) ys = clips-append xs ys

-- Nothing new is stored, and no offer is taken.
abbrev pub StaysIdle : Capture → Capture → Type 0
StaysIdle c d = (d.offer ≡ none) × (clips d.out ≡ clips c.out)

serve_clip_idle :
    (env : Env) (id : ℕ) (c : Capture) → c.offer ≡ none → StaysIdle c (serve_clip env id c)
unfolding serve_clip capture_set_current_clip
serve_clip_idle env id c h =
    if-both (StaysIdle c) (env.serves id) _ _
      (λ e. (h, clips-append c.out (serve id ∷ []) ∙ unfold clips in append-nil (clips c.out)))
      (λ e. (h, refl))

on_keepalive_idle :
    (env : Env) (b : Bool) (c : Capture) → c.offer ≡ none → StaysIdle c (on_keepalive env b c)
unfolding on_keepalive on_probe
on_keepalive_idle env b c h =
    let d : Capture = record c { keepalive_timer = clear c.keepalive_timer } in
    let p : Capture = log probe (record d { probing = true }) in
    let q : Capture = record p { probing = false } in
    let same : clips q.out ≡ clips c.out =
      clips-append c.out (probe ∷ []) ∙ unfold clips in append-nil (clips c.out) in
    if-both (StaysIdle c)
      (not (keepalive_wanted env d)
        || d.probing
        || (env.serve_current == d.current_clip && not (env.serve_current == 0)))
      _ _ (λ e. (h, refl))
      (λ e.
        if-both (StaysIdle c) (not b && keepalive_wanted env q && env.exists q.current_clip) _ _
          (λ f. let (o, s) = serve_clip_idle env q.current_clip q h in (o, s ∙ same))
          (λ f. (h, same)))

owner_left_idle :
    (env : Env) (c : Capture) → c.offer ≡ none → StaysIdle c (capture_owner_may_have_left env c)
unfolding capture_owner_may_have_left
owner_left_idle env c h =
    if-both (StaysIdle c) (keepalive_wanted env c) _ _ (λ e. (h, refl)) (λ e. (h, refl))

-- Without an offer no timer of the capture runs and no pipe is watched.
no_event :
    (c : Capture)
    → IsReady (holdings c)
    → c.offer ≡ none
    → (c.debounce_timer.due ≡ none) × (c.format_timer.due ≡ none) × (c.watch ≡ none)
no_event c h e = go h.phase
  where
    go :
        Phase (holdings c)
        → (c.debounce_timer.due ≡ none) × (c.format_timer.due ≡ none) × (c.watch ≡ none)
    go (idle o d g closed) =
        (ap (λ (s : Slot). s.due) d, ap (λ (s : Slot). s.due) closed.format, closed.watch)
    go (waiting o t offer d g closed) = absurd (cc (e, offer))
    go (reading o f t offer d opened timer at got) = absurd (cc (e, offer))

pub QuietStep-StaysIdle :
    {c d : Capture} → QuietStep c d → IsReady (holdings c) → c.offer ≡ none → StaysIdle c d
QuietStep-StaysIdle {c = c} (debounced env t e) h o = absurd (cc (e, (no_event c h o).0))
QuietStep-StaysIdle {c = c} (timed_out env t e) h o = absurd (cc (e, (no_event c h o).1))
QuietStep-StaysIdle {c = c} (readable env rs fd e) h o = absurd (cc (e, (no_event c h o).2))
QuietStep-StaysIdle {c = c} (owner_left env) h o = owner_left_idle env c o
QuietStep-StaysIdle {c = c} (kept_alive env b t e) h o =
    on_keepalive_idle env b (record c { keepalive_timer = fire c.keepalive_timer }) o
QuietStep-StaysIdle {c = c} (rechecked env b t e first) h o =
    unfold on_recheck in
    on_keepalive_idle env b (record c { recheck_timer = clear (fire c.recheck_timer) }) o
QuietStep-StaysIdle (made_current id) h o = unfold capture_set_current_clip in (o, refl)
QuietStep-StaysIdle (expected now t) h o = unfold capture_expect in (o, refl)

-- Any number of events other than a new selection.
pub data Quiet (c : Capture) : Capture → Type 0 where
  no_more : Quiet c c
  and_then_quiet : {d e : Capture} → Quiet c d → QuietStep d e → Quiet c e

Quiet-StaysIdle :
    {c d : Capture}
    → Quiet c d
    → IsReady (holdings c)
    → c.offer ≡ none
    → IsReady (holdings d) × StaysIdle c d
Quiet-StaysIdle no_more h o = (h, (o, refl))
Quiet-StaysIdle (and_then_quiet q s) h o =
    let (ready, (offer, same)) = Quiet-StaysIdle q h o in
    let (offer', same') = QuietStep-StaysIdle s ready offer in
    (QuietStep-IsReady s ready, (offer', same' ∙ same))

discard_idle : (o : WlOffer) (c : Capture) → (discard o c).out ≡ c.out
unfolding discard
discard_idle o c = refl

discard_offer : (o : WlOffer) (c : Capture) → (discard o c).offer ≡ c.offer
unfolding discard
discard_offer o c = refl

consider_secret :
    (env : Env) (o : WlOffer) (c : Capture)
    → c.offer ≡ none
    → mem mime_password_hint o.mimes ≡ true
    → ((consider env o c).offer ≡ none) × ((consider env o c).out ≡ c.out)
unfolding consider
consider_secret env o c h hint =
    let d : Capture = record c { plan = mime_plan_build o.mimes } in
    let Goal = λ (e : Capture). (e.offer ≡ none) × (e.out ≡ c.out) in
    elim-both Goal d.plan.is_ours _ _ (λ e. (discard_offer o d ∙ h, discard_idle o d))
      (λ e.
        elim-both Goal d.plan.is_sensitive _ _
          (λ f.
            let s : Capture = record d { current_clip = 0; sensitive = true } in
            (discard_offer o s ∙ h, discard_idle o s))
          (λ f. absurd (cc (f, (mime_plan_build_flags o.mimes).1, hint))))

abort_idle : (c : Capture) → ((abort_current c).offer ≡ none) × ((abort_current c).out ≡ c.out)
unfolding abort_current stop_reading
abort_idle c = (refl, refl)

-- A selection that carries the password manager's hint is never stored: in a capture that holds what its
-- phase needs, nothing is stored when it comes, nor by any events up to the next selection, if only the
-- filter of the rules adds no read to a plan.
pub secret_not_stored :
    (env : Env) (o : WlOffer) (c d : Capture)
    → IsFair env
    → IsReady (holdings c)
    → mem mime_password_hint o.mimes ≡ true
    → Quiet (capture_on_selection env (some o) c) d
    → clips d.out ≡ clips c.out
secret_not_stored env o c d fair h hint q =
    let before : Capture = record c { keepalive_timer = clear (cancel c.keepalive_timer) } in
    let (none_, out) = abort_idle before in
    let both_ = consider_secret env o (abort_current before) none_ hint in
    let after = capture_on_selection env (some o) c in
    let (offer, same) : (after.offer ≡ none) × (after.out ≡ c.out) =
      unfold capture_on_selection in (both_.0, both_.1 ∙ out) in
    let ready = capture_on_selection-IsReady env (some o) c fair h in
    let (r, (i, s)) = Quiet-StaysIdle q ready offer in s ∙ ap clips same
