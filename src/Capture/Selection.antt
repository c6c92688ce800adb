-- ===== src/Capture/Selection.antt =====
-- A new selection, and the watch over the owner of the old one.
use clipnet.Base.{
  ℕ, ◌+◌, ◌≤◌, ◌≡◌, refl, sym, ap, ◌∙◌, subst, inl, inr, Bool, true, false, ◌&&◌, ◌||◌, not, Option,
  none, some, List, [], ◌∷◌, arith, ◌==◌, length, Bytes, if-both, elim-both, option-both,
}
use clipnet.Mime.{Read, Plan, mime_plan_build}
use clipnet.Mime.Reads.{mime_plan_build_bounds}
use clipnet.Resource.{
  Slot, armed_slot, arm, cancel, clear, fire, IsSlot, idle_slot, Table, nothing, acquire, release,
  table_of, release_any-own, clear-cancel,
}
use clipnet.Capture.{Env, Capture, log, probe, WlOffer, offer_id, stop_reading, abort_current}
use clipnet.Capture.Events.{
  keepalive_delay_ms, keepalive_recheck_ms, keepalive_wanted, on_probe, on_keepalive, on_recheck,
  capture_owner_may_have_left, debounce_ms, discard, start_capture, admit, consider,
  capture_on_selection,
}
use clipnet.Capture.Phase.{
  holdings, Pair, Phase, IsReady, Kept, serve_clip-Kept, rest, both, later, idle, waiting, reading,
  Held, IsHeld, IsClosed,
}

-- Other members do not matter.
Kept-IsReady : (c d : Capture) → Kept c d → IsReady (holdings c) → IsReady (holdings d)
Kept-IsReady c d same h = subst IsReady (sym same) h

-- The timers of the watch change alone.
timers-IsReady :
    (c : Capture) (k r : Slot)
    → Pair k r
    → IsReady (holdings c)
    → IsReady (holdings (record c { keepalive_timer = k; recheck_timer = r }))
timers-IsReady c k r p h = record {
  held = record {
    offers = h.held.offers;
    fds = h.held.fds;
    watched = h.held.watched;
    debounce = h.held.debounce;
    format = h.held.format;
    pair = p;
  };
  phase = go h.phase;
  reads = h.reads;
}
  where
    go : Phase (holdings c) → Phase (holdings (record c { keepalive_timer = k; recheck_timer = r }))
    go (idle o d g closed) =
        idle o d g (record {
          fd = closed.fd;
          watch = closed.watch;
          format = closed.format;
          cur = closed.cur;
        })
    go (waiting o t offer d g closed) =
        waiting o t offer d g (record {
          fd = closed.fd;
          watch = closed.watch;
          format = closed.format;
          cur = closed.cur;
        })
    go (reading o f t offer d opened timer at got) = reading o f t offer d opened timer at got

pub Pair-IsSlot : (k r : Slot) → Pair k r → IsSlot k × IsSlot r
Pair-IsSlot k r (rest a b) = (inl a, inl b)
Pair-IsSlot k r (both d a b) = (inr (d + 150, a), inr (d + 1200, b))
Pair-IsSlot k r (later d a b) = (inl a, inr (d, b))

arm-cancel : (d : ℕ) (s : Slot) → IsSlot s → arm d (cancel s) ≡ armed_slot d
unfolding arm cancel
arm-cancel d s (inl e) = rw e refl
arm-cancel d s (inr (t, e)) = rw e refl

pub owner_left-IsReady :
    (env : Env) (c : Capture)
    → IsReady (holdings c)
    → IsReady (holdings (capture_owner_may_have_left env c))
unfolding capture_owner_may_have_left
owner_left-IsReady env c h =
    let (k, r) = Pair-IsSlot c.keepalive_timer c.recheck_timer h.held.pair in
    if-both (λ (d : Capture). IsReady (holdings d)) (keepalive_wanted env c) _ _
      (λ e.
        timers-IsReady c (arm (env.armed + keepalive_delay_ms) (cancel c.keepalive_timer))
          (arm (env.armed + keepalive_recheck_ms) (cancel c.recheck_timer))
          (both env.armed (arm-cancel (env.armed + keepalive_delay_ms) c.keepalive_timer k)
            (arm-cancel (env.armed + keepalive_recheck_ms) c.recheck_timer r))
          h)
      (λ e. h)

on_probe-Kept : (env : Env) (b : Bool) (c : Capture) → Kept c (on_probe env b c)
unfolding on_probe
on_probe-Kept env b c =
    let d : Capture = record c { probing = false } in
    if-both (Kept c) (not b && keepalive_wanted env d && env.exists d.current_clip) _ _
      (λ e. serve_clip-Kept env d.current_clip d) (λ e. refl)

on_keepalive-Kept :
    (env : Env) (b : Bool) (c : Capture)
    → Kept (record c { keepalive_timer = clear c.keepalive_timer }) (on_keepalive env b c)
unfolding on_keepalive
on_keepalive-Kept env b c =
    let d : Capture = record c { keepalive_timer = clear c.keepalive_timer } in
    if-both (Kept d)
      (not (keepalive_wanted env d)
        || d.probing
        || (env.serve_current == d.current_clip && not (env.serve_current == 0)))
      _ _ (λ e. refl) (λ e. on_probe-Kept env b (log probe (record d { probing = true })))

pub on_keepalive-IsReady :
    (env : Env) (b : Bool) (c : Capture) (d : ℕ)
    → c.keepalive_timer.due ≡ some d
    → IsReady (holdings c)
    → IsReady
        (holdings (on_keepalive env b (record c { keepalive_timer = fire c.keepalive_timer })))
on_keepalive-IsReady env b c d e h =
    let fired : Capture = record c { keepalive_timer = fire c.keepalive_timer } in
    Kept-IsReady (record c { keepalive_timer = clear (fire c.keepalive_timer) })
      (on_keepalive env b fired) (on_keepalive-Kept env b fired)
      (timers-IsReady c (clear (fire c.keepalive_timer)) c.recheck_timer (go h.held.pair) h)
  where
    go :
        Pair c.keepalive_timer c.recheck_timer
        → Pair (clear (fire c.keepalive_timer)) c.recheck_timer
    go (rest k r) = absurd (cc (e, ap (λ (s : Slot). s.due) k))
    go (both t k r) = later (t + 1200) (unfold clear fire in rw k refl) r
    go (later t k r) = absurd (cc (e, ap (λ (s : Slot). s.due) k))

-- The later timer fires, and the earlier one is not due before it: the loop calls timers in order.
pub on_recheck-IsReady :
    (env : Env) (b : Bool) (c : Capture) (d : ℕ)
    → c.recheck_timer.due ≡ some d
    → ((k : ℕ) → c.keepalive_timer.due ≡ some k → d ≤ k)
    → IsReady (holdings c)
    → IsReady (holdings (on_recheck env b (record c { recheck_timer = fire c.recheck_timer })))
unfolding on_recheck
on_recheck-IsReady env b c d e first h =
    let rested : Capture = record c { recheck_timer = clear (fire c.recheck_timer) } in
    Kept-IsReady (record rested { keepalive_timer = clear c.keepalive_timer })
      (on_keepalive env b rested) (on_keepalive-Kept env b rested)
      (timers-IsReady c (clear c.keepalive_timer) (clear (fire c.recheck_timer)) (go h.held.pair) h)
  where
    go :
        Pair c.keepalive_timer c.recheck_timer
        → Pair (clear c.keepalive_timer) (clear (fire c.recheck_timer))
    go (rest k r) = absurd (cc (e, ap (λ (s : Slot). s.due) r))
    go (both t k r) =
        let due : d ≡ t + 1200 = ground (arith, e, ap (λ (s : Slot). s.due) r) in
        absurd (omega (arith, due, first (t + 150) (ap (λ (s : Slot). s.due) k)))
    go (later t k r) = rest (unfold clear in rw k refl) (unfold clear fire in rw r refl)

-- At rest, with nothing in hand, whatever the plan.
pub record IsAtRest (c : Held) : Type 0 where
  pub held : IsHeld c
  pub offer : c.offer ≡ none
  pub debounce : c.debounce_timer ≡ idle_slot
  pub got : c.got ≡ []
  pub closed : IsClosed c

IsAtRest-IsReady :
    (c : Capture) → IsAtRest (holdings c) → length c.plan.reads ≤ 32 → IsReady (holdings c)
IsAtRest-IsReady c h r = record {
  held = h.held;
  phase = idle h.offer h.debounce h.got h.closed;
  reads = r;
}

plan-IsAtRest :
    (c : Capture) (p : Plan) → IsAtRest (holdings c) → IsAtRest (holdings (record c { plan = p }))
plan-IsAtRest c p h = record {
  held = record {
    offers = h.held.offers;
    fds = h.held.fds;
    watched = h.held.watched;
    debounce = h.held.debounce;
    format = h.held.format;
    pair = h.held.pair;
  };
  offer = h.offer;
  debounce = h.debounce;
  got = h.got;
  closed = record {
    fd = h.closed.fd;
    watch = h.closed.watch;
    format = h.closed.format;
    cur = h.closed.cur;
  };
}

discard-Kept : (o : WlOffer) (c : Capture) → IsAtRest (holdings c) → Kept c (discard o c)
unfolding discard release acquire
discard-Kept o c h =
    let before : c.offers ≡ nothing =
      h.held.offers ∙ ap (λ (x : Option WlOffer). table_of (offer_id x)) h.offer in
    ap (λ (t : Table). holdings (record c { offers = t })) (rw before (ground arith))

start_capture-IsReady :
    (env : Env) (o : WlOffer) (c : Capture)
    → IsAtRest (holdings c)
    → length c.plan.reads ≤ 32
    → IsReady (holdings (start_capture env o c))
unfolding start_capture acquire arm
start_capture-IsReady env o c h r =
    let before : c.offers ≡ nothing =
      h.held.offers ∙ ap (λ (x : Option WlOffer). table_of (offer_id x)) h.offer in
    let due = env.armed + debounce_ms in
    let armed : arm due c.debounce_timer ≡ armed_slot due = unfold arm in rw h.debounce refl in
    record {
      held = record {
        offers = rw before refl;
        fds = h.held.fds;
        watched = h.held.watched;
        debounce = inr (due, armed);
        format = h.held.format;
        pair = h.held.pair;
      };
      phase = waiting o due refl armed h.got (record {
        fd = h.closed.fd;
        watch = h.closed.watch;
        format = h.closed.format;
        cur = h.closed.cur;
      });
      reads = r;
    }

-- What an event may change about the plan is a shorter list of reads.
unfoldable pub IsFair : Env → Type 0
IsFair env = (app : Option Bytes) (p : Plan) → length (env.filter_plan app p).reads ≤ length p.reads

admit-IsReady :
    (env : Env) (o : WlOffer) (c : Capture)
    → IsFair env
    → IsAtRest (holdings c)
    → length c.plan.reads ≤ 32
    → IsReady (holdings (admit env o c))
unfolding admit IsFair
admit-IsReady env o c fair h r =
    let d : Capture = record c { plan = env.filter_plan env.app_class c.plan } in
    let short : length d.plan.reads ≤ 32 = omega (arith, fair env.app_class c.plan, r) in
    let at_rest = plan-IsAtRest c (env.filter_plan env.app_class c.plan) h in
    elim-both (λ (e : Capture). IsReady (holdings e)) (env.paused || env.excluded env.app_class) _ _
      (λ e. Kept-IsReady c (discard o c) (discard-Kept o c h) (IsAtRest-IsReady c h r))
      (λ e. reads d.plan.reads d short at_rest)
  where
    reads :
        (rs : List Read) (d : Capture)
        → length d.plan.reads ≤ 32
        → IsAtRest (holdings d)
        → IsReady (holdings (elim rs [ [] ↦ discard o d | r ∷ rs ↦ start_capture env o d ]))
    reads [] d short at_rest =
        Kept-IsReady d (discard o d) (discard-Kept o d at_rest) (IsAtRest-IsReady d at_rest short)
    reads (r ∷ rs) d short at_rest = start_capture-IsReady env o d at_rest short

consider-IsReady :
    (env : Env) (o : WlOffer) (c : Capture)
    → IsFair env
    → IsAtRest (holdings c)
    → IsReady (holdings (consider env o c))
unfolding consider
consider-IsReady env o c fair h =
    let d : Capture = record c { plan = mime_plan_build o.mimes } in
    let at_rest = plan-IsAtRest c (mime_plan_build o.mimes) h in
    let short = (mime_plan_build_bounds o.mimes).0 in
    let ready = IsAtRest-IsReady d at_rest short in
    let Goal = λ (e : Capture). IsReady (holdings e) in
    elim-both Goal d.plan.is_ours _ _
      (λ e. Kept-IsReady d (discard o d) (discard-Kept o d at_rest) ready)
      (λ e.
        elim-both Goal d.plan.is_sensitive _ _
          (λ f.
            let s : Capture = record d { current_clip = 0; sensitive = true } in
            Kept-IsReady s (discard o s) (discard-Kept o s at_rest) ready)
          (λ f.
            admit-IsReady env o (record d { current_clip = 0; sensitive = false }) fair at_rest
              short))

abort_current-IsAtRest : (c : Capture) → IsHeld (holdings c) → IsAtRest (holdings (abort_current c))
unfolding abort_current stop_reading
abort_current-IsAtRest c h = record {
  held = record {
    offers = release_any-own (offer_id c.offer) c.offers h.offers;
    fds = release_any-own c.fd c.fds h.fds;
    watched = release_any-own c.watch c.watched h.watched;
    debounce = inl (clear-cancel c.debounce_timer h.debounce);
    format = inl (clear-cancel c.format_timer h.format);
    pair = h.pair;
  };
  offer = refl;
  debounce = clear-cancel c.debounce_timer h.debounce;
  got = refl;
  closed = record {
    fd = refl;
    watch = refl;
    format = clear-cancel c.format_timer h.format;
    cur = refl;
  };
}

pub capture_on_selection-IsReady :
    (env : Env) (offer : Option WlOffer) (c : Capture)
    → IsFair env
    → IsReady (holdings c)
    → IsReady (holdings (capture_on_selection env offer c))
unfolding capture_on_selection
capture_on_selection-IsReady env offer c fair h =
    let quiet : Capture = record c { keepalive_timer = clear (cancel c.keepalive_timer) } in
    let ready =
      timers-IsReady c (clear (cancel c.keepalive_timer)) c.recheck_timer (go h.held.pair) h in
    let at_rest = abort_current-IsAtRest quiet ready.held in
    let short : length (abort_current quiet).plan.reads ≤ 32 =
      unfold abort_current stop_reading in h.reads in
    option-both (λ (e : Capture). IsReady (holdings e)) offer _ _
      (λ e.
        owner_left-IsReady env (abort_current quiet)
          (IsAtRest-IsReady (abort_current quiet) at_rest short))
      (λ o e. consider-IsReady env o (abort_current quiet) fair at_rest)
  where
    go :
        Pair c.keepalive_timer c.recheck_timer
        → Pair (clear (cancel c.keepalive_timer)) c.recheck_timer
    go (rest k r) = rest (unfold clear cancel in rw k refl) r
    go (both t k r) = later (t + 1200) (unfold clear cancel in rw k refl) r
    go (later t k r) = later t (unfold clear cancel in rw k refl) r
