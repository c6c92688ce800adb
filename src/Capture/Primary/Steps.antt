-- ===== src/Capture/Primary/Steps.antt =====
-- Runs of the reading of PRIMARY: its events, in any order.
use clipnet.Base.{
  ℕ, ◌+◌, ◌≡◌, refl, sym, ap, ◌∙◌, inl, inr, Bool, false, ◌||◌, not, Option, none, some, List, [],
  ◌∷◌, ◌++◌, arith, ltb, if◌then◌else◌, Bool-cases, length, length-append, bytes_eq, or_false,
  elim-both, option-both,
}
use clipnet.Mime.Offered.{mime_plan_build_flags}
use clipnet.Mime.{Read, mime_text, mime_plan_build}
use clipnet.Resource.{
  Slot, idle_slot, armed_slot, arm, cancel, clear, fire, Table, nothing, acquire, table_of, IsSlot,
  release,
}
use clipnet.Capture.{WlOffer, Env, receive, offer_id}
use clipnet.Capture.Events.{
  format_timeout_ms, ReadResult, chunk, end_of_file, interrupted, would_block, failed,
}
use clipnet.Capture.Primary.{
  primary_cap, Primary, primary_stop, on_primary_readable, on_primary_timeout, primary_open,
  primary_settle_ms, primary_new, first_read, on_primary_settled, primary_discard, primary_start,
  capture_on_primary,
}
use clipnet.Capture.Primary.Phase.{
  TextOnly-snoc, IsPublic, Phase, IsSettled, IsReady, timer-IsSlot, primary_stop-IsReady,
  stop-IsReady, primary_store-IsReady, off, settling, receiving,
}

fired_cancel : (s : Slot) → IsSlot s → clear (cancel (clear (fire s))) ≡ idle_slot
unfolding clear cancel fire
fired_cancel s (inl e) = rw e refl
fired_cancel s (inr (d, e)) = rw e refl

-- A timer of the slot has fired, and its callback has cleared the pointer.
abbrev fired : Primary → Primary
fired p = record p { timer = clear (fire p.timer) }

fired_stop-IsReady : (p : Primary) → IsReady p → IsReady (primary_stop (fired p))
fired_stop-IsReady p h =
    primary_stop-IsReady (fired p)
      (record {
        offers = h.held.offers;
        fds = h.held.fds;
        watched = h.held.watched;
        stored = h.held.stored;
      })
      (fired_cancel p.timer (timer-IsSlot p h.phase))

on_primary_timeout-IsReady :
    (p : Primary) → IsReady p → IsReady (on_primary_timeout (record p { timer = fire p.timer }))
unfolding on_primary_timeout
on_primary_timeout-IsReady p h = fired_stop-IsReady p h

on_primary_readable-IsReady :
    (env : Env) (rs : List ReadResult) (p : Primary) (fd : ℕ)
    → p.fd ≡ some fd
    → IsReady p
    → IsReady (on_primary_readable env rs p)
unfolding on_primary_readable
on_primary_readable-IsReady env [] p fd e h = h
on_primary_readable-IsReady env (chunk s ∷ rs) p fd e h =
    let go = on_primary_readable-IsReady env rs (record p { buf = p.buf ++ s }) fd e in
    elim-both (λ (q : Primary). IsReady q) (ltb primary_cap (length p.buf + length s)) _ _
      (λ f. stop-IsReady p h)
      (λ f. go (record {
        held = record {
          offers = h.held.offers;
          fds = h.held.fds;
          watched = h.held.watched;
          stored = h.held.stored;
        };
        phase = longer f h.phase;
      }))
  where
    longer :
        ltb primary_cap (length p.buf + length s) ≡ false
        → Phase p
        → Phase (record p { buf = p.buf ++ s })
    longer f (off o t g w b) = absurd (cc (e, g))
    longer f (settling o d i k t g w b) = absurd (cc (e, g))
    longer f (receiving o n d i k t g b) =
        receiving o n d i k t g (ground (arith, f, length-append p.buf s))
on_primary_readable-IsReady env (end_of_file ∷ rs) p fd e h = primary_store-IsReady env p h
on_primary_readable-IsReady env (interrupted ∷ rs) p fd e h =
    on_primary_readable-IsReady env rs p fd e h
on_primary_readable-IsReady env (would_block ∷ rs) p fd e h = h
on_primary_readable-IsReady env (failed ∷ rs) p fd e h = stop-IsReady p h

primary_open-IsReady :
    (env : Env) (r : Read) (fd d : ℕ) (o : WlOffer) (p : Primary)
    → IsSettled p
    → p.offer ≡ some o
    → IsPublic o
    → p.timer ≡ armed_slot d
    → p.fd ≡ none
    → p.watch ≡ none
    → p.buf ≡ []
    → IsReady (primary_open env r fd (fired p))
unfolding primary_open acquire
primary_open-IsReady env r fd d o p h i public t f w b =
    let fds : p.fds ≡ nothing = h.fds ∙ ap table_of f in
    let watched : p.watched ≡ nothing = h.watched ∙ ap table_of w in
    let due = env.armed + format_timeout_ms in
    record {
      held = record {
        offers = h.offers;
        fds = rw fds refl;
        watched = watch_ok p.watched watched;
        stored = TextOnly-snoc p.out (receive r.offered) h.stored tt;
      };
      phase =
          receiving o fd due i public (unfold arm clear fire in rw t refl) refl
            (ground (arith, ap length b));
    }
  where
    watch_ok :
        (x : Table)
        → x ≡ nothing
        → (if env.add_fd then acquire fd x else x) ≡ table_of (if env.add_fd then some fd else none)
    watch_ok x e = elim (Bool-cases env.add_fd) [ inl g ↦ rw g (rw e refl) | inr g ↦ rw g e ]

-- The timer fires while no pipe is open.
on_primary_settled-IsReady :
    (env : Env) (p : Primary)
    → p.fd ≡ none
    → IsReady p
    → IsReady (on_primary_settled env (record p { timer = fire p.timer }))
unfolding on_primary_settled
on_primary_settled-IsReady env p g h =
    let stopped = fired_stop-IsReady p h in
    option-both (λ (q : Primary). IsReady q) p.offer _ _ (λ e. nothing_fired e h.phase)
      (λ o e.
        option-both (λ (q : Primary). IsReady q) (first_read (mime_plan_build o.mimes)) _ _
          (λ f. stopped)
          (λ r f.
            elim-both (λ (q : Primary). IsReady q) (bytes_eq r.canonical mime_text) _ _
              (λ k.
                option-both (λ (q : Primary). IsReady q) env.pipe _
                  (λ fd. primary_open env r fd (fired p)) (λ l. stopped)
                  (λ fd l. opened r fd o e h.phase))
              (λ k. stopped)))
  where
    nothing_fired : p.offer ≡ none → Phase p → IsReady (fired p)
    nothing_fired e (off o t f w b) = record {
      held = record {
        offers = h.held.offers;
        fds = h.held.fds;
        watched = h.held.watched;
        stored = h.held.stored;
      };
      phase = off o (unfold clear fire in rw t refl) f w b;
    }
    nothing_fired e (settling o d i k t f w b) = absurd (cc (e, i))
    nothing_fired e (receiving o n d i k t f b) = absurd (cc (e, i))

    opened :
        (r : Read) (fd : ℕ) (o : WlOffer)
        → p.offer ≡ some o
        → Phase p
        → IsReady (primary_open env r fd (fired p))
    opened r fd x e (off o t f w b) = absurd (cc (e, o))
    opened r fd x e (settling o d i k t f w b) =
        primary_open-IsReady env r fd d o p h.held i k t f w b
    opened r fd x e (receiving o n d i k t f b) = absurd (cc (g, f))

discard_nothing :
    (o : WlOffer) (p : Primary) → p.offers ≡ nothing → (primary_discard o p).offers ≡ nothing
unfolding primary_discard acquire release
discard_nothing o p e = rw e (ground arith)

primary_stop_off : (p : Primary) → (primary_stop p).offer ≡ none
unfolding primary_stop
primary_stop_off p = refl

primary_discard-IsReady :
    (o : WlOffer) (p : Primary) → p.offer ≡ none → IsReady p → IsReady (primary_discard o p)
unfolding primary_discard
primary_discard-IsReady o p e h =
    let empty = h.held.offers ∙ ap (λ (x : Option WlOffer). table_of (offer_id x)) e in
    record {
      held = record {
        offers = discard_nothing o p empty ∙ sym empty ∙ h.held.offers;
        fds = h.held.fds;
        watched = h.held.watched;
        stored = h.held.stored;
      };
      phase = go h.phase;
    }
  where
    go : Phase p → Phase (primary_discard o p)
    go (off i t f w b) = off i t f w b
    go (settling k d i public t f w b) = absurd (cc (e, i))
    go (receiving k n d i public t f b) = absurd (cc (e, i))

primary_start-IsReady :
    (env : Env) (o : WlOffer) (p : Primary)
    → p.offer ≡ none
    → IsPublic o
    → IsReady p
    → IsReady (primary_start env o p)
unfolding primary_start acquire
primary_start-IsReady env o p e public h =
    let empty = h.held.offers ∙ ap (λ (x : Option WlOffer). table_of (offer_id x)) e in
    record {
      held = record {
        offers = rw empty refl;
        fds = h.held.fds;
        watched = h.held.watched;
        stored = h.held.stored;
      };
      phase = go h.phase;
    }
  where
    go : Phase p → Phase (primary_start env o p)
    go (off i t f w b) =
        settling o (env.armed + primary_settle_ms) refl public (unfold arm in rw t refl) f w b
    go (settling k d i j t f w b) = absurd (cc (e, i))
    go (receiving k n d i j t f b) = absurd (cc (e, i))

capture_on_primary-IsReady :
    (env : Env) (wanted : Bool) (offer : Option WlOffer) (p : Primary)
    → IsReady p
    → IsReady (capture_on_primary env wanted offer p)
unfolding capture_on_primary
capture_on_primary-IsReady env wanted offer p h =
    let q = primary_stop p in
    let ready = stop-IsReady p h in
    let rest = primary_stop_off p in
    let Goal = λ (r : Primary). IsReady r in
    option-both Goal offer _ _ (λ e. ready)
      (λ o e.
        let flags = mime_plan_build_flags o.mimes in
        elim-both Goal (not wanted || env.paused) _ _ (λ f. primary_discard-IsReady o q rest ready)
          (λ f.
            elim-both Goal
              ((mime_plan_build o.mimes).is_ours
                || (mime_plan_build o.mimes).is_sensitive
                || env.excluded env.app_class)
              _ _ (λ g. primary_discard-IsReady o q rest ready)
              (λ g.
                let plan = mime_plan_build o.mimes in
                let (marked, app) =
                  or_false (plan.is_ours || plan.is_sensitive) (env.excluded env.app_class) g in
                let (ours, secret) = or_false plan.is_ours plan.is_sensitive marked in
                primary_start-IsReady env o q rest (sym flags.0 ∙ ours, sym flags.1 ∙ secret)
                  ready)))

-- A timer that fires while no pipe is open is the one of `capture_on_primary`, and otherwise the one of
-- `on_primary_settled`; a pipe is read while it is watched.
pub data PrimaryStep (p : Primary) : Primary → Type 0 where
  selected :
      (env : Env) (wanted : Bool) (offer : Option WlOffer)
      → PrimaryStep p (capture_on_primary env wanted offer p)
  settled :
      (env : Env) (d : ℕ)
      → p.timer.due ≡ some d
      → p.fd ≡ none
      → PrimaryStep p (on_primary_settled env (record p { timer = fire p.timer }))
  timed_out :
      (d fd : ℕ)
      → p.timer.due ≡ some d
      → p.fd ≡ some fd
      → PrimaryStep p (on_primary_timeout (record p { timer = fire p.timer }))
  readable :
      (env : Env) (rs : List ReadResult) (fd : ℕ)
      → p.watch ≡ some fd
      → PrimaryStep p (on_primary_readable env rs p)

pub data PrimaryReach (p : Primary) : Primary → Type 0 where
  here : PrimaryReach p p
  then_step : {q r : Primary} → PrimaryReach p q → PrimaryStep q r → PrimaryReach p r

watched_reads : (p : Primary) (fd : ℕ) → p.watch ≡ some fd → Phase p → (f : ℕ) × (p.fd ≡ some f)
watched_reads p fd e (off o t f w b) = absurd (cc (e, w))
watched_reads p fd e (settling o d i k t f w b) = absurd (cc (e, w))
watched_reads p fd e (receiving o n d i k t f b) = (n, f)

PrimaryStep-IsReady : {p q : Primary} → PrimaryStep p q → IsReady p → IsReady q
PrimaryStep-IsReady {p = p} (selected env wanted offer) h =
    capture_on_primary-IsReady env wanted offer p h
PrimaryStep-IsReady {p = p} (settled env d e f) h = on_primary_settled-IsReady env p f h
PrimaryStep-IsReady {p = p} (timed_out d fd e f) h = on_primary_timeout-IsReady p h
PrimaryStep-IsReady {p = p} (readable env rs fd e) h =
    let (f, opened) = watched_reads p fd e h.phase in
    on_primary_readable-IsReady env rs p f opened h

-- Whatever events come, the reading of PRIMARY holds exactly what its phase needs, has at most the cap
-- in its buffer, reads neither our own offers nor a password manager's, and stores text only.
pub PrimaryReach-IsReady : {p : Primary} → PrimaryReach primary_new p → IsReady p
PrimaryReach-IsReady here = record {
  held = record { offers = refl; fds = refl; watched = refl; stored = tt };
  phase = off refl refl refl refl refl;
}
PrimaryReach-IsReady (then_step r s) = PrimaryStep-IsReady s (PrimaryReach-IsReady r)
