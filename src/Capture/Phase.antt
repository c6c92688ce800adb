-- ===== src/Capture/Phase.antt =====
-- The phases of a capture, and what it holds in each.
use clipnet.Base.{
  ℕ, ◌+◌, ◌≤◌, ◌<◌, ◌≡◌, refl, sym, ◌∙◌, subst, inl, Bool, true, false, ◌&&◌, not, Option, none,
  some, List, [], map, leb, if◌then◌else◌, length, Bytes, if-both, elim-both,
}
use clipnet.Mime.{Plan}
use clipnet.Resource.{
  Slot, idle_slot, armed_slot, Table, table_of, IsSlot, release_any-own, clear-cancel,
}
use clipnet.Capture.{
  WlOffer, Env, Capture, offer_id, stop_reading, abort_current, capture_set_current_clip,
  serve_clip, when_some, run_hook, FmtIn, Verdict, AddResult, log, format_of, any_bytes, verdict_on,
  clip_of, stored_clip, finish, add_err, add_new, add_dup, store, set_sticky, set_locked, set_title,
  emit, call_hook, store_clip, Got,
}

-- The members that own something outside.
pub record Held : Type 0 where
  pub offer : Option WlOffer
  pub plan : Plan
  pub next : ℕ
  pub fd : Option ℕ
  pub watch : Option ℕ
  pub cur : Bytes
  pub got : List Got
  pub debounce_timer : Slot
  pub format_timer : Slot
  pub keepalive_timer : Slot
  pub recheck_timer : Slot
  pub fds : Table
  pub watched : Table
  pub offers : Table

abbrev pub holdings : Capture → Held
holdings c = record {
  offer = c.offer;
  plan = c.plan;
  next = c.next;
  fd = c.fd;
  watch = c.watch;
  cur = c.cur;
  got = c.got;
  debounce_timer = c.debounce_timer;
  format_timer = c.format_timer;
  keepalive_timer = c.keepalive_timer;
  recheck_timer = c.recheck_timer;
  fds = c.fds;
  watched = c.watched;
  offers = c.offers;
}

-- The watch over the owner: nothing pending, both timers, or the later one alone.
pub data Pair (k r : Slot) : Type 0 where
  rest : k ≡ idle_slot → r ≡ idle_slot → Pair k r
  both : (d : ℕ) → k ≡ armed_slot (d + 150) → r ≡ armed_slot (d + 1200) → Pair k r
  later : (d : ℕ) → k ≡ idle_slot → r ≡ armed_slot d → Pair k r

-- What is held is exactly what the members say, and no timer is lost.
pub record IsHeld (h : Held) : Type 0 where
  pub offers : h.offers ≡ table_of (offer_id h.offer)
  pub fds : h.fds ≡ table_of h.fd
  pub watched : h.watched ≡ table_of h.watch
  pub debounce : IsSlot h.debounce_timer
  pub format : IsSlot h.format_timer
  pub pair : Pair h.keepalive_timer h.recheck_timer

-- No pipe is open, and the format timer rests.
pub record IsClosed (c : Held) : Type 0 where
  pub fd : c.fd ≡ none
  pub watch : c.watch ≡ none
  pub format : c.format_timer ≡ idle_slot
  pub cur : c.cur ≡ []

-- Nothing is captured; an offer waits for the dust to settle; between two reads; reading.
pub data Phase (c : Held) : Type 0 where
  idle : c.offer ≡ none → c.debounce_timer ≡ idle_slot → c.got ≡ [] → IsClosed c → Phase c
  waiting :
      (o : WlOffer) (d : ℕ)
      → c.offer ≡ some o
      → c.debounce_timer ≡ armed_slot d
      → c.got ≡ []
      → IsClosed c
      → Phase c
  reading :
      (o : WlOffer) (fd d : ℕ)
      → c.offer ≡ some o
      → c.debounce_timer ≡ idle_slot
      → c.fd ≡ some fd
      → c.format_timer ≡ armed_slot d
      → c.next < length c.plan.reads
      → length c.got ≤ c.next
      → Phase c

pub record IsBetween (c : Held) : Type 0 where
  pub offer : (o : WlOffer) × (c.offer ≡ some o)
  pub debounce : c.debounce_timer ≡ idle_slot
  pub got : length c.got ≤ c.next
  pub closed : IsClosed c

pub record IsReady (c : Held) : Type 0 where
  pub held : IsHeld c
  pub phase : Phase c
  pub reads : length c.plan.reads ≤ 32

abort_current-IsHeld : (c : Capture) → IsHeld (holdings c) → IsHeld (holdings (abort_current c))
unfolding abort_current stop_reading
abort_current-IsHeld c h = record {
  offers = release_any-own (offer_id c.offer) c.offers h.offers;
  fds = release_any-own c.fd c.fds h.fds;
  watched = release_any-own c.watch c.watched h.watched;
  debounce = inl (clear-cancel c.debounce_timer h.debounce);
  format = inl (clear-cancel c.format_timer h.format);
  pair = h.pair;
}

abort_current-idle : (c : Capture) → IsHeld (holdings c) → Phase (holdings (abort_current c))
unfolding abort_current stop_reading
abort_current-idle c h =
    idle refl (clear-cancel c.debounce_timer h.debounce) refl (record {
      fd = refl;
      watch = refl;
      format = clear-cancel c.format_timer h.format;
      cur = refl;
    })

abort_current_plan : (c : Capture) → (abort_current c).plan ≡ c.plan
unfolding abort_current stop_reading
abort_current_plan c = refl

pub abort_current-IsReady :
    (c : Capture)
    → IsHeld (holdings c)
    → length c.plan.reads ≤ 32
    → IsReady (holdings (abort_current c))
abort_current-IsReady c h r = record {
  held = abort_current-IsHeld c h;
  phase = abort_current-idle c h;
  reads = rw (abort_current_plan c) r;
}

-- Storing a clip touches nothing of this.
abbrev pub Kept : Capture → Capture → Type 0
Kept c d = holdings d ≡ holdings c

Kept-trans : (c d e : Capture) → Kept c d → Kept d e → Kept c e
Kept-trans c d e h h' = h' ∙ h

when_some-Kept :
    {A : Type 0} (o : Option A) (f : A → Capture → Capture) (c : Capture)
    → ((a : A) (d : Capture) → Kept d (f a d))
    → Kept c (when_some o f c)
when_some-Kept none f c h = refl
when_some-Kept (some a) f c h = h a c

pub serve_clip-Kept : (env : Env) (id : ℕ) (c : Capture) → Kept c (serve_clip env id c)
unfolding serve_clip capture_set_current_clip
serve_clip-Kept env id c = if-both (Kept c) (env.serves id) _ _ (λ e. refl) (λ e. refl)

run_hook-Kept : (env : Env) (id : ℕ) (c : Capture) → Kept c (run_hook env id c)
unfolding run_hook
run_hook-Kept env id c =
    elim-both (Kept c) c.hook _ _
      (λ e.
        elim-both (Kept c) (leb env.hooked c.hook_deadline) _ _
          (λ f.
            when_some-Kept (env.hook_serves id) (serve_clip env)
              (log (call_hook id) (record c { hook = false })) (λ i d. serve_clip-Kept env i d))
          (λ f. refl))
      (λ e. refl)

stored_clip-Kept :
    (env : Env) (v : Verdict) (r : AddResult) (b : Bool) (id : ℕ) (c : Capture)
    → Kept c (stored_clip env v r b id c)
unfolding stored_clip
stored_clip-Kept env v r b id c =
    let d = when_some v.sticky (λ b. log (set_sticky id b)) c in
    let e = when_some v.locked (λ b. log (set_locked id b)) d in
    let f = when_some (if b then v.title else none) (λ t. log (set_title id t)) e in
    let g : Capture = record f { current_clip = elim v.text [ none ↦ id | some t ↦ 0 ] } in
    let one = when_some-Kept v.sticky (λ b. log (set_sticky id b)) c (λ a x. refl) in
    let two = when_some-Kept v.locked (λ b. log (set_locked id b)) d (λ a x. refl) in
    let three =
      when_some-Kept (if b then v.title else none) (λ t. log (set_title id t)) e (λ a x. refl) in
    let four : Kept f (log (emit r) g) = refl in
    Kept-trans c d (run_hook env id (log (emit r) g)) one (
      Kept-trans d e (run_hook env id (log (emit r) g)) two (
        Kept-trans e f (run_hook env id (log (emit r) g)) three (
          Kept-trans f (log (emit r) g) (run_hook env id (log (emit r) g)) four
            (run_hook-Kept env id (log (emit r) g)))))

store_clip-Kept :
    (env : Env) (v : Verdict) (fmts : List FmtIn) (c : Capture) → Kept c (store_clip env v fmts c)
unfolding store_clip
store_clip-Kept env v fmts c =
    let clip = clip_of env v fmts c in let d = log (store clip) c in result d (env.add_clip clip)
  where
    result :
        (d : Capture) (r : AddResult)
        → Kept d (elim r [
          | add_err ↦ d
          | add_new id ↦ stored_clip env v (add_new id) false id d
          | add_dup id ↦ stored_clip env v (add_dup id) true id d
        ])
    result d add_err = refl
    result d (add_new id) = stored_clip-Kept env v (add_new id) false id d
    result d (add_dup id) = stored_clip-Kept env v (add_dup id) true id d

pub finish-IsReady :
    (env : Env) (c : Capture)
    → IsHeld (holdings c)
    → length c.plan.reads ≤ 32
    → IsReady (holdings (finish env c))
unfolding finish
finish-IsReady env c h r =
    let fmts = map (format_of c.plan) c.got in
    let v = verdict_on env fmts c in
    if-both (λ (d : Capture). IsReady (holdings (abort_current d))) (any_bytes fmts && not v.skip)
      (store_clip env v fmts c) c
      (λ e.
        let same = store_clip-Kept env v fmts c in
        abort_current-IsReady (store_clip env v fmts c) (subst IsHeld (sym same) h)
          (subst (λ (k : Held). length k.plan.reads ≤ 32) (sym same) r))
      (λ e. abort_current-IsReady c h r)
