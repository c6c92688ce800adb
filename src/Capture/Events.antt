-- ===== src/Capture/Events.antt =====
-- The events that drive the reading of a selection and the watch over its owner.
use clipnet.Base.{
  ℕ, suc, ◌+◌, ◌-◌, min, Bool, true, false, ◌&&◌, ◌||◌, not, Option, none, some, List, [], ◌∷◌,
  ◌++◌, ltb, leb, ◌==◌, if◌then◌else◌, length, get_elem?, Bytes, bytes_eq,
}
use clipnet.Mime.{mime_text, mime_is_image, Read, mime_plan_build}
use clipnet.Resource.{arm, cancel, clear, acquire, release}
use clipnet.Capture.{
  WlOffer, Env, Capture, log, stop_reading, abort_current, serve_clip, finish, receive, probe,
}

abbrev pub debounce_ms : ℕ
debounce_ms = 30

abbrev pub format_timeout_ms : ℕ
format_timeout_ms = 2000

abbrev pub total_timeout_ms : ℕ
total_timeout_ms = 5000

abbrev pub keepalive_delay_ms : ℕ
keepalive_delay_ms = 150

abbrev pub keepalive_recheck_ms : ℕ
keepalive_recheck_ms = 1200

unfoldable pub cap_for : Env → Bytes → ℕ
cap_for env canonical =
    if bytes_eq canonical mime_text
    then env.text_cap
    else if mime_is_image canonical
    then env.image_cap
    else env.other_cap

-- The end of `read_next`, with the pipe open.
unfoldable pub open_read : Env → Read → ℕ → Capture → Capture
unfolding cap_for acquire arm
open_read env r fd c =
    let d = log (receive r.offered) c in
    record d {
      fd = some fd;
      fds = acquire fd c.fds;
      cur_cap = cap_for env r.canonical;
      cur_over = false;
      watch = if env.add_fd then some fd else none;
      watched = if env.add_fd then acquire fd c.watched else c.watched;
      format_timer =
          arm (env.armed + min (c.deadline - env.armed) format_timeout_ms) c.format_timer;
    }

-- The read that `next` stands at; behind the last, or behind the deadline, the capture is finished.
unfoldable pub read_next : Env → Capture → Capture
unfolding open_read
read_next env c = elim (leb c.deadline env.checked) [
  | true ↦ finish env c
  | false ↦ elim (get_elem? c.plan.reads c.next) [
    | none ↦ finish env c
    | some r ↦ elim env.pipe [ none ↦ finish env c | some fd ↦ open_read env r fd c ]
  ]
]

-- The bytes of the read go to `got`.
unfoldable pub keep_read : Capture → Capture
keep_read c = elim (get_elem? c.plan.reads c.next) [
  | none ↦ c
  | some r ↦ record c {
    got = c.got ++ record { mime = r.canonical; offered = r.offered; content = c.cur } ∷ [];
    cur = [];
  }
]

unfoldable pub end_format : Env → Bool → Capture → Capture
unfolding keep_read read_next
end_format env keep c =
    let s = stop_reading (if keep then keep_read c else c) in
    read_next env (record s { next = suc s.next })

unfoldable pub on_format_timeout : Env → Capture → Capture
unfolding end_format
on_format_timeout env c = end_format env false (record c { format_timer = clear c.format_timer })

-- What `read` returns; a chunk has at least one byte.
pub data ReadResult : Type 0 where
  chunk : Bytes → ReadResult
  end_of_file interrupted would_block failed : ReadResult

-- `on_readable`; the list holds what the calls of `read` return.
unfoldable pub on_readable : Env → List ReadResult → Capture → Capture
unfolding end_format
on_readable env [] c = c
on_readable env (chunk s ∷ rs) c = elim (ltb c.cur_cap (length c.cur + length s)) [
  | true ↦ end_format env false (record c { cur_over = true })
  | false ↦ on_readable env rs (record c { cur = c.cur ++ s })
]
on_readable env (end_of_file ∷ rs) c = end_format env true c
on_readable env (interrupted ∷ rs) c = on_readable env rs c
on_readable env (would_block ∷ rs) c = c
on_readable env (failed ∷ rs) c = end_format env false c

unfoldable pub on_debounced : Env → Capture → Capture
unfolding read_next
on_debounced env c = read_next env (record c {
  debounce_timer = clear c.debounce_timer;
  deadline = env.started + total_timeout_ms;
  next = 0;
})

abbrev pub no_offer : Option WlOffer → Bool
no_offer none = true
no_offer (some o) = false

unfoldable pub keepalive_wanted : Env → Capture → Bool
keepalive_wanted env c =
    env.wl && not (c.current_clip == 0) && not c.sensitive && no_offer c.offer && env.keep_alive

unfoldable pub on_probe : Env → Bool → Capture → Capture
unfolding keepalive_wanted
on_probe env has_selection c =
    let d = record c { probing = false } in
    if not has_selection && keepalive_wanted env d && env.exists d.current_clip
    then serve_clip env d.current_clip d
    else d

-- `on_keepalive`; the probe answers before it returns.
unfoldable pub on_keepalive : Env → Bool → Capture → Capture
unfolding on_probe
on_keepalive env has_selection c =
    let d = record c { keepalive_timer = clear c.keepalive_timer } in
    if not (keepalive_wanted env d)
      || d.probing
      || (env.serve_current == d.current_clip && not (env.serve_current == 0))
    then d
    else on_probe env has_selection (log probe (record d { probing = true }))

unfoldable pub on_recheck : Env → Bool → Capture → Capture
unfolding on_keepalive
on_recheck env has_selection c =
    on_keepalive env has_selection (record c { recheck_timer = clear c.recheck_timer })

unfoldable pub capture_owner_may_have_left : Env → Capture → Capture
unfolding keepalive_wanted arm cancel
capture_owner_may_have_left env c =
    if keepalive_wanted env c
    then record c {
      keepalive_timer = arm (env.armed + keepalive_delay_ms) (cancel c.keepalive_timer);
      recheck_timer = arm (env.armed + keepalive_recheck_ms) (cancel c.recheck_timer);
    }
    else c

-- The offer is taken over, and destroyed at once.
unfoldable pub discard : WlOffer → Capture → Capture
unfolding acquire release
discard o c = record c { offers = release o.id (acquire o.id c.offers) }

-- The end of `capture_on_selection`.
unfoldable pub start_capture : Env → WlOffer → Capture → Capture
unfolding arm acquire
start_capture env o c = record c {
  offer = some o;
  offers = acquire o.id c.offers;
  source_app = env.app_class;
  source_title = env.app_title;
  debounce_timer = arm (env.armed + debounce_ms) c.debounce_timer;
}

-- `capture_on_selection` from the test of the pause on.
unfoldable pub admit : Env → WlOffer → Capture → Capture
unfolding discard start_capture
admit env o c = elim (env.paused || env.excluded env.app_class) [
  | true ↦ discard o c
  | false ↦
      let d = record c { plan = env.filter_plan env.app_class c.plan } in
      elim d.plan.reads [ [] ↦ discard o d | r ∷ rs ↦ start_capture env o d ]
]

-- What `capture_on_selection` does with an offer.
unfoldable pub consider : Env → WlOffer → Capture → Capture
unfolding admit
consider env o c =
    let d = record c { plan = mime_plan_build o.mimes } in
    elim d.plan.is_ours [
      | true ↦ discard o d
      | false ↦ elim d.plan.is_sensitive [
        | true ↦ discard o (record d { current_clip = 0; sensitive = true })
        | false ↦ admit env o (record d { current_clip = 0; sensitive = false })
      ]
    ]

unfoldable pub capture_on_selection : Env → Option WlOffer → Capture → Capture
unfolding consider capture_owner_may_have_left
capture_on_selection env offer c =
    let d = abort_current (record c { keepalive_timer = clear (cancel c.keepalive_timer) }) in
    elim offer [ none ↦ capture_owner_may_have_left env d | some o ↦ consider env o d ]
