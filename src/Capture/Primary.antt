-- ===== src/Capture/Primary.antt =====
-- The end of daemon/src/capture.c: reading the PRIMARY selection. The record has the members of
-- `struct capture` with the prefix `primary_`, and the tables of what is held, as `Capture` has them.
pub mod Phase
pub mod Steps
pub mod Tests
use clipnet.Base.{
  ℕ, ◌+◌, ◌*◌, Bool, true, false, ◌&&◌, ◌||◌, not, Option, none, some, List, [], ◌∷◌, ◌++◌, ltb,
  ◌==◌, if◌then◌else◌, length, Bytes, bytes_eq,
}
use clipnet.Util.Utf8.{utf8_valid}
use clipnet.Mime.{mime_text, text_default_aliases, Read, Plan, mime_plan_build}
use clipnet.Resource.{
  Slot, idle_slot, arm, cancel, clear, Table, nothing, acquire, release, release_any,
}
use clipnet.Capture.{
  WlOffer, FmtIn, ClipIn, Verdict, AddResult, Effect, Env, offer_id, no_verdict, route, add_err,
  add_new, add_dup, receive, store, set_sticky, set_locked, emit, Capture, abort_current,
}
use clipnet.Capture.Events.{
  format_timeout_ms, ReadResult, chunk, end_of_file, interrupted, would_block, failed,
}

abbrev pub primary_settle_ms : ℕ
primary_settle_ms = 700

abbrev pub primary_cap : ℕ
primary_cap = 1024 * 1024

pub record Primary : Type 0 where
  pub offer : Option WlOffer
  pub app : Option Bytes
  pub fd : Option ℕ
  pub watch : Option ℕ
  pub buf : Bytes
  pub timer : Slot
  pub fds : Table
  pub watched : Table
  pub offers : Table
  pub out : List Effect

abbrev pub primary_new : Primary
primary_new = record {
  offer = none;
  app = none;
  fd = none;
  watch = none;
  buf = [];
  timer = idle_slot;
  fds = nothing;
  watched = nothing;
  offers = nothing;
  out = [];
}

abbrev pub note : Effect → Primary → Primary
note e p = record p { out = p.out ++ e ∷ [] }

unfoldable pub primary_stop : Primary → Primary
unfolding cancel clear release_any
primary_stop p = record p {
  timer = clear (cancel p.timer);
  watch = none;
  watched = release_any p.watch p.watched;
  fd = none;
  fds = release_any p.fd p.fds;
  buf = [];
  offers = release_any (offer_id p.offer) p.offers;
  offer = none;
  app = none;
}

unfoldable pub blank : Bytes → Bool
blank [] = true
blank (b ∷ bs) = (b == 32 || b == 10 || b == 9 || b == 13) && blank bs

abbrev pub primary_format : Bytes → FmtIn
primary_format content = record {
  mime = mime_text;
  content = content;
  aliases = text_default_aliases;
}

unfoldable pub primary_verdict : Env → Primary → Verdict
unfolding blank
primary_verdict env p = elim env.scripts [
  | none ↦ no_verdict
  | some run ↦
      if not (blank p.buf) && utf8_valid p.buf
      then run (primary_format p.buf ∷ []) p.app none
      else no_verdict
]

unfoldable pub primary_clip : Env → Verdict → Primary → ClipIn
unfolding route
primary_clip env v p = record {
  fmts = primary_format (elim v.text [ none ↦ p.buf | some t ↦ t ]) ∷ [];
  source_app = p.app;
  source_title = none;
  group_id = route env v p.app;
  title = v.title;
}

abbrev pub note_some {ℓ} : {A : Type ℓ} → Option A → (A → Effect) → Primary → Primary
note_some none f p = p
note_some (some a) f p = note (f a) p

-- What follows on `db_add_clip` that succeeds.
unfoldable pub primary_stored : Verdict → AddResult → ℕ → Primary → Primary
primary_stored v r id p =
    note (emit r) (note_some v.locked (set_locked id) (note_some v.sticky (set_sticky id) p))

unfoldable pub primary_keep : Env → Verdict → Primary → Primary
unfolding primary_clip primary_stored
primary_keep env v p =
    let clip = primary_clip env v p in
    let q = note (store clip) p in
    elim (env.add_clip clip) [
      | add_err ↦ q
      | add_new id ↦ primary_stored v (add_new id) id q
      | add_dup id ↦ primary_stored v (add_dup id) id q
    ]

unfoldable pub primary_store : Env → Primary → Primary
unfolding blank primary_verdict primary_keep primary_stop
primary_store env p =
    let v = primary_verdict env p in
    primary_stop
      (if not (blank p.buf) && not v.skip && utf8_valid p.buf then primary_keep env v p else p)

-- The list holds what the calls of `read` return.
unfoldable pub on_primary_readable : Env → List ReadResult → Primary → Primary
unfolding primary_stop primary_store
on_primary_readable env [] p = p
on_primary_readable env (chunk s ∷ rs) p = elim (ltb primary_cap (length p.buf + length s)) [
  | true ↦ primary_stop p
  | false ↦ on_primary_readable env rs (record p { buf = p.buf ++ s })
]
on_primary_readable env (end_of_file ∷ rs) p = primary_store env p
on_primary_readable env (interrupted ∷ rs) p = on_primary_readable env rs p
on_primary_readable env (would_block ∷ rs) p = p
on_primary_readable env (failed ∷ rs) p = primary_stop p

unfoldable pub on_primary_timeout : Primary → Primary
unfolding clear primary_stop
on_primary_timeout p = primary_stop (record p { timer = clear p.timer })

-- The end of `on_primary_settled`, with the pipe open.
unfoldable pub primary_open : Env → Read → ℕ → Primary → Primary
unfolding acquire arm
primary_open env r fd p =
    let q = note (receive r.offered) p in
    record q {
      fd = some fd;
      fds = acquire fd p.fds;
      watch = if env.add_fd then some fd else none;
      watched = if env.add_fd then acquire fd p.watched else p.watched;
      timer = arm (env.armed + format_timeout_ms) p.timer;
    }

abbrev pub first_read : Plan → Option Read
first_read plan = elim plan.reads [ [] ↦ none | r ∷ rs ↦ some r ]

-- The timer runs only while there is an offer; the source does not ask for it.
unfoldable pub on_primary_settled : Env → Primary → Primary
unfolding clear primary_stop primary_open
on_primary_settled env p =
    let q = record p { timer = clear p.timer } in
    elim q.offer [
      | none ↦ q
      | some o ↦ elim (first_read (mime_plan_build o.mimes)) [
        | none ↦ primary_stop q
        | some r ↦ elim (bytes_eq r.canonical mime_text) [
          | false ↦ primary_stop q
          | true ↦ elim env.pipe [ none ↦ primary_stop q | some fd ↦ primary_open env r fd q ]
        ]
      ]
    ]

-- `wl_offer_destroy` of an offer that is not kept.
unfoldable pub primary_discard : WlOffer → Primary → Primary
unfolding acquire release
primary_discard o p = record p { offers = release o.id (acquire o.id p.offers) }

unfoldable pub primary_start : Env → WlOffer → Primary → Primary
unfolding acquire arm
primary_start env o p = record p {
  offer = some o;
  offers = acquire o.id p.offers;
  app = env.app_class;
  timer = arm (env.armed + primary_settle_ms) p.timer;
}

-- `wanted` is the setting `capture_primary`.
unfoldable pub capture_on_primary : Env → Bool → Option WlOffer → Primary → Primary
unfolding primary_stop primary_discard primary_start
capture_on_primary env wanted offer p =
    let q = primary_stop p in
    elim offer [
      | none ↦ q
      | some o ↦ elim (not wanted || env.paused) [
        | true ↦ primary_discard o q
        | false ↦
            let plan = mime_plan_build o.mimes in
            elim (plan.is_ours || plan.is_sensitive || env.excluded env.app_class) [
              | true ↦ primary_discard o q
              | false ↦ primary_start env o q
            ]
      ]
    ]

unfoldable pub capture_free : Capture → Primary → Capture × Primary
unfolding cancel abort_current primary_stop
capture_free c p =
    let d = abort_current c in
    (
      record d {
        keepalive_timer = cancel d.keepalive_timer;
        recheck_timer = cancel d.recheck_timer;
      },
      primary_stop p,
    )
