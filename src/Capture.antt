-- ===== src/Capture.antt =====
-- daemon/src/capture.c: reading a selection. The record has the members of `struct capture` but those for
-- the PRIMARY selection (Capture/Primary.antt); `fds`, `watched` and `offers` are the descriptors, watches and
-- offers held, `out` is what the module had other parts do, in order. What it asks of other parts and of
-- the system while an event is handled is the record `Env`.
pub mod Events
pub mod Phase
pub mod Ready
pub mod Selection
pub mod Steps
pub mod Store
pub mod Progress
pub mod Primary
pub mod Free
pub mod Tests
use clipnet.Base.{
  ℕ, ◌+◌, Bool, true, false, ◌&&◌, ◌||◌, not, Option, none, some, List, [], ◌∷◌, ◌++◌, map, ltb,
  leb, if◌then◌else◌, length, Bytes, codes, bytes_eq,
}
use clipnet.Util.Utf8.{utf8_valid, latin1_to_utf8}
use clipnet.Mime.{mime_text, text_default_aliases, Plan}
use clipnet.Resource.{Slot, idle_slot, cancel, clear, Table, nothing, release_any}

-- `wl_offer`.
pub record WlOffer : Type 0 where
  pub id : ℕ
  pub mimes : List Bytes

-- `struct got`.
pub record Got : Type 0 where
  pub mime : Bytes
  pub offered : Bytes
  pub content : Bytes

-- `fmt_in` and `clip_in` of db.h.
pub record FmtIn : Type 0 where
  pub mime : Bytes
  pub content : Bytes
  pub aliases : List Bytes

pub record ClipIn : Type 0 where
  pub fmts : List FmtIn
  pub source_app : Option Bytes
  pub source_title : Option Bytes
  pub group_id : ℕ
  pub title : Option Bytes

-- `copy_verdict` of script.h; -1 is `none`.
pub record Verdict : Type 0 where
  pub skip : Bool
  pub text : Option Bytes
  pub title : Option Bytes
  pub group : Option Bytes
  pub sticky : Option Bool
  pub locked : Option Bool

pub data AddResult : Type 0 where
  add_err : AddResult
  add_new add_dup : ℕ → AddResult

-- What the module has other parts do.
pub data Effect : Type 0 where
  receive : Bytes → Effect
  store : ClipIn → Effect
  set_sticky set_locked : ℕ → Bool → Effect
  set_title : ℕ → Bytes → Effect
  emit : AddResult → Effect
  call_hook : ℕ → Effect
  serve : ℕ → Effect
  probe : Effect

-- `mono_ms` is read up to four times in a handler: for a new deadline, to compare with it, for a new
-- timer, and for the deadline of the hook. `hook_serves` is the clip that the callback of
-- `capture_expect` puts on the clipboard, `serves` the result of `serve_clip`.
pub record Env : Type 0 where
  pub started : ℕ
  pub checked : ℕ
  pub armed : ℕ
  pub hooked : ℕ
  pub wl : Bool
  pub keep_alive : Bool
  pub keep_title : Bool
  pub paused : Bool
  pub app_class : Option Bytes
  pub app_title : Option Bytes
  pub excluded : Option Bytes → Bool
  pub filter_plan : Option Bytes → Plan → Plan
  pub text_cap : ℕ
  pub image_cap : ℕ
  pub other_cap : ℕ
  pub pipe : Option ℕ
  pub add_fd : Bool
  pub scripts : Option (List FmtIn → Option Bytes → Option Bytes → Verdict)
  pub route_group : Option Bytes → ℕ
  pub ensure_group : Bytes → Option ℕ
  pub add_clip : ClipIn → AddResult
  pub hook_serves : ℕ → Option ℕ
  pub serves : ℕ → Bool
  pub serve_current : ℕ
  pub exists : ℕ → Bool

pub record Capture : Type 0 where
  pub offer : Option WlOffer
  pub plan : Plan
  pub next : ℕ
  pub fd : Option ℕ
  pub watch : Option ℕ
  pub cur : Bytes
  pub cur_cap : ℕ
  pub cur_over : Bool
  pub deadline : ℕ
  pub got : List Got
  pub source_app : Option Bytes
  pub source_title : Option Bytes
  pub debounce_timer : Slot
  pub format_timer : Slot
  pub keepalive_timer : Slot
  pub recheck_timer : Slot
  pub probing : Bool
  pub current_clip : ℕ
  pub sensitive : Bool
  pub hook : Bool
  pub hook_deadline : ℕ
  pub fds : Table
  pub watched : Table
  pub offers : Table
  pub out : List Effect

abbrev pub empty_plan : Plan
empty_plan = record { reads = []; text_aliases = []; is_ours = false; is_sensitive = false }

abbrev pub capture_new : Capture
capture_new = record {
  offer = none;
  plan = empty_plan;
  next = 0;
  fd = none;
  watch = none;
  cur = [];
  cur_cap = 0;
  cur_over = false;
  deadline = 0;
  got = [];
  source_app = none;
  source_title = none;
  debounce_timer = idle_slot;
  format_timer = idle_slot;
  keepalive_timer = idle_slot;
  recheck_timer = idle_slot;
  probing = false;
  current_clip = 0;
  sensitive = false;
  hook = false;
  hook_deadline = 0;
  fds = nothing;
  watched = nothing;
  offers = nothing;
  out = [];
}

abbrev pub offer_id : Option WlOffer → Option ℕ
offer_id none = none
offer_id (some o) = some o.id

abbrev pub log : Effect → Capture → Capture
log e c = record c { out = c.out ++ e ∷ [] }

unfoldable pub stop_reading : Capture → Capture
unfolding cancel clear release_any
stop_reading c = record c {
  format_timer = clear (cancel c.format_timer);
  watch = none;
  watched = release_any c.watch c.watched;
  fd = none;
  fds = release_any c.fd c.fds;
  cur = [];
}

unfoldable pub abort_current : Capture → Capture
unfolding stop_reading
abort_current c =
    let s = stop_reading (record c { debounce_timer = clear (cancel c.debounce_timer) }) in
    record s {
      got = [];
      source_app = none;
      source_title = none;
      offers = release_any (offer_id c.offer) c.offers;
      offer = none;
    }

unfoldable pub capture_current_clip : Capture → ℕ
capture_current_clip c = if c.sensitive then 0 else c.current_clip

unfoldable pub capture_set_current_clip : ℕ → Capture → Capture
capture_set_current_clip id c = record c { current_clip = id; sensitive = false }

unfoldable pub capture_expect : ℕ → ℕ → Capture → Capture
capture_expect now timeout_ms c = record c { hook = true; hook_deadline = now + timeout_ms }

-- `serve_clip(..., SERVE_ALL)`, which calls `capture_set_current_clip` where it succeeds.
unfoldable pub serve_clip : Env → ℕ → Capture → Capture
unfolding capture_set_current_clip
serve_clip env id c = if env.serves id then capture_set_current_clip id (log (serve id) c) else c

unfoldable pub text_from_latin1 : Bytes → Bool
text_from_latin1 offered = bytes_eq offered (codes "STRING") || bytes_eq offered (codes "TEXT")

-- A round of the first loop of `finish`.
unfoldable pub format_of : Plan → Got → FmtIn
unfolding text_from_latin1
format_of plan g =
    if bytes_eq g.mime mime_text
    then record {
      mime = g.mime;
      content =
          if not (utf8_valid g.content) && text_from_latin1 g.offered
          then latin1_to_utf8 g.content
          else g.content;
      aliases = plan.text_aliases;
    }
    else record { mime = g.mime; content = g.content; aliases = [] }

abbrev pub any_bytes : List FmtIn → Bool
any_bytes [] = false
any_bytes (f ∷ fs) = ltb 0 (length f.content) || any_bytes fs

abbrev pub no_verdict : Verdict
no_verdict = record {
  skip = false;
  text = none;
  title = none;
  group = none;
  sticky = none;
  locked = none;
}

unfoldable pub verdict_on : Env → List FmtIn → Capture → Verdict
verdict_on env fmts c = elim env.scripts [
  | none ↦ no_verdict
  | some run ↦ if any_bytes fmts then run fmts c.source_app c.source_title else no_verdict
]

-- A script's text takes the place of all formats.
unfoldable pub rewritten : Verdict → List FmtIn → List FmtIn
rewritten v fmts = elim v.text [
  | none ↦ fmts
  | some t ↦ record { mime = mime_text; content = t; aliases = text_default_aliases } ∷ []
]

unfoldable pub route : Env → Verdict → Option Bytes → ℕ
route env v app = elim v.group [
  | none ↦ env.route_group app
  | some path ↦ elim (env.ensure_group path) [ none ↦ env.route_group app | some g ↦ g ]
]

unfoldable pub clip_of : Env → Verdict → List FmtIn → Capture → ClipIn
unfolding rewritten route
clip_of env v fmts c = record {
  fmts = rewritten v fmts;
  source_app = c.source_app;
  source_title = if env.keep_title then c.source_title else none;
  group_id = route env v c.source_app;
  title = v.title;
}

abbrev pub when_some {ℓ} : {A : Type ℓ} → Option A → (A → Capture → Capture) → Capture → Capture
when_some none f c = c
when_some (some a) f c = f a c

-- The callback of `capture_expect`, called at most once and only in time.
unfoldable pub run_hook : Env → ℕ → Capture → Capture
unfolding serve_clip
run_hook env id c = elim c.hook [
  | false ↦ c
  | true ↦ elim (leb env.hooked c.hook_deadline) [
    | false ↦ record c { hook = false }
    | true ↦
        when_some (env.hook_serves id) (serve_clip env)
          (log (call_hook id) (record c { hook = false }))
  ]
]

-- What follows on `db_add_clip` that succeeds.
unfoldable pub stored_clip : Env → Verdict → AddResult → Bool → ℕ → Capture → Capture
unfolding run_hook
stored_clip env v r duplicate id c =
    let d = when_some v.sticky (λ b. log (set_sticky id b)) c in
    let e = when_some v.locked (λ b. log (set_locked id b)) d in
    let f = when_some (if duplicate then v.title else none) (λ t. log (set_title id t)) e in
    let g = record f { current_clip = elim v.text [ none ↦ id | some t ↦ 0 ] } in
    run_hook env id (log (emit r) g)

unfoldable pub store_clip : Env → Verdict → List FmtIn → Capture → Capture
unfolding clip_of stored_clip
store_clip env v fmts c =
    let clip = clip_of env v fmts c in
    let d = log (store clip) c in
    elim (env.add_clip clip) [
      | add_err ↦ d
      | add_new id ↦ stored_clip env v (add_new id) false id d
      | add_dup id ↦ stored_clip env v (add_dup id) true id d
    ]

unfoldable pub finish : Env → Capture → Capture
unfolding format_of verdict_on store_clip abort_current
finish env c =
    let fmts = map (format_of c.plan) c.got in
    let v = verdict_on env fmts c in
    abort_current (if any_bytes fmts && not v.skip then store_clip env v fmts c else c)
