-- ===== src/Capture/Primary/Phase.antt =====
-- The phases of the reading of PRIMARY, and what it holds and has stored in each.
use clipnet.Base.{
  ℕ, ◌≤◌, ◌≡◌, refl, ap, ◌∙◌, inl, inr, false, ◌&&◌, not, Option, none, some, List, [], ◌∷◌, ◌++◌,
  length, Bytes, mem, if-both,
}
use clipnet.Util.Utf8.{utf8_valid}
use clipnet.Mime.{mime_marker, mime_password_hint}
use clipnet.Resource.{
  idle_slot, armed_slot, cancel, clear, table_of, IsSlot, release_any-own, clear-cancel, Slot,
}
use clipnet.Capture.{
  WlOffer, ClipIn, Effect, offer_id, receive, store, set_sticky, set_locked, set_title, emit,
  call_hook, serve, probe, Verdict, AddResult, Env, add_err, add_new, add_dup,
}
use clipnet.Capture.Primary.{
  primary_cap, Primary, primary_stop, primary_format, note_some, note, blank, primary_verdict,
  primary_clip, primary_stored, primary_keep, primary_store,
}

-- A clip of one format, text.
abbrev pub IsText : ClipIn → Type 0
IsText c = (content : Bytes) × (c.fmts ≡ primary_format content ∷ [])

abbrev pub IsTextEffect : Effect → Type 0
IsTextEffect (store c) = IsText c
IsTextEffect (receive m) = Unit
IsTextEffect (set_sticky i b) = Unit
IsTextEffect (set_locked i b) = Unit
IsTextEffect (set_title i t) = Unit
IsTextEffect (emit r) = Unit
IsTextEffect (call_hook i) = Unit
IsTextEffect (serve i) = Unit
IsTextEffect probe = Unit

abbrev pub TextOnly : List Effect → Type 0
TextOnly [] = Unit
TextOnly (e ∷ es) = IsTextEffect e × TextOnly es

pub TextOnly-snoc :
    (es : List Effect) (e : Effect) → TextOnly es → IsTextEffect e → TextOnly (es ++ e ∷ [])
TextOnly-snoc [] e h k = (k, tt)
TextOnly-snoc (x ∷ es) e h k = (h.0, TextOnly-snoc es e h.1 k)

-- An offer that is neither ours nor a secret.
abbrev pub IsPublic : WlOffer → Type 0
IsPublic o = (mem mime_marker o.mimes ≡ false) × (mem mime_password_hint o.mimes ≡ false)

-- Nothing, an offer that holds still, or the text that comes in.
pub data Phase (p : Primary) : Type 0 where
  off : p.offer ≡ none → p.timer ≡ idle_slot → p.fd ≡ none → p.watch ≡ none → p.buf ≡ [] → Phase p
  settling :
      (o : WlOffer) (d : ℕ)
      → p.offer ≡ some o
      → IsPublic o
      → p.timer ≡ armed_slot d
      → p.fd ≡ none
      → p.watch ≡ none
      → p.buf ≡ []
      → Phase p
  receiving :
      (o : WlOffer) (fd d : ℕ)
      → p.offer ≡ some o
      → IsPublic o
      → p.timer ≡ armed_slot d
      → p.fd ≡ some fd
      → length p.buf ≤ primary_cap
      → Phase p

pub record IsSettled (p : Primary) : Type 0 where
  pub offers : p.offers ≡ table_of (offer_id p.offer)
  pub fds : p.fds ≡ table_of p.fd
  pub watched : p.watched ≡ table_of p.watch
  pub stored : TextOnly p.out

pub record IsReady (p : Primary) : Type 0 where
  pub held : IsSettled p
  pub phase : Phase p

pub timer-IsSlot : (p : Primary) → Phase p → IsSlot p.timer
timer-IsSlot p (off o t f w b) = inl t
timer-IsSlot p (settling i d o g t f w b) = inr (d, t)
timer-IsSlot p (receiving i n d o g t f b) = inr (d, t)

-- Stopping gives everything back, whether the timer has fired or not.
pub primary_stop-IsReady :
    (p : Primary) → IsSettled p → clear (cancel p.timer) ≡ idle_slot → IsReady (primary_stop p)
unfolding primary_stop
primary_stop-IsReady p h t = record {
  held = record {
    offers = release_any-own (offer_id p.offer) p.offers h.offers;
    fds = release_any-own p.fd p.fds h.fds;
    watched = release_any-own p.watch p.watched h.watched;
    stored = h.stored;
  };
  phase = off refl t refl refl refl;
}

pub stop-IsReady : (p : Primary) → IsReady p → IsReady (primary_stop p)
stop-IsReady p h = primary_stop-IsReady p h.held (clear-cancel p.timer (timer-IsSlot p h.phase))

-- Storing adds a text clip, and leaves the timer alone.
abbrev HasTimer : Slot → Primary → Type 0
HasTimer t p = (p.timer ≡ t) × IsSettled p

note-HasTimer :
    (t : Slot) (e : Effect) (p : Primary) → IsTextEffect e → HasTimer t p → HasTimer t (note e p)
note-HasTimer t e p h (same, s) = (
  same,
  record {
    offers = s.offers;
    fds = s.fds;
    watched = s.watched;
    stored = TextOnly-snoc p.out e s.stored h;
  },
)

note_some-HasTimer :
    {A : Type 0} (t : Slot) (o : Option A) (f : A → Effect) (p : Primary)
    → ((a : A) → IsTextEffect (f a))
    → HasTimer t p
    → HasTimer t (note_some o f p)
note_some-HasTimer t none f p h s = s
note_some-HasTimer t (some a) f p h s = note-HasTimer t (f a) p (h a) s

primary_stored-HasTimer :
    (t : Slot) (v : Verdict) (r : AddResult) (id : ℕ) (p : Primary)
    → HasTimer t p
    → HasTimer t (primary_stored v r id p)
unfolding primary_stored
primary_stored-HasTimer t v r id p h =
    let sticky = note_some v.sticky (set_sticky id) p in
    note-HasTimer t (emit r) (note_some v.locked (set_locked id) sticky) tt (
      note_some-HasTimer t v.locked (set_locked id) sticky (λ b. tt)
        (note_some-HasTimer t v.sticky (set_sticky id) p (λ b. tt) h))

primary_keep-HasTimer :
    (t : Slot) (env : Env) (v : Verdict) (p : Primary)
    → HasTimer t p
    → HasTimer t (primary_keep env v p)
unfolding primary_keep primary_clip
primary_keep-HasTimer t env v p h =
    let q = note (store (primary_clip env v p)) p in
    result q (env.add_clip (primary_clip env v p)) (
      note-HasTimer t (store (primary_clip env v p)) p
        (elim v.text [ none ↦ p.buf | some s ↦ s ], refl) h)
  where
    result :
        (q : Primary) (r : AddResult)
        → HasTimer t q
        → HasTimer t (elim r [
          | add_err ↦ q
          | add_new id ↦ primary_stored v (add_new id) id q
          | add_dup id ↦ primary_stored v (add_dup id) id q
        ])
    result q add_err k = k
    result q (add_new id) k = primary_stored-HasTimer t v (add_new id) id q k
    result q (add_dup id) k = primary_stored-HasTimer t v (add_dup id) id q k

pub primary_store-IsReady : (env : Env) (p : Primary) → IsReady p → IsReady (primary_store env p)
unfolding primary_store
primary_store-IsReady env p h =
    let v = primary_verdict env p in
    let done : (q : Primary) → HasTimer p.timer q → IsReady (primary_stop q) = λ q k.
      primary_stop-IsReady q k.1
        (ap (λ (t : Slot). clear (cancel t)) k.0 ∙ clear-cancel p.timer (timer-IsSlot p h.phase)) in
    if-both (λ (q : Primary). IsReady (primary_stop q))
      (not (blank p.buf) && not v.skip && utf8_valid p.buf) (primary_keep env v p) p
      (λ e. done (primary_keep env v p) (primary_keep-HasTimer p.timer env v p (refl, h.held)))
      (λ e. done p (refl, h.held))
