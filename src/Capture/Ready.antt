-- ===== src/Capture/Ready.antt =====
-- The phases of a capture under the handlers of its reads: `read_next`, `end_format`, `on_readable` and
-- the timers' callbacks.
use clipnet.Base.{
  ℕ, zero, suc, ◌+◌, ◌-◌, ◌≤◌, ◌<◌, min, ◌≡◌, refl, ap, ◌∙◌, inl, inr, Bool, true, false, none,
  some, List, [], ◌∷◌, ◌++◌, arith, ltb, leb, if◌then◌else◌, Bool-cases, length, get_elem?,
  length-append, Bytes, elim-both, option-both,
}
use clipnet.Mime.{Read}
use clipnet.Resource.{
  armed_slot, arm, Table, nothing, acquire, table_of, idle_slot, release_any-own, clear-cancel,
  Slot, clear, fire,
}
use clipnet.Capture.{Env, Capture, finish, WlOffer, stop_reading}
use clipnet.Capture.Events.{
  format_timeout_ms, open_read, read_next, keep_read, end_format, total_timeout_ms,
  on_format_timeout, ReadResult, on_readable, on_debounced, chunk, end_of_file, interrupted,
  would_block, failed,
}
use clipnet.Capture.Phase.{
  IsHeld, IsBetween, IsReady, finish-IsReady, reading, holdings, Held, Phase, idle, waiting,
}

pub get_elem?_bound :
    (reads : List Read) (i : ℕ) (r : Read) → get_elem? reads i ≡ some r → i < length reads
get_elem?_bound [] i r h = cc
get_elem?_bound (x ∷ xs) zero r h = omega arith
get_elem?_bound (x ∷ xs) (suc i) r h = omega (arith, get_elem?_bound xs i r h)

open_read-IsReady :
    (env : Env) (r : Read) (fd : ℕ) (c : Capture)
    → IsHeld (holdings c)
    → IsBetween (holdings c)
    → length c.plan.reads ≤ 32
    → get_elem? c.plan.reads c.next ≡ some r
    → IsReady (holdings (open_read env r fd c))
unfolding open_read acquire arm
open_read-IsReady env r fd c h b bound at =
    let closed = b.closed in
    let fds : c.fds ≡ nothing = h.fds ∙ ap table_of closed.fd in
    let watched : c.watched ≡ nothing = h.watched ∙ ap table_of closed.watch in
    let due = env.armed + min (c.deadline - env.armed) format_timeout_ms in
    let format : arm due c.format_timer ≡ armed_slot due = unfold arm in rw closed.format refl in
    record {
      held = record {
        offers = h.offers;
        fds = rw fds refl;
        watched = watch_ok c.watched watched;
        debounce = h.debounce;
        format = inr (due, format);
        pair = h.pair;
      };
      phase =
          reading b.offer.0 fd due b.offer.1 b.debounce refl format
            (get_elem?_bound c.plan.reads c.next r at) b.got;
      reads = bound;
    }
  where
    watch_ok :
        (t : Table)
        → t ≡ nothing
        → (if env.add_fd then acquire fd t else t) ≡ table_of (if env.add_fd then some fd else none)
    watch_ok t e = elim (Bool-cases env.add_fd) [ inl f ↦ rw f (rw e refl) | inr f ↦ rw f e ]

read_next-IsReady :
    (env : Env) (c : Capture)
    → IsHeld (holdings c)
    → IsBetween (holdings c)
    → length c.plan.reads ≤ 32
    → IsReady (holdings (read_next env c))
unfolding read_next
read_next-IsReady env c h b bound =
    let Goal = λ (d : Capture). IsReady (holdings d) in
    elim-both Goal (leb c.deadline env.checked) _ _ (λ e. finish-IsReady env c h bound)
      (λ e.
        option-both Goal (get_elem? c.plan.reads c.next) (finish env c) _
          (λ f. finish-IsReady env c h bound)
          (λ r f.
            option-both Goal env.pipe (finish env c) (λ fd. open_read env r fd c)
              (λ g. finish-IsReady env c h bound)
              (λ fd g. open_read-IsReady env r fd c h b bound f)))

stop_reading-IsHeld : (c : Capture) → IsHeld (holdings c) → IsHeld (holdings (stop_reading c))
unfolding stop_reading
stop_reading-IsHeld c h = record {
  offers = h.offers;
  fds = release_any-own c.fd c.fds h.fds;
  watched = release_any-own c.watch c.watched h.watched;
  debounce = h.debounce;
  format = inl (clear-cancel c.format_timer h.format);
  pair = h.pair;
}

-- A read that is over, its timer still armed or already gone.
pub record IsEnding (c : Held) : Type 0 where
  pub held : IsHeld c
  pub offer : (o : WlOffer) × (c.offer ≡ some o)
  pub debounce : c.debounce_timer ≡ idle_slot
  pub got : length c.got ≤ c.next
  pub reads : length c.plan.reads ≤ 32

keep_read_lem :
    (c : Capture)
    → IsEnding (holdings c)
    → (length (keep_read c).got ≤ suc c.next)
      × (IsHeld (holdings (keep_read c)))
      × ((keep_read c).offer ≡ c.offer)
      × ((keep_read c).debounce_timer ≡ c.debounce_timer)
      × ((keep_read c).plan ≡ c.plan)
      × ((keep_read c).next ≡ c.next)
unfolding keep_read
keep_read_lem c h =
    option-both
      (λ (d : Capture).
        (length d.got ≤ suc c.next)
        × (IsHeld (holdings d))
        × (d.offer ≡ c.offer)
        × (d.debounce_timer ≡ c.debounce_timer)
        × (d.plan ≡ c.plan)
        × (d.next ≡ c.next))
      (get_elem? c.plan.reads c.next) c _
      (λ e. (omega (arith, h.got), h.held, refl, refl, refl, refl))
      (λ r e. (
        omega (
          arith,
          h.got,
          length-append c.got
              (record { mime = r.canonical; offered = r.offered; content = c.cur } ∷ []),
        ),
        record {
          offers = h.held.offers;
          fds = h.held.fds;
          watched = h.held.watched;
          debounce = h.held.debounce;
          format = h.held.format;
          pair = h.held.pair;
        },
        refl,
        refl,
        refl,
        refl,
      ))

stopped-IsReady :
    (env : Env) (c : Capture) (n : ℕ)
    → IsHeld (holdings c)
    → (o : WlOffer) × (c.offer ≡ some o)
    → c.debounce_timer ≡ idle_slot
    → length c.got ≤ n
    → length c.plan.reads ≤ 32
    → IsReady (holdings (read_next env (record (stop_reading c) { next = n })))
stopped-IsReady env c n h o d got reads =
    let s : Capture = record (stop_reading c) { next = n } in
    let held = stop_reading-IsHeld c h in
    unfold stop_reading in
    read_next-IsReady env s
      (record {
        offers = held.offers;
        fds = held.fds;
        watched = held.watched;
        debounce = held.debounce;
        format = held.format;
        pair = held.pair;
      })
      (record {
        offer = o;
        debounce = d;
        got = got;
        closed = record {
          fd = refl;
          watch = refl;
          format = clear-cancel c.format_timer h.format;
          cur = refl;
        };
      })
      reads

end_format-IsReady :
    (env : Env) (keep : Bool) (c : Capture)
    → IsEnding (holdings c)
    → IsReady (holdings (end_format env keep c))
unfolding end_format
end_format-IsReady env false c h =
    unfold stop_reading in
    stopped-IsReady env c (suc c.next) h.held h.offer h.debounce (omega (arith, h.got)) h.reads
end_format-IsReady env true c h =
    let (got, held, offer, debounce, plan, next) = keep_read_lem c h in
    unfold stop_reading in
    stopped-IsReady env (keep_read c) (suc (keep_read c).next) held (h.offer.0, offer ∙ h.offer.1)
      (debounce ∙ h.debounce) (omega (arith, got, next)) (rw plan h.reads)

-- An open pipe belongs to a read.
reading_ends :
    (c : Capture) (fd : ℕ) → c.fd ≡ some fd → IsReady (holdings c) → IsEnding (holdings c)
reading_ends c fd e h = go h.phase
  where
    go : Phase (holdings c) → IsEnding (holdings c)
    go (idle o d g closed) = absurd (cc (e, closed.fd))
    go (waiting o t offer d g closed) = absurd (cc (e, closed.fd))
    go (reading o f t offer d opened timer at got) = record {
      held = h.held;
      offer = (o, offer);
      debounce = d;
      got = got;
      reads = h.reads;
    }

-- Bytes come and go while a pipe is open.
reading_cur :
    (c : Capture) (fd : ℕ) (s : Bytes)
    → c.fd ≡ some fd
    → IsReady (holdings c)
    → IsReady (holdings (record c { cur = s }))
reading_cur c fd s e h = record {
  held = record {
    offers = h.held.offers;
    fds = h.held.fds;
    watched = h.held.watched;
    debounce = h.held.debounce;
    format = h.held.format;
    pair = h.held.pair;
  };
  phase = go h.phase;
  reads = h.reads;
}
  where
    go : Phase (holdings c) → Phase (holdings (record c { cur = s }))
    go (idle o d g closed) = absurd (cc (e, closed.fd))
    go (waiting o t offer d g closed) = absurd (cc (e, closed.fd))
    go (reading o f t offer d opened timer at got) = reading o f t offer d opened timer at got

pub on_readable-IsReady :
    (env : Env) (rs : List ReadResult) (c : Capture) (fd : ℕ)
    → c.fd ≡ some fd
    → IsReady (holdings c)
    → IsReady (holdings (on_readable env rs c))
unfolding on_readable
on_readable-IsReady env [] c fd e h = h
on_readable-IsReady env (chunk s ∷ rs) c fd e h =
    elim-both (λ (d : Capture). IsReady (holdings d)) (ltb c.cur_cap (length c.cur + length s)) _ _
      (λ f. end_format-IsReady env false (record c { cur_over = true }) (reading_ends c fd e h))
      (λ f.
        on_readable-IsReady env rs (record c { cur = c.cur ++ s }) fd e
          (reading_cur c fd (c.cur ++ s) e h))
on_readable-IsReady env (end_of_file ∷ rs) c fd e h =
    end_format-IsReady env true c (reading_ends c fd e h)
on_readable-IsReady env (interrupted ∷ rs) c fd e h = on_readable-IsReady env rs c fd e h
on_readable-IsReady env (would_block ∷ rs) c fd e h = h
on_readable-IsReady env (failed ∷ rs) c fd e h =
    end_format-IsReady env false c (reading_ends c fd e h)

-- The timer fires: it is off the loop's list when its callback is called.
pub on_format_timeout-IsReady :
    (env : Env) (c : Capture) (d : ℕ)
    → c.format_timer.due ≡ some d
    → IsReady (holdings c)
    → IsReady (holdings (on_format_timeout env (record c { format_timer = fire c.format_timer })))
unfolding on_format_timeout fire clear
on_format_timeout-IsReady env c d e h = go h.phase
  where
    closed_not : c.format_timer ≡ idle_slot → ⊥
    closed_not k = absurd (cc (e, ap (λ (s : Slot). s.due) k))

    go :
        Phase (holdings c)
        → IsReady (
            holdings
              (end_format env false (record c { format_timer = clear (fire c.format_timer) })))
    go (idle o b g closed) = absurd (closed_not closed.format)
    go (waiting o t offer b g closed) = absurd (closed_not closed.format)
    go (reading o f t offer b opened timer at got) =
        end_format-IsReady env false (record c { format_timer = clear (fire c.format_timer) })
          (record {
            held = record {
              offers = h.held.offers;
              fds = h.held.fds;
              watched = h.held.watched;
              debounce = h.held.debounce;
              format = inl (rw timer refl);
              pair = h.held.pair;
            };
            offer = (o, offer);
            debounce = b;
            got = got;
            reads = h.reads;
          })

pub on_debounced-IsReady :
    (env : Env) (c : Capture) (d : ℕ)
    → c.debounce_timer.due ≡ some d
    → IsReady (holdings c)
    → IsReady (holdings (on_debounced env (record c { debounce_timer = fire c.debounce_timer })))
unfolding on_debounced fire clear
on_debounced-IsReady env c d e h = go h.phase
  where
    after : Capture
    after = record c {
      debounce_timer = clear (fire c.debounce_timer);
      deadline = env.started + total_timeout_ms;
      next = 0;
    }

    resting_not : c.debounce_timer ≡ idle_slot → ⊥
    resting_not k = absurd (cc (e, ap (λ (s : Slot). s.due) k))

    go : Phase (holdings c) → IsReady (holdings (read_next env after))
    go (idle o b g closed) = absurd (resting_not b)
    go (reading o f t offer b opened timer at got) = absurd (resting_not b)
    go (waiting o t offer b g closed) =
        let rested : clear (fire c.debounce_timer) ≡ idle_slot = rw b refl in
        read_next-IsReady env after
          (record {
            offers = h.held.offers;
            fds = h.held.fds;
            watched = h.held.watched;
            debounce = inl rested;
            format = h.held.format;
            pair = h.held.pair;
          })
          (record {
            offer = (o, offer);
            debounce = rested;
            got = rw g (omega arith);
            closed = record {
              fd = closed.fd;
              watch = closed.watch;
              format = closed.format;
              cur = closed.cur;
            };
          })
          h.reads
