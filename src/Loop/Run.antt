-- ===== src/Loop/Run.antt =====
-- `run_timers`: what it calls, and what it leaves.
use clipnet.Base.{
  ℕ, zero, suc, ◌+◌, ◌≤◌, ◌<◌, ◌≡◌, refl, sym, ap, ◌∙◌, subst, ◌⊎◌, inl, inr, true, none, some,
  List, [], ◌∷◌, ◌++◌, arith, leb, ◌==◌, if◌then◌else◌, Bool-cases, Option-cases, All, All-append,
}
use clipnet.Loop.{
  Timer, Call, Loop, loop_timer, loop_timer_cancel, loop_add_fd, find_watch, loop_del_fd, loop_quit,
  Op, act, act_all, call_timer, run_timers, timer_call, watch_call, op_timer, op_cancel, op_add,
  op_del, op_quit, pop_from, insert, remove_timer,
}
use clipnet.Loop.Timers.{IsSorted, IsFresh, HasTimers, act_all-HasTimers, loop_del_fd_timers}

-- A call of a timer that is due.
unfoldable pub WasDue : ℕ → Call → Type 0
WasDue now (timer_call t) = t.due ≤ now
WasDue now (watch_call w) = Unit

act_called : (o : Op) (l : Loop) → (act o l).called ≡ l.called
unfolding act loop_timer loop_timer_cancel loop_add_fd loop_quit
act_called (op_timer now delay job) l = refl
act_called (op_cancel t) l = refl
act_called (op_add job) l = refl
act_called (op_del w) l =
    unfold loop_del_fd in
    elim (Option-cases (find_watch w l.watches)) [
      | inl e ↦ ground (arith, e)
      | inr (x, e) ↦ elim (Bool-cases x.dead) [
        | inl d ↦ ground (arith, e, d)
        | inr d ↦ ground (arith, e, d)
      ]
    ]
act_called op_quit l = refl

pub act_all_called : (os : List Op) (l : Loop) → (act_all os l).called ≡ l.called
unfolding act_all
act_all_called [] l = refl
act_all_called (o ∷ os) l = act_all_called os (act o l) ∙ act_called o l

pop-HasTimers :
    (l : Loop) (t : Timer) (ts : List Timer)
    → l.timers ≡ t ∷ ts
    → HasTimers l
    → HasTimers (record l { timers = ts })
unfolding IsSorted IsFresh
pop-HasTimers l t ts e h =
    let sorted = subst IsSorted e h.sorted in
    let distinct = subst (IsFresh l.fresh) e h.distinct in
    record { sorted = sorted.1; distinct = distinct.2 }

All-later :
    (now n : ℕ) (ts : List Timer)
    → now < n
    → All (λ (x : Timer). n ≤ x.due) ts
    → All (λ (x : Timer). now < x.due) ts
All-later now n [] h hs = tt
All-later now n (x ∷ xs) h (hx, hs) = (omega arith, All-later now n xs h hs)

-- Either nothing is to be called any more, or the first timer is due and taken off the list.
pop_cases :
    (now : ℕ) (l : Loop) (ts : List Timer)
    → IsSorted ts
    → ((pop_from now l ts ≡ none) × ((l.quit ≡ true) ⊎ All (λ (x : Timer). now < x.due) ts))
      ⊎ ((t : Timer) × (rest : List Timer) × (ts ≡ t ∷ rest)
          × (t.due ≤ now)
          × (pop_from now l ts ≡ some (t, record l { timers = rest })))
unfolding pop_from IsSorted
pop_cases now l [] h = inl (refl, inr tt)
pop_cases now l (t ∷ ts) (ht, hs) = elim (Bool-cases l.quit) [
  | inl q ↦ inl (ground (arith, q), inl q)
  | inr q ↦ elim (Bool-cases (leb t.due now)) [
    | inl d ↦ inr (t, ts, refl, ground (arith, d), ground (arith, d, q))
    | inr d ↦
        let later : now < t.due = ground (arith, d) in
        inl (ground (arith, d), inr (later, All-later now t.due ts later ht))
  ]
]

module _ (acts : ℕ → Loop → List Op) where
  call_timer-HasTimers : (t : Timer) (l : Loop) → HasTimers l → HasTimers (call_timer acts t l)
  unfolding call_timer
  call_timer-HasTimers t l h =
      let before : Loop = record l { called = l.called ++ timer_call t ∷ [] } in
      act_all-HasTimers (acts t.job before) before
        (record { sorted = h.sorted; distinct = h.distinct })

  call_timer_called :
      (t : Timer) (l : Loop) → (call_timer acts t l).called ≡ l.called ++ timer_call t ∷ []
  unfolding call_timer
  call_timer_called t l =
      let before : Loop = record l { called = l.called ++ timer_call t ∷ [] } in
      act_all_called (acts t.job before) before

  run_stop :
      (fuel now : ℕ) (l : Loop)
      → pop_from now l l.timers ≡ none
      → run_timers acts (suc fuel) now l ≡ l
  unfolding run_timers
  run_stop fuel now l e = ground (arith, e)

  run_step :
      (fuel now : ℕ) (l : Loop) (t : Timer) (popped : Loop)
      → pop_from now l l.timers ≡ some (t, popped)
      → run_timers acts (suc fuel) now l ≡ run_timers acts fuel now (call_timer acts t popped)
  unfolding run_timers
  run_step fuel now l t popped e = ground (arith, e)

  -- Whatever the callbacks do, the timers stay in order with distinct numbers, and every timer that is
  -- called was due.
  pub run_timers_inv :
      (fuel now : ℕ) (l : Loop)
      → HasTimers l
      → All (WasDue now) l.called
      → HasTimers (run_timers acts fuel now l)
        × All (WasDue now) (run_timers acts fuel now l).called
  run_timers_inv zero now l h c = unfold run_timers in (h, c)
  run_timers_inv (suc fuel) now l h c = elim (pop_cases now l l.timers h.sorted) [
    | inl (e, done) ↦ rw (run_stop fuel now l e) (h, c)
    | inr (t, ts, split, due, e) ↦
        let popped : Loop = record l { timers = ts } in
        let all =
          subst (All (WasDue now)) (sym (call_timer_called t popped))
            (All-append (WasDue now) l.called (timer_call t ∷ []) c (unfold WasDue in (due, tt))) in
        rw (run_step fuel now l t popped e) (
          run_timers_inv fuel now (call_timer acts t popped)
            (call_timer-HasTimers t popped (pop-HasTimers l t ts split h)) all)
  ]

-- What a timer counts for, if it is due.
unfoldable pub cost_if_due : (ℕ → ℕ) → ℕ → ℕ → ℕ → ℕ
cost_if_due cost now due job = if leb due now then cost job else 0

-- The costs of the timers that are due.
unfoldable pub due_cost : (ℕ → ℕ) → ℕ → List Timer → ℕ
due_cost cost now [] = 0
due_cost cost now (t ∷ ts) = cost_if_due cost now t.due t.job + due_cost cost now ts

-- The costs of the timers that the operations arm and that are due at once.
unfoldable pub armed_cost : (ℕ → ℕ) → ℕ → List Op → ℕ
unfolding cost_if_due
armed_cost cost now [] = 0
armed_cost cost now (op_timer n delay job ∷ os) =
    cost_if_due cost now (n + delay) job + armed_cost cost now os
armed_cost cost now (op_cancel t ∷ os) = armed_cost cost now os
armed_cost cost now (op_add job ∷ os) = armed_cost cost now os
armed_cost cost now (op_del w ∷ os) = armed_cost cost now os
armed_cost cost now (op_quit ∷ os) = armed_cost cost now os

module _ (cost : ℕ → ℕ) (now : ℕ) where
  due_cost-insert :
      (t : Timer) (ts : List Timer)
      → due_cost cost now (insert t ts) ≡ cost_if_due cost now t.due t.job + due_cost cost now ts
  unfolding due_cost insert
  due_cost-insert t [] = refl
  due_cost-insert t (x ∷ xs) = elim (Bool-cases (leb x.due t.due)) [
    | inl e ↦ rw e (omega (arith, due_cost-insert t xs))
    | inr e ↦ rw e refl
  ]

  due_cost-remove_timer :
      (t : ℕ) (ts : List Timer) → due_cost cost now (remove_timer t ts) ≤ due_cost cost now ts
  unfolding due_cost remove_timer
  due_cost-remove_timer t [] = omega arith
  due_cost-remove_timer t (x ∷ xs) = elim (Bool-cases (x.id == t)) [
    | inl e ↦ rw e (omega arith)
    | inr e ↦ rw e (omega (arith, due_cost-remove_timer t xs))
  ]

  due_cost-act_all :
      (os : List Op) (l : Loop)
      → due_cost cost now (act_all os l).timers
        ≤ armed_cost cost now os + due_cost cost now l.timers
  unfolding act_all act armed_cost
  due_cost-act_all [] l = omega arith
  due_cost-act_all (op_timer n delay job ∷ os) l =
      unfold loop_timer in
      omega (
        arith,
        due_cost-act_all os (loop_timer n delay job l),
        due_cost-insert (record { id = l.fresh; due = n + delay; job = job }) l.timers,
      )
  due_cost-act_all (op_cancel t ∷ os) l =
      unfold loop_timer_cancel in
      omega (arith, due_cost-act_all os (loop_timer_cancel t l), due_cost-remove_timer t l.timers)
  due_cost-act_all (op_add job ∷ os) l =
      unfold loop_add_fd in due_cost-act_all os (loop_add_fd job l)
  due_cost-act_all (op_del w ∷ os) l = omega (
    arith,
    due_cost-act_all os (loop_del_fd w l),
    ap (due_cost cost now) (loop_del_fd_timers w l).0,
  )
  due_cost-act_all (op_quit ∷ os) l = unfold loop_quit in due_cost-act_all os (loop_quit l)

module _ (acts : ℕ → Loop → List Op) (now : ℕ) (cost : ℕ → ℕ)
    (pays : (job : ℕ) (l : Loop) → armed_cost cost now (acts job l) < cost job) where
  -- Callbacks may arm timers that are due at once, as long as each callback has a cost above that of all
  -- the timers it arms that are due already, so that no chain of them goes on for ever. Then, from timers
  -- in order with distinct numbers and with more fuel than the timers that are due cost, `run_timers`
  -- ends with the loop quitting or with every timer that is left due later.
  pub run_timers_done :
      (fuel : ℕ) (l : Loop)
      → HasTimers l
      → due_cost cost now l.timers < fuel
      → ((run_timers acts fuel now l).quit ≡ true)
        ⊎ All (λ (x : Timer). now < x.due) (run_timers acts fuel now l).timers
  run_timers_done zero l h enough = absurd (omega arith)
  run_timers_done (suc fuel) l h enough = elim (pop_cases now l l.timers h.sorted) [
    | inl (e, done) ↦ rw (run_stop acts fuel now l e) done
    | inr (t, ts, split, due, e) ↦
        let popped : Loop = record l { timers = ts } in
        let before : Loop = record popped { called = l.called ++ timer_call t ∷ [] } in
        let counted : due_cost cost now l.timers ≡ cost t.job + due_cost cost now ts =
          ap (due_cost cost now) split ∙ unfold due_cost cost_if_due in ground (arith, due) in
        let fewer : due_cost cost now (call_timer acts t popped).timers
            ≤ armed_cost cost now (acts t.job before) + due_cost cost now ts =
          unfold call_timer in due_cost-act_all cost now (acts t.job before) before in
        rw (run_step acts fuel now l t popped e) (
          run_timers_done fuel (call_timer acts t popped)
            (call_timer-HasTimers acts t popped (pop-HasTimers l t ts split h))
            (omega (arith, counted, fewer, pays t.job before)))
  ]
