-- ===== src/Loop/Tests.antt =====
-- A loop with three timers and two watches, whose callbacks arm, cancel and delete.
use clipnet.Base.{
  ℕ, ◌<◌, ◌≡◌, refl, ◌⊎◌, inl, inr, Bool, true, false, ◌&&◌, none, some, List, [], ◌∷◌, map, arith,
  ◌==◌, if◌then◌else◌, Bool-cases, Option-cases, length, All,
}
use clipnet.Loop.{
  Timer, Loop, loop_new, find_watch, Op, act_all, run_timers, dispatch, op_timer, op_cancel, op_add,
  op_del,
}
use clipnet.Loop.Timers.{IsSorted, IsFresh, HasTimers, act_all-HasTimers}
use clipnet.Loop.Run.{WasDue, run_timers_inv, run_timers_done, cost_if_due, due_cost, armed_cost}
use clipnet.Loop.Watches.{IsKept, WasLive, dispatch_safe, act-IsKept, SparesFreed, AllSpare}

-- Is the watch in memory?
holds : ℕ → Loop → Bool
holds w l = elim (find_watch w l.watches) [ none ↦ false | some x ↦ true ]

-- Job 7 arms a timer that is due later and one that is due at once, and cancels another; job 8 deletes
-- both watches, if it has them.
react : ℕ → Loop → List Op
react job l =
    if job == 7
    then op_timer 6 10 8 ∷ op_timer 5 0 9 ∷ op_cancel 1 ∷ []
    else if job == 8 && holds 4 l && holds 3 l
    then op_del 4 ∷ op_del 3 ∷ []
    else []

abbrev price : ℕ → ℕ
price job = if job == 7 then 2 else 1

react_pays : (job : ℕ) (l : Loop) → armed_cost price 5 (react job l) < price job
unfolding react armed_cost
react_pays job l = elim (Bool-cases (job == 7)) [
  | inl e ↦ rw e (omega arith)
  | inr e ↦ elim (Bool-cases (job == 8 && holds 4 l && holds 3 l)) [
    | inl f ↦ rw (e, f) (omega arith)
    | inr f ↦ rw (e, f) (omega arith)
  ]
]

holds-IsKept : (w : ℕ) (l : Loop) → holds w l ≡ true → IsKept w l.watches
unfolding holds IsKept
holds-IsKept w l h = elim (Option-cases (find_watch w l.watches)) [
  | inl e ↦ absurd (ground (arith, h, e))
  | inr (x, e) ↦ (x, e)
]

react-AllSpare : (job : ℕ) (l : Loop) → AllSpare (react job l) l
unfolding react AllSpare SparesFreed
react-AllSpare job l = elim (Bool-cases (job == 7)) [
  | inl e ↦ rw e (tt, (tt, (tt, tt)))
  | inr e ↦ elim (Bool-cases (job == 8 && holds 4 l && holds 3 l)) [
    | inl f ↦
        rw (e, f)
          (
            holds-IsKept 4 l (ground (arith, f)),
            (act-IsKept 3 (op_del 4) l (holds-IsKept 3 l (ground (arith, f))), tt),
          )
    | inr f ↦ rw (e, f) tt
  ]
]

abbrev set_up : List Op
set_up = op_timer 0 5 7 ∷ op_timer 0 9 9 ∷ op_timer 0 5 8 ∷ op_add 7 ∷ op_add 8 ∷ []

abbrev sample : Loop
sample = act_all set_up loop_new

loop_new-HasTimers : HasTimers loop_new
unfolding IsSorted IsFresh
loop_new-HasTimers = record { sorted = tt; distinct = tt }

sample-HasTimers : HasTimers sample
sample-HasTimers = act_all-HasTimers set_up loop_new loop_new-HasTimers

-- Two timers that are due together run in the order in which they were armed, and the third is cancelled.
run_jobs :
    map (λ t. t.job) sample.timers ≡ 7 ∷ 8 ∷ 9 ∷ []
    × (map (λ t. t.due) (run_timers react 4 5 sample).timers ≡ 16 ∷ [])
unfolding act_all react run_timers holds
run_jobs = (refl, refl)

no_calls : All (WasDue 5) sample.called × All WasLive sample.called
unfolding act_all
no_calls = (tt, tt)

run_timers_inv_example :
    HasTimers (run_timers react 4 5 sample) × All (WasDue 5) (run_timers react 4 5 sample).called
run_timers_inv_example = run_timers_inv react 4 5 sample sample-HasTimers no_calls.0

sample_cost : due_cost price 5 sample.timers < 4
unfolding due_cost act_all cost_if_due
sample_cost = omega arith

run_timers_done_example :
    ((run_timers react 4 5 sample).quit ≡ true)
    ⊎ All (λ (x : Timer). 5 < x.due) (run_timers react 4 5 sample).timers
run_timers_done_example =
    run_timers_done react 5 price react_pays 4 sample sample-HasTimers sample_cost

kept : All (λ e. IsKept e sample.watches) (4 ∷ 3 ∷ [])
unfolding IsKept act_all find_watch
kept = (
  (record { id = 4; job = 8; dead = false }, refl),
  ((record { id = 3; job = 7; dead = false }, refl), tt),
)

dispatch_safe_example :
    (after : Loop) × (dispatch react (4 ∷ 3 ∷ []) sample ≡ some after)
    × (after.fault ≡ sample.fault)
    × HasTimers after
    × All WasLive after.called
dispatch_safe_example =
    dispatch_safe react react-AllSpare (4 ∷ 3 ∷ []) sample kept sample-HasTimers no_calls.1

-- The first event deletes the watch of the second, which is not called.
one_call :
    map length
      (elim (dispatch react (4 ∷ 3 ∷ []) sample) [ none ↦ [] | some after ↦ after.called ∷ [] ])
    ≡ 1 ∷ []
unfolding act_all react dispatch holds
one_call = refl
