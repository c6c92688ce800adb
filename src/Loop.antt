-- ===== src/Loop.antt =====
-- daemon/src/loop.c: the event loop. A pointer to a timer or a watch is the number that `fresh` had when
-- it was allocated, so that no number is used twice. A callback with its context is a number, and what
-- it does to the loop is the parameter `acts`: any sequence of the loop's own operations, which may
-- depend on the state it finds. `called` records the calls, and
-- `fault` whether a deletion read freed memory. `mono_ms` is an argument where it is read.
-- epoll is the argument `batch`, the events that `epoll_wait` returns, at most 32.
pub mod Timers
pub mod Run
pub mod Watches
pub mod Tests
use clipnet.Base.{
  ℕ, zero, suc, ◌+◌, ◌-◌, ◌^◌, Bool, true, false, ◌&&◌, not, Option, none, some, List, [], ◌∷◌,
  ◌++◌, ltb, leb, ◌==◌, if◌then◌else◌,
}

pub record Timer : Type 0 where
  pub id : ℕ
  pub due : ℕ
  pub job : ℕ

pub record Watch : Type 0 where
  pub id : ℕ
  pub job : ℕ
  pub dead : Bool

pub data Call : Type 0 where
  timer_call : Timer → Call
  watch_call : Watch → Call

pub record Loop : Type 0 where
  pub quit : Bool
  pub timers : List Timer
  pub watches : List Watch
  pub graveyard : List ℕ
  pub fresh : ℕ
  pub called : List Call
  pub fault : Bool

-- `loop_new`.
abbrev pub loop_new : Loop
loop_new = record {
  quit = false;
  timers = [];
  watches = [];
  graveyard = [];
  fresh = 0;
  called = [];
  fault = false;
}

-- The insertion of `loop_timer`, behind every timer that is due no later.
unfoldable pub insert : Timer → List Timer → List Timer
insert t [] = t ∷ []
insert t (x ∷ xs) = if leb x.due t.due then x ∷ insert t xs else t ∷ x ∷ xs

-- `loop_timer`; a delay below 0 counts as 0.
unfoldable pub loop_timer : ℕ → ℕ → ℕ → Loop → Loop
unfolding insert
loop_timer now delay job l = record l {
  timers = insert (record { id = l.fresh; due = now + delay; job = job }) l.timers;
  fresh = suc l.fresh;
}

unfoldable pub remove_timer : ℕ → List Timer → List Timer
remove_timer t [] = []
remove_timer t (x ∷ xs) = if x.id == t then xs else x ∷ remove_timer t xs

-- `loop_timer_cancel` of a timer that is not NULL.
unfoldable pub loop_timer_cancel : ℕ → Loop → Loop
unfolding remove_timer
loop_timer_cancel t l = record l { timers = remove_timer t l.timers }

unfoldable pub loop_add_fd : ℕ → Loop → Loop
loop_add_fd job l = record l {
  watches = record { id = l.fresh; job = job; dead = false } ∷ l.watches;
  fresh = suc l.fresh;
}

unfoldable pub mark_dead : ℕ → List Watch → List Watch
mark_dead w [] = []
mark_dead w (x ∷ xs) = if x.id == w then record x { dead = true } ∷ xs else x ∷ mark_dead w xs

unfoldable pub find_watch : ℕ → List Watch → Option Watch
find_watch w [] = none
find_watch w (x ∷ xs) = if x.id == w then some x else find_watch w xs

-- `loop_del_fd`: the watch is kept, marked, for the rest of the batch. Of a watch that is not in memory
-- any more it reads freed memory, which sets `fault`.
unfoldable pub loop_del_fd : ℕ → Loop → Loop
unfolding mark_dead find_watch
loop_del_fd w l = elim (find_watch w l.watches) [
  | none ↦ record l { fault = true }
  | some x ↦
      if x.dead
      then l
      else record l { watches = mark_dead w l.watches; graveyard = w ∷ l.graveyard }
]

unfoldable pub loop_quit : Loop → Loop
loop_quit l = record l { quit = true }

-- What a callback may do to the loop.
pub data Op : Type 0 where
  op_timer : (now delay job : ℕ) → Op
  op_cancel : ℕ → Op
  op_add : ℕ → Op
  op_del : ℕ → Op
  op_quit : Op

unfoldable pub act : Op → Loop → Loop
unfolding loop_timer loop_timer_cancel loop_add_fd loop_del_fd loop_quit
act (op_timer now delay job) l = loop_timer now delay job l
act (op_cancel t) l = loop_timer_cancel t l
act (op_add job) l = loop_add_fd job l
act (op_del w) l = loop_del_fd w l
act op_quit l = loop_quit l

unfoldable pub act_all : List Op → Loop → Loop
unfolding act
act_all [] l = l
act_all (o ∷ os) l = act_all os (act o l)

unfoldable pub remove_watch : ℕ → List Watch → List Watch
remove_watch w [] = []
remove_watch w (x ∷ xs) = if x.id == w then xs else x ∷ remove_watch w xs

unfoldable pub remove_watches : List ℕ → List Watch → List Watch
unfolding remove_watch
remove_watches [] ws = ws
remove_watches (g ∷ gs) ws = remove_watches gs (remove_watch g ws)

-- The loop of `loop_run` that frees the graveyard.
unfoldable pub bury : Loop → Loop
unfolding remove_watches
bury l = record l { watches = remove_watches l.graveyard l.watches; graveyard = [] }

-- The test of the loop of `run_timers`, and the timer taken off the list.
unfoldable pub pop_from : ℕ → Loop → List Timer → Option (Timer × Loop)
pop_from now l [] = none
pop_from now l (t ∷ ts) =
    if leb t.due now && not l.quit then some (t, record l { timers = ts }) else none

module _ (acts : ℕ → Loop → List Op) where
  unfoldable pub call_timer : Timer → Loop → Loop
  unfolding act_all
  call_timer t l =
      let before : Loop = record l { called = l.called ++ timer_call t ∷ [] } in
      act_all (acts t.job before) before

  unfoldable pub call_watch : Watch → Loop → Loop
  unfolding act_all
  call_watch w l =
      let before : Loop = record l { called = l.called ++ watch_call w ∷ [] } in
      act_all (acts w.job before) before

  -- `run_timers`, on fuel for the number of timers it may call.
  unfoldable pub run_timers : ℕ → ℕ → Loop → Loop
  unfolding pop_from call_timer
  run_timers zero now l = l
  run_timers (suc fuel) now l = elim (pop_from now l l.timers) [
    | none ↦ l
    | some (t, popped) ↦ run_timers fuel now (call_timer t popped)
  ]

  -- The events of a batch. An event of a watch that is not in memory would be a use after free, `none`.
  unfoldable pub dispatch : List ℕ → Loop → Option Loop
  unfolding find_watch call_watch
  dispatch [] l = some l
  dispatch (e ∷ es) l = elim l.quit [
    | true ↦ some l
    | false ↦ elim (find_watch e l.watches) [
      | none ↦ none
      | some w ↦ elim w.dead [ true ↦ dispatch es l | false ↦ dispatch es (call_watch w l) ]
    ]
  ]

  -- A round of `loop_run` behind `epoll_wait`.
  unfoldable pub loop_round : ℕ → List ℕ → ℕ → Loop → Option Loop
  unfolding dispatch bury run_timers
  loop_round fuel batch now l = elim (dispatch batch l) [
    | none ↦ none
    | some after ↦ some (run_timers fuel now (bury after))
  ]

-- The timeout of `epoll_wait`; `none` is -1.
unfoldable pub wait_timeout : ℕ → Loop → Option ℕ
wait_timeout now l = elim l.timers [
  | [] ↦ none
  | t ∷ ts ↦ some (if ltb (2 ^ 30) (t.due - now) then 2 ^ 30 else t.due - now)
]
