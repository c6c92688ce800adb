-- ===== src/Loop/Watches.antt =====
-- The batch of events, and the watches that are deleted during it.
use clipnet.Base.{
  ℕ, ◌≡◌, refl, sym, ◌∙◌, subst, ◌⊎◌, inl, inr, true, false, some, List, [], ◌∷◌, ◌++◌, arith, ◌==◌,
  Bool-cases, Option-cases, All, All-append,
}
use clipnet.Loop.{
  Watch, Call, Loop, loop_timer, loop_timer_cancel, loop_add_fd, mark_dead, find_watch, loop_del_fd,
  loop_quit, Op, act, act_all, call_watch, dispatch, timer_call, watch_call, op_timer, op_cancel,
  op_add, op_del, op_quit,
}
use clipnet.Loop.Timers.{HasTimers, act_all-HasTimers}
use clipnet.Loop.Run.{act_all_called}

-- A watch of this number is in memory.
unfoldable pub IsKept : ℕ → List Watch → Type 0
IsKept e ws = (w : Watch) × (find_watch e ws ≡ some w)

find_watch-add : (e : ℕ) (x : Watch) (ws : List Watch) → IsKept e ws → IsKept e (x ∷ ws)
unfolding IsKept find_watch
find_watch-add e x ws (w, h) = elim (Bool-cases (x.id == e)) [
  | inl f ↦ (x, ground (arith, f))
  | inr f ↦ (w, ground (arith, f, h))
]

mark_dead-IsKept : (e d : ℕ) (ws : List Watch) → IsKept e ws → IsKept e (mark_dead d ws)
unfolding IsKept find_watch mark_dead
mark_dead-IsKept e d [] h = h
mark_dead-IsKept e d (x ∷ ws) (w, h) = elim (Bool-cases (x.id == e)) [
  | inl f ↦ elim (Bool-cases (x.id == d)) [
    | inl g ↦ (record x { dead = true }, ground (arith, f, g))
    | inr g ↦ (x, ground (arith, f, g))
  ]
  | inr f ↦ elim (Bool-cases (x.id == d)) [
    | inl g ↦ (w, ground (arith, f, g, h))
    | inr g ↦
        let (w', h') = mark_dead-IsKept e d ws (w, ground (arith, f, h)) in
        (w', ground (arith, f, g, h'))
  ]
]

loop_del_fd_watches :
    (d : ℕ) (l : Loop)
    → ((loop_del_fd d l).watches ≡ l.watches) ⊎ ((loop_del_fd d l).watches ≡ mark_dead d l.watches)
unfolding loop_del_fd
loop_del_fd_watches d l = elim (Option-cases (find_watch d l.watches)) [
  | inl e ↦ inl (ground (arith, e))
  | inr (x, e) ↦ elim (Bool-cases x.dead) [
    | inl f ↦ inl (ground (arith, e, f))
    | inr f ↦ inr (ground (arith, e, f))
  ]
]

pub act-IsKept : (e : ℕ) (o : Op) (l : Loop) → IsKept e l.watches → IsKept e (act o l).watches
unfolding act
act-IsKept e (op_timer now delay job) l h = unfold loop_timer in h
act-IsKept e (op_cancel t) l h = unfold loop_timer_cancel in h
act-IsKept e (op_add job) l h =
    unfold loop_add_fd in
    find_watch-add e (record { id = l.fresh; job = job; dead = false }) l.watches h
act-IsKept e (op_del d) l h = elim (loop_del_fd_watches d l) [
  | inl same ↦ rw same h
  | inr marked ↦ rw marked (mark_dead-IsKept e d l.watches h)
]
act-IsKept e op_quit l h = unfold loop_quit in h

act_all-IsKept :
    (e : ℕ) (os : List Op) (l : Loop) → IsKept e l.watches → IsKept e (act_all os l).watches
unfolding act_all
act_all-IsKept e [] l h = h
act_all-IsKept e (o ∷ os) l h = act_all-IsKept e os (act o l) (act-IsKept e o l h)

-- The operation is no deletion, or that of a watch that is in memory.
unfoldable pub SparesFreed : Op → Loop → Type 0
SparesFreed (op_del w) l = IsKept w l.watches
SparesFreed (op_timer now delay job) l = Unit
SparesFreed (op_cancel t) l = Unit
SparesFreed (op_add job) l = Unit
SparesFreed op_quit l = Unit

-- Each of the operations, in the state that it finds.
unfoldable pub AllSpare : List Op → Loop → Type 0
AllSpare [] l = Unit
AllSpare (o ∷ os) l = SparesFreed o l × AllSpare os (act o l)

act_fault : (o : Op) (l : Loop) → SparesFreed o l → (act o l).fault ≡ l.fault
unfolding act SparesFreed loop_timer loop_timer_cancel loop_add_fd loop_quit
act_fault (op_timer now delay job) l h = refl
act_fault (op_cancel t) l h = refl
act_fault (op_add job) l h = refl
act_fault (op_del w) l h =
    unfold loop_del_fd IsKept in
    let (x, e) = h in
    elim (Bool-cases x.dead) [ inl d ↦ ground (arith, e, d) | inr d ↦ ground (arith, e, d) ]
act_fault op_quit l h = refl

act_all_fault : (os : List Op) (l : Loop) → AllSpare os l → (act_all os l).fault ≡ l.fault
unfolding act_all AllSpare
act_all_fault [] l h = refl
act_all_fault (o ∷ os) l (h, hs) = act_all_fault os (act o l) hs ∙ act_fault o l h

unfoldable pub WasLive : Call → Type 0
WasLive (timer_call t) = Unit
WasLive (watch_call w) = w.dead ≡ false

module _ (acts : ℕ → Loop → List Op) where
  call_watch-All :
      (w : Watch) (batch : List ℕ) (l : Loop)
      → All (λ e. IsKept e l.watches) batch
      → All (λ e. IsKept e (call_watch acts w l).watches) batch
  unfolding call_watch
  call_watch-All w [] l h = tt
  call_watch-All w (e ∷ es) l (he, hs) =
      let before : Loop = record l { called = l.called ++ watch_call w ∷ [] } in
      (act_all-IsKept e (acts w.job before) before he, call_watch-All w es l hs)

  call_watch-HasTimers : (w : Watch) (l : Loop) → HasTimers l → HasTimers (call_watch acts w l)
  unfolding call_watch
  call_watch-HasTimers w l h =
      let before : Loop = record l { called = l.called ++ watch_call w ∷ [] } in
      act_all-HasTimers (acts w.job before) before
        (record { sorted = h.sorted; distinct = h.distinct })

  call_watch_called :
      (w : Watch) (l : Loop) → (call_watch acts w l).called ≡ l.called ++ watch_call w ∷ []
  unfolding call_watch
  call_watch_called w l =
      let before : Loop = record l { called = l.called ++ watch_call w ∷ [] } in
      act_all_called (acts w.job before) before

  dispatch_quit :
      (e : ℕ) (es : List ℕ) (l : Loop) → l.quit ≡ true → dispatch acts (e ∷ es) l ≡ some l
  unfolding dispatch
  dispatch_quit e es l q = ground (arith, q)

  dispatch_dead :
      (e : ℕ) (es : List ℕ) (l : Loop) (w : Watch)
      → l.quit ≡ false
      → find_watch e l.watches ≡ some w
      → w.dead ≡ true
      → dispatch acts (e ∷ es) l ≡ dispatch acts es l
  unfolding dispatch
  dispatch_dead e es l w q f d = ground (arith, q, f, d)

  dispatch_live :
      (e : ℕ) (es : List ℕ) (l : Loop) (w : Watch)
      → l.quit ≡ false
      → find_watch e l.watches ≡ some w
      → w.dead ≡ false
      → dispatch acts (e ∷ es) l ≡ dispatch acts es (call_watch acts w l)
  unfolding dispatch
  dispatch_live e es l w q f d = ground (arith, q, f, d)

  module _ (spares : (job : ℕ) (l : Loop) → AllSpare (acts job l) l) where
    call_watch_fault : (w : Watch) (l : Loop) → (call_watch acts w l).fault ≡ l.fault
    unfolding call_watch
    call_watch_fault w l =
        let before : Loop = record l { called = l.called ++ watch_call w ∷ [] } in
        act_all_fault (acts w.job before) before (spares w.job before)

    -- Where callbacks delete only watches that are in memory, also watches that are deleted already, a
    -- batch whose watches are in memory when it is read is dispatched without a use of freed memory,
    -- neither by the events nor by `loop_del_fd`. Only watches that are not deleted are called, and the
    -- timers stay in order with distinct numbers, if both were so before.
    pub dispatch_safe :
        (batch : List ℕ) (l : Loop)
        → All (λ e. IsKept e l.watches) batch
        → HasTimers l
        → All WasLive l.called
        → (after : Loop) × (dispatch acts batch l ≡ some after)
          × (after.fault ≡ l.fault)
          × HasTimers after
          × All WasLive after.called
    unfolding IsKept
    dispatch_safe [] l kept h c = (l, unfold dispatch in refl, refl, h, c)
    dispatch_safe (e ∷ es) l ((w, f), kept) h c = elim (Bool-cases l.quit) [
      | inl q ↦ (l, dispatch_quit e es l q, refl, h, c)
      | inr q ↦ elim (Bool-cases w.dead) [
        | inl d ↦
            let (after, ran, same, h', c') = dispatch_safe es l kept h c in
            (after, dispatch_dead e es l w q f d ∙ ran, same, h', c')
        | inr d ↦
            let all =
              subst (All WasLive) (sym (call_watch_called w l))
                (All-append WasLive l.called (watch_call w ∷ []) c (unfold WasLive in (d, tt))) in
            let (after, ran, same, h', c') =
              dispatch_safe es (call_watch acts w l) (call_watch-All w es l kept)
                (call_watch-HasTimers w l h) all in
            (after, dispatch_live e es l w q f d ∙ ran, same ∙ call_watch_fault w l, h', c')
      ]
    ]
