-- ===== src/Loop/Timers.antt =====
-- The list of timers: its order, and what `run_timers` calls.
use clipnet.Base.{
  ℕ, suc, ◌+◌, ◌≤◌, ◌<◌, ◌≡◌, refl, ap, ◌≢◌, inl, inr, List, [], ◌∷◌, ◌++◌, arith, leb, ◌==◌,
  Bool-cases, Option-cases, All,
}
use clipnet.Loop.{
  Timer, Loop, insert, loop_timer, remove_timer, loop_timer_cancel, loop_add_fd, find_watch,
  loop_del_fd, loop_quit, Op, act, act_all, op_timer, op_cancel, op_add, op_del, op_quit,
}

-- Sorted by the time they are due.
unfoldable pub IsSorted : List Timer → Type 0
IsSorted [] = Unit
IsSorted (t ∷ ts) = All (λ (x : Timer). t.due ≤ x.due) ts × IsSorted ts

pub insert-All :
    (P : Timer → Type 0) (t : Timer) (ts : List Timer) → P t → All P ts → All P (insert t ts)
unfolding insert
insert-All P t [] h hs = (h, tt)
insert-All P t (x ∷ xs) h (hx, hs) = elim (Bool-cases (leb x.due t.due)) [
  | inl e ↦ rw e (hx, insert-All P t xs h hs)
  | inr e ↦ rw e (h, (hx, hs))
]

All-le :
    (m n : ℕ) (ts : List Timer)
    → m ≤ n
    → All (λ (x : Timer). n ≤ x.due) ts
    → All (λ (x : Timer). m ≤ x.due) ts
All-le m n [] h hs = tt
All-le m n (x ∷ xs) h (hx, hs) = (omega arith, All-le m n xs h hs)

insert-IsSorted : (t : Timer) (ts : List Timer) → IsSorted ts → IsSorted (insert t ts)
unfolding insert IsSorted
insert-IsSorted t [] h = (tt, tt)
insert-IsSorted t (x ∷ xs) (hx, hs) = elim (Bool-cases (leb x.due t.due)) [
  | inl e ↦ rw e (
    insert-All (λ (y : Timer). x.due ≤ y.due) t xs (ground (arith, e)) hx,
    insert-IsSorted t xs hs,
  )
  | inr e ↦
      let less : t.due ≤ x.due = ground (arith, e) in
      rw e ((less, All-le t.due x.due xs less hx), (hx, hs))
]

remove_timer-All :
    (P : Timer → Type 0) (t : ℕ) (ts : List Timer) → All P ts → All P (remove_timer t ts)
unfolding remove_timer
remove_timer-All P t [] h = tt
remove_timer-All P t (x ∷ xs) (hx, hs) = elim (Bool-cases (x.id == t)) [
  | inl e ↦ rw e hs
  | inr e ↦ rw e (hx, remove_timer-All P t xs hs)
]

remove_timer-IsSorted : (t : ℕ) (ts : List Timer) → IsSorted ts → IsSorted (remove_timer t ts)
unfolding remove_timer IsSorted
remove_timer-IsSorted t [] h = tt
remove_timer-IsSorted t (x ∷ xs) (hx, hs) = elim (Bool-cases (x.id == t)) [
  | inl e ↦ rw e hs
  | inr e ↦
      rw e (remove_timer-All (λ (y : Timer). x.due ≤ y.due) t xs hx, remove_timer-IsSorted t xs hs)
]

-- The numbers of the timers are distinct, and below `fresh`.
unfoldable pub IsFresh : ℕ → List Timer → Type 0
IsFresh n [] = Unit
IsFresh n (t ∷ ts) = (t.id < n) × All (λ (x : Timer). x.id ≢ t.id) ts × IsFresh n ts

IsFresh-suc : (n : ℕ) (ts : List Timer) → IsFresh n ts → IsFresh (suc n) ts
unfolding IsFresh
IsFresh-suc n [] h = tt
IsFresh-suc n (t ∷ ts) (small, new, hs) = (omega arith, new, IsFresh-suc n ts hs)

IsFresh-All : (n m : ℕ) (ts : List Timer) → m ≡ n → IsFresh n ts → All (λ (x : Timer). x.id ≢ m) ts
unfolding IsFresh
IsFresh-All n m [] same h = tt
IsFresh-All n m (t ∷ ts) same (small, new, hs) =
    (λ e. absurd (omega (arith, e, small, same)), IsFresh-All n m ts same hs)

insert-IsFresh :
    (n : ℕ) (t : Timer) (ts : List Timer) → t.id ≡ n → IsFresh n ts → IsFresh (suc n) (insert t ts)
unfolding insert IsFresh
insert-IsFresh n t [] e h = (omega arith, tt, tt)
insert-IsFresh n t (x ∷ xs) e (small, new, hs) = elim (Bool-cases (leb x.due t.due)) [
  | inl le ↦ rw le (
    omega arith,
    insert-All (λ (y : Timer). y.id ≢ x.id) t xs (λ same. absurd (omega (arith, same))) new,
    insert-IsFresh n t xs e hs,
  )
  | inr gt ↦ rw gt (
    omega arith,
    ((λ same. absurd (omega (arith, same))), IsFresh-All n t.id xs e hs),
    (omega arith, new, IsFresh-suc n xs hs),
  )
]

remove_timer-IsFresh : (n t : ℕ) (ts : List Timer) → IsFresh n ts → IsFresh n (remove_timer t ts)
unfolding remove_timer IsFresh
remove_timer-IsFresh n t [] h = tt
remove_timer-IsFresh n t (x ∷ xs) (small, new, hs) = elim (Bool-cases (x.id == t)) [
  | inl e ↦ rw e hs
  | inr e ↦ rw e (
    small,
    remove_timer-All (λ (y : Timer). y.id ≢ x.id) t xs new,
    remove_timer-IsFresh n t xs hs,
  )
]

-- The timers of a loop are in order, with distinct numbers.
pub record HasTimers (l : Loop) : Type 0 where
  pub sorted : IsSorted l.timers
  pub distinct : IsFresh l.fresh l.timers

loop_timer-HasTimers :
    (now delay job : ℕ) (l : Loop) → HasTimers l → HasTimers (loop_timer now delay job l)
unfolding loop_timer
loop_timer-HasTimers now delay job l h = record {
  sorted =
      insert-IsSorted (record { id = l.fresh; due = now + delay; job = job }) l.timers h.sorted;
  distinct =
      insert-IsFresh l.fresh (record { id = l.fresh; due = now + delay; job = job }) l.timers refl
        h.distinct;
}

pub loop_del_fd_timers :
    (w : ℕ) (l : Loop) → ((loop_del_fd w l).timers ≡ l.timers) × ((loop_del_fd w l).fresh ≡ l.fresh)
unfolding loop_del_fd
loop_del_fd_timers w l = elim (Option-cases (find_watch w l.watches)) [
  | inl e ↦ ground (arith, e)
  | inr (x, e) ↦ elim (Bool-cases x.dead) [
    | inl d ↦ ground (arith, e, d)
    | inr d ↦ ground (arith, e, d)
  ]
]

loop_del_fd-HasTimers : (w : ℕ) (l : Loop) → HasTimers l → HasTimers (loop_del_fd w l)
loop_del_fd-HasTimers w l h =
    let (timers, fresh) = loop_del_fd_timers w l in
    record { sorted = rw timers h.sorted; distinct = rw (timers, fresh) h.distinct }

-- Every operation keeps the timers in order, with distinct numbers.
pub act-HasTimers : (o : Op) (l : Loop) → HasTimers l → HasTimers (act o l)
unfolding act
act-HasTimers (op_timer now delay job) l h = loop_timer-HasTimers now delay job l h
act-HasTimers (op_cancel t) l h =
    unfold loop_timer_cancel in
    record {
      sorted = remove_timer-IsSorted t l.timers h.sorted;
      distinct = remove_timer-IsFresh l.fresh t l.timers h.distinct;
    }
act-HasTimers (op_add job) l h =
    unfold loop_add_fd in
    record { sorted = h.sorted; distinct = IsFresh-suc l.fresh l.timers h.distinct }
act-HasTimers (op_del w) l h = loop_del_fd-HasTimers w l h
act-HasTimers op_quit l h = unfold loop_quit in record { sorted = h.sorted; distinct = h.distinct }

pub act_all-HasTimers : (os : List Op) (l : Loop) → HasTimers l → HasTimers (act_all os l)
unfolding act_all
act_all-HasTimers [] l h = h
act_all-HasTimers (o ∷ os) l h = act_all-HasTimers os (act o l) (act-HasTimers o l h)

All-lt :
    (m n : ℕ) (ts : List Timer)
    → m < n
    → All (λ (x : Timer). n ≤ x.due) ts
    → All (λ (x : Timer). m < x.due) ts
All-lt m n [] small k = tt
All-lt m n (x ∷ xs) small (kx, ks) = (omega arith, All-lt m n xs small ks)

place :
    (t : Timer) (ts : List Timer)
    → IsSorted ts
    → (before : List Timer) × (after : List Timer) × (ts ≡ before ++ after)
      × (insert t ts ≡ before ++ t ∷ after)
      × All (λ (x : Timer). x.due ≤ t.due) before
      × All (λ (x : Timer). t.due < x.due) after
unfolding insert IsSorted
place t [] k = ([], [], refl, refl, tt, tt)
place t (x ∷ xs) (kx, ks) = elim (Bool-cases (leb x.due t.due)) [
  | inl e ↦
      let (before, after, split, placed, low, high) = place t xs ks in
      (
        x ∷ before,
        after,
        ap (◌∷◌ x) split,
        rw e (ap (◌∷◌ x) placed),
        (ground (arith, e), low),
        high,
      )
  | inr e ↦
      let less : t.due < x.due = ground (arith, e) in
      ([], x ∷ xs, refl, rw e, tt, (less, All-lt t.due x.due xs less kx))
]

-- Among the timers of a loop in order, a new one stands behind those that are due no later, those due at
-- the same time included, and before those that are due later; no other timer moves.
loop_timer_place :
    (now delay job : ℕ) (l : Loop)
    → HasTimers l
    → (before : List Timer) × (after : List Timer) × (l.timers ≡ before ++ after)
      × ((loop_timer now delay job l).timers
          ≡ before ++ record { id = l.fresh; due = now + delay; job = job } ∷ after)
      × All (λ (x : Timer). x.due ≤ now + delay) before
      × All (λ (x : Timer). now + delay < x.due) after
unfolding loop_timer
loop_timer_place now delay job l h =
    place (record { id = l.fresh; due = now + delay; job = job }) l.timers h.sorted
