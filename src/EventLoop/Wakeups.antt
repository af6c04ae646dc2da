-- ===== src/EventLoop/Wakeups.antt =====
-- The loop's thread and the threads that post to it, in any interleaving: no wake-up is lost.
-- EventLoopWin::ProcessPendingTasks resets wakeup_ev_, then takes the pending tasks, then runs them;
-- other threads post between any two of these steps. PostTaskImpl on another thread has three steps: it asks
-- IsQuitting, pushes the task under the lock, and calls WakeUp. A functor runs in one step.
use io_base.Base.{
  ℕ, zero, suc, ltb, ◌≡◌, refl, if◌then◌else◌, Bool, true, false, not, ◌||◌, Option, none, some,
  List, [], ◌∷◌, ◌++◌, arith, Bool-cases, Option-cases, inl, inr,
}
use io_base.Duration.{Durations}
use io_base.EventLoop.Defs.{
  Task, runs, posts_delayed, calls, EventLoop, destroy, destroy_all, wake_up, quit_pending,
  quit_running, push_task, is_quitting, post_on_task_queue, call, run_task,
}
use io_base.EventLoop.Rounds.{some_of}

-- Where the loop's thread is: before WSAResetEvent, before the swap in RunPendingTasks, in its loop.
pub data Phase (Duration : Type 0) : Type 0 where
  waits : Phase Duration
  has_reset : Phase Duration
  runs_tasks : (tasks : List (Task Duration)) → Phase Duration

-- `to_push` are the tasks of the calls of PostTask that have seen a running loop and not pushed yet, `to_wake` is the
-- number of calls that have pushed and not called WakeUp yet.
pub record System (Duration : Type 0) : Type 0 where
  pub loop : EventLoop Duration
  pub phase : Phase Duration
  pub to_push : List (Task Duration)
  pub to_wake : ℕ

pub data Move (Duration : Type 0) : Type 0 where
  posts : (task : Task Duration) → Move Duration
  pushes : (i : ℕ) → Move Duration
  wakes : Move Duration
  quits_pending : Move Duration
  quits_running : Move Duration
  goes_on : Move Duration

-- Tasks that wait are known to the event that wakes the loop.
unfoldable pub is_awake : {D : Type 0} → EventLoop D → Bool
is_awake l = not (some_of l.pending_) || l.woken

abbrev is_after_reset : {D : Type 0} → Phase D → Bool
is_after_reset waits = false
is_after_reset has_reset = true
is_after_reset (runs_tasks tasks) = false

-- Between the reset and the swap the tasks are about to be taken; a thread that has pushed is about to wake the loop.
unfoldable pub is_safe : {D : Type 0} → System D → Bool
unfolding is_awake
is_safe s = is_awake s.loop || (is_after_reset s.phase || ltb 0 s.to_wake)

-- The i-th task of a list, and the others.
unfoldable pub take_out : {A : Type 0} → ℕ → List A → Option (A × List A)
take_out i [] = none
take_out zero (x ∷ xs) = some (x, xs)
take_out (suc i) (x ∷ xs) = elim (take_out i xs) [ none ↦ none | some (y, ys) ↦ some (y, x ∷ ys) ]

module _ (c : Durations) (body : ℕ → EventLoop c.Duration → EventLoop c.Duration) where
  open c use {Duration}

  -- One step of the loop's thread.
  unfoldable pub process_pending_tasks : System Duration → System Duration
  process_pending_tasks s = elim s.phase [
    | waits ↦ record s { loop = record s.loop { woken = false }; phase = has_reset }
    | has_reset ↦ record s {
      loop = record s.loop { pending_ = [] };
      phase = runs_tasks s.loop.pending_;
    }
    | runs_tasks [] ↦ record s { phase = waits }
    | runs_tasks (task ∷ tasks) ↦ record s {
      loop = run_task c body task s.loop;
      phase = runs_tasks tasks;
    }
  ]

  unfoldable pub move : System Duration → Move Duration → System Duration
  unfolding process_pending_tasks take_out
  move s (posts task) =
      if is_quitting c s.loop
      then record s { loop = destroy c task s.loop }
      else record s { to_push = s.to_push ++ task ∷ [] }
  move s (pushes i) = elim (take_out i s.to_push) [
    | none ↦ s
    | some (task, rest) ↦ record s {
      loop = push_task c task s.loop;
      to_push = rest;
      to_wake = suc s.to_wake;
    }
  ]
  move s wakes = elim s.to_wake [
    | zero ↦ s
    | suc n ↦ record s { loop = wake_up c s.loop; to_wake = n }
  ]
  move s quits_pending = record s { loop = quit_pending c s.loop }
  move s quits_running = record s { loop = quit_running c s.loop }
  move s goes_on = process_pending_tasks s

  unfoldable pub schedule : System Duration → List (Move Duration) → System Duration
  unfolding move
  schedule s [] = s
  schedule s (m ∷ ms) = schedule (move s m) ms

  destroy-is_awake :
      (task : Task Duration) (l : EventLoop Duration) → is_awake (destroy c task l) ≡ is_awake l
  unfolding destroy is_awake
  destroy-is_awake (runs f) l = refl
  destroy-is_awake (posts_delayed f start delay) l = refl
  destroy-is_awake (calls f e) l = refl

  destroy_all-is_awake :
      (tasks : List (Task Duration)) (l : EventLoop Duration)
      → is_awake l ≡ true
      → is_awake (destroy_all c tasks l) ≡ true
  unfolding destroy_all
  destroy_all-is_awake [] l h = h
  destroy_all-is_awake (task ∷ tasks) l h =
      destroy_all-is_awake tasks (destroy c task l) (ground (arith, destroy-is_awake task l))

  run_task-is_awake :
      ((f : ℕ) (l : EventLoop Duration) → is_awake l ≡ true → is_awake (body f l) ≡ true)
      → (task : Task Duration) (l : EventLoop Duration) → is_awake l ≡ true
      → is_awake (run_task c body task l) ≡ true
  unfolding run_task call post_on_task_queue is_awake
  run_task-is_awake keeps (runs f) l h = keeps f (record l { ran = l.ran ++ f ∷ [] }) h
  run_task-is_awake keeps (posts_delayed f start delay) l h = h
  run_task-is_awake keeps (calls f e) l h =
      let called = call c body f l in
      let kept : is_awake called ≡ true = keeps f (record l { ran = l.ran ++ f ∷ [] }) h in
      ground (arith, destroy-is_awake (calls f e) called, kept)

  quit_pending-is_awake : (l : EventLoop Duration) → is_awake (quit_pending c l) ≡ true
  unfolding quit_pending is_awake
  quit_pending-is_awake l = destroy_all-is_awake l.pending_ (record l { pending_ = [] }) refl

  wakes-is_safe :
      (l : EventLoop Duration) (phase : Phase Duration) (to_push : List (Task Duration)) (n : ℕ)
      → let s : System Duration = record {
        loop = l;
        phase = phase;
        to_push = to_push;
        to_wake = n;
      } in
        is_safe s ≡ true → is_safe (move s wakes) ≡ true
  unfolding move is_safe is_awake wake_up
  wakes-is_safe l phase to_push zero h = h
  wakes-is_safe l phase to_push (suc n) h = ground arith

  process-from :
      ((f : ℕ) (l : EventLoop Duration) → is_awake l ≡ true → is_awake (body f l) ≡ true)
      → (l : EventLoop Duration) (phase : Phase Duration) (to_push : List (Task Duration)) (n : ℕ)
      → is_awake l || (is_after_reset phase || ltb 0 n) ≡ true
      → is_safe (
          process_pending_tasks
            (record { loop = l; phase = phase; to_push = to_push; to_wake = n }))
        ≡ true
  unfolding process_pending_tasks is_safe
  process-from keeps l waits to_push n h = ground arith
  process-from keeps l has_reset to_push n h = refl
  process-from keeps l (runs_tasks []) to_push n h = h
  process-from keeps l (runs_tasks (task ∷ tasks)) to_push n h = elim (Bool-cases (is_awake l)) [
    | inl awake ↦ ground (arith, run_task-is_awake keeps task l awake)
    | inr asleep ↦ ground (arith, h, asleep)
  ]

  process-is_safe :
      ((f : ℕ) (l : EventLoop Duration) → is_awake l ≡ true → is_awake (body f l) ≡ true)
      → (s : System Duration) → is_safe s ≡ true
      → is_safe (process_pending_tasks s) ≡ true
  unfolding process_pending_tasks is_safe
  process-is_safe keeps s h = process-from keeps s.loop s.phase s.to_push s.to_wake h

  move-is_safe :
      ((f : ℕ) (l : EventLoop Duration) → is_awake l ≡ true → is_awake (body f l) ≡ true)
      → (s : System Duration) (m : Move Duration) → is_safe s ≡ true
      → is_safe (move s m) ≡ true
  unfolding move is_safe quit_running
  move-is_safe keeps s (posts task) h = ground (arith, destroy-is_awake task s.loop, h)
  move-is_safe keeps s (pushes i) h = elim (Option-cases (take_out i s.to_push)) [
    | inl e ↦ rw (e, move) h
    | inr ((task, rest), e) ↦ rw (e, move) (ground arith)
  ]
  move-is_safe keeps s wakes h = wakes-is_safe s.loop s.phase s.to_push s.to_wake h
  move-is_safe keeps s quits_pending h = ground (arith, quit_pending-is_awake s.loop)
  move-is_safe keeps s quits_running h = h
  move-is_safe keeps s goes_on h = process-is_safe keeps s h

  -- If the functors keep it so that a loop with waiting tasks is woken, then in every interleaving of posts, in three
  -- steps each, and Quits with the steps of the loop's thread: whenever tasks wait, the event that wakes the loop is
  -- set, or a thread that has posted is about to set it, or the loop's thread is between the reset of the event and
  -- the taking of the tasks.
  pub schedule-is_safe :
      ((f : ℕ) (l : EventLoop Duration) → is_awake l ≡ true → is_awake (body f l) ≡ true)
      → (s : System Duration) (ms : List (Move Duration)) → is_safe s ≡ true
      → is_safe (schedule s ms) ≡ true
  unfolding schedule
  schedule-is_safe keeps s [] h = h
  schedule-is_safe keeps s (m ∷ ms) h =
      schedule-is_safe keeps (move s m) ms (move-is_safe keeps s m h)
