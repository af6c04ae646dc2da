-- ===== src/EventLoop/Results.antt =====
-- BlockingCall of a functor with a result.
use io_base.Base.{
  ℕ, ◌≡◌, refl, ap, ◌∙◌, ◌==◌, if◌then◌else◌, Bool, true, false, Option, none, some, List, [], ◌∷◌,
  ◌++◌, arith,
}
use io_base.Duration.{Durations}
use io_base.EventLoop.Defs.{
  Task, runs, posts_delayed, calls, EventLoop, destroy, destroy_all, quit, quit_pending,
  quit_running, call, run_task, run_tasks, run_pending_tasks, blocking_call,
}
use io_base.EventLoop.Rounds.{run_pending_tasks-run_tasks}
use io_base.EventLoop.Blocking.{is_set, is_set-append, posted_call}

-- The variable `result` of the caller, `none` while nothing has been assigned to it: the lambda assigns what the
-- functor returns, when it is called.
unfoldable pub result :
    {Duration Ret : Type 0} → (returned : ℕ → Ret) (functor : ℕ) → EventLoop Duration → Option Ret
result returned functor l = if is_set functor l.ran then some (returned functor) else none

assigned :
    {Duration Ret : Type 0} (returned : ℕ → Ret) (functor : ℕ) (l : EventLoop Duration)
    → is_set functor l.ran ≡ true
    → result returned functor l ≡ some (returned functor)
unfolding result
assigned returned functor l e = rw e refl

unassigned :
    {Duration Ret : Type 0} (returned : ℕ → Ret) (functor : ℕ) (l : EventLoop Duration)
    → is_set functor l.ran ≡ false
    → result returned functor l ≡ none
unfolding result
unassigned returned functor l e = rw e refl

module _ (c : Durations) (body : ℕ → EventLoop c.Duration → EventLoop c.Duration) where
  open c use {Duration}

  -- BlockingCall up to the wait: whether the caller waits, and `result` then.
  unfoldable pub blocking_call_result :
      {Ret : Type 0}
      → (returned : ℕ → Ret) (thread functor done : ℕ) → EventLoop Duration
      → EventLoop Duration × Bool × Option Ret
  unfolding result
  blocking_call_result returned thread functor done l =
      let (called, waits) = blocking_call c body thread functor done l in
      (called, waits, result returned functor called)

  own_call :
      (thread functor done : ℕ) (l : EventLoop Duration)
      → l.running_ ≡ true
      → (l.thread_id_ == thread) ≡ true
      → blocking_call c body thread functor done l ≡ (call c body functor l, false)
  unfolding blocking_call
  own_call thread functor done l r own = rw (r, own) refl

  call_while_quitting :
      (thread functor done : ℕ) (l : EventLoop Duration)
      → l.running_ ≡ false
      → blocking_call c body thread functor done l ≡ (l, false)
  unfolding blocking_call
  call_while_quitting thread functor done l r = rw r refl

  run_tasks-append :
      (ts us : List (Task Duration)) (l : EventLoop Duration)
      → run_tasks c body (ts ++ us) l ≡ run_tasks c body us (run_tasks c body ts l)
  unfolding run_tasks
  run_tasks-append [] us l = refl
  run_tasks-append (t ∷ ts) us l = run_tasks-append ts us (run_task c body t l)

  destroy_all-ran :
      (ts : List (Task Duration)) (l : EventLoop Duration) → (destroy_all c ts l).ran ≡ l.ran
  unfolding destroy_all destroy
  destroy_all-ran [] l = refl
  destroy_all-ran (runs f ∷ ts) l = destroy_all-ran ts l
  destroy_all-ran (posts_delayed f start delay ∷ ts) l = destroy_all-ran ts l
  destroy_all-ran (calls f e ∷ ts) l = destroy_all-ran ts (record l { done = l.done ++ e ∷ [] })

  -- A functor that runs has run, if no functor takes back that another has.
  module _ (functor : ℕ)
      (keeps : (f : ℕ) (l : EventLoop Duration)
        → is_set functor l.ran ≡ true
        → is_set functor (body f l).ran ≡ true) where
    call-ran : (l : EventLoop Duration) → is_set functor (call c body functor l).ran ≡ true
    unfolding call
    call-ran l =
        keeps functor (record l { ran = l.ran ++ functor ∷ [] })
          (ground (arith, is_set-append functor l.ran (functor ∷ [])))

    run_last :
        (done : ℕ) (ts : List (Task Duration)) (l : EventLoop Duration)
        → is_set functor (run_tasks c body (ts ++ calls functor done ∷ []) l).ran ≡ true
    unfolding run_tasks run_task destroy
    run_last done ts l =
        ap (λ (m : EventLoop Duration). is_set functor m.ran)
          (run_tasks-append ts (calls functor done ∷ []) l)
        ∙ call-ran (run_tasks c body ts l)

    -- A blocking call of a functor with a result, which has not been called before, from another thread than that
    -- of a running loop: the caller waits without a result; if RunPendingTasks comes next, `result` is what the
    -- functor returned. But if a Quit comes next, nothing has been assigned to `result` when the caller goes on
    -- to return it.
    pub blocking_call_result_lem :
        {Ret : Type 0} (returned : ℕ → Ret) (thread done : ℕ) (l : EventLoop Duration)
        → is_set functor l.ran ≡ false
        → l.running_ ≡ true
        → (l.thread_id_ == thread) ≡ false
        → let called = blocking_call_result returned thread functor done l in
          (called.1 ≡ true)
          × (called.2 ≡ none)
          × (result returned functor (run_pending_tasks c body called.0) ≡ some (returned functor))
          × (result returned functor (quit c called.0) ≡ none)
    unfolding blocking_call_result quit quit_pending quit_running
    blocking_call_result_lem returned thread done l new r other =
        let t = record l { pending_ = l.pending_ ++ calls functor done ∷ []; woken = true } in
        let cleared = record t { pending_ = [] } in
        rw (posted_call c body thread functor done l r other) (
          refl,
          unassigned returned functor t new,
          assigned returned functor (run_pending_tasks c body t) (
              ap (λ (m : EventLoop Duration). is_set functor m.ran)
                (run_pending_tasks-run_tasks c body t)
              ∙ run_last done l.pending_ cleared),
          unassigned returned functor (quit c t)
              (ap (is_set functor) (destroy_all-ran t.pending_ cleared) ∙ new),
        )

    -- On the loop's own thread the caller does not wait, and has what the functor returned.
    blocking_call_result-own :
        {Ret : Type 0} (returned : ℕ → Ret) (thread done : ℕ) (l : EventLoop Duration)
        → l.running_ ≡ true
        → (l.thread_id_ == thread) ≡ true
        → let called = blocking_call_result returned thread functor done l in
          (called.1 ≡ false) × (called.2 ≡ some (returned functor))
    unfolding blocking_call_result
    blocking_call_result-own returned thread done l r own =
        rw (own_call thread functor done l r own)
          (refl, assigned returned functor (call c body functor l) (call-ran l))

    -- In a loop that is quitting the caller does not wait, and returns a variable that nothing was assigned to.
    blocking_call_result-quitting :
        {Ret : Type 0} (returned : ℕ → Ret) (thread done : ℕ) (l : EventLoop Duration)
        → is_set functor l.ran ≡ false
        → l.running_ ≡ false
        → let called = blocking_call_result returned thread functor done l in
          (called.1 ≡ false) × (called.2 ≡ none)
    unfolding blocking_call_result
    blocking_call_result-quitting returned thread done l new r =
        rw (call_while_quitting thread functor done l r) (refl, unassigned returned functor l new)
