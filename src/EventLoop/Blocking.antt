-- ===== src/EventLoop/Blocking.antt =====
-- BlockingCall: whether its caller's Event is set, and so whether the caller goes on.
use io_base.Base.{
  ℕ, ◌≡◌, refl, sym, ap, subst, ◌∙◌, ◌==◌, Bool, true, false, ◌||◌, List, [], ◌∷◌, ◌++◌, arith,
}
use io_base.Duration.{Durations}
use io_base.EventLoop.Defs.{
  Task, runs, posts_delayed, calls, EventLoop, destroy, destroy_all, wake_up, quit, quit_pending,
  quit_running, post_task, post_on_task_queue, call, run_task, run_tasks, run_pending_tasks,
  blocking_call,
}
use io_base.EventLoop.Rounds.{run_pending_tasks-run_tasks}

abbrev pub is_set : ℕ → List ℕ → Bool
is_set event [] = false
is_set event (e ∷ es) = (e == event) || is_set event es

pub is_set-append :
    (event : ℕ) (es fs : List ℕ) → is_set event (es ++ fs) ≡ is_set event es || is_set event fs
is_set-append event [] fs = refl
is_set-append event (e ∷ es) fs = ground (arith, is_set-append event es fs)

module _ (c : Durations) where
  open c use {Duration}

  -- The tasks that hold the Event.
  abbrev holds : ℕ → List (Task Duration) → Bool
  holds event [] = false
  holds event (runs f ∷ ts) = holds event ts
  holds event (posts_delayed f start delay ∷ ts) = holds event ts
  holds event (calls f e ∷ ts) = (e == event) || holds event ts

  holds_last :
      (event f : ℕ) (ts : List (Task Duration)) → holds event (ts ++ calls f event ∷ []) ≡ true
  holds_last event f [] = ground arith
  holds_last event f (runs g ∷ ts) = holds_last event f ts
  holds_last event f (posts_delayed g start delay ∷ ts) = holds_last event f ts
  holds_last event f (calls g e ∷ ts) = ground (arith, holds_last event f ts)

  destroy_all-sets :
      (event : ℕ) (ts : List (Task Duration)) (l : EventLoop Duration)
      → holds event ts || is_set event l.done ≡ true
      → is_set event (destroy_all c ts l).done ≡ true
  unfolding destroy_all destroy
  destroy_all-sets event [] l h = h
  destroy_all-sets event (runs f ∷ ts) l h = destroy_all-sets event ts l h
  destroy_all-sets event (posts_delayed f start delay ∷ ts) l h = destroy_all-sets event ts l h
  destroy_all-sets event (calls f e ∷ ts) l h =
      destroy_all-sets event ts (record l { done = l.done ++ e ∷ [] })
        (ground (arith, h, is_set-append event l.done (e ∷ [])))

  pub destroy_all_keeps :
      (ts : List (Task Duration)) (l : EventLoop Duration)
      → ((destroy_all c ts l).pending_ ≡ l.pending_)
        × ((destroy_all c ts l).running_ ≡ l.running_)
        × ((destroy_all c ts l).thread_id_ ≡ l.thread_id_)
  unfolding destroy_all destroy
  destroy_all_keeps [] l = (refl, refl, refl)
  destroy_all_keeps (runs f ∷ ts) l = destroy_all_keeps ts l
  destroy_all_keeps (posts_delayed f start delay ∷ ts) l = destroy_all_keeps ts l
  destroy_all_keeps (calls f e ∷ ts) l = destroy_all_keeps ts (record l { done = l.done ++ e ∷ [] })

  module _ (body : ℕ → EventLoop Duration → EventLoop Duration) where
    run_tasks-sets :
        (event : ℕ)
        → ((f : ℕ) (l : EventLoop Duration)
            → is_set event l.done ≡ true
            → is_set event (body f l).done ≡ true)
        → (ts : List (Task Duration)) (l : EventLoop Duration)
        → holds event ts || is_set event l.done ≡ true
        → is_set event (run_tasks c body ts l).done ≡ true
    unfolding run_tasks run_task call destroy post_on_task_queue
    run_tasks-sets event keeps [] l h = h
    run_tasks-sets event keeps (runs f ∷ ts) l h =
        run_tasks-sets event keeps ts (call c body f l)
          (ground (arith, h, keeps f (record l { ran = l.ran ++ f ∷ [] })))
    run_tasks-sets event keeps (posts_delayed f start delay ∷ ts) l h =
        run_tasks-sets event keeps ts (post_on_task_queue c f start delay l) h
    run_tasks-sets event keeps (calls f e ∷ ts) l h =
        let called = call c body f l in
        run_tasks-sets event keeps ts (destroy c (calls f e) called) (
          ground (
            arith,
            h,
            keeps f (record l { ran = l.ran ++ f ∷ [] }),
            is_set-append event called.done (e ∷ []),
          ))

    pub posted_call :
        (thread functor event : ℕ) (l : EventLoop Duration)
        → l.running_ ≡ true
        → (l.thread_id_ == thread) ≡ false
        → blocking_call c body thread functor event l
          ≡ (record l { pending_ = l.pending_ ++ calls functor event ∷ []; woken = true }, true)
    unfolding blocking_call post_task wake_up
    posted_call thread functor event l r other = ground (arith, r, other)

    -- A blocking call to a running loop from another thread makes its caller wait, and the caller's
    -- Event is set by the next RunPendingTasks, if no functor unsets it, and as well by a Quit that
    -- comes first; in both cases the caller goes on.
    pub blocking_call-sets :
        (thread functor event : ℕ) (l : EventLoop Duration)
        → l.running_ ≡ true
        → (l.thread_id_ == thread) ≡ false
        → ((f : ℕ) (l' : EventLoop Duration)
            → is_set event l'.done ≡ true
            → is_set event (body f l').done ≡ true)
        → let called = blocking_call c body thread functor event l in
          (called.1 ≡ true)
          × (is_set event (run_pending_tasks c body called.0).done ≡ true)
          × (is_set event (quit c called.0).done ≡ true)
    unfolding blocking_call post_task wake_up quit quit_pending quit_running
    blocking_call-sets thread functor event l r other keeps =
        let t = record l { pending_ = l.pending_ ++ calls functor event ∷ []; woken = true } in
        let held : holds event t.pending_ || is_set event l.done ≡ true =
          ground (arith, holds_last event functor l.pending_) in
        subst
          (λ called.
            (called.1 ≡ true)
            × (is_set event (run_pending_tasks c body called.0).done ≡ true)
            × (is_set event (quit c called.0).done ≡ true))
          (sym (posted_call thread functor event l r other))
          (
            refl,
            ap (λ u. is_set event u.done) (run_pending_tasks-run_tasks c body t)
                ∙ run_tasks-sets event keeps t.pending_ (record t { pending_ = [] }) held,
            destroy_all-sets event t.pending_ (record t { pending_ = [] }) held,
          )

    -- If a blocking call comes between the two parts of Quit, its caller waits, and what it posted is
    -- left in a loop that is quitting, with the caller's Event as it was before the call.
    pub blocking_call_in_quit :
        (thread functor event : ℕ) (l : EventLoop Duration)
        → l.running_ ≡ true
        → (l.thread_id_ == thread) ≡ false
        → let called = blocking_call c body thread functor event (quit_pending c l) in
          (called.1 ≡ true)
          × ((quit_running c called.0).pending_ ≡ calls functor event ∷ [])
          × ((quit_running c called.0).running_ ≡ false)
          × ((quit_running c called.0).done ≡ (quit_pending c l).done)
    unfolding blocking_call post_task wake_up quit_pending quit_running
    blocking_call_in_quit thread functor event l r other =
        let swapped = record l { pending_ = [] } in
        let cleared = quit_pending c l in
        let kept = destroy_all_keeps l.pending_ swapped in
        subst
          (λ called.
            (called.1 ≡ true)
            × ((quit_running c called.0).pending_ ≡ calls functor event ∷ [])
            × ((quit_running c called.0).running_ ≡ false)
            × ((quit_running c called.0).done ≡ cleared.done))
          (sym (posted_call thread functor event cleared (kept.1 ∙ r) (rw (kept.2) other)))
          (refl, ap (λ ts. ts ++ calls functor event ∷ []) kept.0, refl, refl)
