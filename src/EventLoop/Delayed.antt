-- ===== src/EventLoop/Delayed.antt =====
-- PostDelayedTask from either side of the loop's thread.
use io_base.Base.{ℕ, ◌≡◌, refl, ap, ◌∙◌, ◌==◌, true, false, List, [], ◌∷◌, ◌++◌, arith}
use io_base.Base.Int.{ℤ}
use io_base.Duration.{Durations}
use io_base.EventLoop.Defs.{
  Task, runs, posts_delayed, calls, DelayedPost, EventLoop, wake_up, post_task, post_on_task_queue,
  post_delayed_task, run_pending_tasks,
}
use io_base.EventLoop.Rounds.{delayed_posts, post_all, run_pending_tasks_lem}

delayed_posts-append :
    {D : Type 0} (ts us : List (Task D))
    → delayed_posts (ts ++ us) ≡ delayed_posts ts ++ delayed_posts us
delayed_posts-append [] us = refl
delayed_posts-append (runs f ∷ ts) us = delayed_posts-append ts us
delayed_posts-append (posts_delayed f start delay ∷ ts) us =
    ap (◌∷◌ (record { functor = f; start_micros = start; delay = delay }))
      (delayed_posts-append ts us)
delayed_posts-append (calls f e ∷ ts) us = delayed_posts-append ts us

module _ (c : Durations) where
  open c use {Duration, le, zero_duration}

  -- A functor with a positive delay, posted to a running loop at `start`: from the loop's own thread it
  -- is handed to the delayed tasks at once; from another thread the next RunPendingTasks hands it on,
  -- after the delayed posts that were waiting already and with the same start and delay, if the
  -- functors only post tasks.
  post_delayed_task_lem :
      (posts : ℕ → List (Task Duration)) (thread functor : ℕ) (start : ℤ) (delay : Duration)
      (l : EventLoop Duration)
      → l.running_ ≡ true
      → le delay zero_duration ≡ false
      → (l.thread_id_ == thread) ≡ false
      → let handed : List (DelayedPost Duration) =
          record { functor = functor; start_micros = start; delay = delay } ∷ [] in
        ((post_delayed_task c l.thread_id_ functor start delay l).delayed ≡ l.delayed ++ handed)
        × ((run_pending_tasks c
              (λ f. post_all c (posts f))
              (post_delayed_task c thread functor start delay l)).delayed
            ≡ l.delayed ++ (delayed_posts l.pending_ ++ handed))
  unfolding post_delayed_task post_task wake_up post_on_task_queue
  post_delayed_task_lem posts thread functor start delay l r positive other =
      let t = record l {
        pending_ = l.pending_ ++ posts_delayed functor start delay ∷ [];
        woken = true;
      } in
      let posted : post_delayed_task c thread functor start delay l ≡ t =
        ground (arith, r, positive, other) in
      (
        ground (arith, r, positive),
        ap (λ u. (run_pending_tasks c (λ f. post_all c (posts f)) u).delayed) posted
            ∙ ap (λ u. u.delayed) (run_pending_tasks_lem c posts t r)
            ∙ ap (λ ds. l.delayed ++ ds)
                (delayed_posts-append l.pending_ (posts_delayed functor start delay ∷ [])),
      )
