-- ===== src/EventLoop/Rounds.antt =====
-- What RunPendingTasks runs, and what waits for the next round.
use io_base.Base.{
  ℕ, ◌≡◌, refl, ap, ◌∙◌, Bool, true, false, ◌||◌, List, [], ◌∷◌, ◌++◌, append_assoc, append-nil,
  arith,
}
use io_base.Duration.{Durations}
use io_base.EventLoop.Defs.{
  Task, runs, posts_delayed, calls, DelayedPost, EventLoop, destroy, wake_up, post_task,
  post_on_task_queue, call, run_task, run_tasks, run_pending_tasks,
}

-- The functors of a list of tasks, the delayed posts and the Events that it stands for.
abbrev pub functors : {D : Type 0} → List (Task D) → List ℕ
functors [] = []
functors (runs f ∷ ts) = f ∷ functors ts
functors (posts_delayed f s d ∷ ts) = functors ts
functors (calls f e ∷ ts) = f ∷ functors ts

abbrev pub delayed_posts : {D : Type 0} → List (Task D) → List (DelayedPost D)
delayed_posts [] = []
delayed_posts (runs f ∷ ts) = delayed_posts ts
delayed_posts (posts_delayed f s d ∷ ts) =
    record { functor = f; start_micros = s; delay = d } ∷ delayed_posts ts
delayed_posts (calls f e ∷ ts) = delayed_posts ts

abbrev pub events : {D : Type 0} → List (Task D) → List ℕ
events [] = []
events (runs f ∷ ts) = events ts
events (posts_delayed f s d ∷ ts) = events ts
events (calls f e ∷ ts) = e ∷ events ts

abbrev pub some_of : {A : Type 0} → List A → Bool
some_of [] = false
some_of (x ∷ xs) = true

-- The tasks that the functors of a list post, in order.
abbrev pub posted : {D : Type 0} → (ℕ → List (Task D)) → List ℕ → List (Task D)
posted posts [] = []
posted posts (f ∷ fs) = posts f ++ posted posts fs

module _ (c : Durations) where
  open c use {Duration}

  unfoldable pub post_all : List (Task Duration) → EventLoop Duration → EventLoop Duration
  post_all [] l = l
  post_all (task ∷ tasks) l = post_all tasks (post_task c task l)

  pub post_all_running :
      (tasks : List (Task Duration)) (l : EventLoop Duration)
      → l.running_ ≡ true
      → post_all tasks l
        ≡ record l { pending_ = l.pending_ ++ tasks; woken = some_of tasks || l.woken }
  unfolding post_all post_task wake_up
  post_all_running [] l r = rw (append-nil l.pending_) refl
  post_all_running (task ∷ tasks) l r =
      ap (post_all tasks) (ground (arith, r))
      ∙ post_all_running tasks (record l { pending_ = l.pending_ ++ task ∷ []; woken = true }) r
      ∙ ground (arith, append_assoc l.pending_ (task ∷ []) tasks)

woken_by :
    {A : Type 0} (xs ys : List A) (w : Bool)
    → some_of ys || (some_of xs || w) ≡ some_of (xs ++ ys) || w
woken_by [] ys w = refl
woken_by (x ∷ xs) [] w = refl
woken_by (x ∷ xs) (y ∷ ys) w = refl

-- The test for an empty list only spares the lock's second half.
pub run_pending_tasks-run_tasks :
    (c : Durations) (body : ℕ → EventLoop c.Duration → EventLoop c.Duration)
    (l : EventLoop c.Duration)
    → run_pending_tasks c body l ≡ run_tasks c body l.pending_ (record l { pending_ = [] })
unfolding run_pending_tasks run_tasks
run_pending_tasks-run_tasks c body l = ground arith

module _ (c : Durations) (posts : ℕ → List (Task c.Duration)) where
  open c use {Duration}

  -- What a list of tasks does to a loop that runs.
  unfoldable pub after : List (Task Duration) → EventLoop Duration → EventLoop Duration
  after tasks l = record l {
    pending_ = l.pending_ ++ posted posts (functors tasks);
    woken = some_of (posted posts (functors tasks)) || l.woken;
    delayed = l.delayed ++ delayed_posts tasks;
    ran = l.ran ++ functors tasks;
    done = l.done ++ events tasks;
  }

  after_one :
      (task : Task Duration) (l : EventLoop Duration)
      → l.running_ ≡ true
      → run_task c (λ f. post_all c (posts f)) task l ≡ after (task ∷ []) l
  unfolding after run_task call destroy post_on_task_queue
  after_one (runs f) l r =
      post_all_running c (posts f) (record l { ran = l.ran ++ f ∷ [] }) r
      ∙ rw (append-nil (posts f), append-nil l.delayed, append-nil l.done) refl
  after_one (posts_delayed f s d) l r =
      rw (append-nil l.pending_, append-nil l.ran, append-nil l.done) refl
  after_one (calls f e) l r =
      ap (destroy c (calls f e))
        (post_all_running c (posts f) (record l { ran = l.ran ++ f ∷ [] }) r)
      ∙ rw (append-nil (posts f), append-nil l.delayed) refl

  after_cons :
      (task : Task Duration) (tasks : List (Task Duration)) (l : EventLoop Duration)
      → after tasks (after (task ∷ []) l) ≡ after (task ∷ tasks) l
  unfolding after
  after_cons (runs f) tasks l =
      rw
        (
          append-nil (posts f),
          woken_by (posts f) (posted posts (functors tasks)) l.woken,
          append_assoc l.pending_ (posts f) (posted posts (functors tasks)),
          append_assoc l.ran (f ∷ []) (functors tasks),
          append-nil l.delayed,
          append-nil l.done,
        )
        refl
  after_cons (posts_delayed f s d) tasks l =
      rw
        (
          append-nil l.pending_,
          append-nil l.ran,
          append-nil l.done,
          append_assoc l.delayed (record { functor = f; start_micros = s; delay = d } ∷ [])
              (delayed_posts tasks),
        )
        refl
  after_cons (calls f e) tasks l =
      rw
        (
          append-nil (posts f),
          woken_by (posts f) (posted posts (functors tasks)) l.woken,
          append_assoc l.pending_ (posts f) (posted posts (functors tasks)),
          append_assoc l.ran (f ∷ []) (functors tasks),
          append-nil l.delayed,
          append_assoc l.done (e ∷ []) (events tasks),
        )
        refl

  pub run_tasks-after :
      (tasks : List (Task Duration)) (l : EventLoop Duration)
      → l.running_ ≡ true
      → run_tasks c (λ f. post_all c (posts f)) tasks l ≡ after tasks l
  unfolding run_tasks after
  run_tasks-after [] l r =
      rw (append-nil l.pending_, append-nil l.delayed, append-nil l.ran, append-nil l.done) refl
  run_tasks-after (task ∷ tasks) l r =
      ap (run_tasks c (λ f. post_all c (posts f)) tasks) (after_one task l r)
      ∙ run_tasks-after tasks (after (task ∷ []) l) r
      ∙ after_cons task tasks l

  -- In a loop that runs and whose functors only post tasks, RunPendingTasks runs every pending task
  -- once and in the order of posting, sets the Events of the blocking calls among them and hands on the
  -- delayed posts; what the functors post waits, in order, for the next round, and wakes the loop for it.
  pub run_pending_tasks_lem :
      (l : EventLoop Duration)
      → l.running_ ≡ true
      → run_pending_tasks c (λ f. post_all c (posts f)) l ≡ record l {
        pending_ = posted posts (functors l.pending_);
        woken = some_of (posted posts (functors l.pending_)) || l.woken;
        delayed = l.delayed ++ delayed_posts l.pending_;
        ran = l.ran ++ functors l.pending_;
        done = l.done ++ events l.pending_;
      }
  unfolding after
  run_pending_tasks_lem l r =
      let swapped = record l { pending_ = [] } in
      run_pending_tasks-run_tasks c (λ f. post_all c (posts f)) l
      ∙ run_tasks-after l.pending_ swapped r
