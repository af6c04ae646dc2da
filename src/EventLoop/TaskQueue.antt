-- ===== src/EventLoop/TaskQueue.antt =====
-- The public functions of TaskQueueBase (task_queue_base.h) on an EventLoop.
use io_base.Base.{
  ℕ, ◌==◌, ◌≡◌, refl, ap, ◌∙◌, if◌then◌else◌, Bool, true, false, List, [], ◌∷◌, ◌++◌, append_assoc,
  append-nil, arith,
}
use io_base.Base.Int.{ℤ}
use io_base.Duration.{Durations}
use io_base.EventLoop.Defs.{
  Task, runs, posts_delayed, EventLoop, wake_up, post_task, post_delayed_task,
}

pub record PostDelayedTaskTraits : Type 0 where
  pub high_precision : Bool

pub data DelayPrecision : Type 0 where
  low : DelayPrecision
  high : DelayPrecision

-- The virtual functions of a task queue, on a thread and with a time of the call. A functor is a number.
pub record TaskQueues (Duration : Type 0) : Type 1 where
  pub State : Type 0
  pub post_task_impl : ℕ → State → State
  pub post_delayed_task_impl :
      (thread functor : ℕ) (start_micros : ℤ) → Duration → PostDelayedTaskTraits → State → State

-- A call of a public function.
pub data Call (Duration : Type 0) : Type 0 where
  post : (functor : ℕ) → Call Duration
  post_delayed : (functor : ℕ) → Duration → Call Duration
  post_high_precision : (functor : ℕ) → Duration → Call Duration
  post_with_precision : DelayPrecision → (functor : ℕ) → Duration → Call Duration

module _ {Duration : Type 0} (q : TaskQueues Duration) where
  open q use {State, post_task_impl, post_delayed_task_impl}

  unfoldable pub post_delayed_low : (thread functor : ℕ) → ℤ → Duration → State → State
  post_delayed_low thread functor start_micros delay s =
      post_delayed_task_impl thread functor start_micros delay (record { high_precision = false }) s

  unfoldable pub post_delayed_high_precision : (thread functor : ℕ) → ℤ → Duration → State → State
  post_delayed_high_precision thread functor start_micros delay s =
      post_delayed_task_impl thread functor start_micros delay (record { high_precision = true }) s

  unfoldable pub post_delayed_with_precision :
      DelayPrecision → (thread functor : ℕ) → ℤ → Duration → State → State
  unfolding post_delayed_low post_delayed_high_precision
  post_delayed_with_precision low thread functor start_micros delay s =
      post_delayed_low thread functor start_micros delay s
  post_delayed_with_precision high thread functor start_micros delay s =
      post_delayed_high_precision thread functor start_micros delay s

  unfoldable pub serve : (thread : ℕ) → ℤ → Call Duration → State → State
  unfolding post_delayed_with_precision post_delayed_low post_delayed_high_precision
  serve thread now (post functor) s = post_task_impl functor s
  serve thread now (post_delayed functor delay) s = post_delayed_low thread functor now delay s
  serve thread now (post_high_precision functor delay) s =
      post_delayed_high_precision thread functor now delay s
  serve thread now (post_with_precision precision functor delay) s =
      post_delayed_with_precision precision thread functor now delay s

-- A call with the thread that makes it and its time.
pub record Served (Duration : Type 0) : Type 0 where
  pub thread : ℕ
  pub now : ℤ
  pub call : Call Duration

module _ (c : Durations) where
  open c use {Duration, le, zero_duration}

  -- EventLoop does not look at the traits.
  abbrev pub event_loop : TaskQueues Duration
  event_loop = record {
    State = EventLoop Duration;
    post_task_impl = λ functor l. post_task c (runs functor) l;
    post_delayed_task_impl = λ thread functor start_micros delay traits l.
        post_delayed_task c thread functor start_micros delay l;
  }

  unfoldable pub serve_all : List (Served Duration) → EventLoop Duration → EventLoop Duration
  serve_all [] l = l
  serve_all (r ∷ rs) l = serve_all rs (serve event_loop r.thread r.now r.call l)

  -- What a call from another thread than the loop's asks for: a functor that is to run, at once or after a delay.
  abbrev pub delayed_task : (functor : ℕ) → ℤ → Duration → Task Duration
  delayed_task functor now delay =
      if le delay zero_duration then runs functor else posts_delayed functor now delay

  abbrev pub task_of : ℤ → Call Duration → Task Duration
  task_of now (post functor) = runs functor
  task_of now (post_delayed functor delay) = delayed_task functor now delay
  task_of now (post_high_precision functor delay) = delayed_task functor now delay
  task_of now (post_with_precision precision functor delay) = delayed_task functor now delay

  abbrev pub tasks_of : List (Served Duration) → List (Task Duration)
  tasks_of [] = []
  tasks_of (r ∷ rs) = task_of r.now r.call ∷ tasks_of rs

  -- All calls come from other threads than the loop's.
  abbrev pub FromOutside : ℕ → List (Served Duration) → Type 0
  FromOutside thread [] = Unit
  FromOutside thread (r ∷ rs) = ((thread == r.thread) ≡ false) × FromOutside thread rs

  abbrev pub woken_after : List (Served Duration) → Bool → Bool
  woken_after [] woken = woken
  woken_after (r ∷ rs) woken = true

  woken_stays : (calls : List (Served Duration)) → woken_after calls true ≡ true
  woken_stays [] = refl
  woken_stays (r ∷ rs) = refl

  posted : Task Duration → EventLoop Duration → EventLoop Duration
  posted task l = record l { pending_ = l.pending_ ++ task ∷ []; woken = true }

  post_task-posted :
      (task : Task Duration) (l : EventLoop Duration)
      → l.running_ ≡ true
      → post_task c task l ≡ posted task l
  unfolding post_task wake_up posted
  post_task-posted task l r = rw r refl

  post_delayed-posted :
      (thread functor : ℕ) (now : ℤ) (delay : Duration) (l : EventLoop Duration)
      → l.running_ ≡ true
      → (l.thread_id_ == thread) ≡ false
      → post_delayed_task c thread functor now delay l ≡ posted (delayed_task functor now delay) l
  unfolding post_delayed_task post_task wake_up posted
  post_delayed-posted thread functor now delay l r other = ground (arith, r, other)

  serve-posted :
      (thread : ℕ) (now : ℤ) (call : Call Duration) (l : EventLoop Duration)
      → l.running_ ≡ true
      → (l.thread_id_ == thread) ≡ false
      → serve event_loop thread now call l ≡ posted (task_of now call) l
  unfolding serve
  serve-posted thread now (post functor) l r other = post_task-posted (runs functor) l r
  serve-posted thread now (post_delayed functor delay) l r other =
      post_delayed-posted thread functor now delay l r other
  serve-posted thread now (post_high_precision functor delay) l r other =
      post_delayed-posted thread functor now delay l r other
  serve-posted thread now (post_with_precision low functor delay) l r other =
      post_delayed-posted thread functor now delay l r other
  serve-posted thread now (post_with_precision high functor delay) l r other =
      post_delayed-posted thread functor now delay l r other

  -- Whatever other threads than its own post to a running loop, by PostTask, PostDelayedTask or with a precision:
  -- each call appends one task to the pending tasks, in the order of the calls, which is the functor itself if its
  -- delay is not positive, and otherwise the hand-over of the functor with the time of the call, whichever precision
  -- was asked for; nothing else changes but that the loop is woken.
  pub serve_all-posted :
      (calls : List (Served Duration)) (l : EventLoop Duration)
      → l.running_ ≡ true
      → FromOutside l.thread_id_ calls
      → serve_all calls l
        ≡ record l { pending_ = l.pending_ ++ tasks_of calls; woken = woken_after calls l.woken }
  unfolding serve_all posted
  serve_all-posted [] l r outside = rw (append-nil l.pending_) refl
  serve_all-posted (s ∷ rest) l r outside =
      ap (serve_all rest) (serve-posted s.thread s.now s.call l r outside.0)
      ∙ serve_all-posted rest (posted (task_of s.now s.call) l) r outside.1
      ∙ ground (
        arith,
        append_assoc l.pending_ (task_of s.now s.call ∷ []) (tasks_of rest),
        woken_stays rest,
      )
