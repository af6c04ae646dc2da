-- ===== src/EventLoop/Defs.antt =====
-- The state and the operations of EventLoop.
use io_base.Base.{ℕ, ◌==◌, if◌then◌else◌, Bool, true, false, not, List, [], ◌∷◌, ◌++◌}
use io_base.Base.Int.{ℤ, pos, max_ℤ, u32, i32}
use io_base.Duration.{Durations}

-- What is posted: a functor; the lambda in which PostDelayedTaskImpl hands a delayed functor to the
-- loop's thread; the lambda of BlockingCallImpl, whose Cleanup sets the caller's Event `done`.
pub data Task (Duration : Type 0) : Type 0 where
  runs : (functor : ℕ) → Task Duration
  posts_delayed : (functor : ℕ) (start_micros : ℤ) (delay : Duration) → Task Duration
  calls : (functor done : ℕ) → Task Duration

pub record DelayedPost (Duration : Type 0) : Type 0 where
  pub functor : ℕ
  pub start_micros : ℤ
  pub delay : Duration

-- `delayed` are the calls of PostDelayedTaskOnTaskQueue, `ran` the calls of functors, `done` the
-- Events that were set, all in their order.
pub record EventLoop (Duration : Type 0) : Type 0 where
  pub running_ : Bool
  pub thread_id_ : ℕ
  pub pending_ : List (Task Duration)
  pub woken : Bool
  pub delayed : List (DelayedPost Duration)
  pub ran : List ℕ
  pub done : List ℕ

module _ (c : Durations) where
  open c use {Duration, le, zero_duration, is_infinite, to_int64_milliseconds}

  -- ToCmsWait; INFINITE is 0xffffffff.
  unfoldable pub to_cms_wait : Duration → ℤ
  to_cms_wait max_wait_duration = i32 (
      u32 (
        if is_infinite max_wait_duration
        then pos 4294967295
        else max_ℤ (pos 1) (to_int64_milliseconds max_wait_duration)))

  unfoldable pub begin : ℕ → EventLoop Duration → EventLoop Duration
  begin thread l = record l { thread_id_ = thread; running_ = true }

  abbrev pub is_quitting : EventLoop Duration → Bool
  is_quitting l = not l.running_

  -- TaskQueueBase::IsCurrent, on a thread.
  abbrev pub is_current : ℕ → EventLoop Duration → Bool
  is_current thread l = l.thread_id_ == thread

  unfoldable pub wake_up : EventLoop Duration → EventLoop Duration
  wake_up l = record l { woken = true }

  -- The destruction of a task: the Cleanup in the lambda of a blocking call runs.
  unfoldable pub destroy : Task Duration → EventLoop Duration → EventLoop Duration
  destroy (runs functor) l = l
  destroy (posts_delayed functor start_micros delay) l = l
  destroy (calls functor done) l = record l { done = l.done ++ done ∷ [] }

  unfoldable pub destroy_all : List (Task Duration) → EventLoop Duration → EventLoop Duration
  destroy_all [] l = l
  destroy_all (task ∷ tasks) l = destroy_all tasks (destroy task l)

  -- Quit, in its two parts: what is pending is destroyed; then the loop stops running.
  unfoldable pub quit_pending : EventLoop Duration → EventLoop Duration
  unfolding destroy_all
  quit_pending l = destroy_all l.pending_ (record l { pending_ = [] })

  unfoldable pub quit_running : EventLoop Duration → EventLoop Duration
  quit_running l = record l { running_ = false }

  unfoldable pub quit : EventLoop Duration → EventLoop Duration
  unfolding quit_pending quit_running
  quit l = quit_running (quit_pending l)

  unfoldable pub push_task : Task Duration → EventLoop Duration → EventLoop Duration
  push_task task l = record l { pending_ = l.pending_ ++ task ∷ [] }

  -- PostTaskImpl where no other thread comes between its steps; on the loop's own thread it does not take the lock.
  unfoldable pub post_task : Task Duration → EventLoop Duration → EventLoop Duration
  unfolding destroy wake_up push_task
  post_task task l = if is_quitting l then destroy task l else wake_up (push_task task l)

  -- The virtual PostDelayedTaskOnTaskQueue.
  unfoldable pub post_on_task_queue : ℕ → ℤ → Duration → EventLoop Duration → EventLoop Duration
  post_on_task_queue functor start_micros delay l = record l {
    delayed =
        l.delayed ++ record { functor = functor; start_micros = start_micros; delay = delay } ∷ [];
  }

  -- PostDelayedTaskImpl on a thread, with the clock at `start_micros`.
  unfoldable pub post_delayed_task : ℕ → ℕ → ℤ → Duration → EventLoop Duration → EventLoop Duration
  unfolding post_task post_on_task_queue
  post_delayed_task thread functor start_micros delay l =
      if is_quitting l
      then l
      else (if le delay zero_duration
          then post_task (runs functor) l
          else (if is_current thread l
              then post_on_task_queue functor start_micros delay l
              else post_task (posts_delayed functor start_micros delay) l))

  -- `body functor` is what a functor does to the loop.
  module _ (body : ℕ → EventLoop Duration → EventLoop Duration) where
    unfoldable pub call : ℕ → EventLoop Duration → EventLoop Duration
    call functor l = body functor (record l { ran = l.ran ++ functor ∷ [] })

    -- A task runs and is destroyed.
    unfoldable pub run_task : Task Duration → EventLoop Duration → EventLoop Duration
    unfolding call destroy post_on_task_queue
    run_task (runs functor) l = call functor l
    run_task (posts_delayed functor start_micros delay) l =
        post_on_task_queue functor start_micros delay l
    run_task (calls functor done) l = destroy (calls functor done) (call functor l)

    unfoldable pub run_tasks : List (Task Duration) → EventLoop Duration → EventLoop Duration
    unfolding run_task
    run_tasks [] l = l
    run_tasks (task ∷ tasks) l = run_tasks tasks (run_task task l)

    unfoldable pub run_pending_tasks : EventLoop Duration → EventLoop Duration
    unfolding run_tasks
    run_pending_tasks l = elim l.pending_ [
      | [] ↦ l
      | task ∷ tasks ↦ run_tasks (task ∷ tasks) (record l { pending_ = [] })
    ]

    -- BlockingCallImpl on a thread, up to `done.Wait`; the result says whether the caller waits.
    unfoldable pub blocking_call : ℕ → ℕ → ℕ → EventLoop Duration → EventLoop Duration × Bool
    unfolding call post_task
    blocking_call thread functor done l =
        if is_quitting l
        then (l, false)
        else (if is_current thread l
            then (call functor l, false)
            else (post_task (calls functor done) l, true))
