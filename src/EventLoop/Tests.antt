-- ===== src/EventLoop/Tests.antt =====
-- A loop on thread 1 with three tasks pending, with spans of whole microseconds.
use io_base.Base.{ℕ, ◌≡◌, ◌+◌, refl, true, false, none, some, List, [], ◌∷◌, arith}
use io_base.Base.Int.{ℤ, pos}
use io_base.Duration.{whole_microseconds}
use io_base.EventLoop.Defs.{
  Task, runs, posts_delayed, calls, EventLoop, begin, destroy, destroy_all, wake_up, quit,
  quit_pending, quit_running, post_task, run_pending_tasks, blocking_call,
}
use io_base.EventLoop.Rounds.{post_all, run_pending_tasks_lem}
use io_base.EventLoop.Wakeups.{
  waits, Move, goes_on, quits_pending, schedule, is_awake, is_safe, schedule-is_safe,
}
use io_base.EventLoop.Results.{result, blocking_call_result, blocking_call_result_lem}
use io_base.EventLoop.TaskQueue.{
  post, post_delayed, post_with_precision, high, Served, serve_all, serve_all-posted,
}
use io_base.EventLoop.Blocking.{is_set, blocking_call-sets, blocking_call_in_quit}

abbrev D : Type 0
D = ℤ

abbrev empty_loop : EventLoop D
empty_loop = record {
  running_ = false;
  thread_id_ = 0;
  pending_ = [];
  woken = false;
  delayed = [];
  ran = [];
  done = [];
}

abbrev busy : EventLoop D
busy = record {
  running_ = true;
  thread_id_ = 1;
  pending_ = runs 10 ∷ posts_delayed 11 (pos 500) (pos 2000) ∷ calls 12 90 ∷ [];
  woken = true;
  delayed = [];
  ran = [];
  done = [];
}

-- Every functor posts functor 20.
abbrev chatty : ℕ → List (Task D)
chatty f = runs 20 ∷ []

begin_result :
    begin whole_microseconds 1 empty_loop ≡ record empty_loop { running_ = true; thread_id_ = 1 }
unfolding begin
begin_result = refl

run_pending_tasks_lem_example :
    run_pending_tasks whole_microseconds (λ f. post_all whole_microseconds (chatty f)) busy
    ≡ record busy {
      pending_ = runs 20 ∷ runs 20 ∷ [];
      woken = true;
      delayed = record { functor = 11; start_micros = pos 500; delay = pos 2000 } ∷ [];
      ran = 10 ∷ 12 ∷ [];
      done = 90 ∷ [];
    }
run_pending_tasks_lem_example = run_pending_tasks_lem whole_microseconds chatty busy refl

chatty-is_awake :
    (f : ℕ) (l : EventLoop D)
    → is_awake l ≡ true
    → is_awake (post_all whole_microseconds (chatty f) l) ≡ true
unfolding is_awake post_all post_task wake_up destroy
chatty-is_awake f l h = ground arith

-- Two threads post, one after the reset and one before it; then the loop quits.
abbrev some_moves : List (Move D)
some_moves =
    Move.posts (runs 30)
    ∷ goes_on
    ∷ Move.posts (runs 31)
    ∷ Move.pushes 1
    ∷ goes_on
    ∷ Move.pushes 0
    ∷ Move.wakes
    ∷ goes_on
    ∷ Move.wakes
    ∷ quits_pending
    ∷ []

schedule-is_safe_example :
    is_safe (
      schedule whole_microseconds
        (λ f. post_all whole_microseconds (chatty f))
        (record { loop = busy; phase = waits; to_push = []; to_wake = 0 })
        some_moves)
    ≡ true
unfolding is_safe is_awake
schedule-is_safe_example =
    schedule-is_safe whole_microseconds (λ f. post_all whole_microseconds (chatty f))
      chatty-is_awake (record { loop = busy; phase = waits; to_push = []; to_wake = 0 }) some_moves
      refl

-- A functor that does nothing to the loop.
abbrev quiet : ℕ → EventLoop D → EventLoop D
quiet f l = l

blocking_call-sets_example :
    let called = blocking_call whole_microseconds quiet 2 13 91 busy in
    (called.1 ≡ true)
    × (is_set 91 (run_pending_tasks whole_microseconds quiet called.0).done ≡ true)
    × (is_set 91 (quit whole_microseconds called.0).done ≡ true)
blocking_call-sets_example =
    blocking_call-sets whole_microseconds quiet 2 13 91 busy refl refl (λ f l' h. h)

blocking_call_in_quit_example :
    let called =
      blocking_call whole_microseconds quiet 2 13 91 (quit_pending whole_microseconds busy) in
    (called.1 ≡ true)
    × ((quit_running whole_microseconds called.0).pending_ ≡ calls 13 91 ∷ [])
    × ((quit_running whole_microseconds called.0).running_ ≡ false)
    × ((quit_running whole_microseconds called.0).done ≡ 90 ∷ [])
unfolding quit_pending destroy_all destroy
blocking_call_in_quit_example =
    blocking_call_in_quit whole_microseconds quiet 2 13 91 busy refl refl

blocking_call_result_lem_example :
    let returned = λ (f : ℕ). f + 100 in
    let called = blocking_call_result whole_microseconds quiet returned 2 13 91 busy in
    (called.1 ≡ true)
    × (called.2 ≡ none)
    × (result returned 13 (run_pending_tasks whole_microseconds quiet called.0) ≡ some 113)
    × (result returned 13 (quit whole_microseconds called.0) ≡ none)
blocking_call_result_lem_example =
    blocking_call_result_lem whole_microseconds quiet 13 (λ f l h. h) (λ f. f + 100) 2 91 busy refl
      refl refl

-- Three calls from threads 2 and 3, one of them with no delay.
abbrev posting : List (Served D)
posting =
    record { thread = 2; now = pos 700; call = post 20 }
    ∷ record { thread = 3; now = pos 800; call = post_with_precision high 21 (pos 5000) }
    ∷ record { thread = 2; now = pos 900; call = post_delayed 22 (pos 0) }
    ∷ []

serve_all-posted_example : serve_all whole_microseconds posting busy ≡ record busy {
  pending_ =
      runs 10
      ∷ posts_delayed 11 (pos 500) (pos 2000)
      ∷ calls 12 90
      ∷ runs 20
      ∷ posts_delayed 21 (pos 800) (pos 5000)
      ∷ runs 22
      ∷ [];
  woken = true;
}
serve_all-posted_example =
    serve_all-posted whole_microseconds posting busy refl (refl, (refl, (refl, tt)))
