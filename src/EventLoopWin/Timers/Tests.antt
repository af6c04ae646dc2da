-- ===== src/EventLoopWin/Timers/Tests.antt =====
-- The timers on concrete queues, with spans of whole microseconds.
use io_base.Base.{ℕ, ◌≡◌, refl, true, false, List, [], ◌∷◌, none, some, All, arith}
use io_base.Base.Int.{ℤ, pos, ◌≤ℤ◌, ◌+ℤ◌, ◌-ℤ◌, quot}
use io_base.Duration.{whole_microseconds}
use io_base.EventLoopWin.Timers.Defs.{
  DelayedTaskInfo, Timers, multimedia, fallback, push, start_timer, cancel, cancel_timers,
  schedule_next_timer, due_time, post_delayed_task_on_task_queue, run_due_loop, process_timer_tasks,
}
use io_base.EventLoopWin.Timers.Queue.{IsSorted, push_all}
use io_base.EventLoopWin.Timers.Due.{AllAfter, Post, post_all, due_tasks, later_tasks}
use io_base.EventLoopWin.Timers.Rounds.{with_tasks, posted, names, process_timer_tasks_lem}
use io_base.EventLoopWin.Timers.Armed.{is_armed, post_delayed_task-is_armed}

abbrev first : DelayedTaskInfo
first = record { due_time_micros = pos 1000; task = 1 }

abbrev second : DelayedTaskInfo
second = record { due_time_micros = pos 2000; task = 2 }

abbrev third : DelayedTaskInfo
third = record { due_time_micros = pos 9000; task = 3 }

abbrev waiting : Timers
waiting = record {
  timer_tasks_ = first ∷ second ∷ third ∷ [];
  timer_ = some 1;
  event_ = true;
  timer_id_ = none;
}

-- Every task posts task 7 with a delay of 3 ms at 2100 µs.
abbrev again : ℕ → List (Post whole_microseconds)
again task =
    record {
      task = 7;
      start_micros = pos 2100;
      delay = pos 3000;
      now = pos 2101;
      now' = pos 2102;
      now'' = pos 2103;
      start = multimedia;
    }
    ∷ []

-- At 2050 µs the first two are run; the third stays behind what they posted; the timer gets 2 ms.
round_result :
    process_timer_tasks whole_microseconds
      (λ task. post_all whole_microseconds (again task))
      3
      (pos 2050)
      (pos 2110)
      multimedia
      waiting
    ≡ some (
      record {
        timer_tasks_ =
            record { due_time_micros = pos 5101; task = 7 }
            ∷ record { due_time_micros = pos 5101; task = 7 }
            ∷ third
            ∷ [];
        timer_ = some 2;
        event_ = false;
        timer_id_ = none;
      },
      1 ∷ 2 ∷ [],
    )
unfolding process_timer_tasks run_due_loop post_all post_delayed_task_on_task_queue due_time
    schedule_next_timer start_timer cancel cancel_timers push ◌+ℤ◌ ◌-ℤ◌ quot
round_result = refl

process_timer_tasks_lem_example :
    let due = due_tasks (pos 2050) (first ∷ second ∷ third ∷ []) in
    let kept =
      push_all
        (posted (λ task. record { due_time_micros = pos 5101; task = 7 } ∷ []) due)
        (later_tasks (pos 2050) (first ∷ second ∷ third ∷ [])) in
    (process_timer_tasks whole_microseconds
        (λ task. post_all whole_microseconds (again task))
        3
        (pos 2050)
        (pos 2110)
        multimedia
        waiting
      ≡ some (
        start_timer whole_microseconds multimedia (pos 2110) (with_tasks kept (cancel waiting)),
        names due,
      ))
    × All (λ info. info.due_time_micros ≤ℤ pos 2050) due
    × AllAfter (pos 2050) kept
unfolding due_tasks due_time ◌+ℤ◌ ◌-ℤ◌
process_timer_tasks_lem_example =
    process_timer_tasks_lem whole_microseconds again (pos 2050) (pos 2110) multimedia waiting first
      (second ∷ third ∷ []) 3 refl refl
      ((omega arith, (omega arith, tt)), ((omega arith, tt), (tt, tt))) (λ task. (omega arith, tt))
      (omega arith)

post_delayed_task-is_armed_example :
    (t' : Timers) × (post_delayed_task_on_task_queue whole_microseconds 4
        (pos 0)
        (pos 500)
        (pos 10)
        (pos 20)
        (pos 30)
        fallback
        waiting
      ≡ some t')
    × IsSorted t'.timer_tasks_
    × (is_armed t' ≡ true)
unfolding is_armed
post_delayed_task-is_armed_example =
    post_delayed_task-is_armed whole_microseconds 4 (pos 0) (pos 500) (pos 10) (pos 20) (pos 30)
      fallback waiting refl ((omega arith, (omega arith, tt)), ((omega arith, tt), (tt, tt))) refl

sub_law : (n : ℤ) → pos 0 ≤ℤ n → (pos 3000 -ℤ n) ≤ℤ (pos 3000 -ℤ n)
sub_law n h = omega arith
