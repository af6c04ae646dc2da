-- ===== src/EventLoopWin/Timers/Defs.antt =====
-- The timer queue and its operations. What the clock says at each reading, and whether timeSetEvent and
-- SetTimer succeed, are arguments. A failed ABSL_DCHECK is `none`. The priority queue is the list of its tasks by due time; among equal due
-- times the standard leaves the order open, and the list has the order of insertion.
use io_base.Base.{ℕ, zero, suc, Bool, true, false, Option, none, some, List, [], ◌∷◌, if◌then◌else◌}
use io_base.Base.Int.{ℤ, ◌+ℤ◌, ◌-ℤ◌, ltb_ℤ, leb_ℤ, u32}
use mathlib.Core.List.{tail}
use io_base.Duration.{Durations}
use io_base.LinkedHashMap.Access.{is_some}

-- DelayedTaskInfo; a task is named by a number.
pub record DelayedTaskInfo : Type 0 where
  pub due_time_micros : ℤ
  pub task : ℕ

-- `timer_` is what the multimedia timer was started with, and `event_` whether its event is set;
-- `timer_id_` is what the fallback SetTimer was started with.
pub record Timers : Type 0 where
  pub timer_tasks_ : List DelayedTaskInfo
  pub timer_ : Option ℕ
  pub event_ : Bool
  pub timer_id_ : Option ℕ

-- Which timer starts: that of timeSetEvent, if not that of SetTimer, or neither.
pub data Start : Type 0 where
  multimedia : Start
  fallback : Start
  neither : Start

unfoldable pub push : DelayedTaskInfo → List DelayedTaskInfo → List DelayedTaskInfo
push info [] = info ∷ []
push info (top ∷ rest) =
    if leb_ℤ top.due_time_micros info.due_time_micros
    then top ∷ push info rest
    else info ∷ (top ∷ rest)

-- MultimediaTimer::Cancel and EventLoopWin::CancelTimers.
unfoldable pub cancel : Timers → Timers
cancel t = record t { timer_ = none; event_ = false }

unfoldable pub cancel_timers : Timers → Timers
unfolding cancel
cancel_timers t = record (cancel t) { timer_id_ = none }

module _ (c : Durations) where
  open c use {
    Duration, zero_duration, microseconds, sub_microseconds, max_duration, to_int64_microseconds,
    to_int64_milliseconds,
  }

  -- The timer for the task on top: StartOneShotTimer, and SetTimer if that fails.
  unfoldable pub start_timer : Start → ℤ → Timers → Timers
  start_timer start now t = elim t.timer_tasks_ [
    | [] ↦ t
    | top ∷ rest ↦
        let delay = max_duration zero_duration (microseconds (top.due_time_micros -ℤ now)) in
        let milliseconds = u32 (to_int64_milliseconds delay) in
        elim start [
          | multimedia ↦ record t { timer_ = some milliseconds }
          | fallback ↦ record t { timer_ = none; timer_id_ = some milliseconds }
          | neither ↦ record t { timer_ = none; timer_id_ = none }
        ]
  ]

  -- The checks are that the fallback, and in StartOneShotTimer the multimedia timer, are not started.
  unfoldable pub schedule_next_timer : Start → ℤ → Timers → Option Timers
  unfolding start_timer
  schedule_next_timer start now t = if is_some t.timer_id_ then none else (elim t.timer_tasks_ [
    | [] ↦ some t
    | top ∷ rest ↦ if is_some t.timer_ then none else some (start_timer start now t)
  ])

  -- The due time of a task: the delay left at the first reading, from the second.
  unfoldable pub due_time : ℤ → Duration → ℤ → ℤ → ℤ
  due_time start_micros delay now_micros now_micros' =
      now_micros' +ℤ to_int64_microseconds (sub_microseconds delay (now_micros -ℤ start_micros))

  -- `timer_tasks_.empty() || timer_tasks_.top().due_time_micros() > due`.
  abbrev pub is_next : ℤ → List DelayedTaskInfo → Bool
  is_next due [] = true
  is_next due (top ∷ rest) = ltb_ℤ due top.due_time_micros

  unfoldable pub post_delayed_task_on_task_queue :
      ℕ → ℤ → Duration → ℤ → ℤ → ℤ → Start → Timers → Option Timers
  unfolding due_time
  post_delayed_task_on_task_queue task start_micros delay now now' now'' start t =
      let due = due_time start_micros delay now now' in
      let pushed = record t {
        timer_tasks_ = push (record { due_time_micros = due; task = task }) t.timer_tasks_;
      } in
      if is_next due t.timer_tasks_
      then schedule_next_timer start now'' (cancel_timers pushed)
      else some pushed

  -- The loop of RunDueTasks, with a bound on its rounds. `run_task` is what a task does to the timers;
  -- the task that ran is still in the queue meanwhile, and what stands on top after it is popped. The
  -- result has the tasks that ran, in order; `none` also if the rounds run out.
  module _ (run_task : ℕ → Timers → Option Timers) where
    unfoldable pub run_due_loop : ℕ → ℤ → Timers → Option (Timers × List ℕ)
    run_due_loop zero now t = none
    run_due_loop (suc rounds) now t = elim t.timer_tasks_ [
      | [] ↦ some (t, [])
      | top ∷ rest ↦ (elim (ltb_ℤ now top.due_time_micros) [
        | true ↦ some (t, [])
        | false ↦ (elim (run_task top.task t) [
          | none ↦ none
          | some ran ↦
              (elim (run_due_loop rounds now
                (record ran { timer_tasks_ = tail ran.timer_tasks_ })) [
                  | none ↦ none
                  | some (t', tasks) ↦ some (t', top.task ∷ tasks)
                ])
        ])
      ])
    ]

    -- ProcessTimerTasksUpTo: `now` is read by RunDueTasks, `now'` by ScheduleNextTimer.
    unfoldable pub process_timer_tasks : ℕ → ℤ → ℤ → Start → Timers → Option (Timers × List ℕ)
    unfolding run_due_loop
    process_timer_tasks rounds now now' start t = elim t.timer_tasks_ [
      | [] ↦ some (t, [])
      | top ∷ rest ↦ (elim (run_due_loop rounds now (cancel t)) [
        | none ↦ none
        | some (t', tasks) ↦ (elim (schedule_next_timer start now' t') [
          | none ↦ none
          | some t'' ↦ some (t'', tasks)
        ])
      ])
    ]
