-- ===== src/EventLoopWin/Timers/Armed.antt =====
-- The timer that wakes the loop, and when a delayed task is due.
use io_base.Base.{
  ℕ, ◌≡◌, Bool, true, false, ◌||◌, List, [], ◌∷◌, arith, inl, inr, Option, some, Option-cases,
  Bool-cases, refl,
}
use io_base.Base.Int.{ℤ, pos, ◌≤ℤ◌, ◌+ℤ◌, ◌-ℤ◌, +ℤ_parts, -ℤ_parts}
use io_base.Duration.{Durations}
use io_base.LinkedHashMap.Access.{is_some}
use io_base.EventLoopWin.Timers.Defs.{
  DelayedTaskInfo, Timers, Start, multimedia, fallback, neither, push, start_timer, cancel,
  cancel_timers, schedule_next_timer, due_time, is_next, post_delayed_task_on_task_queue,
  run_due_loop, process_timer_tasks,
}
use io_base.EventLoopWin.Timers.Queue.{IsSorted, push-IsSorted}

-- While tasks are waiting, a timer is started: the multimedia timer or the fallback.
unfoldable pub is_armed : Timers → Bool
is_armed t = elim t.timer_tasks_ [
  | [] ↦ true
  | top ∷ rest ↦ is_some t.timer_ || is_some t.timer_id_
]

-- One of the timers starts.
abbrev pub is_started : Start → Bool
is_started multimedia = true
is_started fallback = true
is_started neither = false

module _ (c : Durations) where
  open c use {
    Duration, sub_microseconds, to_int64_microseconds, microseconds, max_duration, zero_duration,
    to_int64_milliseconds,
  }

  schedule-is_armed :
      (start : Start) (now : ℤ) (t u : Timers)
      → is_started start ≡ true
      → schedule_next_timer c start now t ≡ some u
      → is_armed u ≡ true
  unfolding is_armed schedule_next_timer start_timer
  schedule-is_armed start now t u works e = ground (arith, works, e)

  -- After CancelTimers no check fails.
  schedule_cancelled :
      (start : Start) (now : ℤ) (t : Timers)
      → (u : Timers) × (schedule_next_timer c start now (cancel_timers t) ≡ some u)
        × (u.timer_tasks_ ≡ t.timer_tasks_)
  unfolding schedule_next_timer cancel_timers start_timer
  schedule_cancelled start now t =
      (start_timer c start now (cancel_timers t), ground arith, ground arith)

  -- A task that is not next leaves the started timer alone.
  pushed-is_armed :
      (info : DelayedTaskInfo) (t : Timers)
      → is_next c info.due_time_micros t.timer_tasks_ ≡ false
      → is_armed t ≡ true
      → is_armed (record t { timer_tasks_ = push info t.timer_tasks_ }) ≡ true
  unfolding is_armed push
  pushed-is_armed info t e armed = ground arith

  -- In a loop whose queue is in the order of the due times and which has a timer started while tasks wait, posting a
  -- delayed task fails no check and keeps both, if timeSetEvent succeeds or, where it does not, SetTimer.
  pub post_delayed_task-is_armed :
      (task : ℕ) (start_micros : ℤ) (delay : Duration) (now now' now'' : ℤ) (start : Start)
      (t : Timers)
      → is_started start ≡ true
      → IsSorted t.timer_tasks_
      → is_armed t ≡ true
      → (t' : Timers) × (post_delayed_task_on_task_queue c task start_micros delay now now' now''
            start t
          ≡ some t')
        × IsSorted t'.timer_tasks_
        × (is_armed t' ≡ true)
  unfolding post_delayed_task_on_task_queue
  post_delayed_task-is_armed task start_micros delay now now' now'' start t works v armed =
      let due = due_time c start_micros delay now now' in
      let info : DelayedTaskInfo = record { due_time_micros = due; task = task } in
      let pushed : Timers = record t { timer_tasks_ = push info t.timer_tasks_ } in
      let sorted = push-IsSorted info t.timer_tasks_ v in
      elim (Bool-cases (is_next c due t.timer_tasks_)) [
        | inl next ↦
            let (u, e, same) = schedule_cancelled start now'' pushed in
            (
              u,
              rw (next) e,
              rw (same) sorted,
              schedule-is_armed start now'' (cancel_timers pushed) u works e,
            )
        | inr later ↦ (pushed, rw (later) refl, sorted, pushed-is_armed info t later armed)
      ]

  -- After a round that ends, a timer is started while tasks wait, also for those that the round posted.
  process_timer_tasks-is_armed :
      (run_task : ℕ → Timers → Option Timers) (rounds : ℕ) (now now' : ℤ) (start : Start)
      (t t' : Timers) (ran : List ℕ)
      → is_started start ≡ true
      → process_timer_tasks c run_task rounds now now' start t ≡ some (t', ran)
      → is_armed t' ≡ true
  unfolding process_timer_tasks is_armed
  process_timer_tasks-is_armed run_task rounds now now' start t t' ran works h =
      elim (Option-cases (run_due_loop c run_task rounds now (cancel t))) [
        | inl e ↦ ground arith
        | inr ((u, tasks), e) ↦ elim (Option-cases (schedule_next_timer c start now' u)) [
          | inl f ↦ ground arith
          | inr (s, f) ↦ ground (arith, schedule-is_armed start now' u s works f)
        ]
      ]

  -- If the clock does not run backwards and taking `n` microseconds off a delay takes no more than that
  -- off it, a task is never due before the time of its posting plus its delay.
  due_time-not_early :
      (start_micros : ℤ) (delay : Duration) (now now' : ℤ)
      → start_micros ≤ℤ now
      → now ≤ℤ now'
      → ((n : ℤ)
          → pos 0 ≤ℤ n
          → (to_int64_microseconds delay -ℤ n) ≤ℤ to_int64_microseconds (sub_microseconds delay n))
      → (start_micros +ℤ to_int64_microseconds delay) ≤ℤ due_time c start_micros delay now now'
  unfolding due_time
  due_time-not_early start_micros delay now now' posted on law =
      let gone = now -ℤ start_micros in
      let left = to_int64_microseconds (sub_microseconds delay gone) in
      omega (
        arith,
        law gone (omega (arith, -ℤ_parts now start_micros)),
        -ℤ_parts now start_micros,
        -ℤ_parts (to_int64_microseconds delay) gone,
        +ℤ_parts start_micros (to_int64_microseconds delay),
        +ℤ_parts now' left,
      )
