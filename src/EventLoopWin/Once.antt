-- ===== src/EventLoopWin/Once.antt =====
-- EventLoopWin::RunEventLoopOnce: one wait and what it leads to. What WSAWaitForMultipleEvents returns
-- is an argument, and what callbacks and tasks do is limited to the part of the loop that calls them.
use io_base.Base.{ℕ, ◌==◌, if◌then◌else◌, false, not, Option, none, some}
use io_base.Base.Int.{ℤ}
use io_base.Duration.{Durations}
use io_base.EventLoop.{EventLoop, run_pending_tasks}
use io_base.EventLoopWin.Masks.{PollFlags}
use io_base.EventLoopWin.Sockets.{Sockets}
use io_base.EventLoopWin.Sockets.Poll.{NetworkFlags, NetworkEvents, Delivery, process_socket_events}
use io_base.EventLoopWin.Timers.{Timers, Start, process_timer_tasks}

-- WSA_WAIT_FAILED, WSA_WAIT_TIMEOUT, WSA_WAIT_EVENT_0 plus the index of an event.
pub data WaitResult : Type 0 where
  failed : WaitResult
  timed_out : WaitResult
  signaled : (index : ℕ) → WaitResult

abbrev pub wsa_wakeup_event : ℕ
wsa_wakeup_event = 0

abbrev pub wsa_timer_event : ℕ
wsa_timer_event = 1

abbrev pub wsa_socket_event : ℕ
wsa_socket_event = 2

-- WSA_WAIT_TIMEOUT - WSA_WAIT_EVENT_0, which names no event.
abbrev pub index_of : WaitResult → ℕ
index_of failed = 0xffffffff
index_of timed_out = 258
index_of (signaled index) = index

pub record EventLoopWin (Duration : Type 0) : Type 0 where
  pub loop : EventLoop Duration
  pub timers : Timers
  pub sockets : Sockets

module _ (c : Durations) (p : PollFlags) (w : NetworkFlags)
    (body : ℕ → EventLoop c.Duration → EventLoop c.Duration) (run_task : ℕ → Timers → Option Timers)
    (on_socket_event : Delivery → Sockets → Sockets) where
  open c use {Duration}

  -- ProcessPendingTasks, with nothing in between.
  unfoldable pub process_pending_tasks_at_once : EventLoop Duration → EventLoop Duration
  process_pending_tasks_at_once l = run_pending_tasks c body (record l { woken = false })

  unfoldable pub run_event_loop_once :
      (enum : ℕ → Option NetworkEvents) (rounds : ℕ) (now now' : ℤ) (start : Start)
      → WaitResult
      → EventLoopWin Duration
      → Option (EventLoopWin Duration)
  unfolding process_pending_tasks_at_once
  run_event_loop_once enum rounds now now' start failed s = some s
  run_event_loop_once enum rounds now now' start timed_out s =
      if not s.sockets.has_artificial_events_pending_
      then some s
      else some
          (record s { sockets = (process_socket_events on_socket_event p w enum s.sockets).0 })
  run_event_loop_once enum rounds now now' start (signaled index) s =
      if index == wsa_wakeup_event
      then some (record s { loop = process_pending_tasks_at_once s.loop })
      else (if index == wsa_timer_event
          then (elim (process_timer_tasks c run_task rounds now now' start s.timers) [
            | none ↦ none
            | some (t, ran) ↦ some (record s { timers = t })
          ])
          else (let t = (process_socket_events on_socket_event p w enum s.sockets).0 in
              some (record s {
                sockets = if index == wsa_socket_event then record t { socket_ev_ = false } else t;
              })))
