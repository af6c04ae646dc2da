-- ===== src/EventLoopWin/Tests.antt =====
-- Rounds of a loop with one socket, whose listener asks for an artificial event whenever it is called.
use mathlib.Core.Option
use io_base.Base.{ℕ, ◌≡◌, refl, Bool, true, false, Option, none, some, [], ◌∷◌, ℕ_discrete}
use io_base.Base.Int.{ℤ, pos}
use io_base.Duration.{whole_microseconds}
use io_base.LinkedHashMap.Entries.{lookup_entry}
use io_base.EventLoop.{EventLoop}
use io_base.EventLoopWin.Masks.{PollFlags, get_poll_mask, get_event_mask, clear_bits}
use io_base.EventLoopWin.Sockets.{Sockets, update, dispatch_socket_event, artificially_notify_event}
use io_base.EventLoopWin.Sockets.Poll.{
  NetworkFlags, NetworkEvents, Delivery, lock, poll_events, poll_socket, poll_sockets,
  run_ready_callbacks, process_socket_events,
}
use io_base.EventLoopWin.Timers.{Timers, multimedia}
use io_base.EventLoopWin.Once.{EventLoopWin, WaitResult, wsa_socket_event, run_event_loop_once}

abbrev flags : PollFlags
flags = record { pollin = 0x300; pollout = 0x10; pollerr = 0x01; pollhup = 0x02 }

abbrev network : NetworkFlags
network = record {
  fd_read = 0x01;
  fd_write = 0x02;
  fd_close = 0x20;
  fd_accept = 0x08;
  fd_connect = 0x10;
}

abbrev one_socket : Sockets
one_socket = record {
  running = true;
  registrations_ =
      (
        7,
        record { id = 0; events = 0x03; listener = 100; artificially_notify_at_next_iteration = 0 },
      )
      ∷ [];
  has_artificial_events_pending_ = false;
  socket_ev_ = true;
  next_registration = 1;
  selected = [];
}

abbrev state : EventLoopWin ℤ
state = record {
  loop = record {
    running_ = true;
    thread_id_ = 1;
    pending_ = [];
    woken = false;
    delayed = [];
    ran = [];
    done = [];
  };
  timers = record { timer_tasks_ = []; timer_ = none; event_ = false; timer_id_ = none };
  sockets = one_socket;
}

abbrev ask_again : Delivery → Sockets → Sockets
ask_again call s = (artificially_notify_event flags s call.fd 0x02).0

abbrev readable : ℕ → Option NetworkEvents
readable fd = some (record { network_events = 0x01; connect_error = 0 })

abbrev quiet : ℕ → Option NetworkEvents
quiet fd = some (record { network_events = 0; connect_error = 0 })

abbrev no_functor : ℕ → EventLoop ℤ → EventLoop ℤ
no_functor f l = l

abbrev no_task : ℕ → Timers → Option Timers
no_task f t = some t

-- The event that the listener asks for is pending after the round, but what was to wake the loop for it is reset.
event_lost :
    Option.map {B = Bool × Bool}
      (λ (s : EventLoopWin ℤ). (s.sockets.socket_ev_, s.sockets.has_artificial_events_pending_))
      (run_event_loop_once whole_microseconds flags network no_functor no_task ask_again readable 1
        (pos 0)
        (pos 0)
        multimedia
        (WaitResult.signaled wsa_socket_event)
        state)
    ≡ some (false, true)
unfolding run_event_loop_once process_socket_events poll_sockets poll_socket poll_events
    dispatch_socket_event run_ready_callbacks lock lookup_entry update artificially_notify_event
    get_poll_mask get_event_mask clear_bits ℕ_discrete
event_lost = refl
