-- ===== src/EvenLoop/Windows/Tests.antt =====
-- A loop with the Signaler, dispatcher 1 with key 0, and a socket, dispatcher 2 with key 1.
use io_base.Base.{
  ℕ, ◌==◌, ◌≢◌, refl, if◌then◌else◌, Bool, true, false, none, some, List, [], ◌∷◌, arith,
}
use io_base.Base.Int.{pos}
use io_base.Duration.{whole_microseconds}
use io_base.LinkedHashMap.Entries.{lookup_entry}
use io_base.EvenLoop.Defs.{Call}
use io_base.EvenLoop.Windows.Defs.{
  FdFlags, NetworkEvents, Dispatcher, EvenLoop, Answer, Round, at, wait,
}
use io_base.EvenLoop.Windows.Flags.{IsWinsock}
use io_base.EvenLoop.Windows.Removed.{IsRemoved, wait-IsRemoved}
use io_base.EvenLoop.Waits.Removed.{calls_of}
use Answer.{signaled}

abbrev winsock : FdFlags
winsock = record {
  fd_read = 0x01;
  fd_write = 0x02;
  fd_connect = 0x10;
  fd_accept = 0x08;
  fd_close = 0x20;
}

abbrev winsock_values : IsWinsock winsock
winsock_values = record {
  fd_read = refl;
  fd_write = refl;
  fd_accept = refl;
  fd_connect = refl;
  fd_close = refl;
}

-- Readable, and a connection that failed with error 10061.
abbrev refused : NetworkEvents
refused = record { l_network_events = 0x11; connect_error = 10061; close_error = 0 }

abbrev some_dispatchers : ℕ → Dispatcher
some_dispatchers dispatcher =
    if dispatcher == 1
    then record { socket = none; wsa_event = 100; requested_events = 0 }
    else record { socket = some 7; wsa_event = 0; requested_events = 0x03 }

abbrev some_loop : EvenLoop
some_loop = record {
  dispatchers = some_dispatchers;
  dispatcher_by_key_ = (0, 1) ∷ (1, 2) ∷ [];
  current_dispatcher_keys_ = [];
  signal_wakeup_ = 1;
  hev_ = some false;
  socket_ev_ = false;
  f_wait_ = false;
  waiting_ = false;
  selected = [];
  calls = [];
}

abbrev idle : Call → EvenLoop → EvenLoop
idle call s = s

abbrev still_open : ℕ → EvenLoop → EvenLoop × Bool
still_open dispatcher s = (s, false)

-- The socket is readable; then the Signaler's event is set.
abbrev some_rounds : List Round
some_rounds =
    record {
      wait_for_multiple_events = λ events timeout. signaled 0;
      woken = true;
      enum_network_events =
          λ socket. some (record { l_network_events = 0x01; connect_error = 0; close_error = 0 });
      clock = pos 1000000;
    }
    ∷ record {
      wait_for_multiple_events = λ events timeout. signaled 1;
      woken = false;
      enum_network_events = λ socket. none;
      clock = pos 2000000;
    }
    ∷ []

not_there : (key : ℕ) → at key some_loop ≢ some 3
unfolding lookup_entry
not_there key h = ground arith

wait-IsRemoved_example :
    IsRemoved 3 0
      (wait winsock idle still_open whole_microseconds
        (pos 50000)
        (pos 0)
        true
        some_rounds
        some_loop).0
unfolding IsRemoved calls_of
wait-IsRemoved_example =
    wait-IsRemoved winsock idle still_open 3 0 (λ call s h. h) (λ other s h. h) whole_microseconds
      (pos 50000) (pos 0) true some_rounds some_loop (not_there, refl)
