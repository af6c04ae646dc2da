-- ===== src/EvenLoop/Samples.antt =====
-- A loop with the Signaler, dispatcher 1 with key 0, and a socket, dispatcher 2 with key 1.
use io_base.Base.{ℕ, ◌==◌, if◌then◌else◌, Bool, true, false, [], ◌∷◌}
use io_base.Base.Int.{ℤ, pos}
use io_base.EvenLoop.Defs.{ReadyFlags, Dispatcher, EvenLoop, Call, SocketError}
use io_base.EvenLoop.Waits.{Answer, Round, Schedule}
use Answer.{interrupted, ready}

-- The values of Linux.
abbrev pub linux : ReadyFlags
linux = record {
  ready_in = 0x01;
  ready_pri = 0x02;
  ready_out = 0x04;
  ready_rdhup = 0x2000;
  ready_err = 0x08;
  ready_hup = 0x10;
}

abbrev pub some_dispatchers : ℕ → Dispatcher
some_dispatchers dispatcher =
    if dispatcher == 1
    then record { descriptor = 5; requested_events = 0x01; is_descriptor_closed = false }
    else record { descriptor = 7; requested_events = 0x03; is_descriptor_closed = false }

abbrev pub some_loop : EvenLoop
some_loop = record {
  dispatchers = some_dispatchers;
  dispatcher_by_key_ = (0, 1) ∷ (1, 2) ∷ [];
  current_dispatcher_keys_ = [];
  signal_wakeup_ = 1;
  signaler = record { f_signaled_ = false; counter = 0 };
  f_wait_ = false;
  waiting_ = false;
  calls = [];
}

-- The socket's OnEvent changes nothing.
abbrev pub idle : Call → EvenLoop → EvenLoop
idle call s = s

abbrev pub no_error : ℕ → SocketError
no_error dispatcher = record { failed = false; not_socket = false; so_error = 0 }

abbrev pub some_round : {S : Type 0} → S → Bool → ℤ → Round S
some_round system_call woken clock = record {
  system_call = system_call;
  woken = woken;
  socket_error = no_error;
  clock = clock;
}

-- Interrupted, with a WakeUp in the meantime; then both dispatchers are ready.
abbrev pub some_schedule : Schedule
some_schedule = record {
  to_epoll =
      some_round (λ _ _. interrupted) true (pos 1000000)
      ∷ some_round (λ _ _. ready ((1, 1) ∷ (0, 1) ∷ [])) false (pos 2000000)
      ∷ [];
  to_poll_one =
      some_round (λ _ _. interrupted) true (pos 1000000)
      ∷ some_round (λ _ _. ready 1) false (pos 2000000)
      ∷ [];
  to_poll =
      some_round (λ _ _. interrupted) true (pos 1000000)
      ∷ some_round (λ _ _. ready (λ i. 1)) false (pos 2000000)
      ∷ [];
  to_select =
      some_round (λ _ _. interrupted) true (pos 1000000)
      ∷ some_round (λ _ _. ready ((λ fd. true), (λ fd. false))) false (pos 2000000)
      ∷ [];
}
