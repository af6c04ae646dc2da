-- ===== src/EventLoopWin/Sockets/Tests.antt =====
-- The sockets on a concrete loop, with the values of winsock2.h.
use io_base.Base.{
  ℕ, ◌≡◌, refl, bit_and, bit_or, true, false, [], ◌∷◌, Option, some, arith, ℕ_discrete,
}
use io_base.LinkedHashMap.Entries.{lookup_entry, erase_entry}
use io_base.EventLoopWin.Masks.{PollFlags, IsDisjoint, get_poll_mask, get_event_mask, clear_bits}
use io_base.EventLoopWin.Sockets.Defs.{
  Registration, RegistrationMap, Sockets, update, register_socket, unregister_socket,
  dispatch_socket_event,
}
use io_base.EventLoopWin.Sockets.Poll.{
  NetworkFlags, NetworkEvents, Delivery, lock, poll_events, poll_socket, poll_sockets,
  run_ready_callbacks, process_socket_events,
}
use io_base.EventLoopWin.Sockets.Dispatch.{deliver}
use io_base.EventLoopWin.Sockets.Round.{reported, poll_socket-deliver}
use io_base.EventLoopWin.Sockets.Results.{register_socket_lem, unregister-register}
use io_base.EventLoopWin.Sockets.Register.{
  Call, step, run, IsWellFormed, step-IsWellFormed, unregistered_not_called,
}
use io_base.EventLoopWin.Sockets.Winsock.{IsWinsock, register_selects_no_read}

abbrev poll : PollFlags
poll = record { pollin = 0x300; pollout = 0x10; pollerr = 0x01; pollhup = 0x02 }

abbrev network : NetworkFlags
network = record {
  fd_read = 0x01;
  fd_write = 0x02;
  fd_close = 0x20;
  fd_accept = 0x08;
  fd_connect = 0x10;
}

poll-IsDisjoint : IsDisjoint poll
poll-IsDisjoint = record {
  in_some = omega arith;
  out_some = omega arith;
  err_some = omega arith;
  in_out = refl;
  in_err = refl;
  in_hup = refl;
  out_err = refl;
  out_hup = refl;
  err_hup = refl;
}

poll-IsWinsock : IsWinsock poll network
poll-IsWinsock = record {
  pollin = refl;
  pollout = refl;
  pollerr = refl;
  fd_read = refl;
  fd_accept = refl;
  fd_close = refl;
}

-- Socket 10 is armed for reading and writing, with an artificial event for writing; socket 11 for errors.
abbrev ten : Registration
ten = record { id = 0; events = 0x03; listener = 100; artificially_notify_at_next_iteration = 0x02 }

abbrev eleven : Registration
eleven = record { id = 1; events = 0x04; listener = 101; artificially_notify_at_next_iteration = 0 }

abbrev entries : RegistrationMap
entries = (10, ten) ∷ (11, eleven) ∷ []

abbrev two_sockets : Sockets
two_sockets = record {
  running = true;
  registrations_ = entries;
  has_artificial_events_pending_ = true;
  socket_ev_ = true;
  next_registration = 2;
  selected = [];
}

two_sockets-IsWellFormed : IsWellFormed two_sockets
unfolding lock lookup_entry ℕ_discrete
two_sockets-IsWellFormed = (
  omega arith,
  omega arith,
  omega arith,
  refl,
  refl,
  (omega arith, omega arith, omega arith, refl, refl, tt),
)

-- The first listener unregisters the second socket, which was to be told of an error.
abbrev unregister_second : Delivery → Sockets → Sockets
unregister_second call s = (unregister_socket poll s 11).0

abbrev connect_failed : ℕ → Option NetworkEvents
connect_failed fd = some (record { network_events = 0x11; connect_error = 1 })

round_result :
    (process_socket_events unregister_second poll network connect_failed two_sockets).1
    ≡ record { listener = 100; fd = 10; events = 0x03 } ∷ []
unfolding process_socket_events poll_sockets poll_socket poll_events dispatch_socket_event
    run_ready_callbacks lock lookup_entry update unregister_socket erase_entry get_poll_mask
    get_event_mask clear_bits ℕ_discrete
round_result = refl

poll_socket-deliver_example :
    let r0 : Registration = record ten { artificially_notify_at_next_iteration = 0 } in
    poll_socket poll network 10
      (some (record { network_events = 0x01; connect_error = 0 }))
      (entries, [])
    ≡ deliver (update 10 r0 entries) [] 10 r0 (
        bit_and
          (bit_or
            (reported network (record { network_events = 0x01; connect_error = 0 }))
            (bit_and 0x02 7))
          0x03)
unfolding lookup_entry ℕ_discrete
poll_socket-deliver_example =
    poll_socket-deliver poll poll-IsDisjoint network 10
      (record { network_events = 0x01; connect_error = 0 }) entries [] ten refl (omega arith)
      (omega arith)

register_socket_lem_example :
    ((register_socket poll two_sockets false 12 0x01 102).1 ≡ false)
    × ((register_socket poll two_sockets false 12 0x01 102).0.registrations_ ≡ entries)
unfolding lookup_entry ℕ_discrete
register_socket_lem_example = register_socket_lem poll two_sockets false 12 0x01 102

unregister-register_example :
    let t = (register_socket poll two_sockets true 12 0x01 102).0 in
    ((unregister_socket poll t 12).1 ≡ true)
    × ((unregister_socket poll t 12).0.registrations_ ≡ entries)
    × ((unregister_socket poll t 12).0.selected
        ≡ (12, 0) ∷ (12, get_poll_mask poll 0x01) ∷ two_sockets.selected)
unfolding lookup_entry ℕ_discrete
unregister-register_example = unregister-register poll two_sockets 12 0x01 102 refl refl

step-IsWellFormed_example :
    IsWellFormed (step poll two_sockets (Call.registers true 12 0x01 102 (omega arith))).0
step-IsWellFormed_example =
    step-IsWellFormed poll two_sockets (Call.registers true 12 0x01 102 (omega arith))
      two_sockets-IsWellFormed

unregistered_not_called_example :
    let later =
      run poll
        (unregister_socket poll two_sockets 11).0
        (Call.registers true 11 0x04 103 (omega arith) ∷ []) in
    run_ready_callbacks unregister_second
      (record { fd = 11; registration = 1; events = 0x04 } ∷ [])
      later
    ≡ run_ready_callbacks unregister_second [] later
unfolding lookup_entry ℕ_discrete
unregistered_not_called_example =
    unregistered_not_called poll two_sockets 11 eleven
      (Call.registers true 11 0x04 103 (omega arith) ∷ []) unregister_second
      (record { fd = 11; registration = 1; events = 0x04 }) [] two_sockets-IsWellFormed refl refl
      refl

register_selects_no_read_example :
    ((register_socket poll two_sockets true 12 0x03 102).0.selected
      ≡ (12, get_poll_mask poll 0x03) ∷ [])
    × (bit_and (get_poll_mask poll 0x03) 0x01 ≡ 0)
    × (bit_and (get_poll_mask poll 0x03) 0x08 ≡ 0)
    × (bit_and (get_poll_mask poll 0x03) 0x20 ≡ 0)
unfolding lookup_entry ℕ_discrete
register_selects_no_read_example =
    register_selects_no_read poll network two_sockets 12 0x03 102 poll-IsWinsock refl refl refl
