-- ===== src/EventLoopWin/Sockets/Results.antt =====
-- The results of the calls on every branch.
use io_base.Base.{
  ℕ, ◌≡◌, bit_or, ◌&&◌, not, if◌then◌else◌, Bool, true, false, none, some, [], ◌∷◌, ◌++◌, arith,
}
use io_base.LinkedHashMap.Entries.{insert_entry}
use io_base.LinkedHashMap.Access.{is_some}
use io_base.EventLoopWin.Masks.{PollFlags, get_poll_mask}
use io_base.EventLoopWin.Sockets.Defs.{
  Registration, Sockets, find, register_socket, unregister_socket, rearm_socket,
  artificially_notify_event,
}
use io_base.EventLoopWin.Sockets.Dispatch.{find-update}
use io_base.EventLoopWin.Sockets.Entries.{erase-append, find-append}
use io_base.EventLoopWin.Sockets.Register.{Call, step}

module _ (p : PollFlags) (s : Sockets) where
  -- RegisterSocket succeeds exactly if the loop runs, `fd` is not registered and WSAEventSelect
  -- succeeds. Then the registration is appended, armed for `events`; otherwise, also when
  -- WSAEventSelect fails after the insertion, the registrations are what they were.
  pub register_socket_lem :
      (selects : Bool) (fd events listener : ℕ)
      → let outcome = s.running && (not (is_some (find fd s.registrations_)) && selects) in
        ((register_socket p s selects fd events listener).1 ≡ outcome)
        × ((register_socket p s selects fd events listener).0.registrations_ ≡ (
            if outcome
            then s.registrations_
              ++ (
                fd,
                record {
                  id = s.next_registration;
                  events = events;
                  listener = listener;
                  artificially_notify_at_next_iteration = 0;
                },
              )
                ∷ []
            else s.registrations_))
  unfolding register_socket insert_entry
  register_socket_lem selects fd events listener =
      let r : Registration = record {
        id = s.next_registration;
        events = events;
        listener = listener;
        artificially_notify_at_next_iteration = 0;
      } in
      (ground arith, ground (arith, erase-append fd r s.registrations_))

  -- In a running loop, UnregisterSocket after a RegisterSocket of a socket that was not registered succeeds,
  -- brings the registrations back, and ends the selection: WSAEventSelect has been called with the poll mask of the
  -- events, and at last with no events.
  pub unregister-register :
      (fd events listener : ℕ)
      → s.running ≡ true
      → find fd s.registrations_ ≡ none
      → let t = (register_socket p s true fd events listener).0 in
        ((unregister_socket p t fd).1 ≡ true)
        × ((unregister_socket p t fd).0.registrations_ ≡ s.registrations_)
        × ((unregister_socket p t fd).0.selected
            ≡ (fd, 0) ∷ (fd, get_poll_mask p events) ∷ s.selected)
  unfolding register_socket unregister_socket insert_entry
  unregister-register fd events listener run absent =
      let r : Registration = record {
        id = s.next_registration;
        events = events;
        listener = listener;
        artificially_notify_at_next_iteration = 0;
      } in
      (
        ground (arith, find-append fd fd r s.registrations_),
        ground (arith, find-append fd fd r s.registrations_, erase-append fd r s.registrations_),
        ground (arith, find-append fd fd r s.registrations_),
      )

  -- In a running loop, RearmSocket on a registered socket reports whether WSAEventSelect succeeded,
  -- but arms the events and hands WSAEventSelect the poll mask of the union in either case.
  rearm_socket_lem :
      (selects : Bool) (fd events : ℕ) (r : Registration)
      → s.running ≡ true
      → find fd s.registrations_ ≡ some r
      → ((rearm_socket p s selects fd events).1 ≡ selects)
        × (find fd (rearm_socket p s selects fd events).0.registrations_
            ≡ some (record r { events = bit_or r.events events }))
        × ((rearm_socket p s selects fd events).0.selected
            ≡ (fd, get_poll_mask p (bit_or r.events events)) ∷ s.selected)
  unfolding rearm_socket
  rearm_socket_lem selects fd events r run e = (
    ground arith,
    ground (
      arith,
      find-update fd fd r (record r { events = bit_or r.events events }) s.registrations_ e,
    ),
    ground arith,
  )

  -- After Quit, or before Begin, every call on sockets fails and changes nothing, UnregisterSocket of
  -- a registered socket too.
  step_quitting : (c : Call) → s.running ≡ false → step p s c ≡ (s, false)
  unfolding step register_socket unregister_socket rearm_socket artificially_notify_event
  step_quitting (Call.registers selects fd events listener h) e = ground arith
  step_quitting (Call.unregisters fd) e = ground arith
  step_quitting (Call.rearms selects fd events h) e = ground arith
  step_quitting (Call.notifies fd events h) e = ground arith
