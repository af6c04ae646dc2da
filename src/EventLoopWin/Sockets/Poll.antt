-- ===== src/EventLoopWin/Sockets/Poll.antt =====
-- ProcessSocketEvents and RunReadyCallbacks.
use io_base.Base.{ℕ, bit_and, bit_or, ◌==◌, if◌then◌else◌, false, Option, none, some, List, [], ◌∷◌}
use io_base.EventLoopWin.Masks.{PollFlags, get_poll_mask}
use io_base.EventLoopWin.Sockets.Defs.{
  Registration, RegistrationMap, ReadyListEntry, Sockets, find, update, dispatch_socket_event,
}

-- The FD_ flags of winsock2.h, a parameter.
pub record NetworkFlags : Type 0 where
  pub fd_read : ℕ
  pub fd_write : ℕ
  pub fd_close : ℕ
  pub fd_accept : ℕ
  pub fd_connect : ℕ

-- WSANETWORKEVENTS: the mask, and the error code at FD_CONNECT_BIT.
pub record NetworkEvents : Type 0 where
  pub network_events : ℕ
  pub connect_error : ℕ

-- `if (mask & flag) acc |= bits`.
abbrev pub add_if : ℕ → ℕ → ℕ → ℕ → ℕ
add_if mask flag bits acc = if bit_and mask flag == 0 then acc else bit_or acc bits

-- A delivered callback: OnSocketEvent of the listener, with the socket and the events.
pub record Delivery : Type 0 where
  pub listener : ℕ
  pub fd : ℕ
  pub events : ℕ

abbrev pub fds : RegistrationMap → List ℕ
fds [] = []
fds ((fd, r) ∷ es) = fd ∷ fds es

-- `weak_ptr::lock`: the Registration with this identity, while an entry owns it.
unfoldable pub lock : ℕ → RegistrationMap → Option Registration
lock i [] = none
lock i ((fd, r) ∷ es) = if r.id == i then some r else lock i es

module _ (p : PollFlags) (w : NetworkFlags) where
  unfoldable pub poll_events : NetworkEvents → ℕ
  poll_events e =
      let mask = e.network_events in
      let read = add_if mask w.fd_read p.pollin 0 in
      let write = add_if mask w.fd_write p.pollout read in
      let close = add_if mask w.fd_close p.pollhup write in
      let accept = add_if mask w.fd_accept p.pollin close in
      if bit_and mask w.fd_connect == 0
      then accept
      else (if e.connect_error == 0
          then bit_or accept p.pollout
          else bit_or (bit_or accept p.pollout) p.pollerr)

  -- One round of the loop: `none` is a failed WSAEnumNetworkEvents, after which the loop goes on.
  unfoldable pub poll_socket :
      ℕ
      → Option NetworkEvents
      → RegistrationMap × List ReadyListEntry
      → RegistrationMap × List ReadyListEntry
  unfolding poll_events
  poll_socket fd none (regs, ready) = (regs, ready)
  poll_socket fd (some e) (regs, ready) = elim (find fd regs) [
    | none ↦ (regs, ready)
    | some r ↦
        let revents =
          bit_or (poll_events e) (get_poll_mask p r.artificially_notify_at_next_iteration) in
        let regs' = update fd (record r { artificially_notify_at_next_iteration = 0 }) regs in
        if revents == 0 then (regs', ready) else dispatch_socket_event p regs' ready fd revents
  ]

  unfoldable pub poll_sockets :
      (ℕ → Option NetworkEvents)
      → List ℕ
      → RegistrationMap × List ReadyListEntry
      → RegistrationMap × List ReadyListEntry
  poll_sockets enum [] acc = acc
  poll_sockets enum (fd ∷ rest) acc = poll_sockets enum rest (poll_socket fd (enum fd) acc)

-- RunReadyCallbacks. `on_socket_event` is what a listener does to the loop when it is called; it may
-- register, unregister and rearm sockets.
module _ (on_socket_event : Delivery → Sockets → Sockets) where
  unfoldable pub run_ready_callbacks : List ReadyListEntry → Sockets → Sockets × List Delivery
  run_ready_callbacks [] s = (s, [])
  run_ready_callbacks (entry ∷ rest) s = elim (lock entry.registration s.registrations_) [
    | none ↦ run_ready_callbacks rest s
    | some r ↦
        let call : Delivery = record {
          listener = r.listener;
          fd = entry.fd;
          events = entry.events;
        } in
        let after = run_ready_callbacks rest (on_socket_event call s) in (after.0, call ∷ after.1)
  ]

  unfoldable pub process_socket_events :
      PollFlags → NetworkFlags → (ℕ → Option NetworkEvents) → Sockets → Sockets × List Delivery
  process_socket_events p w enum s = elim s.registrations_ [
    | [] ↦ (s, [])
    | e ∷ es ↦
        let (regs, ready) = poll_sockets p w enum (fds s.registrations_) (s.registrations_, []) in
        run_ready_callbacks ready
          (record s { registrations_ = regs; has_artificial_events_pending_ = false })
  ]
