-- ===== src/EventLoopWin/Sockets/Round.antt =====
-- One socket in a poll round: what the listener is told, in terms of what Winsock reported.
use io_base.Base.{
  has, ℕ, ◌<◌, ◌≡◌, refl, ap₂, ◌∙◌, bit_and, bit_or, ◌==◌, if◌then◌else◌, Bool, true, false, ◌&&◌,
  ◌||◌, not, some, List, ℕ_discrete, arith, if_pos,
}
use io_base.Base.Bits.{zero-and}
use io_base.EventLoopWin.Masks.{
  PollFlags, IsDisjoint, event_readable, event_writable, event_error, get_poll_mask, get_event_mask,
  get_event_mask-or, get_event_mask-pollin, get_event_mask-pollout, get_event_mask-pollerr,
  get_event_mask-pollhup, get_event_mask-get_poll_mask, get_event_mask-zero,
}
use io_base.EventLoopWin.Sockets.Defs.{
  Registration, RegistrationMap, ReadyListEntry, find, update, dispatch_socket_event,
}
use io_base.EventLoopWin.Sockets.Poll.{NetworkFlags, NetworkEvents, poll_events, poll_socket}
use io_base.EventLoopWin.Sockets.Dispatch.{find-update, deliver, dispatch-deliver}

-- The events that a report stands for: readable on FD_READ or FD_ACCEPT, writable on FD_WRITE or
-- FD_CONNECT, an error on a failed FD_CONNECT.
unfoldable pub reported : NetworkFlags → NetworkEvents → ℕ
reported w e =
    bit_or
      (bit_or
        (if has e.network_events w.fd_read || has e.network_events w.fd_accept
          then event_readable
          else 0)
        (if has e.network_events w.fd_write || has e.network_events w.fd_connect
          then event_writable
          else 0))
      (if has e.network_events w.fd_connect && not (e.connect_error == 0) then event_error else 0)

module _ (p : PollFlags) (d : IsDisjoint p) (w : NetworkFlags) where
  get_event_mask-add_if :
      (b : Bool) (x acc : ℕ)
      → get_event_mask p (if b then acc else bit_or acc x)
        ≡ (if b then get_event_mask p acc else bit_or (get_event_mask p acc) (get_event_mask p x))
  get_event_mask-add_if true x acc = refl
  get_event_mask-add_if false x acc = get_event_mask-or p acc x

  -- The same, by the outcomes of the tests for read, write, close, accept, connect and its error.
  bits :
      (r s c a n z : Bool)
      → let read = if r then 0 else bit_or 0 p.pollin in
        let write = if s then read else bit_or read p.pollout in
        let close = if c then write else bit_or write p.pollhup in
        let accept = if a then close else bit_or close p.pollin in
        get_event_mask p (
          if n
          then accept
          else (if z then bit_or accept p.pollout else bit_or (bit_or accept p.pollout) p.pollerr))
        ≡ bit_or
            (bit_or
              (if not r || not a then event_readable else 0)
              (if not s || not n then event_writable else 0))
            (if not n && not z then event_error else 0)
  bits r s c a n z = ground (
    arith,
    get_event_mask-zero p,
    get_event_mask-pollin p d,
    get_event_mask-pollout p d,
    get_event_mask-pollerr p d,
    get_event_mask-pollhup p d,
    get_event_mask-add_if r p.pollin 0,
    get_event_mask-add_if s p.pollout read,
    get_event_mask-add_if c p.pollhup write,
    get_event_mask-add_if a p.pollin close,
    get_event_mask-or p accept p.pollout,
    get_event_mask-or p (bit_or accept p.pollout) p.pollerr,
  )
    where
      read : ℕ
      read = if r then 0 else bit_or 0 p.pollin

      write : ℕ
      write = if s then read else bit_or read p.pollout

      close : ℕ
      close = if c then write else bit_or write p.pollhup

      accept : ℕ
      accept = if a then close else bit_or close p.pollin

  -- The poll mask of a report stands for exactly those events. FD_CLOSE, which the code turns into
  -- POLLHUP, stands for none.
  get_event_mask-poll_events :
      (e : NetworkEvents) → get_event_mask p (poll_events p w e) ≡ reported w e
  unfolding poll_events reported
  get_event_mask-poll_events e =
      bits (bit_and e.network_events w.fd_read == 0) (bit_and e.network_events w.fd_write == 0)
        (bit_and e.network_events w.fd_close == 0) (bit_and e.network_events w.fd_accept == 0)
        (bit_and e.network_events w.fd_connect == 0) (e.connect_error == 0)

  -- The test for `revents != 0` only spares the call.
  skip_zero :
      (revents : ℕ) (regs : RegistrationMap) (ready : List ReadyListEntry) (fd : ℕ)
      (r : Registration)
      → dispatch_socket_event p regs ready fd revents
        ≡ deliver regs ready fd r (bit_and (get_event_mask p revents) r.events)
      → (if revents == 0 then (regs, ready) else dispatch_socket_event p regs ready fd revents)
        ≡ deliver regs ready fd r (bit_and (get_event_mask p revents) r.events)
  unfolding deliver
  skip_zero revents regs ready fd r sent = ground (arith, get_event_mask-zero p, zero-and r.events)

  -- A socket whose enumeration succeeds, with the registration `r` and masks that fit a uint8_t, is
  -- told exactly the events that were reported or asked for by ArtificiallyNotifyEvent and that it is
  -- armed for. They are disarmed, and the artificial events are forgotten.
  pub poll_socket-deliver :
      (fd : ℕ) (e : NetworkEvents) (regs : RegistrationMap) (ready : List ReadyListEntry)
      (r : Registration)
      → find fd regs ≡ some r
      → r.events < 256
      → r.artificially_notify_at_next_iteration < 256
      → let r0 : Registration = record r { artificially_notify_at_next_iteration = 0 } in
        poll_socket p w fd (some e) (regs, ready)
        ≡ deliver (update fd r0 regs) ready fd r0 (
            bit_and
              (bit_or (reported w e) (bit_and r.artificially_notify_at_next_iteration 7))
              r.events)
  unfolding poll_socket
  poll_socket-deliver fd e regs ready r h lt note =
      let r0 : Registration = record r { artificially_notify_at_next_iteration = 0 } in
      let revents =
        bit_or (poll_events p w e) (get_poll_mask p r.artificially_notify_at_next_iteration) in
      let told : get_event_mask p revents
          ≡ bit_or (reported w e) (bit_and r.artificially_notify_at_next_iteration 7) =
        get_event_mask-or p (poll_events p w e)
          (get_poll_mask p r.artificially_notify_at_next_iteration)
        ∙ ap₂ bit_or (get_event_mask-poll_events e)
            (get_event_mask-get_poll_mask p d r.artificially_notify_at_next_iteration note) in
      let here : find fd (update fd r0 regs) ≡ some r0 =
        find-update fd fd r r0 regs h ∙ if_pos (ℕ_discrete fd fd) refl _ _ in
      let sent = dispatch-deliver p d (update fd r0 regs) ready fd revents r0 here lt in
      rw (← told, h, poll_socket) (skip_zero revents (update fd r0 regs) ready fd r0 sent)
