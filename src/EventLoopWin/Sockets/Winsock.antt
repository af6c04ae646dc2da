-- ===== src/EventLoopWin/Sockets/Winsock.antt =====
-- The masks that the code hands to WSAEventSelect, with the values that winsock2.h gives the flags.
use io_base.Base.{ℕ, ◌≡◌, bit_and, true, none, ◌∷◌, arith}
use io_base.EventLoopWin.Masks.{PollFlags, event_error, get_poll_mask}
use io_base.EventLoopWin.Sockets.Defs.{Sockets, find, register_socket}
use io_base.EventLoopWin.Sockets.Poll.{NetworkFlags}

-- The values in winsock2.h: POLLIN is POLLRDNORM | POLLRDBAND.
pub record IsWinsock (p : PollFlags) (w : NetworkFlags) : Type 0 where
  pub pollin : p.pollin ≡ 0x300
  pub pollout : p.pollout ≡ 0x10
  pub pollerr : p.pollerr ≡ 0x01
  pub fd_read : w.fd_read ≡ 0x01
  pub fd_accept : w.fd_accept ≡ 0x08
  pub fd_close : w.fd_close ≡ 0x20

-- With winsock2.h's values, in a running loop, RegisterSocket of a new socket for events without
-- kEventError selects no FD_READ, no FD_ACCEPT and no FD_CLOSE, also for a socket that is registered as readable:
-- what it selects is the poll mask.
pub register_selects_no_read :
    (p : PollFlags) (w : NetworkFlags) (s : Sockets) (fd events listener : ℕ)
    → IsWinsock p w
    → s.running ≡ true
    → find fd s.registrations_ ≡ none
    → bit_and events event_error ≡ 0
    → ((register_socket p s true fd events listener).0.selected
        ≡ (fd, get_poll_mask p events) ∷ s.selected)
      × (bit_and (get_poll_mask p events) w.fd_read ≡ 0)
      × (bit_and (get_poll_mask p events) w.fd_accept ≡ 0)
      × (bit_and (get_poll_mask p events) w.fd_close ≡ 0)
unfolding register_socket get_poll_mask
register_selects_no_read p w s fd events listener v run absent quiet =
    (ground arith, ground arith, ground arith, ground arith)
