-- ===== src/EvenLoop/Windows/Flags.antt =====
-- What is asked of Winsock, and what a dispatcher is told of its answer.
use io_base.Base.{ℕ, ◌==◌, ◌≡◌, has, true, false, not, ◌&&◌, ◌||◌, arith}
use io_base.EvenLoop.Defs.{de_read, de_write, de_connect, de_close, de_accept}
use io_base.EvenLoop.Windows.Defs.{FdFlags, NetworkEvents, flags_to_events, network_told}

-- The values in winsock2.h.
pub record IsWinsock (w : FdFlags) : Type 0 where
  pub fd_read : w.fd_read ≡ 0x01
  pub fd_write : w.fd_write ≡ 0x02
  pub fd_accept : w.fd_accept ≡ 0x08
  pub fd_connect : w.fd_connect ≡ 0x10
  pub fd_close : w.fd_close ≡ 0x20

-- With the values of winsock2.h, a dispatcher's socket is watched for exactly the network events that its
-- requested events stand for, and always for the close.
flags_to_events_lem :
    (w : FdFlags) (events : ℕ)
    → IsWinsock w
    → let selected = flags_to_events w events in
      (has selected w.fd_read ≡ has events de_read)
      × (has selected w.fd_write ≡ has events de_write)
      × (has selected w.fd_connect ≡ has events de_connect)
      × (has selected w.fd_accept ≡ has events de_accept)
      × (has selected w.fd_close ≡ true)
unfolding flags_to_events
flags_to_events_lem w events v =
    rw (v.fd_read, v.fd_write, v.fd_accept, v.fd_connect, v.fd_close)
      (ground arith, ground arith, ground arith, ground arith, ground arith)

-- A dispatcher is told exactly of the events that Winsock reports: of a read, a write and an accept as they are
-- reported, of a connection only if its error code is 0, and of a close if one is reported or the connection
-- failed; an error code comes only with a close.
network_told_lem :
    (w : FdFlags) (e : NetworkEvents)
    → let reports = has e.l_network_events in
      let connected = e.connect_error == 0 in
      let (ff, errcode) = network_told w e in
      (has ff de_read ≡ reports w.fd_read)
      × (has ff de_write ≡ reports w.fd_write)
      × (has ff de_accept ≡ reports w.fd_accept)
      × (has ff de_connect ≡ reports w.fd_connect && connected)
      × (has ff de_close ≡ reports w.fd_close || (reports w.fd_connect && not connected))
      × (has ff de_close ≡ false → errcode ≡ 0)
unfolding network_told
network_told_lem w e = ground arith
