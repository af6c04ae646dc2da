-- ===== src/EvenLoop/Interest/Defs.antt =====
-- The operations, on an epoll_fd_ that could be created. A failed ABSL_DCHECK is `none`. GetEpollEvents and
-- INVALID_SOCKET are not declared in the repository.
use io_base.Base.{ℕ, ◌==◌, if◌then◌else◌, Option, none, some}
use io_base.EvenLoop.Defs.{Dispatcher}
use io_base.EvenLoop.Interest.Interface.{Epoll, Ctl}
use Ctl.{done, enoent, another}

module _ (k : Epoll) (get_epoll_events : ℕ → ℕ) (invalid_socket : ℕ) where
  open k use {Interest, ctl_add, ctl_mod, ctl_del}

  unfoldable pub add_epoll : Dispatcher → (key : ℕ) → Interest → Option Interest
  add_epoll d key i =
      let events = get_epoll_events d.requested_events in
      let (added, err) = ctl_add d.descriptor (events, key) i in
      if d.descriptor == invalid_socket
      then none
      else (if events == 0
          then some i
          else (elim err [ done ↦ some added | enoent ↦ none | another ↦ none ]))

  unfoldable pub remove_epoll : Dispatcher → Interest → Option Interest
  remove_epoll d i =
      let (removed, err) = ctl_del d.descriptor i in
      if d.descriptor == invalid_socket
      then none
      else (elim err [ done ↦ some removed | enoent ↦ some removed | another ↦ none ])

  -- A failure of EPOLL_CTL_DEL or of EPOLL_CTL_ADD is not checked here.
  unfoldable pub update_epoll : Dispatcher → (key : ℕ) → Interest → Option Interest
  update_epoll d key i =
      let events = get_epoll_events d.requested_events in
      let (changed, err) = ctl_mod d.descriptor (events, key) i in
      let added = (ctl_add d.descriptor (events, key) changed).0 in
      if d.descriptor == invalid_socket
      then none
      else (if events == 0
          then some (ctl_del d.descriptor i).0
          else (elim err [ done ↦ some changed | enoent ↦ some added | another ↦ none ]))
