-- ===== src/EvenLoop/Defs.antt =====
-- Dispatchers, the state of the loop, and how a dispatcher is told of events.
use io_base.Base.{
  ℕ, ◌==◌, has, bit_or, if◌then◌else◌, Bool, false, not, ◌||◌, Option, List, [], ◌∷◌, ◌++◌,
  ℕ_discrete,
}
use io_base.LinkedHashMap.Entries.{lookup_entry}

-- DispatcherEvent.
abbrev pub de_read : ℕ
de_read = 0x01

abbrev pub de_write : ℕ
de_write = 0x02

abbrev pub de_connect : ℕ
de_connect = 0x04

abbrev pub de_close : ℕ
de_close = 0x08

abbrev pub de_accept : ℕ
de_accept = 0x10

-- The flags of poll.h or of sys/epoll.h; where the system has no POLLRDHUP it is 0.
pub record ReadyFlags : Type 0 where
  pub ready_in : ℕ
  pub ready_pri : ℕ
  pub ready_out : ℕ
  pub ready_rdhup : ℕ
  pub ready_err : ℕ
  pub ready_hup : ℕ

-- What the virtual functions of a dispatcher say: GetDescriptor, GetRequestedEvents,
-- IsDescriptorClosed.
pub record Dispatcher : Type 0 where
  pub descriptor : ℕ
  pub requested_events : ℕ
  pub is_descriptor_closed : Bool

-- A call of Dispatcher::OnEvent.
pub record Call : Type 0 where
  pub dispatcher : ℕ
  pub ff : ℕ
  pub err : ℕ

-- A Signaler: its flag, and the counter of its eventfd.
pub record Signaler : Type 0 where
  pub f_signaled_ : Bool
  pub counter : ℕ

-- `calls` are the calls of OnEvent, in order.
pub record EvenLoop : Type 0 where
  pub dispatchers : ℕ → Dispatcher
  pub dispatcher_by_key_ : List (ℕ × ℕ)
  pub current_dispatcher_keys_ : List ℕ
  pub signal_wakeup_ : ℕ
  pub signaler : Signaler
  pub f_wait_ : Bool
  pub waiting_ : Bool
  pub calls : List Call

abbrev pub at : ℕ → EvenLoop → Option ℕ
at key s = lookup_entry ℕ_discrete key s.dispatcher_by_key_

-- What getsockopt answers: whether it fails, whether errno is ENOTSOCK then, and SO_ERROR.
pub record SocketError : Type 0 where
  pub failed : Bool
  pub not_socket : Bool
  pub so_error : ℕ

-- The error code that ProcessEvents works out.
unfoldable pub error_code : (ebadf : ℕ) (error_event check_error : Bool) → SocketError → ℕ
error_code ebadf error_event check_error e =
    if check_error
    then (if e.failed then (if error_event || not e.not_socket then ebadf else 0) else e.so_error)
    else 0

-- `ff` in ProcessEvents.
unfoldable pub told : Dispatcher → (readable writable : Bool) (errcode : ℕ) → ℕ
told d readable writable errcode =
    let on_read =
      if readable
      then (if not (errcode == 0) || d.is_descriptor_closed
          then de_close
          else (if has d.requested_events de_accept then de_accept else de_read))
      else 0 in
    let on_write =
      if writable
      then (if has d.requested_events de_connect
          then (if errcode == 0 then bit_or on_read de_connect else on_read)
          else bit_or on_read de_write)
      else on_read in
    if errcode == 0 then on_write else bit_or on_write de_close

-- Signaler::OnEvent: reading the eventfd sets its counter to 0.
unfoldable pub signaler_on_event : EvenLoop → EvenLoop
signaler_on_event s = record s {
  signaler =
      if s.signaler.f_signaled_ then record { f_signaled_ = false; counter = 0 } else s.signaler;
  f_wait_ = false;
}

-- `user` is what the OnEvent of another dispatcher than the Signaler does to the loop.
module _ (user : Call → EvenLoop → EvenLoop) where
  unfoldable pub on_event : Call → EvenLoop → EvenLoop
  unfolding signaler_on_event
  on_event call s =
      let t = record s { calls = s.calls ++ call ∷ [] } in
      if call.dispatcher == s.signal_wakeup_ then signaler_on_event t else user call t

  unfoldable pub process_events :
      (ebadf dispatcher : ℕ) (readable writable error_event check_error : Bool)
      → SocketError
      → EvenLoop
      → EvenLoop
  unfolding on_event error_code told
  process_events ebadf dispatcher readable writable error_event check_error e s =
      let errcode = error_code ebadf error_event check_error e in
      let ff = told (s.dispatchers dispatcher) readable writable errcode in
      if ff == 0 then s else on_event (record { dispatcher = dispatcher; ff = ff; err = errcode }) s

  -- ProcessPollEvents, and the same lines of WaitEpoll.
  unfoldable pub process_poll_events :
      ReadyFlags → (ebadf dispatcher revents : ℕ) → SocketError → EvenLoop → EvenLoop
  unfolding process_events
  process_poll_events p ebadf dispatcher revents e s =
      let error = has revents (bit_or (bit_or p.ready_rdhup p.ready_err) p.ready_hup) in
      process_events ebadf dispatcher (has revents (bit_or p.ready_in p.ready_pri))
        (has revents p.ready_out) error error e s

-- DispatcherToPollfd: the events to poll for.
unfoldable pub pollfd_events : ReadyFlags → Dispatcher → ℕ
pollfd_events p d =
    let on_read = if has d.requested_events (bit_or de_read de_accept) then p.ready_in else 0 in
    if has d.requested_events (bit_or de_write de_connect)
    then bit_or on_read p.ready_out
    else on_read
