-- ===== src/EvenLoop/Waits/Select.antt =====
-- WaitSelect. An fd_set is a test on descriptors; rtc::TimeMicros is taken to be TimeMicros of
-- time_utils.h.
use io_base.Base.{
  ℕ, ◌+◌, ◌==◌, ltb, has, bit_or, if◌then◌else◌, Bool, true, false, ◌||◌, Option, none, some, List,
  [], ◌∷◌,
}
use io_base.Base.Int.{ℤ, pos, ◌+ℤ◌, ◌-ℤ◌, ltb_ℤ, quot, rem, times}
use io_base.Time.{time_micros}
use io_base.EvenLoop.Defs.{
  EvenLoop, Call, SocketError, at, process_events, de_read, de_write, de_connect, de_accept,
}
use io_base.EvenLoop.Waits.Loop.{Answer, Round, Next, Outcome, while_waiting, to_int, is_forever}
use io_base.EvenLoop.Waits.Defs.{Pollfd, to_wait_for, keys_of, on_answer, meanwhile}
use Next.{goes_on}

pub record Timeval : Type 0 where
  pub tv_sec : ℤ
  pub tv_usec : ℤ

-- FD_SET, FD_CLR.
unfoldable pub fd_set : ℕ → (ℕ → Bool) → ℕ → Bool
fd_set fd fds n = if n == fd then true else fds n

unfoldable pub fd_clr : ℕ → (ℕ → Bool) → ℕ → Bool
fd_clr fd fds n = if n == fd then false else fds n

-- `nfds` is fdmax + 1.
pub record Sets : Type 0 where
  pub nfds : ℕ
  pub fds_read : ℕ → Bool
  pub fds_write : ℕ → Bool

unfoldable pub select_sets : EvenLoop → List (ℕ × ℕ) → Sets
unfolding fd_set
select_sets s [] = record { nfds = 0; fds_read = λ _. false; fds_write = λ _. false }
select_sets s ((key, dispatcher) ∷ kvs) =
    let rest = select_sets s kvs in
    let fd = (s.dispatchers dispatcher).descriptor in
    let ff = (s.dispatchers dispatcher).requested_events in
    record {
      nfds = if ltb rest.nfds (fd + 1) then fd + 1 else rest.nfds;
      fds_read =
          if has ff (bit_or de_read de_accept) then fd_set fd rest.fds_read else rest.fds_read;
      fds_write =
          if has ff (bit_or de_write de_connect) then fd_set fd rest.fds_write else rest.fds_write;
    }

-- The timeout at the start; `tv_sec` and `tv_usec` of the time left later on.
unfoldable pub timeval_of : (cms_wait : ℤ) → Option Timeval
timeval_of cms_wait =
    if is_forever cms_wait
    then none
    else some (record { tv_sec = quot cms_wait 1000; tv_usec = times (rem cms_wait 1000) 1000 })

unfoldable pub time_left : ℤ → Timeval
time_left time_left_us =
    if ltb_ℤ (pos 0) time_left_us
    then record { tv_sec = quot time_left_us 1000000; tv_usec = rem time_left_us 1000000 }
    else record { tv_sec = pos 0; tv_usec = pos 0 }

-- `cmsWait * 1000` is a product of ints.
unfoldable pub stop_us_of : (clock cms_wait : ℤ) → ℤ
unfolding time_micros
stop_us_of clock cms_wait = time_micros clock +ℤ to_int (times cms_wait 1000)

unfoldable pub select_next : (stop_us clock : ℤ) → Option Timeval → Next (Option Timeval)
unfolding time_left time_micros
select_next stop_us clock none = goes_on none
select_next stop_us clock (some ptv_wait) =
    goes_on (some (time_left (stop_us -ℤ time_micros clock)))

module _ (user : Call → EvenLoop → EvenLoop) (ebadf : ℕ) where
  -- The loop over current_dispatcher_keys_, with the sets that select left.
  unfoldable pub tell_select :
      (ℕ → SocketError) → List ℕ → (fds_read fds_write : ℕ → Bool) → EvenLoop → EvenLoop
  unfolding process_events fd_clr
  tell_select so_error [] fds_read fds_write s = s
  tell_select so_error (key ∷ keys) fds_read fds_write s = elim (at key s) [
    | none ↦ tell_select so_error keys fds_read fds_write s
    | some dispatcher ↦
        let fd = (s.dispatchers dispatcher).descriptor in
        let readable = fds_read fd in
        let writable = fds_write fd in
        tell_select so_error keys (if readable then fd_clr fd fds_read else fds_read)
          (if writable then fd_clr fd fds_write else fds_write)
          (process_events user ebadf dispatcher readable writable false (readable || writable)
            (so_error dispatcher) s)
  ]

  unfoldable pub select_round :
      (stop_us : ℤ) (process_io : Bool)
      → Round (Sets → Option Timeval → Answer ((ℕ → Bool) × (ℕ → Bool)))
      → Option Timeval
      → EvenLoop
      → EvenLoop × Next (Option Timeval)
  unfolding on_answer meanwhile tell_select select_next select_sets to_wait_for
  select_round stop_us process_io r ptv_wait s =
      let kvs = to_wait_for process_io s.signal_wakeup_ s.dispatcher_by_key_ in
      on_answer (λ fds t. tell_select r.socket_error t.current_dispatcher_keys_ fds.0 fds.1 t)
        (select_next stop_us r.clock ptv_wait) (r.system_call (select_sets s kvs) ptv_wait)
        (meanwhile r (record s { current_dispatcher_keys_ = keys_of kvs }))

  unfoldable pub wait_select :
      (clock cms_wait : ℤ) (process_io : Bool)
      → List (Round (Sets → Option Timeval → Answer ((ℕ → Bool) × (ℕ → Bool))))
      → EvenLoop
      → Outcome EvenLoop (Option Timeval)
  unfolding while_waiting select_round stop_us_of timeval_of
  wait_select clock cms_wait process_io rounds s =
      while_waiting (λ t. t.f_wait_) (select_round (stop_us_of clock cms_wait) process_io) rounds
        (timeval_of cms_wait) (record s { f_wait_ = true })

-- What the system does in the rounds of a wait of each kind.
pub record Schedule : Type 0 where
  pub to_epoll : List (Round (ℕ → ℤ → Answer (List (ℕ × ℕ))))
  pub to_poll_one : List (Round (Pollfd → ℤ → Answer ℕ))
  pub to_poll : List (Round (List Pollfd → ℤ → Answer (ℕ → ℕ)))
  pub to_select : List (Round (Sets → Option Timeval → Answer ((ℕ → Bool) × (ℕ → Bool))))
