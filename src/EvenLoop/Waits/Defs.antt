-- ===== src/EvenLoop/Waits/Defs.antt =====
-- WaitEpoll, WaitPollOneDispatcher, WaitPoll.
use io_base.Base.{
  ℕ, suc, ◌==◌, if◌then◌else◌, Bool, true, false, not, ◌&&◌, none, some, List, [], ◌∷◌,
}
use io_base.Base.Int.{ℤ}
use io_base.EvenLoop.Defs.{
  ReadyFlags, EvenLoop, Call, SocketError, at, process_poll_events, pollfd_events,
}
use io_base.EvenLoop.Waits.Loop.{
  Answer, Round, Next, Outcome, wake_up, ms_next, ms_stop_of, while_waiting, to_int,
}
use Answer.{failed, interrupted, timed_out, ready}
use Next.{returns}

pub record Pollfd : Type 0 where
  pub fd : ℕ
  pub events : ℕ

unfoldable pub dispatcher_to_pollfd : ReadyFlags → EvenLoop → ℕ → Pollfd
unfolding pollfd_events
dispatcher_to_pollfd p s dispatcher = record {
  fd = (s.dispatchers dispatcher).descriptor;
  events = pollfd_events p (s.dispatchers dispatcher);
}

-- The keys to ask for, and their dispatchers: all of them, or with `process_io` off only the Signaler.
unfoldable pub to_wait_for :
    (process_io : Bool) → (signal_wakeup_ : ℕ) → List (ℕ × ℕ) → List (ℕ × ℕ)
to_wait_for process_io signal_wakeup_ [] = []
to_wait_for process_io signal_wakeup_ ((key, dispatcher) ∷ kvs) =
    let rest = to_wait_for process_io signal_wakeup_ kvs in
    if not process_io && not (dispatcher == signal_wakeup_) then rest else (key, dispatcher) ∷ rest

abbrev pub keys_of : List (ℕ × ℕ) → List ℕ
keys_of [] = []
keys_of ((key, dispatcher) ∷ kvs) = key ∷ keys_of kvs

unfoldable pub pollfds_of : ReadyFlags → EvenLoop → List (ℕ × ℕ) → List Pollfd
unfolding dispatcher_to_pollfd
pollfds_of p s [] = []
pollfds_of p s ((key, dispatcher) ∷ kvs) = dispatcher_to_pollfd p s dispatcher ∷ pollfds_of p s kvs

-- What a round does with an answer: `tell` handles the ready descriptors, `next` is the end of the round.
unfoldable pub on_answer :
    {A C S : Type 0} (tell : A → S → S) (next : Next C) → Answer A → S → S × Next C
on_answer tell next failed s = (s, returns false)
on_answer tell next interrupted s = (s, next)
on_answer tell next timed_out s = (s, returns true)
on_answer tell next (ready a) s = (tell a s, next)

-- Another thread may call WakeUp during the system call.
unfoldable pub meanwhile : {S : Type 0} → Round S → EvenLoop → EvenLoop
unfolding wake_up
meanwhile r s = if r.woken then wake_up s else s

module _ (user : Call → EvenLoop → EvenLoop) (p : ReadyFlags) (ebadf : ℕ) where
  -- The loop over what epoll_wait filled in: a key and its events each.
  unfoldable pub tell_epoll : (ℕ → SocketError) → List (ℕ × ℕ) → EvenLoop → EvenLoop
  unfolding process_poll_events
  tell_epoll so_error [] s = s
  tell_epoll so_error ((key, events) ∷ rest) s = elim (at key s) [
    | none ↦ tell_epoll so_error rest s
    | some dispatcher ↦
        tell_epoll so_error rest
          (process_poll_events user p ebadf dispatcher events (so_error dispatcher) s)
  ]

  -- The loop over current_dispatcher_keys_, with the `revents` of the i-th entry of pollfds.
  unfoldable pub tell_poll : (ℕ → SocketError) → (ℕ → ℕ) → ℕ → List ℕ → EvenLoop → EvenLoop
  unfolding process_poll_events
  tell_poll so_error revents i [] s = s
  tell_poll so_error revents i (key ∷ keys) s = elim (at key s) [
    | none ↦ tell_poll so_error revents (suc i) keys s
    | some dispatcher ↦
        tell_poll so_error revents (suc i) keys
          (process_poll_events user p ebadf dispatcher (revents i) (so_error dispatcher) s)
  ]

  -- epoll_wait takes the most events that it may fill in and the timeout.
  unfoldable pub epoll_round :
      (cms_wait ms_stop : ℤ)
      → Round (ℕ → ℤ → Answer (List (ℕ × ℕ)))
      → ℤ
      → EvenLoop
      → EvenLoop × Next ℤ
  unfolding on_answer meanwhile tell_epoll ms_next
  epoll_round cms_wait ms_stop r ms_wait s =
      on_answer (tell_epoll r.socket_error) (ms_next false cms_wait ms_stop r.clock ms_wait)
        (r.system_call 128 (to_int ms_wait)) (meanwhile r s)

  -- `clock` is the clock at the start.
  unfoldable pub wait_epoll :
      (clock cms_wait : ℤ)
      → List (Round (ℕ → ℤ → Answer (List (ℕ × ℕ))))
      → EvenLoop
      → Outcome EvenLoop ℤ
  unfolding while_waiting epoll_round ms_stop_of
  wait_epoll clock cms_wait rounds s =
      while_waiting (λ t. t.f_wait_) (epoll_round cms_wait (ms_stop_of clock cms_wait)) rounds
        cms_wait (record s { f_wait_ = true })

  unfoldable pub one_round :
      (cms_wait ms_stop : ℤ) (dispatcher : ℕ)
      → Round (Pollfd → ℤ → Answer ℕ)
      → ℤ
      → EvenLoop
      → EvenLoop × Next ℤ
  unfolding on_answer meanwhile process_poll_events ms_next dispatcher_to_pollfd
  one_round cms_wait ms_stop dispatcher r ms_wait s =
      on_answer
        (λ revents. process_poll_events user p ebadf dispatcher revents (r.socket_error dispatcher))
        (ms_next true cms_wait ms_stop r.clock ms_wait)
        (r.system_call (dispatcher_to_pollfd p s dispatcher) (to_int ms_wait)) (meanwhile r s)

  unfoldable pub wait_poll_one_dispatcher :
      (clock cms_wait : ℤ) (dispatcher : ℕ)
      → List (Round (Pollfd → ℤ → Answer ℕ))
      → EvenLoop
      → Outcome EvenLoop ℤ
  unfolding while_waiting one_round ms_stop_of
  wait_poll_one_dispatcher clock cms_wait dispatcher rounds s =
      while_waiting (λ t. t.f_wait_) (one_round cms_wait (ms_stop_of clock cms_wait) dispatcher)
        rounds cms_wait (record s { f_wait_ = true })

  unfoldable pub poll_round :
      (cms_wait ms_stop : ℤ) (process_io : Bool)
      → Round (List Pollfd → ℤ → Answer (ℕ → ℕ))
      → ℤ
      → EvenLoop
      → EvenLoop × Next ℤ
  unfolding on_answer meanwhile tell_poll ms_next to_wait_for pollfds_of
  poll_round cms_wait ms_stop process_io r ms_wait s =
      let kvs = to_wait_for process_io s.signal_wakeup_ s.dispatcher_by_key_ in
      on_answer (λ revents t. tell_poll r.socket_error revents 0 t.current_dispatcher_keys_ t)
        (ms_next true cms_wait ms_stop r.clock ms_wait)
        (r.system_call (pollfds_of p s kvs) (to_int ms_wait))
        (meanwhile r (record s { current_dispatcher_keys_ = keys_of kvs }))

  unfoldable pub wait_poll :
      (clock cms_wait : ℤ) (process_io : Bool)
      → List (Round (List Pollfd → ℤ → Answer (ℕ → ℕ)))
      → EvenLoop
      → Outcome EvenLoop ℤ
  unfolding while_waiting poll_round ms_stop_of
  wait_poll clock cms_wait process_io rounds s =
      while_waiting (λ t. t.f_wait_) (poll_round cms_wait (ms_stop_of clock cms_wait) process_io)
        rounds cms_wait (record s { f_wait_ = true })
