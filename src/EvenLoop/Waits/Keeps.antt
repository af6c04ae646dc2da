-- ===== src/EvenLoop/Waits/Keeps.antt =====
-- What every wait keeps: a property of the loop that the calls of OnEvent, WakeUp and the loop's own
-- bookkeeping keep.
use io_base.Base.{ℕ, ◌≡◌, Bool, true, false, Option, List, [], ◌∷◌, Bool-cases, inl, inr}
use io_base.Base.Int.{ℤ}
use io_base.EvenLoop.Defs.{EvenLoop, Call, ReadyFlags, on_event, process_poll_events}
use io_base.EvenLoop.Waits.Tells.{
  KeptByCalls, process_poll_events-keeps, tell_epoll-keeps, tell_poll-keeps, tell_select-keeps,
}
use io_base.EvenLoop.Waits.Loop.{
  Answer, Round, Next, Outcome, while_waiting, after_round, wake_up, ms_next, ms_stop_of, to_int,
}
use io_base.EvenLoop.Waits.Defs.{
  Pollfd, to_wait_for, keys_of, pollfds_of, dispatcher_to_pollfd, on_answer, meanwhile, tell_epoll,
  tell_poll, epoll_round, one_round, poll_round, wait_epoll, wait_poll, wait_poll_one_dispatcher,
}
use io_base.EvenLoop.Waits.Select.{
  Sets, Timeval, select_sets, select_next, stop_us_of, timeval_of, tell_select, select_round,
  wait_select,
}
use Answer.{failed, interrupted, timed_out, ready}
use Next.{returns, goes_on}

module _ {S R C : Type 0} (f_wait : S → Bool) (round : R → C → S → S × Next C)
    (I : S → Type 0) where
  after_round-keeps :
      (c : C) (s : S) (next : Next C) (rest : C → S → Outcome S C)
      → I s
      → ((d : C) → I (rest d s).state)
      → I (after_round c s next rest).state
  unfolding after_round
  after_round-keeps c s (returns b) rest h step = h
  after_round-keeps c s (goes_on d) rest h step = step d

  pub while_waiting-keeps :
      ((r : R) (c : C) (s : S) → I s → I (round r c s).0)
      → (rs : List R) (c : C) (s : S) → I s
      → I (while_waiting f_wait round rs c s).state
  unfolding while_waiting
  while_waiting-keeps step [] c s h = h
  while_waiting-keeps step (r ∷ rs) c s h = elim (Bool-cases (f_wait s)) [
    | inl waits ↦ rw (waits) (
        after_round-keeps c (round r c s).0 (round r c s).1 (while_waiting f_wait round rs)
          (step r c s h) (λ d. while_waiting-keeps step rs d (round r c s).0 (step r c s h)))
    | inr over ↦ rw (over) h
  ]

pub on_answer-keeps :
    {A C S : Type 0} (I : S → Type 0) (tell : A → S → S) (next : Next C) (a : Answer A) (s : S)
    → ((b : A) → I s → I (tell b s))
    → I s
    → I (on_answer tell next a s).0
unfolding on_answer
on_answer-keeps I tell next failed s step h = h
on_answer-keeps I tell next interrupted s step h = h
on_answer-keeps I tell next timed_out s step h = h
on_answer-keeps I tell next (ready b) s step h = step b h

-- `I` is kept by a call of OnEvent of a dispatcher that the loop has a key of, by WakeUp, and by another list
-- of current keys.
pub record Kept (user : Call → EvenLoop → EvenLoop) (I : EvenLoop → Type 0) : Type 0 where
  pub on_event-keeps : KeptByCalls user I
  pub wake_up-keeps : (s : EvenLoop) → I s → I (wake_up s)
  pub keys-keep :
      (keys : List ℕ) (s : EvenLoop) → I s → I (record s { current_dispatcher_keys_ = keys })

-- The state at the end of the system call of a round of poll or select.
unfoldable pub asked : {A : Type 0} → (process_io : Bool) → Round A → EvenLoop → EvenLoop
asked process_io r t =
    let kvs = to_wait_for process_io t.signal_wakeup_ t.dispatcher_by_key_ in
    meanwhile r (record t { current_dispatcher_keys_ = keys_of kvs })

-- `I` is kept by the start of a wait.
abbrev pub StartKeeps : (EvenLoop → Type 0) → Type 0
StartKeeps I = (s : EvenLoop) → I s → I (record s { f_wait_ = true })

module _ (user : Call → EvenLoop → EvenLoop) (I : EvenLoop → Type 0) (k : Kept user I) where
  open k use {on_event-keeps, wake_up-keeps, keys-keep}

  meanwhile-keeps : {A : Type 0} (r : Round A) (s : EvenLoop) → I s → I (meanwhile r s)
  unfolding meanwhile
  meanwhile-keeps r s h = elim (Bool-cases r.woken) [
    | inl e ↦ rw (e) (wake_up-keeps s h)
    | inr e ↦ rw (e) h
  ]

  asked-keeps :
      {A : Type 0} (process_io : Bool) (r : Round A) (t : EvenLoop) → I t → I (asked process_io r t)
  unfolding asked
  asked-keeps process_io r t h =
      let kvs = to_wait_for process_io t.signal_wakeup_ t.dispatcher_by_key_ in
      meanwhile-keeps r (record t { current_dispatcher_keys_ = keys_of kvs })
        (keys-keep (keys_of kvs) t h)

  -- From the state at the end of the system call.
  pub epoll_round-from :
      (p : ReadyFlags) (ebadf : ℕ) (cms_wait ms_stop : ℤ)
      (r : Round (ℕ → ℤ → Answer (List (ℕ × ℕ)))) (c : ℤ)
      → (t : EvenLoop) → I (meanwhile r t)
      → I (epoll_round user p ebadf cms_wait ms_stop r c t).0
  unfolding epoll_round
  epoll_round-from p ebadf cms_wait ms_stop r c t h =
      on_answer-keeps I (tell_epoll user p ebadf r.socket_error)
        (ms_next false cms_wait ms_stop r.clock c) (r.system_call 128 (to_int c)) (meanwhile r t)
        (λ events.
          tell_epoll-keeps user I on_event-keeps p ebadf r.socket_error events (meanwhile r t))
        h

  pub epoll_round-keeps :
      (p : ReadyFlags) (ebadf : ℕ) (cms_wait ms_stop : ℤ)
      (r : Round (ℕ → ℤ → Answer (List (ℕ × ℕ)))) (c : ℤ)
      → (t : EvenLoop) → I t
      → I (epoll_round user p ebadf cms_wait ms_stop r c t).0
  epoll_round-keeps p ebadf cms_wait ms_stop r c t h =
      epoll_round-from p ebadf cms_wait ms_stop r c t (meanwhile-keeps r t h)

  pub wait_epoll-keeps :
      StartKeeps I
      → (p : ReadyFlags) (ebadf : ℕ) (clock cms_wait : ℤ)
      → (rounds : List (Round (ℕ → ℤ → Answer (List (ℕ × ℕ))))) (s : EvenLoop) → I s
      → I (wait_epoll user p ebadf clock cms_wait rounds s).state
  unfolding wait_epoll
  wait_epoll-keeps start-keeps p ebadf clock cms_wait rounds s h =
      while_waiting-keeps (λ t. t.f_wait_)
        (epoll_round user p ebadf cms_wait (ms_stop_of clock cms_wait)) I
        (epoll_round-keeps p ebadf cms_wait (ms_stop_of clock cms_wait)) rounds cms_wait
        (record s { f_wait_ = true }) (start-keeps s h)

  -- From the state at the end of the system call.
  pub poll_round-from :
      (p : ReadyFlags) (ebadf : ℕ) (cms_wait ms_stop : ℤ) (process_io : Bool)
      → (r : Round (List Pollfd → ℤ → Answer (ℕ → ℕ))) (c : ℤ) (t : EvenLoop)
      → I (asked process_io r t)
      → I (poll_round user p ebadf cms_wait ms_stop process_io r c t).0
  unfolding poll_round asked
  poll_round-from p ebadf cms_wait ms_stop process_io r c t h =
      let kvs = to_wait_for process_io t.signal_wakeup_ t.dispatcher_by_key_ in
      let at_end = asked process_io r t in
      on_answer-keeps I
        (λ revents u. tell_poll user p ebadf r.socket_error revents 0 u.current_dispatcher_keys_ u)
        (ms_next true cms_wait ms_stop r.clock c) (r.system_call (pollfds_of p t kvs) (to_int c))
        at_end
        (λ revents.
          tell_poll-keeps user I on_event-keeps p ebadf r.socket_error revents 0
            at_end.current_dispatcher_keys_ at_end)
        h

  pub poll_round-keeps :
      (p : ReadyFlags) (ebadf : ℕ) (cms_wait ms_stop : ℤ) (process_io : Bool)
      → (r : Round (List Pollfd → ℤ → Answer (ℕ → ℕ))) (c : ℤ) (t : EvenLoop) → I t
      → I (poll_round user p ebadf cms_wait ms_stop process_io r c t).0
  poll_round-keeps p ebadf cms_wait ms_stop process_io r c t h =
      poll_round-from p ebadf cms_wait ms_stop process_io r c t (asked-keeps process_io r t h)

  pub wait_poll-keeps :
      StartKeeps I
      → (p : ReadyFlags) (ebadf : ℕ) (clock cms_wait : ℤ) (process_io : Bool)
      → (rounds : List (Round (List Pollfd → ℤ → Answer (ℕ → ℕ)))) (s : EvenLoop) → I s
      → I (wait_poll user p ebadf clock cms_wait process_io rounds s).state
  unfolding wait_poll
  wait_poll-keeps start-keeps p ebadf clock cms_wait process_io rounds s h =
      while_waiting-keeps (λ t. t.f_wait_)
        (poll_round user p ebadf cms_wait (ms_stop_of clock cms_wait) process_io) I
        (poll_round-keeps p ebadf cms_wait (ms_stop_of clock cms_wait) process_io) rounds cms_wait
        (record s { f_wait_ = true }) (start-keeps s h)

  -- From the state at the end of the system call.
  pub select_round-from :
      (ebadf : ℕ) (stop_us : ℤ) (process_io : Bool)
      → (r : Round (Sets → Option Timeval → Answer ((ℕ → Bool) × (ℕ → Bool)))) (c : Option Timeval)
      → (t : EvenLoop) → I (asked process_io r t)
      → I (select_round user ebadf stop_us process_io r c t).0
  unfolding select_round asked
  select_round-from ebadf stop_us process_io r c t h =
      let kvs = to_wait_for process_io t.signal_wakeup_ t.dispatcher_by_key_ in
      let at_end = asked process_io r t in
      on_answer-keeps I
        (λ fds u. tell_select user ebadf r.socket_error u.current_dispatcher_keys_ fds.0 fds.1 u)
        (select_next stop_us r.clock c) (r.system_call (select_sets t kvs) c) at_end
        (λ fds.
          tell_select-keeps user I on_event-keeps ebadf r.socket_error
            at_end.current_dispatcher_keys_ fds.0 fds.1 at_end)
        h

  pub select_round-keeps :
      (ebadf : ℕ) (stop_us : ℤ) (process_io : Bool)
      → (r : Round (Sets → Option Timeval → Answer ((ℕ → Bool) × (ℕ → Bool)))) (c : Option Timeval)
      → (t : EvenLoop) → I t
      → I (select_round user ebadf stop_us process_io r c t).0
  select_round-keeps ebadf stop_us process_io r c t h =
      select_round-from ebadf stop_us process_io r c t (asked-keeps process_io r t h)

  pub wait_select-keeps :
      StartKeeps I
      → (ebadf : ℕ) (clock cms_wait : ℤ) (process_io : Bool)
      → (rounds : List (Round (Sets → Option Timeval → Answer ((ℕ → Bool) × (ℕ → Bool)))))
        (s : EvenLoop)
      → I s
      → I (wait_select user ebadf clock cms_wait process_io rounds s).state
  unfolding wait_select
  wait_select-keeps start-keeps ebadf clock cms_wait process_io rounds s h =
      while_waiting-keeps (λ t. t.f_wait_)
        (select_round user ebadf (stop_us_of clock cms_wait) process_io) I
        (select_round-keeps ebadf (stop_us_of clock cms_wait) process_io) rounds
        (timeval_of cms_wait) (record s { f_wait_ = true }) (start-keeps s h)

  -- The dispatcher is not looked up: `I` must also be kept when it is told without a key.
  module _ (dispatcher : ℕ)
      (told_keeps : (call : Call) (t : EvenLoop)
        → call.dispatcher ≡ dispatcher
        → I t
        → I (on_event user call t)) where
    -- From the state at the end of the system call.
    pub one_round-from :
        (p : ReadyFlags) (ebadf : ℕ) (cms_wait ms_stop : ℤ) (r : Round (Pollfd → ℤ → Answer ℕ))
        (c : ℤ)
        → (t : EvenLoop) → I (meanwhile r t)
        → I (one_round user p ebadf cms_wait ms_stop dispatcher r c t).0
    unfolding one_round
    one_round-from p ebadf cms_wait ms_stop r c t h =
        let asked = meanwhile r t in
        on_answer-keeps I
          (λ revents.
            process_poll_events user p ebadf dispatcher revents (r.socket_error dispatcher))
          (ms_next true cms_wait ms_stop r.clock c)
          (r.system_call (dispatcher_to_pollfd p t dispatcher) (to_int c)) asked
          (λ revents m.
            process_poll_events-keeps user I p ebadf dispatcher revents (r.socket_error dispatcher)
              asked (λ call same. told_keeps call asked same m) m)
          h

    pub one_round-keeps :
        (p : ReadyFlags) (ebadf : ℕ) (cms_wait ms_stop : ℤ) (r : Round (Pollfd → ℤ → Answer ℕ))
        (c : ℤ)
        → (t : EvenLoop) → I t
        → I (one_round user p ebadf cms_wait ms_stop dispatcher r c t).0
    one_round-keeps p ebadf cms_wait ms_stop r c t h =
        one_round-from p ebadf cms_wait ms_stop r c t (meanwhile-keeps r t h)

    pub wait_poll_one_dispatcher-keeps :
        StartKeeps I
        → (p : ReadyFlags) (ebadf : ℕ) (clock cms_wait : ℤ)
        → (rounds : List (Round (Pollfd → ℤ → Answer ℕ))) (s : EvenLoop) → I s
        → I (wait_poll_one_dispatcher user p ebadf clock cms_wait dispatcher rounds s).state
    unfolding wait_poll_one_dispatcher
    wait_poll_one_dispatcher-keeps start-keeps p ebadf clock cms_wait rounds s h =
        while_waiting-keeps (λ t. t.f_wait_)
          (one_round user p ebadf cms_wait (ms_stop_of clock cms_wait) dispatcher) I
          (one_round-keeps p ebadf cms_wait (ms_stop_of clock cms_wait)) rounds cms_wait
          (record s { f_wait_ = true }) (start-keeps s h)
