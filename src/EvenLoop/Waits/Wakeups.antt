-- ===== src/EvenLoop/Waits/Wakeups.antt =====
-- A wake-up ends a wait on Linux: by epoll, and by poll on the Signaler alone.
use io_base.Base.{
  ℕ, ◌==◌, ◌≡◌, ◌≢◌, refl, sym, has, bit_or, Bool, true, false, none, some, List, [], ◌∷◌, ◌++◌,
  arith, Bool-cases, Option-cases, inl, inr,
}
use io_base.Base.Int.{ℤ}
use io_base.EvenLoop.Defs.{
  EvenLoop, Dispatcher, Call, ReadyFlags, SocketError, at, on_event, signaler_on_event,
  process_events, process_poll_events, told, error_code,
}
use io_base.EvenLoop.Waits.Loop.{Answer, Round, Next, wake_up, ms_next, ms_stop_of, to_int}
use io_base.EvenLoop.Waits.Defs.{
  Pollfd, dispatcher_to_pollfd, on_answer, meanwhile, tell_epoll, epoll_round, one_round,
  wait_epoll, wait_poll_one_dispatcher,
}
use io_base.EvenLoop.Waits.Ends.{Ends, while_waiting-returns}
use io_base.EvenLoop.Waits.Tells.{tell_epoll-keeps, process_poll_events-keeps}
use io_base.EvenLoop.Waits.Keeps.{Kept, StartKeeps, epoll_round-keeps, on_answer-keeps}
use Answer.{ready}
use Next.{returns, goes_on}

-- A readable dispatcher is told of something.
told_some :
    (d : Dispatcher) (writable : Bool) (errcode : ℕ) → (told d true writable errcode == 0) ≡ false
unfolding told
told_some d writable errcode = ground arith

equal_self : (a : ℕ) → (a == a) ≡ true
equal_self a = ground arith

-- The Signaler is the dispatcher `signaler`, and the loop knows it by `key`.
unfoldable pub IsWakeable : (key signaler : ℕ) → EvenLoop → Type 0
IsWakeable key signaler s = (at key s ≡ some signaler) × (s.signal_wakeup_ ≡ signaler)

-- The wait is over.
unfoldable pub IsStopped : EvenLoop → Type 0
IsStopped s = s.f_wait_ ≡ false

module _ (user : Call → EvenLoop → EvenLoop) where
  process_events-IsStopped :
      (ebadf : ℕ) (writable error_event check_error : Bool) (e : SocketError) (s : EvenLoop)
      → IsStopped
          (process_events user ebadf s.signal_wakeup_ true writable error_event check_error e s)
  unfolding process_events on_event signaler_on_event IsStopped
  process_events-IsStopped ebadf writable error_event check_error e s =
      let errcode = error_code ebadf error_event check_error e in
      rw (told_some (s.dispatchers s.signal_wakeup_) writable errcode, equal_self s.signal_wakeup_)
        refl

  process_poll_events-IsStopped :
      (p : ReadyFlags) (ebadf dispatcher revents : ℕ) (e : SocketError) (s : EvenLoop)
      → dispatcher ≡ s.signal_wakeup_
      → has revents (bit_or p.ready_in p.ready_pri) ≡ true
      → IsStopped (process_poll_events user p ebadf dispatcher revents e s)
  unfolding process_poll_events
  process_poll_events-IsStopped p ebadf dispatcher revents e s same readable =
      let error = has revents (bit_or (bit_or p.ready_rdhup p.ready_err) p.ready_hup) in
      rw (same, readable) (process_events-IsStopped ebadf (has revents p.ready_out) error error e s)

stopped-Ends :
    {C : Type 0} (s : EvenLoop) (next : Next C) → IsStopped s → Ends (λ t. t.f_wait_) (s, next)
unfolding Ends IsStopped
stopped-Ends s (returns b) h = tt
stopped-Ends s (goes_on d) h = h

told-Ends :
    {A C : Type 0} (tell : A → EvenLoop → EvenLoop) (next : Next C) (answer : Answer A) (a : A)
    (s : EvenLoop)
    → answer ≡ ready a
    → IsStopped (tell a s)
    → Ends (λ t. t.f_wait_) (on_answer tell next answer s)
unfolding on_answer
told-Ends tell next answer a s e h = rw (e) (stopped-Ends (tell a s) next h)

-- The other dispatchers neither remove the Signaler nor start the wait again.
module _ (user : Call → EvenLoop → EvenLoop) (key signaler : ℕ)
    (wakes : (call : Call) (s : EvenLoop)
      → IsWakeable key signaler s
      → IsWakeable key signaler (user call s))
    (stops : (call : Call) (s : EvenLoop) → IsStopped s → IsStopped (user call s)) where
  on_event-IsWakeable :
      (call : Call) (s : EvenLoop)
      → IsWakeable key signaler s
      → IsWakeable key signaler (on_event user call s)
  unfolding on_event signaler_on_event IsWakeable
  on_event-IsWakeable call s h = elim (Bool-cases (call.dispatcher == s.signal_wakeup_)) [
    | inl own ↦ rw (own) h
    | inr others ↦ rw (others) (wakes call (record s { calls = s.calls ++ call ∷ [] }) h)
  ]

  on_event-IsStopped : (call : Call) (s : EvenLoop) → IsStopped s → IsStopped (on_event user call s)
  unfolding on_event signaler_on_event IsStopped
  on_event-IsStopped call s h = elim (Bool-cases (call.dispatcher == s.signal_wakeup_)) [
    | inl own ↦ rw (own) refl
    | inr others ↦ rw (others) (stops call (record s { calls = s.calls ++ call ∷ [] }) h)
  ]

  kept : Kept user (IsWakeable key signaler)
  unfolding IsWakeable wake_up
  kept = record {
    on_event-keeps = λ k call s there h. on_event-IsWakeable call s h;
    wake_up-keeps = λ s h. h;
    keys-keep = λ keys s h. h;
  }

  start : StartKeeps (IsWakeable key signaler)
  unfolding IsWakeable
  start s h = h

  tell_epoll-IsStopped :
      (p : ReadyFlags) (ebadf : ℕ) (so_error : ℕ → SocketError) (front : List (ℕ × ℕ)) (events : ℕ)
      (back : List (ℕ × ℕ))
      → has events (bit_or p.ready_in p.ready_pri) ≡ true
      → (s : EvenLoop) → IsWakeable key signaler s
      → IsStopped (tell_epoll user p ebadf so_error (front ++ (key, events) ∷ back) s)
  unfolding tell_epoll IsWakeable
  tell_epoll-IsStopped p ebadf so_error [] events back readable s h =
      rw (h.0, tell_epoll)
        (tell_epoll-keeps user IsStopped (λ k call t there. on_event-IsStopped call t) p ebadf
          so_error back (process_poll_events user p ebadf signaler events (so_error signaler) s)
          (process_poll_events-IsStopped user p ebadf signaler events (so_error signaler) s
            (sym h.1) readable))
  tell_epoll-IsStopped p ebadf so_error ((k, revents) ∷ front) events back readable s h =
      elim (Option-cases (at k s)) [
        | inl absent ↦
            rw (absent, tell_epoll)
              (tell_epoll-IsStopped p ebadf so_error front events back readable s h)
        | inr (dispatcher, there) ↦
            rw (there, tell_epoll)
              (tell_epoll-IsStopped p ebadf so_error front events back readable
                (process_poll_events user p ebadf dispatcher revents (so_error dispatcher) s)
                (process_poll_events-keeps user (IsWakeable key signaler) p ebadf dispatcher revents
                  (so_error dispatcher) s (λ call same. on_event-IsWakeable call s h) h))
      ]

  meanwhile-IsWakeable :
      {A : Type 0} (r : Round A) (s : EvenLoop)
      → IsWakeable key signaler s
      → IsWakeable key signaler (meanwhile r s)
  unfolding meanwhile IsWakeable wake_up
  meanwhile-IsWakeable r s h = elim (Bool-cases r.woken) [ inl e ↦ rw (e) h | inr e ↦ rw (e) h ]

  -- A wait by epoll returns at the latest in a round in which epoll_wait reports that the Signaler is readable,
  -- at any place in what it reports, with or without a timeout, whatever happened in the rounds before, if the
  -- loop has a key for the Signaler and the other dispatchers neither remove it nor set the flag that the loop
  -- waits for.
  pub epoll-wakes :
      (p : ReadyFlags) (ebadf : ℕ) (clock cms_wait : ℤ)
      → (before after : List (Round (ℕ → ℤ → Answer (List (ℕ × ℕ)))))
        (r : Round (ℕ → ℤ → Answer (List (ℕ × ℕ))))
      → (front : List (ℕ × ℕ)) (events : ℕ) (back : List (ℕ × ℕ))
      → ((timeout : ℤ) → r.system_call 128 timeout ≡ ready (front ++ (key, events) ∷ back))
      → has events (bit_or p.ready_in p.ready_pri) ≡ true
      → (s : EvenLoop) → IsWakeable key signaler s
      → (wait_epoll user p ebadf clock cms_wait (before ++ r ∷ after) s).returned ≢ none
  unfolding wait_epoll epoll_round
  epoll-wakes p ebadf clock cms_wait before after r front events back answer readable s h =
      let stop = ms_stop_of clock cms_wait in
      let I = IsWakeable key signaler in
      while_waiting-returns (λ t. t.f_wait_) (epoll_round user p ebadf cms_wait stop) I
        (epoll_round-keeps user I kept p ebadf cms_wait stop) before r after
        (λ c t wakeable.
          told-Ends (tell_epoll user p ebadf r.socket_error) (ms_next false cms_wait stop r.clock c)
            (r.system_call 128 (to_int c)) (front ++ (key, events) ∷ back) (meanwhile r t)
            (answer (to_int c))
            (tell_epoll-IsStopped p ebadf r.socket_error front events back readable (meanwhile r t)
              (meanwhile-IsWakeable r t wakeable)))
        cms_wait (record s { f_wait_ = true }) (start s h)

-- The Signaler is the dispatcher `signaler`.
abbrev IsFor : ℕ → EvenLoop → Type 0
IsFor signaler s = s.signal_wakeup_ ≡ signaler

module _ (user : Call → EvenLoop → EvenLoop) (signaler : ℕ) where
  told-IsFor :
      (call : Call) (s : EvenLoop)
      → call.dispatcher ≡ signaler
      → IsFor signaler s
      → IsFor signaler (on_event user call s)
  unfolding on_event signaler_on_event
  told-IsFor call s same h = elim (Bool-cases (call.dispatcher == s.signal_wakeup_)) [
    | inl own ↦ rw (own) h
    | inr others ↦ absurd (ground (arith, same, h, others))
  ]

  meanwhile-IsFor :
      {A : Type 0} (r : Round A) (s : EvenLoop) → IsFor signaler s → IsFor signaler (meanwhile r s)
  unfolding meanwhile wake_up
  meanwhile-IsFor r s h = elim (Bool-cases r.woken) [ inl e ↦ rw (e) h | inr e ↦ rw (e) h ]

  one_round-IsFor :
      (p : ReadyFlags) (ebadf : ℕ) (cms_wait ms_stop : ℤ) (r : Round (Pollfd → ℤ → Answer ℕ))
      (c : ℤ) (s : EvenLoop)
      → IsFor signaler s
      → IsFor signaler (one_round user p ebadf cms_wait ms_stop signaler r c s).0
  unfolding one_round
  one_round-IsFor p ebadf cms_wait ms_stop r c s h =
      on_answer-keeps (IsFor signaler)
        (λ revents. process_poll_events user p ebadf signaler revents (r.socket_error signaler))
        (ms_next true cms_wait ms_stop r.clock c)
        (r.system_call (dispatcher_to_pollfd p s signaler) (to_int c)) (meanwhile r s)
        (λ revents m.
          process_poll_events-keeps user (IsFor signaler) p ebadf signaler revents
            (r.socket_error signaler) (meanwhile r s)
            (λ call same. told-IsFor call (meanwhile r s) same m) m)
        (meanwhile-IsFor r s h)

-- WaitPollOneDispatcher with the Signaler, which is what Wait does with epoll and without process_io: it returns at
-- the latest in a round in which poll reports that the Signaler is readable, with or without a timeout, whatever the
-- system answers in the rounds before and whoever calls WakeUp in them, in any state of the loop.
pub one-wakes :
    (user : Call → EvenLoop → EvenLoop) (p : ReadyFlags) (ebadf : ℕ) (clock cms_wait : ℤ)
    → (before after : List (Round (Pollfd → ℤ → Answer ℕ))) (r : Round (Pollfd → ℤ → Answer ℕ))
    → (revents : ℕ) → ((fds : Pollfd) (timeout : ℤ) → r.system_call fds timeout ≡ ready revents)
    → has revents (bit_or p.ready_in p.ready_pri) ≡ true
    → (s : EvenLoop)
    → (wait_poll_one_dispatcher user p ebadf clock cms_wait s.signal_wakeup_
        (before ++ r ∷ after)
        s).returned
      ≢ none
unfolding wait_poll_one_dispatcher one_round
one-wakes user p ebadf clock cms_wait before after r revents answer readable s =
    let signaler = s.signal_wakeup_ in
    let stop = ms_stop_of clock cms_wait in
    while_waiting-returns (λ t. t.f_wait_) (one_round user p ebadf cms_wait stop signaler)
      (IsFor signaler) (one_round-IsFor user signaler p ebadf cms_wait stop) before r after
      (λ c t h.
        told-Ends (λ m. process_poll_events user p ebadf signaler m (r.socket_error signaler))
          (ms_next true cms_wait stop r.clock c)
          (r.system_call (dispatcher_to_pollfd p t signaler) (to_int c)) revents (meanwhile r t)
          (answer (dispatcher_to_pollfd p t signaler) (to_int c))
          (process_poll_events-IsStopped user p ebadf signaler revents (r.socket_error signaler)
            (meanwhile r t) (sym (meanwhile-IsFor user signaler r t h)) readable))
      cms_wait (record s { f_wait_ = true }) refl
