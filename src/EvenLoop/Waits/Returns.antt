-- ===== src/EvenLoop/Waits/Returns.antt =====
-- When the waits in milliseconds return: at the deadline, and when the system reports a wake-up.
use io_base.Base.{ℕ, ◌≡◌, ◌≢◌, refl, Bool, true, false, none, List, ◌∷◌, ◌++◌, arith}
use io_base.Base.Int.{ℤ, pos, ◌<ℤ◌, ltb_ℤ, leb_ℤ, -ℤ_parts, ◌-ℤ◌}
use io_base.Time.{time_after, time_millis, time_diff}
use io_base.EvenLoop.Defs.{EvenLoop, Call, ReadyFlags, process_poll_events}
use io_base.EvenLoop.Waits.Loop.{Answer, Round, Next, ms_next, ms_stop_of, is_forever, to_int}
use io_base.EvenLoop.Waits.Defs.{
  Pollfd, to_wait_for, keys_of, pollfds_of, dispatcher_to_pollfd, tell_poll, on_answer, meanwhile,
  tell_epoll, epoll_round, one_round, poll_round, wait_epoll, wait_poll, wait_poll_one_dispatcher,
}
use io_base.EvenLoop.Waits.Ends.{Ends, while_waiting-returns}
use io_base.EvenLoop.Waits.Select.{Schedule}
use Answer.{failed, interrupted, timed_out, ready}
use Next.{returns}

on_answer-Ends :
    {A C S : Type 0} (f_wait : S → Bool) (tell : A → S → S) (next : Next C) (a : Answer A) (s : S)
    (b : Bool)
    → next ≡ returns b
    → Ends f_wait (on_answer tell next a s)
unfolding on_answer Ends
on_answer-Ends f_wait tell next failed s b e = tt
on_answer-Ends f_wait tell next interrupted s b e = rw (e) tt
on_answer-Ends f_wait tell next timed_out s b e = tt
on_answer-Ends f_wait tell next (ready a) s b e = rw (e) tt

negative : (a b : ℤ) → a <ℤ b → (ltb_ℤ (a -ℤ b) (pos 0) ≡ true) × (leb_ℤ (a -ℤ b) (pos 0) ≡ true)
negative a b h = (ground (arith, -ℤ_parts a b), ground (arith, -ℤ_parts a b))

past_deadline :
    (at_deadline : Bool) (clock0 cms_wait clock ms_wait : ℤ)
    → is_forever cms_wait ≡ false
    → time_after clock0 cms_wait <ℤ time_millis clock
    → ms_next at_deadline cms_wait (ms_stop_of clock0 cms_wait) clock ms_wait ≡ returns true
unfolding ms_next ms_stop_of time_diff
past_deadline true clock0 cms_wait clock ms_wait finite past =
    rw (finite, (negative (time_after clock0 cms_wait) (time_millis clock) past).0) refl
past_deadline false clock0 cms_wait clock ms_wait finite past =
    rw (finite, (negative (time_after clock0 cms_wait) (time_millis clock) past).1) refl

module _ (user : Call → EvenLoop → EvenLoop) (p : ReadyFlags) (ebadf : ℕ) (clock cms_wait : ℤ)
    (finite : is_forever cms_wait ≡ false) where
  epoll-past_deadline :
      (before after : List (Round (ℕ → ℤ → Answer (List (ℕ × ℕ)))))
      (r : Round (ℕ → ℤ → Answer (List (ℕ × ℕ))))
      → time_after clock cms_wait <ℤ time_millis r.clock
      → (s : EvenLoop)
      → (wait_epoll user p ebadf clock cms_wait (before ++ r ∷ after) s).returned ≢ none
  unfolding wait_epoll epoll_round
  epoll-past_deadline before after r past s =
      let stop = ms_stop_of clock cms_wait in
      while_waiting-returns (λ t. t.f_wait_) (epoll_round user p ebadf cms_wait stop) (λ _. Unit)
        (λ _ _ _ _. tt) before r after
        (λ c t _.
          on_answer-Ends (λ u. u.f_wait_) (tell_epoll user p ebadf r.socket_error)
            (ms_next false cms_wait stop r.clock c) (r.system_call 128 (to_int c)) (meanwhile r t)
            true (past_deadline false clock cms_wait r.clock c finite past))
        cms_wait (record s { f_wait_ = true }) tt

  one-past_deadline :
      (dispatcher : ℕ) (before after : List (Round (Pollfd → ℤ → Answer ℕ)))
      (r : Round (Pollfd → ℤ → Answer ℕ))
      → time_after clock cms_wait <ℤ time_millis r.clock
      → (s : EvenLoop)
      → (wait_poll_one_dispatcher user p ebadf clock cms_wait dispatcher
          (before ++ r ∷ after)
          s).returned
        ≢ none
  unfolding wait_poll_one_dispatcher one_round
  one-past_deadline dispatcher before after r past s =
      let stop = ms_stop_of clock cms_wait in
      while_waiting-returns (λ t. t.f_wait_) (one_round user p ebadf cms_wait stop dispatcher)
        (λ _. Unit) (λ _ _ _ _. tt) before r after
        (λ c t _.
          on_answer-Ends (λ u. u.f_wait_)
            (λ revents.
              process_poll_events user p ebadf dispatcher revents (r.socket_error dispatcher))
            (ms_next true cms_wait stop r.clock c)
            (r.system_call (dispatcher_to_pollfd p t dispatcher) (to_int c)) (meanwhile r t) true
            (past_deadline true clock cms_wait r.clock c finite past))
        cms_wait (record s { f_wait_ = true }) tt

  poll-past_deadline :
      (process_io : Bool) (before after : List (Round (List Pollfd → ℤ → Answer (ℕ → ℕ))))
      → (r : Round (List Pollfd → ℤ → Answer (ℕ → ℕ)))
      → time_after clock cms_wait <ℤ time_millis r.clock
      → (s : EvenLoop)
      → (wait_poll user p ebadf clock cms_wait process_io (before ++ r ∷ after) s).returned ≢ none
  unfolding wait_poll poll_round
  poll-past_deadline process_io before after r past s =
      let stop = ms_stop_of clock cms_wait in
      while_waiting-returns (λ t. t.f_wait_) (poll_round user p ebadf cms_wait stop process_io)
        (λ _. Unit) (λ _ _ _ _. tt) before r after
        (λ c t _.
          let kvs = to_wait_for process_io t.signal_wakeup_ t.dispatcher_by_key_ in
          on_answer-Ends (λ u. u.f_wait_)
            (λ revents u.
              tell_poll user p ebadf r.socket_error revents 0 u.current_dispatcher_keys_ u)
            (ms_next true cms_wait stop r.clock c) (r.system_call (pollfds_of p t kvs) (to_int c))
            (meanwhile r (record t { current_dispatcher_keys_ = keys_of kvs })) true
            (past_deadline true clock cms_wait r.clock c finite past))
        cms_wait (record s { f_wait_ = true }) tt

-- A wait by epoll or by poll with a timeout returns at the latest in the first round at whose end the clock is past the deadline,
-- which is the time at its start and the timeout, whatever the system answers.
pub waits-past_deadline :
    (user : Call → EvenLoop → EvenLoop) (p : ReadyFlags) (ebadf : ℕ) (clock cms_wait : ℤ)
    (dispatcher : ℕ) (process_io : Bool) (s : EvenLoop)
    → is_forever cms_wait ≡ false
    → (before after : Schedule) (r : Round (ℕ → ℤ → Answer (List (ℕ × ℕ))))
      (q : Round (Pollfd → ℤ → Answer ℕ))
    → (t : Round (List Pollfd → ℤ → Answer (ℕ → ℕ)))
    → time_after clock cms_wait <ℤ time_millis r.clock
    → time_after clock cms_wait <ℤ time_millis q.clock
    → time_after clock cms_wait <ℤ time_millis t.clock
    → ((wait_epoll user p ebadf clock cms_wait (before.to_epoll ++ r ∷ after.to_epoll) s).returned
        ≢ none)
      × ((wait_poll_one_dispatcher user p ebadf clock cms_wait dispatcher
            (before.to_poll_one ++ q ∷ after.to_poll_one)
            s).returned
          ≢ none)
      × ((wait_poll user p ebadf clock cms_wait process_io
            (before.to_poll ++ t ∷ after.to_poll)
            s).returned
          ≢ none)
waits-past_deadline user p ebadf clock cms_wait dispatcher process_io s finite before after r q t
      past_r past_q past_t =
    (
      epoll-past_deadline user p ebadf clock cms_wait finite before.to_epoll after.to_epoll r past_r
          s,
      one-past_deadline user p ebadf clock cms_wait finite dispatcher before.to_poll_one
          after.to_poll_one q past_q s,
      poll-past_deadline user p ebadf clock cms_wait finite process_io before.to_poll after.to_poll
          t past_t s,
    )
