-- ===== src/EvenLoop/Waits/Timeouts.antt =====
-- The timeouts that the waits in milliseconds give to the system.
use io_base.Base.{
  ℕ, zero, suc, ◌<◌, ◌≡◌, refl, sym, ap, ◌∙◌, subst, if◌then◌else◌, Bool, true, false, List, [],
  ◌∷◌, All, arith, Bool-cases, inl, inr,
}
use io_base.Base.Int.{ℤ, pos, negsuc, ◌≤ℤ◌, ltb_ℤ, leb_ℤ, -ℤ_parts, +ℤ_parts, ◌-ℤ◌, ◌+ℤ◌}
use io_base.Time.{time_after, time_millis, time_diff}
use io_base.EvenLoop.Defs.{EvenLoop, Call, ReadyFlags, process_poll_events}
use io_base.EvenLoop.Waits.Loop.{
  Answer, Round, Next, Outcome, ms_next, ms_stop_of, is_forever, forever_ms, while_waiting,
  after_round, to_int,
}
use io_base.EvenLoop.Waits.Defs.{
  to_wait_for, keys_of, pollfds_of, dispatcher_to_pollfd, tell_epoll, tell_poll, meanwhile,
  on_answer, wait_epoll, wait_poll, wait_poll_one_dispatcher, epoll_round, one_round, poll_round,
}
use io_base.EvenLoop.Waits.Select.{Schedule}
use Answer.{failed, interrupted, timed_out, ready}
use Next.{returns, goes_on}

module _ {S R C : Type 0} (f_wait : S → Bool) (round : R → C → S → S × Next C) (Q : R → Type 0)
    (P : C → Type 0) where
  after_round-timeouts :
      (c : C) (s : S) (next : Next C) (rest : C → S → Outcome S C)
      → P c
      → ((d : C) → next ≡ goes_on d → All P (rest d s).timeouts)
      → All P (after_round c s next rest).timeouts
  unfolding after_round
  after_round-timeouts c s (returns b) rest h k = (h, tt)
  after_round-timeouts c s (goes_on d) rest h k = (h, k d refl)

  -- Every timeout has a property that the first has and each round passes on to the next.
  pub while_waiting-timeouts :
      ((r : R) (c d : C) (s : S) → Q r → P c → (round r c s).1 ≡ goes_on d → P d)
      → (rs : List R) (c : C) (s : S) → All Q rs
      → P c
      → All P (while_waiting f_wait round rs c s).timeouts
  unfolding while_waiting
  while_waiting-timeouts step [] c s q h = tt
  while_waiting-timeouts step (r ∷ rs) c s q h = elim (Bool-cases (f_wait s)) [
    | inl waits ↦ rw (waits) (
        after_round-timeouts c (round r c s).0 (round r c s).1 (while_waiting f_wait round rs) h
          (λ d e. while_waiting-timeouts step rs d (round r c s).0 q.1 (step r c d s q.0 h e)))
    | inr over ↦ rw (over) tt
  ]

pub on_answer-next :
    {A C S : Type 0} (tell : A → S → S) (next : Next C) (a : Answer A) (s : S) (d : C)
    → (on_answer tell next a s).1 ≡ goes_on d
    → next ≡ goes_on d
unfolding on_answer
on_answer-next tell next failed s d e = absurd (cc)
on_answer-next tell next interrupted s d e = e
on_answer-next tell next timed_out s d e = absurd (cc)
on_answer-next tell next (ready a) s d e = e

-- A timeout that is passed on as it is: at most `cms_wait` and not negative, or no timeout at all.
unfoldable pub IsTimeout : (cms_wait : ℤ) → ℤ → Type 0
IsTimeout cms_wait c =
    (to_int c ≡ c)
    × (if is_forever cms_wait then c ≡ forever_ms else (pos 0 ≤ℤ c) × (c ≤ℤ cms_wait))

pub to_int_same :
    (c cms_wait : ℤ) → pos 0 ≤ℤ c → c ≤ℤ cms_wait → cms_wait ≤ℤ pos 2147483647 → to_int c ≡ c
to_int_same (pos n) cms_wait h k l = let small : n < 2147483648 = ground arith in ground arith
to_int_same (negsuc n) cms_wait h k l = absurd (ground arith)

pub time_left_bound : (start cms now : ℤ) → start ≤ℤ now → ((start +ℤ cms) -ℤ now) ≤ℤ cms
time_left_bound start cms now h = ground (arith, -ℤ_parts (start +ℤ cms) now, +ℤ_parts start cms)

timeout_or : {C : Type 0} → C → Next C → C
timeout_or c (returns b) = c
timeout_or c (goes_on d) = d

pub same_timeout :
    {C : Type 0} (next : Next C) (c d : C) → next ≡ goes_on c → next ≡ goes_on d → c ≡ d
unfolding timeout_or
same_timeout next c d h e = ap (timeout_or c) (sym h ∙ e)

no_time_left :
    (b : Bool) (left d : ℤ)
    → (if b then returns true else goes_on left) ≡ goes_on d
    → (b ≡ false) × (left ≡ d)
no_time_left true left d e = absurd (cc)
no_time_left false left d e = (refl, same_timeout (goes_on left) left d refl e)

not_negative :
    (at_deadline : Bool) (left : ℤ)
    → (if at_deadline then ltb_ℤ left (pos 0) else leb_ℤ left (pos 0)) ≡ false
    → pos 0 ≤ℤ left
not_negative true left h = ground arith
not_negative false left h = ground arith

ms_next-IsTimeout :
    (at_deadline : Bool) (clock0 clock cms_wait c d : ℤ)
    → cms_wait ≤ℤ pos 2147483647
    → time_millis clock0 ≤ℤ time_millis clock
    → IsTimeout cms_wait c
    → ms_next at_deadline cms_wait (ms_stop_of clock0 cms_wait) clock c ≡ goes_on d
    → IsTimeout cms_wait d
unfolding ms_next ms_stop_of time_after time_diff IsTimeout
ms_next-IsTimeout at_deadline clock0 clock cms_wait c d small later h e =
    let left = time_diff (time_after clock0 cms_wait) (time_millis clock) in
    let ended = if at_deadline then ltb_ℤ left (pos 0) else leb_ℤ left (pos 0) in
    elim (Bool-cases (is_forever cms_wait)) [
      | inl forever ↦
          let same = same_timeout _ c d (rw (forever) refl) e in subst (IsTimeout cms_wait) same h
      | inr finite ↦
          let unfolded : ms_next at_deadline cms_wait (ms_stop_of clock0 cms_wait) clock c
              ≡ (if ended then returns true else goes_on left) =
            rw (finite) refl in
          let (running, same) = no_time_left ended left d (sym unfolded ∙ e) in
          let above = not_negative at_deadline left running in
          let below = time_left_bound (time_millis clock0) cms_wait (time_millis clock) later in
          subst (IsTimeout cms_wait) same
            (to_int_same left cms_wait above below small, rw (finite) (above, below))
    ]

first-IsTimeout :
    (cms_wait : ℤ)
    → forever_ms ≤ℤ cms_wait
    → cms_wait ≤ℤ pos 2147483647
    → IsTimeout cms_wait cms_wait
unfolding IsTimeout
first-IsTimeout (pos n) low small =
    (to_int_same (pos n) (pos n) (ground arith) (ground arith) small, ground arith)
first-IsTimeout (negsuc zero) low small = (refl, refl)
first-IsTimeout (negsuc (suc n)) low small = absurd (ground arith)

-- The clock at the end of a round is not before the clock at the start.
abbrev pub NotBefore : {A : Type 0} → (clock : ℤ) → Round A → Type 0
NotBefore clock r = time_millis clock ≤ℤ time_millis r.clock

-- Every timeout that the waits by epoll and by poll give to the system is the one of Wait if it waits forever,
-- and otherwise between 0 and the timeout of Wait, so never the -1 of an endless wait, and the conversion to int
-- leaves it as it is; the conditions are that the timeout of Wait is -1 or more, and that the clock does not go
-- back behind the start of the wait.
pub waits-IsTimeout :
    (user : Call → EvenLoop → EvenLoop) (p : ReadyFlags) (ebadf : ℕ) (clock cms_wait : ℤ)
    (dispatcher : ℕ) (process_io : Bool) (s : EvenLoop)
    → forever_ms ≤ℤ cms_wait
    → cms_wait ≤ℤ pos 2147483647
    → (q : Schedule) → All (NotBefore clock) q.to_epoll
    → All (NotBefore clock) q.to_poll_one
    → All (NotBefore clock) q.to_poll
    → All (IsTimeout cms_wait) (wait_epoll user p ebadf clock cms_wait q.to_epoll s).timeouts
      × All
          (IsTimeout cms_wait)
          (wait_poll_one_dispatcher user p ebadf clock cms_wait dispatcher q.to_poll_one s).timeouts
      × All
          (IsTimeout cms_wait)
          (wait_poll user p ebadf clock cms_wait process_io q.to_poll s).timeouts
unfolding wait_epoll wait_poll wait_poll_one_dispatcher epoll_round poll_round one_round
waits-IsTimeout user p ebadf clock cms_wait dispatcher process_io s low small q at_epoll at_one
      at_poll =
    let stop = ms_stop_of clock cms_wait in
    let first = first-IsTimeout cms_wait low small in
    (
      while_waiting-timeouts (λ t. t.f_wait_) (epoll_round user p ebadf cms_wait stop)
          (NotBefore clock) (IsTimeout cms_wait)
          (λ r c d t k h e. ms_next-IsTimeout false clock r.clock cms_wait c d small k h (
            on_answer-next (tell_epoll user p ebadf r.socket_error)
              (ms_next false cms_wait stop r.clock c) (r.system_call 128 (to_int c)) (meanwhile r t)
              d e))
          q.to_epoll cms_wait (record s { f_wait_ = true }) at_epoll first,
      while_waiting-timeouts (λ t. t.f_wait_) (one_round user p ebadf cms_wait stop dispatcher)
          (NotBefore clock) (IsTimeout cms_wait)
          (λ r c d t k h e. ms_next-IsTimeout true clock r.clock cms_wait c d small k h (
            on_answer-next
              (λ revents.
                process_poll_events user p ebadf dispatcher revents (r.socket_error dispatcher))
              (ms_next true cms_wait stop r.clock c)
              (r.system_call (dispatcher_to_pollfd p t dispatcher) (to_int c)) (meanwhile r t) d e))
          q.to_poll_one cms_wait (record s { f_wait_ = true }) at_one first,
      while_waiting-timeouts (λ t. t.f_wait_) (poll_round user p ebadf cms_wait stop process_io)
          (NotBefore clock) (IsTimeout cms_wait)
          (λ r c d t k h e.
            let kvs = to_wait_for process_io t.signal_wakeup_ t.dispatcher_by_key_ in
            ms_next-IsTimeout true clock r.clock cms_wait c d small k h (
              on_answer-next
                (λ revents u.
                  tell_poll user p ebadf r.socket_error revents 0 u.current_dispatcher_keys_ u)
                (ms_next true cms_wait stop r.clock c)
                (r.system_call (pollfds_of p t kvs) (to_int c))
                (meanwhile r (record t { current_dispatcher_keys_ = keys_of kvs })) d e))
          q.to_poll cms_wait (record s { f_wait_ = true }) at_poll first,
    )
