-- ===== src/EvenLoop/Waits/Timevals.antt =====
-- The timeouts that WaitSelect gives to select.
use io_base.Base.{
  ℕ, zero, suc, ◌+◌, ◌*◌, ◌/◌, ◌%◌, ◌<◌, ◌≤◌, ◌≡◌, refl, subst, ap, Bool, true, false, Option, none,
  some, List, All, arith,
}
use io_base.Base.Int.{ℤ, pos, negsuc, ◌≤ℤ◌, ◌-ℤ◌, ◌+ℤ◌, ltb_ℤ, quot-pos, rem-pos, times-pos}
use io_base.Time.{time_micros}
use io_base.EvenLoop.Defs.{EvenLoop, Call}
use io_base.EvenLoop.Waits.Loop.{Answer, Round, Next}
use io_base.EvenLoop.Waits.Defs.{to_wait_for, keys_of, meanwhile}
use io_base.EvenLoop.Waits.Select.{
  Sets, Timeval, timeval_of, time_left, stop_us_of, select_next, select_sets, select_round,
  tell_select, wait_select,
}
use io_base.EvenLoop.Waits.Timeouts.{
  to_int_same, same_timeout, while_waiting-timeouts, on_answer-next, time_left_bound,
}
use Next.{goes_on}

-- A timeval as select wants it, and of at most `k` milliseconds.
unfoldable pub IsTimeval : (k : ℕ) → Option Timeval → Type 0
IsTimeval k o =
    (sec : ℕ) × (usec : ℕ) × (o ≡ some (record { tv_sec = pos sec; tv_usec = pos usec }))
    × (usec < 1000000)
    × (sec * 1000000 + usec ≤ k * 1000)

nothing_left :
    (a : ℤ) → ltb_ℤ (pos 0) a ≡ false → time_left a ≡ record { tv_sec = pos 0; tv_usec = pos 0 }
unfolding time_left
nothing_left a h = rw (h) refl

something_left :
    (n : ℕ)
    → ltb_ℤ (pos 0) (pos n) ≡ true
    → time_left (pos n) ≡ record { tv_sec = pos (n / 1000000); tv_usec = pos (n % 1000000) }
unfolding time_left
something_left n h = rw (h, quot-pos n 999999, rem-pos n 999999) refl

time_left-IsTimeval :
    (k : ℕ) (left : ℤ) → left ≤ℤ pos (k * 1000) → IsTimeval k (some (time_left left))
unfolding IsTimeval
time_left-IsTimeval k (pos zero) h =
    (0, 0, ap some (nothing_left (pos 0) refl), omega arith, omega arith)
time_left-IsTimeval k (pos (suc n)) h = (
  suc n / 1000000,
  suc n % 1000000,
  ap some (something_left (suc n) (ground arith)),
  omega arith,
  let small : suc n ≤ k * 1000 = ground arith in omega (arith, small),
)
time_left-IsTimeval k (negsuc n) h =
    (0, 0, ap some (nothing_left (negsuc n) (ground arith)), omega arith, omega arith)

timeval_of-IsTimeval : (k : ℕ) → IsTimeval k (timeval_of (pos k))
unfolding timeval_of IsTimeval
timeval_of-IsTimeval k = (
  k / 1000,
  k % 1000 * 1000,
  rw (quot-pos k 999, rem-pos k 999, times-pos (k % 1000) 1000) refl,
  omega arith,
  omega arith,
)

stop_us :
    (clock : ℤ) (k : ℕ)
    → k ≤ 2147483
    → stop_us_of clock (pos k) ≡ time_micros clock +ℤ pos (k * 1000)
unfolding stop_us_of
stop_us clock k small = rw (times-pos k 1000) (
    ap (λ a. time_micros clock +ℤ a)
      (to_int_same (pos (k * 1000)) (pos 2147483647) (omega arith) (omega (arith, small))
        (omega arith)))

select_next-IsTimeval :
    (k : ℕ) (clock0 clock : ℤ) (c d : Option Timeval)
    → k ≤ 2147483
    → time_micros clock0 ≤ℤ time_micros clock
    → IsTimeval k c
    → select_next (stop_us_of clock0 (pos k)) clock c ≡ goes_on d
    → IsTimeval k d
unfolding select_next IsTimeval
select_next-IsTimeval k clock0 clock none d small later h e =
    absurd (let (sec, usec, same, below, within) = h in cc)
select_next-IsTimeval k clock0 clock (some tv) d small later h e =
    subst (IsTimeval k) (same_timeout _ _ d refl e) (
      time_left-IsTimeval k (stop_us_of clock0 (pos k) -ℤ time_micros clock) (
        rw (stop_us clock0 k small)
          (time_left_bound (time_micros clock0) (pos (k * 1000)) (time_micros clock) later)))

-- Every timeout that WaitSelect gives to select is a timeval with less than a million microseconds, and no longer
-- than the timeout of Wait; the conditions are that this is at most 2147483 milliseconds, for which the product
-- with 1000 is an int, and that the clock does not go back behind the start of the wait.
wait_select-IsTimeval :
    (user : Call → EvenLoop → EvenLoop) (ebadf : ℕ) (clock : ℤ) (k : ℕ) (process_io : Bool)
    → k ≤ 2147483
    → (rounds : List (Round (Sets → Option Timeval → Answer ((ℕ → Bool) × (ℕ → Bool)))))
    → All (λ r. time_micros clock ≤ℤ time_micros r.clock) rounds
    → (s : EvenLoop)
    → All (IsTimeval k) (wait_select user ebadf clock (pos k) process_io rounds s).timeouts
unfolding wait_select select_round
wait_select-IsTimeval user ebadf clock k process_io small rounds not_before s =
    let stop = stop_us_of clock (pos k) in
    while_waiting-timeouts (λ t. t.f_wait_) (select_round user ebadf stop process_io)
      (λ r. time_micros clock ≤ℤ time_micros r.clock) (IsTimeval k)
      (λ r c d t q h e.
        let kvs = to_wait_for process_io t.signal_wakeup_ t.dispatcher_by_key_ in
        select_next-IsTimeval k clock r.clock c d small q h (
          on_answer-next
            (λ fds u.
              tell_select user ebadf r.socket_error u.current_dispatcher_keys_ fds.0 fds.1 u)
            (select_next stop r.clock c) (r.system_call (select_sets t kvs) c)
            (meanwhile r (record t { current_dispatcher_keys_ = keys_of kvs })) d e))
      rounds (timeval_of (pos k)) (record s { f_wait_ = true }) not_before (timeval_of-IsTimeval k)
