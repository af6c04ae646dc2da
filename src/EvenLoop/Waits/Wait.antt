-- ===== src/EvenLoop/Waits/Wait.antt =====
-- Wait on POSIX. How it waits is chosen by the build: by poll, by epoll if its descriptor is valid, or by
-- select. What the system answers to each kind of call is given.
use io_base.Base.{
  ℕ, ◌≡◌, refl, if◌then◌else◌, Bool, true, false, not, Option, none, some, arith, Bool-cases, inl,
  inr,
}
use io_base.Base.Int.{ℤ, pos, negsuc, ◌≤ℤ◌, max_ℤ}
use io_base.Duration.{Durations}
use io_base.EvenLoop.Defs.{EvenLoop, Call, ReadyFlags}
use io_base.EvenLoop.Waits.Loop.{Outcome, to_cms_wait, is_forever}
use io_base.EvenLoop.Waits.Defs.{wait_epoll, wait_poll, wait_poll_one_dispatcher}
use io_base.EvenLoop.Waits.Select.{Schedule, wait_select}
use io_base.EvenLoop.Waits.Timeouts.{to_int_same}

pub data Build : Type 0 where
  uses_poll : Build
  uses_epoll : (epoll_fd_is_valid : Bool) → Build
  uses_select : Build

-- ScopedSetTrue: `waiting_` is cleared when the wait returns.
unfoldable pub leave_scope : {C : Type 0} → Outcome EvenLoop C → EvenLoop × Option Bool
leave_scope o =
    (elim o.returned [ none ↦ o.state | some b ↦ record o.state { waiting_ = false } ], o.returned)

module _ (user : Call → EvenLoop → EvenLoop) (p : ReadyFlags) (ebadf : ℕ) (c : Durations) where
  unfoldable pub wait :
      Build
      → (clock : ℤ) (max_wait_duration : Durations.Duration c) (process_io : Bool) → Schedule
      → EvenLoop
      → EvenLoop × Option Bool
  unfolding wait_epoll wait_poll wait_poll_one_dispatcher wait_select to_cms_wait leave_scope
  wait build clock max_wait_duration process_io schedule s =
      let cms_wait = to_cms_wait c max_wait_duration in
      let t : EvenLoop = record s { waiting_ = true } in
      let by_select =
        leave_scope (wait_select user ebadf clock cms_wait process_io schedule.to_select t) in
      elim build [
        | uses_poll ↦
            leave_scope (wait_poll user p ebadf clock cms_wait process_io schedule.to_poll t)
        | uses_epoll epoll_fd_is_valid ↦
            if not process_io
            then leave_scope (
                wait_poll_one_dispatcher user p ebadf clock cms_wait t.signal_wakeup_
                  schedule.to_poll_one t)
            else (if epoll_fd_is_valid
                then leave_scope (wait_epoll user p ebadf clock cms_wait schedule.to_epoll t)
                else by_select)
        | uses_select ↦ by_select
      ]

max_bounds : (a : ℤ) → (pos 1 ≤ℤ max_ℤ (pos 1) a) × (a ≤ℤ max_ℤ (pos 1) a)
max_bounds a = (ground arith, ground arith)

max_small : (a : ℤ) → a ≤ℤ pos 2147483647 → max_ℤ (pos 1) a ≤ℤ pos 2147483647
max_small a h = ground arith

not_negative : (a : ℤ) → pos 1 ≤ℤ a → pos 0 ≤ℤ a
not_negative a h = ground arith

positive-is_forever : (a : ℤ) → pos 1 ≤ℤ a → is_forever a ≡ false
positive-is_forever (pos n) h = refl
positive-is_forever (negsuc n) h = absurd (ground arith)

-- Wait waits forever if it is given an infinite duration, and for no other duration of less than 2^31
-- milliseconds: for these it waits for the whole milliseconds of the duration, but for at least one.
pub to_cms_wait_lem :
    (c : Durations) (d : Durations.Duration c)
    → Durations.to_int64_milliseconds c d ≤ℤ pos 2147483647
    → (is_forever (to_cms_wait c d) ≡ Durations.is_infinite c d)
      × (Durations.is_infinite c d ≡ false
          → (pos 1 ≤ℤ to_cms_wait c d)
            × (to_cms_wait c d ≡ max_ℤ (pos 1) (Durations.to_int64_milliseconds c d)))
unfolding to_cms_wait
to_cms_wait_lem c d small =
    let ms = Durations.to_int64_milliseconds c d in
    let (one, more) = max_bounds ms in
    let same =
      to_int_same (max_ℤ (pos 1) ms) (pos 2147483647) (not_negative (max_ℤ (pos 1) ms) one)
        (max_small ms small) (omega arith) in
    elim (Bool-cases (Durations.is_infinite c d)) [
      | inl infinite ↦ rw (infinite) (refl, λ e. absurd (cc))
      | inr finite ↦
          rw (finite, same) (positive-is_forever (max_ℤ (pos 1) ms) one, λ e. (one, refl))
    ]
