-- ===== src/EvenLoop/Waits/Signals.antt =====
-- The Signaler during a wait.
use io_base.Base.{
  ℕ, ◌==◌, ◌≡◌, refl, if◌then◌else◌, Bool, [], ◌∷◌, ◌++◌, arith, Bool-cases, inl, inr,
}
use io_base.Base.Int.{ℤ}
use io_base.EvenLoop.Defs.{EvenLoop, Call, ReadyFlags, on_event, signaler_on_event}
use io_base.EvenLoop.Waits.Loop.{wake_up, signal}
use io_base.EvenLoop.Waits.Defs.{wait_epoll, wait_poll, wait_poll_one_dispatcher}
use io_base.EvenLoop.Waits.Select.{Schedule, wait_select}
use io_base.EvenLoop.Waits.Keeps.{
  Kept, StartKeeps, wait_epoll-keeps, wait_poll-keeps, wait_select-keeps,
  wait_poll_one_dispatcher-keeps,
}

-- The eventfd holds one signal in exactly the case that the flag is set: Signal never adds to a signal
-- that is still there, and OnEvent never reads from an empty eventfd.
unfoldable pub IsConsistent : EvenLoop → Type 0
IsConsistent s = s.signaler.counter ≡ (if s.signaler.f_signaled_ then 1 else 0)

module _ (user : Call → EvenLoop → EvenLoop)
    (keeps : (call : Call) (s : EvenLoop) → IsConsistent s → IsConsistent (user call s)) where
  pub on_event-IsConsistent :
      (call : Call) (s : EvenLoop) → IsConsistent s → IsConsistent (on_event user call s)
  unfolding on_event signaler_on_event IsConsistent
  on_event-IsConsistent call s h = elim (Bool-cases (call.dispatcher == s.signal_wakeup_)) [
    | inl own ↦ rw (own) (elim (Bool-cases s.signaler.f_signaled_) [
      | inl e ↦ rw (e) refl
      | inr e ↦ rw (e) (ground (arith))
    ])
    | inr others ↦ rw (others) (keeps call (record s { calls = s.calls ++ call ∷ [] }) h)
  ]

  pub wake_up-IsConsistent : (s : EvenLoop) → IsConsistent s → IsConsistent (wake_up s)
  unfolding wake_up signal IsConsistent
  wake_up-IsConsistent s h = elim (Bool-cases s.signaler.f_signaled_) [
    | inl e ↦ rw (e) (ground arith)
    | inr e ↦ rw (e) (ground arith)
  ]

  pub kept : Kept user IsConsistent
  unfolding IsConsistent
  kept = record {
    on_event-keeps = λ key call s there h. on_event-IsConsistent call s h;
    wake_up-keeps = wake_up-IsConsistent;
    keys-keep = λ keys s h. h;
  }

  pub start : StartKeeps IsConsistent
  unfolding IsConsistent
  start s h = h

  -- Every wait keeps the eventfd and the flag of the Signaler consistent, whichever dispatchers it tells and
  -- however often other threads call WakeUp in the meantime, if the other dispatchers keep them consistent and
  -- the eventfd could be created: its counter is 1 if the flag is set and 0 if not.
  pub waits-IsConsistent :
      (p : ReadyFlags) (ebadf : ℕ) (clock cms_wait : ℤ) (process_io : Bool) (q : Schedule)
      (s : EvenLoop)
      → IsConsistent s
      → IsConsistent (wait_epoll user p ebadf clock cms_wait q.to_epoll s).state
        × IsConsistent
            (wait_poll_one_dispatcher user p ebadf clock cms_wait s.signal_wakeup_ q.to_poll_one
              s).state
        × IsConsistent (wait_poll user p ebadf clock cms_wait process_io q.to_poll s).state
        × IsConsistent (wait_select user ebadf clock cms_wait process_io q.to_select s).state
  waits-IsConsistent p ebadf clock cms_wait process_io q s h = (
    wait_epoll-keeps user IsConsistent kept start p ebadf clock cms_wait q.to_epoll s h,
    wait_poll_one_dispatcher-keeps user IsConsistent kept s.signal_wakeup_
        (λ call t same k. on_event-IsConsistent call t k) start p ebadf clock cms_wait q.to_poll_one
        s h,
    wait_poll-keeps user IsConsistent kept start p ebadf clock cms_wait process_io q.to_poll s h,
    wait_select-keeps user IsConsistent kept start ebadf clock cms_wait process_io q.to_select s h,
  )
