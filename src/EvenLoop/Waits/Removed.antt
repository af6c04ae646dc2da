-- ===== src/EvenLoop/Waits/Removed.antt =====
-- A dispatcher that the loop has no key of.
use io_base.Base.{
  ℕ, suc, ◌==◌, ◌≡◌, ◌≢◌, refl, ap, ◌∙◌, if◌then◌else◌, Bool, some, List, [], ◌∷◌, ◌++◌, arith,
  Bool-cases, inl, inr,
}
use io_base.Base.Int.{ℤ}
use io_base.EvenLoop.Defs.{EvenLoop, Call, ReadyFlags, at, on_event, signaler_on_event}
use io_base.EvenLoop.Waits.Loop.{wake_up}
use io_base.EvenLoop.Waits.Defs.{wait_epoll, wait_poll}
use io_base.EvenLoop.Waits.Select.{Schedule, wait_select}
use io_base.EvenLoop.Waits.Keeps.{
  Kept, StartKeeps, wait_epoll-keeps, wait_poll-keeps, wait_select-keeps,
}

-- How often a dispatcher has been called.
unfoldable pub calls_of : ℕ → List Call → ℕ
calls_of dispatcher [] = 0
calls_of dispatcher (call ∷ calls) =
    let rest = calls_of dispatcher calls in if call.dispatcher == dispatcher then suc rest else rest

pub calls_of-append :
    (dispatcher : ℕ) (calls : List Call) (call : Call)
    → call.dispatcher ≢ dispatcher
    → calls_of dispatcher (calls ++ call ∷ []) ≡ calls_of dispatcher calls
unfolding calls_of
calls_of-append dispatcher [] call apart = ground arith
calls_of-append dispatcher (x ∷ calls) call apart =
    rw (calls_of-append dispatcher calls call apart) refl

-- The loop has no key of the dispatcher, which has been called `n` times.
unfoldable pub IsRemoved : (dispatcher n : ℕ) → EvenLoop → Type 0
unfolding calls_of
IsRemoved dispatcher n s =
    ((key : ℕ) → at key s ≢ some dispatcher) × (calls_of dispatcher s.calls ≡ n)

module _ (user : Call → EvenLoop → EvenLoop) (dispatcher n : ℕ)
    (keeps : (call : Call) (s : EvenLoop)
      → IsRemoved dispatcher n s
      → IsRemoved dispatcher n (user call s)) where
  on_event-IsRemoved :
      (key : ℕ) (call : Call) (s : EvenLoop)
      → at key s ≡ some call.dispatcher
      → IsRemoved dispatcher n s
      → IsRemoved dispatcher n (on_event user call s)
  unfolding on_event signaler_on_event IsRemoved
  on_event-IsRemoved key call s there h =
      let counted =
        calls_of-append dispatcher s.calls call (λ same. h.0 key (there ∙ ap some same)) ∙ h.1 in
      elim (Bool-cases (call.dispatcher == s.signal_wakeup_)) [
        | inl own ↦ rw (own) (h.0, counted)
        | inr others ↦
            rw (others) (keeps call (record s { calls = s.calls ++ call ∷ [] }) (h.0, counted))
      ]

  kept : Kept user (IsRemoved dispatcher n)
  unfolding IsRemoved wake_up
  kept = record {
    on_event-keeps = on_event-IsRemoved;
    wake_up-keeps = λ s h. h;
    keys-keep = λ keys s h. h;
  }

  start : StartKeeps (IsRemoved dispatcher n)
  unfolding IsRemoved
  start s h = h

  -- A dispatcher that the loop has no key of, and that no callback adds again or calls itself, is not called
  -- during a wait by epoll, poll or select, whatever the system reports of its key or of its descriptor.
  pub waits-IsRemoved :
      (p : ReadyFlags) (ebadf : ℕ) (clock cms_wait : ℤ) (process_io : Bool) (q : Schedule)
      (s : EvenLoop)
      → IsRemoved dispatcher n s
      → IsRemoved dispatcher n (wait_epoll user p ebadf clock cms_wait q.to_epoll s).state
        × IsRemoved dispatcher n
            (wait_poll user p ebadf clock cms_wait process_io q.to_poll s).state
        × IsRemoved dispatcher n
            (wait_select user ebadf clock cms_wait process_io q.to_select s).state
  waits-IsRemoved p ebadf clock cms_wait process_io q s h =
      let I = IsRemoved dispatcher n in
      (
        wait_epoll-keeps user I kept start p ebadf clock cms_wait q.to_epoll s h,
        wait_poll-keeps user I kept start p ebadf clock cms_wait process_io q.to_poll s h,
        wait_select-keeps user I kept start ebadf clock cms_wait process_io q.to_select s h,
      )
