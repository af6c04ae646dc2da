-- ===== src/EvenLoop/WaitTests.antt =====
-- Waits of the sample loop, and of a loop as it is constructed.
use io_base.Base.{
  ℕ, ◌≡◌, ◌≢◌, ◌⊎◌, inl, inr, ◌<◌, refl, true, false, none, some, [], ◌∷◌, ◌++◌, All, arith,
}
use io_base.Base.Int.{pos, negsuc, ◌+ℤ◌, quot}
use io_base.EvenLoop.Defs.{at}
use io_base.EvenLoop.Waits.{
  Answer, Schedule, wait_epoll, wait_poll, wait_poll_one_dispatcher, wait_select,
}
use io_base.EvenLoop.Waits.Signals.{IsConsistent, waits-IsConsistent}
use io_base.EvenLoop.Waits.Removed.{IsRemoved, waits-IsRemoved}
use io_base.EvenLoop.Waits.Returns.{waits-past_deadline}
use io_base.EvenLoop.Waits.Wakeups.{one-wakes}
use io_base.EvenLoop.Waits.Lasting.{waits-IsReadable}
use io_base.EvenLoop.Waits.Timeouts.{IsTimeout, waits-IsTimeout}
use io_base.Time.{time_after, time_millis}
use io_base.LinkedHashMap.Entries.{lookup_entry}
use Answer.{interrupted, ready}
use io_base.EvenLoop.Samples.{linux, some_dispatchers, some_loop, idle, some_round, some_schedule}
use io_base.EvenLoop.Construct.{adds, removes, change_all, construct}
use io_base.EvenLoop.Unheard.{NeverFails, construct-unheard}

waits-IsConsistent_example :
    IsConsistent (wait_epoll idle linux 9 (pos 0) (pos 50) some_schedule.to_epoll some_loop).state
    × IsConsistent
        (wait_poll_one_dispatcher idle linux 9
          (pos 0)
          (pos 50)
          1
          some_schedule.to_poll_one
          some_loop).state
    × IsConsistent
        (wait_poll idle linux 9 (pos 0) (pos 50) true some_schedule.to_poll some_loop).state
    × IsConsistent
        (wait_select idle 9 (pos 0) (pos 50) true some_schedule.to_select some_loop).state
unfolding IsConsistent
waits-IsConsistent_example =
    waits-IsConsistent idle (λ call s h. h) linux 9 (pos 0) (pos 50) true some_schedule some_loop
      refl

-- Dispatcher 3 has no key.
not_there : (key : ℕ) → at key some_loop ≢ some 3
unfolding lookup_entry
not_there key h = ground arith

waits-IsRemoved_example :
    IsRemoved 3 0 (wait_epoll idle linux 9 (pos 0) (pos 50) some_schedule.to_epoll some_loop).state
    × IsRemoved 3 0
        (wait_poll idle linux 9 (pos 0) (pos 50) true some_schedule.to_poll some_loop).state
    × IsRemoved 3 0
        (wait_select idle 9 (pos 0) (pos 50) true some_schedule.to_select some_loop).state
unfolding IsRemoved
waits-IsRemoved_example =
    waits-IsRemoved idle 3 0 (λ call s h. h) linux 9 (pos 0) (pos 50) true some_schedule some_loop
      (not_there, refl)

waits-past_deadline_example :
    ((wait_epoll idle linux 9
        (pos 0)
        (pos 50)
        (some_schedule.to_epoll
          ++ some_round (λ _ _. interrupted) false (pos 60000000) ∷ some_schedule.to_epoll)
        some_loop).returned
      ≢ none)
    × ((wait_poll_one_dispatcher idle linux 9
          (pos 0)
          (pos 50)
          1
          (some_schedule.to_poll_one
            ++ some_round (λ _ _. interrupted) false (pos 60000000) ∷ some_schedule.to_poll_one)
          some_loop).returned
        ≢ none)
    × ((wait_poll idle linux 9
          (pos 0)
          (pos 50)
          true
          (some_schedule.to_poll
            ++ some_round (λ _ _. interrupted) false (pos 60000000) ∷ some_schedule.to_poll)
          some_loop).returned
        ≢ none)
unfolding time_after time_millis ◌+ℤ◌ quot
waits-past_deadline_example =
    waits-past_deadline idle linux 9 (pos 0) (pos 50) 1 true some_loop refl some_schedule
      some_schedule (some_round (λ _ _. interrupted) false (pos 60000000))
      (some_round (λ _ _. interrupted) false (pos 60000000))
      (some_round (λ _ _. interrupted) false (pos 60000000)) (omega arith) (omega arith)
      (omega arith)

-- The Signaler is reported behind the socket, in the second round.
one-wakes_example :
    (wait_poll_one_dispatcher idle linux 9
      (pos 0)
      (negsuc 0)
      (construct some_dispatchers 1 5).signal_wakeup_
      (some_round (λ _ _. interrupted) true (pos 1000000)
        ∷ some_round (λ _ _. ready 1) false (pos 2000000)
        ∷ [])
      (construct some_dispatchers 1 5)).returned
    ≢ none
one-wakes_example =
    one-wakes idle linux 9 (pos 0) (negsuc 0)
      (some_round (λ _ _. interrupted) true (pos 1000000) ∷ []) []
      (some_round (λ _ _. ready 1) false (pos 2000000)) 1 (λ fds timeout. refl) refl
      (construct some_dispatchers 1 5)

waits-IsTimeout_example :
    All
      (IsTimeout (pos 50))
      (wait_epoll idle linux 9 (pos 0) (pos 50) some_schedule.to_epoll some_loop).timeouts
    × All
        (IsTimeout (pos 50))
        (wait_poll_one_dispatcher idle linux 9
          (pos 0)
          (pos 50)
          1
          some_schedule.to_poll_one
          some_loop).timeouts
    × All
        (IsTimeout (pos 50))
        (wait_poll idle linux 9 (pos 0) (pos 50) true some_schedule.to_poll some_loop).timeouts
unfolding time_millis quot
waits-IsTimeout_example =
    waits-IsTimeout idle linux 9 (pos 0) (pos 50) 1 true some_loop (omega arith) (omega arith)
      some_schedule (omega arith, (omega arith, tt)) (omega arith, (omega arith, tt))
      (omega arith, (omega arith, tt))

-- Interrupted twice, with a WakeUp in the meantime.
abbrev only_interrupted : Schedule
only_interrupted = record {
  to_epoll =
      some_round (λ _ _. interrupted) true (pos 1000000)
      ∷ some_round (λ _ _. interrupted) false (pos 2000000)
      ∷ [];
  to_poll_one = some_round (λ _ _. interrupted) true (pos 1000000) ∷ [];
  to_poll = some_round (λ _ _. interrupted) true (pos 1000000) ∷ [];
  to_select = some_round (λ _ _. interrupted) true (pos 1000000) ∷ [];
}

waits-IsReadable_example :
    let q = only_interrupted in
    let epoll = wait_epoll idle linux 9 (pos 0) (pos 50) q.to_epoll some_loop in
    let one = wait_poll_one_dispatcher idle linux 9 (pos 0) (pos 50) 1 q.to_poll_one some_loop in
    let poll = wait_poll idle linux 9 (pos 0) (pos 50) true q.to_poll some_loop in
    let select = wait_select idle 9 (pos 0) (pos 50) true q.to_select some_loop in
    ((epoll.returned ≢ none) ⊎ (0 < epoll.state.signaler.counter))
    × ((one.returned ≢ none) ⊎ (0 < one.state.signaler.counter))
    × ((poll.returned ≢ none) ⊎ (0 < poll.state.signaler.counter))
    × ((select.returned ≢ none) ⊎ (0 < select.state.signaler.counter))
unfolding IsConsistent
waits-IsReadable_example =
    waits-IsReadable idle (λ call s h. h) (λ call s h. h) linux 9 (pos 0) (pos 50) true
      only_interrupted some_loop refl (inr (inl refl)) (inr (inl refl)) (inr (inl refl))
      (inr (inl refl))

never_fails : NeverFails some_schedule.to_epoll
never_fails = ((λ t. inl refl), ((λ t. inr ((1, 1) ∷ (0, 1) ∷ [], refl)), tt))

-- Dispatcher 1 is the Signaler; it is reported in every round, and WakeUp is called in the first.
construct-unheard_example :
    let s = change_all (adds 2 ∷ removes 2 ∷ []) (construct some_dispatchers 1 5) in
    let q = some_schedule in
    ((wait_epoll idle linux 9 (pos 0) (pos 50) q.to_epoll s).state.calls ≡ [])
    × ((wait_poll idle linux 9 (pos 0) (pos 50) true q.to_poll s).state.calls ≡ [])
    × ((wait_select idle 9 (pos 0) (pos 50) true q.to_select s).state.calls ≡ [])
    × ((wait_epoll idle linux 9 (pos 0) (negsuc 0) q.to_epoll s).returned ≡ none)
construct-unheard_example =
    construct-unheard idle some_dispatchers 1 5 (adds 2 ∷ removes 2 ∷ []) linux 9 (pos 0) (pos 50)
      true some_schedule never_fails
