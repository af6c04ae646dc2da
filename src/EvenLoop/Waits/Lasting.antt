-- ===== src/EvenLoop/Waits/Lasting.antt =====
-- A wake-up lasts: what WakeUp has written stays in the eventfd until the wait is over.
use io_base.Base.{
  ℕ, ◌==◌, ◌≡◌, ◌≢◌, ◌<◌, ◌⊎◌, refl, Bool, true, false, none, List, [], ◌∷◌, ◌++◌, arith,
  Bool-cases, Option-cases, inl, inr,
}
use io_base.Base.Int.{ℤ}
use io_base.EvenLoop.Defs.{EvenLoop, Call, ReadyFlags, on_event, signaler_on_event}
use io_base.EvenLoop.Waits.Loop.{
  Round, Next, Outcome, wake_up, signal, while_waiting, after_round, ms_stop_of,
}
use io_base.EvenLoop.Waits.Defs.{
  meanwhile, epoll_round, one_round, poll_round, wait_epoll, wait_poll, wait_poll_one_dispatcher,
}
use io_base.EvenLoop.Waits.Select.{Schedule, stop_us_of, timeval_of, select_round, wait_select}
use io_base.EvenLoop.Waits.Keeps.{
  Kept, asked, epoll_round-from, epoll_round-keeps, poll_round-from, poll_round-keeps,
  select_round-from, select_round-keeps, one_round-from, one_round-keeps,
}
use io_base.EvenLoop.Waits.Signals.{IsConsistent, on_event-IsConsistent, wake_up-IsConsistent}
use io_base.EvenLoop.Waits.Signals
use Next.{returns, goes_on}

-- Another thread calls WakeUp in one of the rounds.
abbrev pub SomeWoken : {A : Type 0} → List (Round A) → Type 0
SomeWoken [] = ⊥
SomeWoken (r ∷ rs) = (r.woken ≡ true) ⊎ SomeWoken rs

module _ {S A C : Type 0} (f_wait : S → Bool) (round : Round A → C → S → S × Next C)
    (I J : S → Type 0) (keeps_I : (r : Round A) (c : C) (s : S) → I s → I (round r c s).0)
    (keeps_J : (r : Round A) (c : C) (s : S) → J s → J (round r c s).0)
    (wakes : (r : Round A) (c : C) (s : S) → r.woken ≡ true → I s → J (round r c s).0) where
  after_round-lasts :
      (c : C) (s : S) (next : Next C) (rest : C → S → Outcome S C)
      → ((d : C)
          → (rest d s).returned ≡ none
          → J (rest d s).state × (f_wait (rest d s).state ≡ true))
      → (after_round c s next rest).returned ≡ none
      → J (after_round c s next rest).state × (f_wait (after_round c s next rest).state ≡ true)
  unfolding after_round
  after_round-lasts c s (returns b) rest h e = cc
  after_round-lasts c s (goes_on d) rest h e = h d e

  next_rounds :
      (r : Round A) (rs : List (Round A)) (c : C) (s : S)
      → I s
      → J s ⊎ SomeWoken (r ∷ rs)
      → J (round r c s).0 ⊎ SomeWoken rs
  next_rounds r rs c s i (inl j) = inl (keeps_J r c s j)
  next_rounds r rs c s i (inr (inl woken)) = inl (wakes r c s woken i)
  next_rounds r rs c s i (inr (inr later)) = inr later

  -- A wait that has not returned is in a state that a wake-up led to.
  while_waiting-lasts :
      (rs : List (Round A)) (c : C) (s : S)
      → I s
      → J s ⊎ SomeWoken rs
      → (while_waiting f_wait round rs c s).returned ≡ none
      → J (while_waiting f_wait round rs c s).state
        × (f_wait (while_waiting f_wait round rs c s).state ≡ true)
  unfolding while_waiting
  while_waiting-lasts [] c s i (inl j) = λ e. (j, ground (arith, e))
  while_waiting-lasts [] c s i (inr h) = absurd h
  while_waiting-lasts (r ∷ rs) c s i h = elim (Bool-cases (f_wait s)) [
    | inl waits ↦ rw waits (
        after_round-lasts c (round r c s).0 (round r c s).1 (while_waiting f_wait round rs) (λ d.
          while_waiting-lasts rs d (round r c s).0 (keeps_I r c s i) (next_rounds r rs c s i h)))
    | inr over ↦ rw over (λ e. cc)
  ]

-- The wait is over, or what WakeUp has written can be read.
unfoldable pub IsPending : EvenLoop → Type 0
IsPending s = (s.f_wait_ ≡ false) ⊎ ((s.signaler.f_signaled_ ≡ true) × (0 < s.signaler.counter))

wake_up-IsPending : (s : EvenLoop) → IsConsistent s → IsPending (wake_up s)
unfolding wake_up signal IsConsistent IsPending
wake_up-IsPending s h = elim (Bool-cases s.signaler.f_signaled_) [
  | inl e ↦ inr (rw (e) (refl, ground (arith, e, h)))
  | inr e ↦ inr (rw (e) (refl, ground arith))
]

wake_up-keeps : (s : EvenLoop) → IsPending s → IsPending (wake_up s)
unfolding wake_up signal IsPending
wake_up-keeps s (inl over) = inl over
wake_up-keeps s (inr (signaled, some_count)) =
    inr (ground (arith, signaled), ground (arith, signaled, some_count))

module _ (user : Call → EvenLoop → EvenLoop)
    (keeps : (call : Call) (s : EvenLoop) → IsConsistent s → IsConsistent (user call s))
    (pends : (call : Call) (s : EvenLoop) → IsPending s → IsPending (user call s)) where
  on_event-IsPending : (call : Call) (s : EvenLoop) → IsPending s → IsPending (on_event user call s)
  unfolding on_event signaler_on_event IsPending
  on_event-IsPending call s h = elim (Bool-cases (call.dispatcher == s.signal_wakeup_)) [
    | inl own ↦ rw (own) (inl refl)
    | inr others ↦ rw (others) (pends call (record s { calls = s.calls ++ call ∷ [] }) h)
  ]

  kept : Kept user IsPending
  unfolding IsPending
  kept = record {
    on_event-keeps = λ key call s there h. on_event-IsPending call s h;
    wake_up-keeps = wake_up-keeps;
    keys-keep = λ keys s h. h;
  }

  consistent : Kept user IsConsistent
  consistent = Signals.kept user keeps

  meanwhile-IsPending :
      {A : Type 0} (r : Round A) (s : EvenLoop)
      → r.woken ≡ true
      → IsConsistent s
      → IsPending (meanwhile r s)
  unfolding meanwhile
  meanwhile-IsPending r s woken h = rw (woken) (wake_up-IsPending s h)

  asked-IsPending :
      {A : Type 0} (process_io : Bool) (r : Round A) (s : EvenLoop)
      → r.woken ≡ true
      → IsConsistent s
      → IsPending (asked process_io r s)
  unfolding asked IsConsistent
  asked-IsPending process_io r s woken h = meanwhile-IsPending r _ woken h

  -- What a wait that goes on is left with.
  readable : (s : EvenLoop) → IsPending s × (s.f_wait_ ≡ true) → 0 < s.signaler.counter
  unfolding IsPending
  readable s (inl over, waits) = absurd (cc)
  readable s (inr (signaled, some_count), waits) = some_count

  -- From a state where the eventfd and the flag agree, with what was written by a WakeUp before.
  begins : (s : EvenLoop) → IsConsistent s → s.signaler.f_signaled_ ≡ true → IsPending s
  unfolding IsPending IsConsistent
  begins s h signaled = inr (signaled, ground (arith, h, signaled))

  started :
      {A : Type 0} (rounds : List (Round A)) (s : EvenLoop)
      → IsConsistent s
      → (s.signaler.f_signaled_ ≡ true) ⊎ SomeWoken rounds
      → IsPending (record s { f_wait_ = true }) ⊎ SomeWoken rounds
  unfolding IsConsistent
  started rounds s h (inl signaled) = inl (begins (record s { f_wait_ = true }) h signaled)
  started rounds s h (inr later) = inr later

  lasting :
      {A C : Type 0} (round : Round A → C → EvenLoop → EvenLoop × Next C)
      → ((r : Round A) (c : C) (t : EvenLoop) → IsConsistent t → IsConsistent (round r c t).0)
      → ((r : Round A) (c : C) (t : EvenLoop) → IsPending t → IsPending (round r c t).0)
      → ((r : Round A) (c : C) (t : EvenLoop)
          → r.woken ≡ true
          → IsConsistent t
          → IsPending (round r c t).0)
      → (rounds : List (Round A)) (c : C) (s : EvenLoop) → IsConsistent s
      → (s.signaler.f_signaled_ ≡ true) ⊎ SomeWoken rounds
      → let wait = while_waiting (λ t. t.f_wait_) round rounds c (record s { f_wait_ = true }) in
        (wait.returned ≢ none) ⊎ (0 < wait.state.signaler.counter)
  lasting round keeps_I keeps_J wakes rounds c s h woken =
      let wait = while_waiting (λ t. t.f_wait_) round rounds c (record s { f_wait_ = true }) in
      elim (Option-cases wait.returned) [
        | inl e ↦ inr (
            readable _ (
              while_waiting-lasts (λ t. t.f_wait_) round IsConsistent IsPending keeps_I keeps_J
                wakes rounds c (record s { f_wait_ = true }) (Signals.start user keeps s h)
                (started rounds s h woken) e))
        | inr (b, e) ↦ inl (λ none_yet. cc)
      ]

  -- No wake-up is lost: if the eventfd and the flag of the Signaler agree, and WakeUp has been called before a
  -- wait and not been answered, or is called by another thread in any round of it, then the wait has returned, or
  -- the eventfd has a signal that can be read, in the wait by epoll, by poll, by select and for the Signaler
  -- alone, whatever the system answers; the conditions are that the other dispatchers keep the two in agreement
  -- and neither take a signal nor set the flag that the loop waits for.
  pub waits-IsReadable :
      (p : ReadyFlags) (ebadf : ℕ) (clock cms_wait : ℤ) (process_io : Bool) (q : Schedule)
      (s : EvenLoop)
      → IsConsistent s
      → (s.signaler.f_signaled_ ≡ true) ⊎ SomeWoken q.to_epoll
      → (s.signaler.f_signaled_ ≡ true) ⊎ SomeWoken q.to_poll_one
      → (s.signaler.f_signaled_ ≡ true) ⊎ SomeWoken q.to_poll
      → (s.signaler.f_signaled_ ≡ true) ⊎ SomeWoken q.to_select
      → let epoll = wait_epoll user p ebadf clock cms_wait q.to_epoll s in
        let one =
          wait_poll_one_dispatcher user p ebadf clock cms_wait s.signal_wakeup_ q.to_poll_one s in
        let poll = wait_poll user p ebadf clock cms_wait process_io q.to_poll s in
        let select = wait_select user ebadf clock cms_wait process_io q.to_select s in
        ((epoll.returned ≢ none) ⊎ (0 < epoll.state.signaler.counter))
        × ((one.returned ≢ none) ⊎ (0 < one.state.signaler.counter))
        × ((poll.returned ≢ none) ⊎ (0 < poll.state.signaler.counter))
        × ((select.returned ≢ none) ⊎ (0 < select.state.signaler.counter))
  unfolding wait_epoll wait_poll_one_dispatcher wait_poll wait_select
  waits-IsReadable p ebadf clock cms_wait process_io q s h w_epoll w_one w_poll w_select =
      let stop = ms_stop_of clock cms_wait in
      let stop_us = stop_us_of clock cms_wait in
      let self = s.signal_wakeup_ in
      let I = IsConsistent in
      let J = IsPending in
      let one_I = λ (call : Call) (t : EvenLoop) (same : call.dispatcher ≡ self) (i : I t).
        on_event-IsConsistent user keeps call t i in
      let one_J = λ (call : Call) (t : EvenLoop) (same : call.dispatcher ≡ self) (j : J t).
        on_event-IsPending call t j in
      (
        lasting (epoll_round user p ebadf cms_wait stop)
            (epoll_round-keeps user I consistent p ebadf cms_wait stop)
            (epoll_round-keeps user J kept p ebadf cms_wait stop)
            (λ r c t w i.
              epoll_round-from user J kept p ebadf cms_wait stop r c t
                (meanwhile-IsPending r t w i))
            q.to_epoll cms_wait s h w_epoll,
        lasting (one_round user p ebadf cms_wait stop self)
            (one_round-keeps user I consistent self one_I p ebadf cms_wait stop)
            (one_round-keeps user J kept self one_J p ebadf cms_wait stop)
            (λ r c t w i.
              one_round-from user J kept self one_J p ebadf cms_wait stop r c t
                (meanwhile-IsPending r t w i))
            q.to_poll_one cms_wait s h w_one,
        lasting (poll_round user p ebadf cms_wait stop process_io)
            (poll_round-keeps user I consistent p ebadf cms_wait stop process_io)
            (poll_round-keeps user J kept p ebadf cms_wait stop process_io)
            (λ r c t w i.
              poll_round-from user J kept p ebadf cms_wait stop process_io r c t
                (asked-IsPending process_io r t w i))
            q.to_poll cms_wait s h w_poll,
        lasting (select_round user ebadf stop_us process_io)
            (select_round-keeps user I consistent ebadf stop_us process_io)
            (select_round-keeps user J kept ebadf stop_us process_io)
            (λ r c t w i.
              select_round-from user J kept ebadf stop_us process_io r c t
                (asked-IsPending process_io r t w i))
            q.to_select (timeval_of cms_wait) s h w_select,
      )
