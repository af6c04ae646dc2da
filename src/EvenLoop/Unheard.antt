-- ===== src/EvenLoop/Unheard.antt =====
-- That a constructed EvenLoop hears of nothing, since Add gives no dispatcher a key.
use io_base.Base.{
  ℕ, ◌≡◌, ◌≢◌, ◌⊎◌, refl, ap, ◌∙◌, Bool, true, none, some, List, [], ◌∷◌, inl, inr, arith,
}
use io_base.Base.Int.{ℤ}
use io_base.LinkedHashMap.Entries.{lookup_entry}
use io_base.EvenLoop.Defs.{EvenLoop, Dispatcher, Call, ReadyFlags, at}
use io_base.EvenLoop.Waits.{
  Answer, Round, Next, Schedule, wake_up, while_waiting, after_round, wait_epoll, wait_poll,
  wait_select, epoll_round, on_answer, ms_next, forever_ms, to_int, ms_stop_of,
}
use io_base.EvenLoop.Waits.Keeps.{
  Kept, StartKeeps, wait_epoll-keeps, wait_poll-keeps, wait_select-keeps, epoll_round-keeps,
}
use Answer.{interrupted, ready}
use Next.{goes_on}
use io_base.EvenLoop.Construct.{
  Change, adds, removes, updates, change, change_all, construct_signaler, construct,
}

change_all-same : (changes : List Change) (s : EvenLoop) → change_all changes s ≡ s
unfolding change_all change
change_all-same [] s = refl
change_all-same (adds d ∷ rest) s = change_all-same rest s
change_all-same (removes d ∷ rest) s = change_all-same rest s
change_all-same (updates d ∷ rest) s = change_all-same rest s

-- No dispatcher has a key or has been called.
unfoldable pub IsDeaf : EvenLoop → Type 0
IsDeaf s = (s.dispatcher_by_key_ ≡ []) × (s.calls ≡ [])

-- So in a wait that goes on.
unfoldable pub IsDeafWaiting : EvenLoop → Type 0
unfolding IsDeaf
IsDeafWaiting s = IsDeaf s × (s.f_wait_ ≡ true)

no_key : (key dispatcher : ℕ) (s : EvenLoop) → IsDeaf s → at key s ≢ some dispatcher
unfolding IsDeaf lookup_entry
no_key key dispatcher s h there =
    absurd (let e : s.dispatcher_by_key_ ≡ [] = h.0 in ground (arith, e, there))

construct-IsDeaf :
    (others : ℕ → Dispatcher) (self fd : ℕ) (changes : List Change)
    → IsDeaf (change_all changes (construct others self fd))
unfolding construct construct_signaler change IsDeaf
construct-IsDeaf others self fd changes =
    let same = change_all-same changes (construct others self fd) in
    (ap (λ (t : EvenLoop). t.dispatcher_by_key_) same, ap (λ (t : EvenLoop). t.calls) same)

while_waiting-goes_on :
    {S R C : Type 0} (f_wait : S → Bool) (round : R → C → S → S × Next C) (r : R) (rs : List R)
    (c d : C) (s : S)
    → f_wait s ≡ true
    → (round r c s).1 ≡ goes_on d
    → (while_waiting f_wait round (r ∷ rs) c s).returned
      ≡ (while_waiting f_wait round rs d (round r c s).0).returned
unfolding while_waiting after_round
while_waiting-goes_on f_wait round r rs c d s waits next = rw (waits, next) refl

-- In the rounds of a wait epoll_wait neither fails, but for EINTR, nor times out.
abbrev pub NeverFails : List (Round (ℕ → ℤ → Answer (List (ℕ × ℕ)))) → Type 0
NeverFails [] = Unit
NeverFails (r ∷ rs) =
    ((timeout : ℤ)
      → (r.system_call 128 timeout ≡ interrupted)
        ⊎ ((reported : List (ℕ × ℕ)) × (r.system_call 128 timeout ≡ ready reported)))
    × NeverFails rs

module _ (user : Call → EvenLoop → EvenLoop) where
  kept : Kept user IsDeaf
  unfolding IsDeaf wake_up
  kept = record {
    on_event-keeps = λ key call s there h. absurd (no_key key call.dispatcher s h there);
    wake_up-keeps = λ s h. h;
    keys-keep = λ keys s h. h;
  }

  kept_waiting : Kept user IsDeafWaiting
  unfolding IsDeafWaiting IsDeaf wake_up
  kept_waiting = record {
    on_event-keeps = λ key call s there h. absurd (no_key key call.dispatcher s h.0 there);
    wake_up-keeps = λ s h. h;
    keys-keep = λ keys s h. h;
  }

  start : StartKeeps IsDeaf
  unfolding IsDeaf
  start s h = h

  module _ (p : ReadyFlags) (ebadf : ℕ) (stop : ℤ) where
    endless_round :
        (r : Round (ℕ → ℤ → Answer (List (ℕ × ℕ)))) (c : ℤ) (s : EvenLoop)
        → (r.system_call 128 (to_int c) ≡ interrupted)
          ⊎ ((reported : List (ℕ × ℕ)) × (r.system_call 128 (to_int c) ≡ ready reported))
        → (epoll_round user p ebadf forever_ms stop r c s).1 ≡ goes_on c
    unfolding epoll_round on_answer ms_next
    endless_round r c s (inl e) = rw e refl
    endless_round r c s (inr (reported, e)) = rw e refl

    waits : (s : EvenLoop) → IsDeafWaiting s → s.f_wait_ ≡ true
    unfolding IsDeafWaiting
    waits s deaf = deaf.1

    endless :
        (rounds : List (Round (ℕ → ℤ → Answer (List (ℕ × ℕ))))) (c : ℤ) (s : EvenLoop)
        → NeverFails rounds
        → IsDeafWaiting s
        → (while_waiting
            (λ t. t.f_wait_)
            (epoll_round user p ebadf forever_ms stop)
            rounds
            c
            s).returned
          ≡ none
    unfolding while_waiting
    endless [] c s h deaf = rw (waits s deaf) refl
    endless (r ∷ rest) c s h deaf =
        let round = epoll_round user p ebadf forever_ms stop in
        while_waiting-goes_on (λ t. t.f_wait_) round r rest c c s (waits s deaf)
          (endless_round r c s (h.0 (to_int c)))
        ∙ endless rest c (round r c s).0 h.1
            (epoll_round-keeps user IsDeafWaiting kept_waiting p ebadf forever_ms stop r c s deaf)

  endless_wait :
      (p : ReadyFlags) (ebadf : ℕ) (clock : ℤ)
      (rounds : List (Round (ℕ → ℤ → Answer (List (ℕ × ℕ))))) (s : EvenLoop)
      → NeverFails rounds
      → IsDeaf s
      → (wait_epoll user p ebadf clock forever_ms rounds s).returned ≡ none
  unfolding wait_epoll IsDeafWaiting
  endless_wait p ebadf clock rounds s h deaf =
      endless p ebadf (ms_stop_of clock forever_ms) rounds forever_ms (record s { f_wait_ = true })
        h (start s deaf, refl)

  -- An EvenLoop as it is constructed, after any calls of Add, Remove and Update: a wait by epoll, by poll or by
  -- select calls no dispatcher, whatever the system reports; and a wait by epoll without a timeout never returns as
  -- long as epoll_wait does not fail, although it may report the Signaler and other threads may call WakeUp in
  -- every round.
  pub construct-unheard :
      (others : ℕ → Dispatcher) (self fd : ℕ) (changes : List Change) (p : ReadyFlags) (ebadf : ℕ)
      (clock cms_wait : ℤ) (process_io : Bool) (q : Schedule)
      → NeverFails q.to_epoll
      → let s = change_all changes (construct others self fd) in
        ((wait_epoll user p ebadf clock cms_wait q.to_epoll s).state.calls ≡ [])
        × ((wait_poll user p ebadf clock cms_wait process_io q.to_poll s).state.calls ≡ [])
        × ((wait_select user ebadf clock cms_wait process_io q.to_select s).state.calls ≡ [])
        × ((wait_epoll user p ebadf clock forever_ms q.to_epoll s).returned ≡ none)
  unfolding IsDeaf
  construct-unheard others self fd changes p ebadf clock cms_wait process_io q honest =
      let s = change_all changes (construct others self fd) in
      let h = construct-IsDeaf others self fd changes in
      (
        (wait_epoll-keeps user IsDeaf kept start p ebadf clock cms_wait q.to_epoll s h).1,
        (wait_poll-keeps user IsDeaf kept start p ebadf clock cms_wait process_io q.to_poll s h).1,
        (wait_select-keeps user IsDeaf kept start ebadf clock cms_wait process_io q.to_select s
            h).1,
        endless_wait p ebadf clock q.to_epoll s honest h,
      )
