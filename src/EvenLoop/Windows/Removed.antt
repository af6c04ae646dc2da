-- ===== src/EvenLoop/Windows/Removed.antt =====
-- A dispatcher that the loop has no key of, on Windows.
use io_base.Base.{
  ℕ, ◌-◌, ◌==◌, ◌≡◌, ◌≢◌, ap, ◌∙◌, if◌then◌else◌, Bool, true, false, not, ◌&&◌, ◌||◌, Option, none,
  some, List, [], ◌∷◌, ◌++◌, Bool-cases, Option-cases, inl, inr,
}
use io_base.Base.Int.{ℤ, pos}
use io_base.Duration.{Durations}
use io_base.EvenLoop.Defs.{Call}
use io_base.EvenLoop.Waits.{keys_of, to_cms_wait, while_waiting}
use io_base.EvenLoop.Waits.Removed.{calls_of, calls_of-append}
use io_base.EvenLoop.Waits.Keeps.{while_waiting-keeps}
use io_base.Time.{time_millis}
use io_base.EvenLoop.Windows.Defs.{
  FdFlags, NetworkEvents, EvenLoop, Answer, Round, at, network_told, on_event, signaler_on_event,
  ask_for, ask_all, tell_sockets, end_of_round, on_answer, on_signaled, owner_at, wake_up, round,
  wait, wsa_events, cms_next,
}
use Answer.{wait_failed, wait_timeout, signaled}

-- The loop has no key of the dispatcher, which has been called `n` times.
unfoldable pub IsRemoved : (dispatcher n : ℕ) → EvenLoop → Type 0
IsRemoved dispatcher n s =
    ((key : ℕ) → at key s ≢ some dispatcher) × (calls_of dispatcher s.calls ≡ n)

woken-IsRemoved :
    (dispatcher n : ℕ) (woken : Bool) (s : EvenLoop)
    → IsRemoved dispatcher n s
    → IsRemoved dispatcher n (if woken then wake_up s else s)
unfolding wake_up IsRemoved
woken-IsRemoved dispatcher n true s h = elim (Option-cases s.hev_) [
  | inl e ↦ rw (e) h
  | inr (set, e) ↦ rw (e) h
]
woken-IsRemoved dispatcher n false s h = h

leave-IsRemoved :
    (dispatcher n : ℕ) (returned : Option Bool) (s : EvenLoop)
    → IsRemoved dispatcher n s
    → IsRemoved dispatcher n (elim returned [ none ↦ s | some b ↦ record s { waiting_ = false } ])
unfolding IsRemoved
leave-IsRemoved dispatcher n none s h = h
leave-IsRemoved dispatcher n (some b) s h = h

module _ (w : FdFlags) (user : Call → EvenLoop → EvenLoop)
    (check_signal_close : ℕ → EvenLoop → EvenLoop × Bool) (dispatcher n : ℕ)
    (keeps : (call : Call) (s : EvenLoop)
      → IsRemoved dispatcher n s
      → IsRemoved dispatcher n (user call s))
    (check-keeps : (other : ℕ) (s : EvenLoop)
      → IsRemoved dispatcher n s
      → IsRemoved dispatcher n (check_signal_close other s).0) where
  on_event-IsRemoved :
      (key : ℕ) (call : Call) (s : EvenLoop)
      → at key s ≡ some call.dispatcher
      → IsRemoved dispatcher n s
      → IsRemoved dispatcher n (on_event w user check_signal_close call s)
  unfolding on_event signaler_on_event IsRemoved
  on_event-IsRemoved key call s there h =
      let counted =
        calls_of-append dispatcher s.calls call (λ same. h.0 key (there ∙ ap some same)) ∙ h.1 in
      elim (Bool-cases (call.dispatcher == s.signal_wakeup_)) [
        | inl own ↦ rw (own) (h.0, counted)
        | inr others ↦
            rw (others) (keeps call (record s { calls = s.calls ++ call ∷ [] }) (h.0, counted))
      ]

  ask_for-IsRemoved :
      (process_io : Bool) (key other : ℕ) (s : EvenLoop)
      → IsRemoved dispatcher n s
      → IsRemoved dispatcher n (ask_for w user check_signal_close process_io key other s).0
  unfolding ask_for IsRemoved
  ask_for-IsRemoved process_io key other s h =
      let k = check-keeps other s h in
      elim (Bool-cases (other == 0 || (not process_io && not (other == s.signal_wakeup_)))) [
        | inl skipped ↦ rw (skipped) h
        | inr asked ↦ elim (Bool-cases (check_signal_close other s).1) [
          | inl closed ↦ rw (asked, closed) k
          | inr still_open ↦ elim (Option-cases (s.dispatchers other).socket) [
            | inl e ↦ rw (asked, still_open, e) k
            | inr (socket, e) ↦ rw (asked, still_open, e) k
          ]
        ]
      ]

  ask_all-IsRemoved :
      (process_io : Bool) (keys : List ℕ) (s : EvenLoop)
      → IsRemoved dispatcher n s
      → IsRemoved dispatcher n (ask_all w user check_signal_close process_io keys s).0
  unfolding ask_all
  ask_all-IsRemoved process_io [] s h = h
  ask_all-IsRemoved process_io (key ∷ keys) s h = elim (Option-cases (at key s)) [
    | inl absent ↦ rw (absent, ask_all) (ask_all-IsRemoved process_io keys s h)
    | inr (other, there) ↦
        rw (there, ask_all)
          (ask_all-IsRemoved process_io keys
            (ask_for w user check_signal_close process_io key other s).0
            (ask_for-IsRemoved process_io key other s h))
  ]

  tell_one :
      (key other ff errcode : ℕ) (s : EvenLoop)
      → at key s ≡ some other
      → IsRemoved dispatcher n s
      → IsRemoved dispatcher n (
          if ff == 0
          then s
          else on_event w user check_signal_close
              (record { dispatcher = other; ff = ff; err = errcode })
              s)
  tell_one key other ff errcode s there h = elim (Bool-cases (ff == 0)) [
    | inl nothing ↦ rw (nothing) h
    | inr something ↦
        rw (something)
          (on_event-IsRemoved key (record { dispatcher = other; ff = ff; err = errcode }) s there h)
  ]

  tell_sockets-IsRemoved :
      (enum : ℕ → Option NetworkEvents) (keys : List ℕ) (s : EvenLoop)
      → IsRemoved dispatcher n s
      → IsRemoved dispatcher n (tell_sockets w user check_signal_close enum keys s)
  unfolding tell_sockets
  tell_sockets-IsRemoved enum [] s h = h
  tell_sockets-IsRemoved enum (key ∷ keys) s h = elim (Option-cases (at key s)) [
    | inl absent ↦ rw (absent, tell_sockets) (tell_sockets-IsRemoved enum keys s h)
    | inr (other, there) ↦ elim (Option-cases (s.dispatchers other).socket) [
      | inl e ↦ rw (there, e, tell_sockets) (tell_sockets-IsRemoved enum keys s h)
      | inr (socket, e) ↦ elim (Option-cases (enum socket)) [
        | inl failed ↦ rw (there, e, failed, tell_sockets) (tell_sockets-IsRemoved enum keys s h)
        | inr (events, reported) ↦
            rw (there, e, reported, tell_sockets)
              (tell_sockets-IsRemoved enum keys _
                (tell_one key other (network_told w events).0 (network_told w events).1 s there h))
      ]
    ]
  ]

  on_signaled-IsRemoved :
      (cms_wait ms_start cms_elapsed : ℤ) (process_io : Bool) (r : Round) (owners : List (ℕ × ℕ))
      (index : ℕ) (s : EvenLoop)
      → IsRemoved dispatcher n s
      → IsRemoved dispatcher n
          (on_signaled w user check_signal_close cms_wait ms_start cms_elapsed process_io r owners
            index s).0
  unfolding on_signaled end_of_round IsRemoved
  on_signaled-IsRemoved cms_wait ms_start cms_elapsed process_io r owners index s h =
      elim (Bool-cases (index == 0)) [
        | inl sockets ↦ elim (Bool-cases process_io) [
          | inl e ↦
              rw (sockets, e)
                (tell_sockets-IsRemoved r.enum_network_events s.current_dispatcher_keys_ s h)
          | inr e ↦ rw (sockets, e) h
        ]
        | inr own ↦ elim (Option-cases (owner_at (index - 1) owners)) [
          | inl e ↦ rw (own, e) h
          | inr (key, e) ↦ elim (Option-cases (at key s)) [
            | inl absent ↦ rw (own, e, absent) h
            | inr (other, there) ↦
                rw (own, e, there)
                  (on_event-IsRemoved key (record { dispatcher = other; ff = 0; err = 0 }) s there
                    h)
          ]
        ]
      ]

  on_answer-IsRemoved :
      (cms_wait ms_start cms_elapsed : ℤ) (process_io : Bool) (r : Round) (owners : List (ℕ × ℕ))
      (a : Answer) (s : EvenLoop)
      → IsRemoved dispatcher n s
      → IsRemoved dispatcher n
          (on_answer w user check_signal_close cms_wait ms_start cms_elapsed process_io r owners a
            s).0
  unfolding on_answer
  on_answer-IsRemoved cms_wait ms_start cms_elapsed process_io r owners wait_failed s h = h
  on_answer-IsRemoved cms_wait ms_start cms_elapsed process_io r owners wait_timeout s h = h
  on_answer-IsRemoved cms_wait ms_start cms_elapsed process_io r owners (signaled index) s h =
      on_signaled-IsRemoved cms_wait ms_start cms_elapsed process_io r owners index s h

  round-IsRemoved :
      (cms_wait ms_start : ℤ) (process_io : Bool) (r : Round) (cms_elapsed : ℤ) (s : EvenLoop)
      → IsRemoved dispatcher n s
      → IsRemoved dispatcher n
          (round w user check_signal_close cms_wait ms_start process_io r cms_elapsed s).0
  unfolding round IsRemoved
  round-IsRemoved cms_wait ms_start process_io r cms_elapsed s h =
      let keys = keys_of s.dispatcher_by_key_ in
      let snapshot : EvenLoop = record s { current_dispatcher_keys_ = keys } in
      let asked = ask_all w user check_signal_close process_io keys snapshot in
      on_answer-IsRemoved cms_wait ms_start cms_elapsed process_io r asked.1
        (r.wait_for_multiple_events (wsa_events asked.1) (cms_next cms_wait cms_elapsed))
        (if r.woken then wake_up asked.0 else asked.0)
        (woken-IsRemoved dispatcher n r.woken asked.0
          (ask_all-IsRemoved process_io keys snapshot h))

  -- On Windows too a dispatcher that the loop has no key of, and that neither a callback nor CheckSignalClose
  -- adds again or calls, is not called during a wait, whatever Winsock reports.
  pub wait-IsRemoved :
      (c : Durations) (max_wait_duration : Durations.Duration c) (clock : ℤ) (process_io : Bool)
      (rounds : List Round) (s : EvenLoop)
      → IsRemoved dispatcher n s
      → IsRemoved dispatcher n
          (wait w user check_signal_close c max_wait_duration clock process_io rounds s).0
  unfolding wait IsRemoved
  wait-IsRemoved c max_wait_duration clock process_io rounds s h =
      let cms_wait = to_cms_wait c max_wait_duration in
      let ms_start = time_millis clock in
      let start : EvenLoop = record s { f_wait_ = true; waiting_ = true } in
      let o =
        while_waiting (λ t. t.f_wait_)
          (round w user check_signal_close cms_wait ms_start process_io) rounds (pos 0) start in
      leave-IsRemoved dispatcher n o.returned o.state (
        while_waiting-keeps (λ t. t.f_wait_)
          (round w user check_signal_close cms_wait ms_start process_io) (IsRemoved dispatcher n)
          (round-IsRemoved cms_wait ms_start process_io) rounds (pos 0) start h)
