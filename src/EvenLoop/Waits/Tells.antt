-- ===== src/EvenLoop/Waits/Tells.antt =====
-- What telling the dispatchers of a round keeps.
use io_base.Base.{
  ℕ, suc, ◌==◌, ◌≡◌, refl, ap, sym, ◌∙◌, has, bit_or, Bool, false, ◌||◌, some, List, [], ◌∷◌,
  Bool-cases, Option-cases, inl, inr,
}
use io_base.EvenLoop.Defs.{
  EvenLoop, Call, ReadyFlags, SocketError, at, on_event, process_events, process_poll_events, told,
  error_code,
}
use io_base.EvenLoop.Waits.Defs.{tell_epoll, tell_poll}
use io_base.EvenLoop.Waits.Select.{tell_select}

process_events-keeps :
    (user : Call → EvenLoop → EvenLoop) (I : EvenLoop → Type 0)
    → (ebadf dispatcher : ℕ) (readable writable error_event check_error : Bool) (e : SocketError)
    → (s : EvenLoop) → ((call : Call) → call.dispatcher ≡ dispatcher → I (on_event user call s))
    → I s
    → I (process_events user ebadf dispatcher readable writable error_event check_error e s)
unfolding process_events
process_events-keeps user I ebadf dispatcher readable writable error_event check_error e s
      told_keeps h =
    let errcode = error_code ebadf error_event check_error e in
    let ff = told (s.dispatchers dispatcher) readable writable errcode in
    elim (Bool-cases (ff == 0)) [
      | inl nothing ↦ rw (nothing) h
      | inr something ↦ rw (something) (told_keeps _ refl)
    ]

pub process_poll_events-keeps :
    (user : Call → EvenLoop → EvenLoop) (I : EvenLoop → Type 0)
    → (p : ReadyFlags) (ebadf dispatcher revents : ℕ) (e : SocketError) (s : EvenLoop)
    → ((call : Call) → call.dispatcher ≡ dispatcher → I (on_event user call s))
    → I s
    → I (process_poll_events user p ebadf dispatcher revents e s)
unfolding process_poll_events
process_poll_events-keeps user I p ebadf dispatcher revents e s told_keeps h =
    let error = has revents (bit_or (bit_or p.ready_rdhup p.ready_err) p.ready_hup) in
    process_events-keeps user I ebadf dispatcher (has revents (bit_or p.ready_in p.ready_pri))
      (has revents p.ready_out) error error e s told_keeps h

-- `I` is kept by a call of OnEvent of a dispatcher that the loop has a key of.
abbrev pub KeptByCalls : (Call → EvenLoop → EvenLoop) → (EvenLoop → Type 0) → Type 0
KeptByCalls user I =
    (key : ℕ) (call : Call) (s : EvenLoop)
    → at key s ≡ some call.dispatcher
    → I s
    → I (on_event user call s)

module _ (user : Call → EvenLoop → EvenLoop) (I : EvenLoop → Type 0)
    (on_event-keeps : KeptByCalls user I) where
  told_at :
      (key dispatcher : ℕ) (s : EvenLoop)
      → at key s ≡ some dispatcher
      → I s
      → (call : Call) → call.dispatcher ≡ dispatcher
      → I (on_event user call s)
  told_at key dispatcher s there h call same =
      on_event-keeps key call s (there ∙ ap some (sym same)) h

  pub tell_epoll-keeps :
      (p : ReadyFlags) (ebadf : ℕ) (so_error : ℕ → SocketError) (events : List (ℕ × ℕ))
      (s : EvenLoop)
      → I s
      → I (tell_epoll user p ebadf so_error events s)
  unfolding tell_epoll
  tell_epoll-keeps p ebadf so_error [] s h = h
  tell_epoll-keeps p ebadf so_error ((key, events) ∷ rest) s h = elim (Option-cases (at key s)) [
    | inl absent ↦ rw (absent, tell_epoll) (tell_epoll-keeps p ebadf so_error rest s h)
    | inr (dispatcher, there) ↦
        rw (there, tell_epoll)
          (tell_epoll-keeps p ebadf so_error rest _ (
            process_poll_events-keeps user I p ebadf dispatcher events (so_error dispatcher) s
              (told_at key dispatcher s there h) h))
  ]

  pub tell_poll-keeps :
      (p : ReadyFlags) (ebadf : ℕ) (so_error : ℕ → SocketError) (revents : ℕ → ℕ) (i : ℕ)
      (keys : List ℕ)
      → (s : EvenLoop) → I s
      → I (tell_poll user p ebadf so_error revents i keys s)
  unfolding tell_poll
  tell_poll-keeps p ebadf so_error revents i [] s h = h
  tell_poll-keeps p ebadf so_error revents i (key ∷ keys) s h = elim (Option-cases (at key s)) [
    | inl absent ↦
        rw (absent, tell_poll) (tell_poll-keeps p ebadf so_error revents (suc i) keys s h)
    | inr (dispatcher, there) ↦
        rw (there, tell_poll)
          (tell_poll-keeps p ebadf so_error revents (suc i) keys _ (
            process_poll_events-keeps user I p ebadf dispatcher (revents i) (so_error dispatcher) s
              (told_at key dispatcher s there h) h))
  ]

  pub tell_select-keeps :
      (ebadf : ℕ) (so_error : ℕ → SocketError) (keys : List ℕ) (fds_read fds_write : ℕ → Bool)
      → (s : EvenLoop) → I s
      → I (tell_select user ebadf so_error keys fds_read fds_write s)
  unfolding tell_select
  tell_select-keeps ebadf so_error [] fds_read fds_write s h = h
  tell_select-keeps ebadf so_error (key ∷ keys) fds_read fds_write s h =
      elim (Option-cases (at key s)) [
        | inl absent ↦
            rw (absent, tell_select) (tell_select-keeps ebadf so_error keys fds_read fds_write s h)
        | inr (dispatcher, there) ↦
            rw (there, tell_select)
              (let fd = (s.dispatchers dispatcher).descriptor in
                tell_select-keeps ebadf so_error keys _ _ _ (
                  process_events-keeps user I ebadf dispatcher (fds_read fd) (fds_write fd) false
                    (fds_read fd || fds_write fd) (so_error dispatcher) s
                    (told_at key dispatcher s there h) h))
      ]
