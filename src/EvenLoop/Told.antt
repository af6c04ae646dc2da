-- ===== src/EvenLoop/Told.antt =====
-- What a dispatcher is told.
use io_base.Base.{
  ℕ, ◌==◌, ◌<◌, ◌≡◌, ◌⊎◌, refl, ◌∙◌, has, bit_or, bit_and, if◌then◌else◌, Bool, true, false, not,
  ◌&&◌, ◌||◌, arith, Bool-cases, inl, inr,
}
use io_base.Base.Bits.{has-or, or-has, zero-and, zero-or, and_comm}
use io_base.EvenLoop.Defs.{
  ReadyFlags, Dispatcher, SocketError, Call, EvenLoop, told, error_code, pollfd_events,
  process_events, process_poll_events, on_event, de_read, de_write, de_connect, de_close, de_accept,
}

-- A dispatcher is told that it can read, accept, write, is connected or closed in exactly these cases: with
-- an error it is never told of a read, of an accepted or of an established connection, and it is told that
-- it is closed whether it was readable or writable or not.
pub told_lem :
    (d : Dispatcher) (readable writable : Bool) (errcode : ℕ)
    → let fine = errcode == 0 in
      let accepts = has d.requested_events de_accept in
      let connects = has d.requested_events de_connect in
      let usable = fine && not d.is_descriptor_closed in
      let ff = told d readable writable errcode in
      (has ff de_read ≡ readable && (usable && not accepts))
      × (has ff de_accept ≡ readable && (usable && accepts))
      × (has ff de_write ≡ writable && not connects)
      × (has ff de_connect ≡ writable && (connects && fine))
      × (has ff de_close ≡ not fine || (readable && d.is_descriptor_closed))
unfolding told
told_lem d readable writable errcode = ground arith

-- What poll promises of `revents`: a descriptor is readable or writable only if that was asked for.
unfoldable pub Answers : ReadyFlags → (events revents : ℕ) → Type 0
Answers p events revents =
    (has revents (bit_or p.ready_in p.ready_pri) ≡ true → has events p.ready_in ≡ true)
    × (has revents p.ready_out ≡ true → has events p.ready_out ≡ true)

-- Every event but the close is one that the dispatcher requested.
unfoldable pub Requested : Dispatcher → (ff : ℕ) → Type 0
Requested d ff =
    (has ff de_read ≡ true → has d.requested_events de_read ≡ true)
    × (has ff de_accept ≡ true → has d.requested_events de_accept ≡ true)
    × (has ff de_write ≡ true → has d.requested_events de_write ≡ true)
    × (has ff de_connect ≡ true → has d.requested_events de_connect ≡ true)

asked_in :
    (p : ReadyFlags) (d : Dispatcher)
    → bit_and p.ready_out p.ready_in ≡ 0
    → has (pollfd_events p d) p.ready_in ≡ true
    → has d.requested_events de_read || has d.requested_events de_accept ≡ true
unfolding pollfd_events
asked_in p d apart h =
    let e = has-or d.requested_events de_read de_accept in
    ground (arith, zero-or p.ready_out, zero-and p.ready_in)

asked_out :
    (p : ReadyFlags) (d : Dispatcher)
    → bit_and p.ready_in p.ready_out ≡ 0
    → has (pollfd_events p d) p.ready_out ≡ true
    → has d.requested_events de_write || has d.requested_events de_connect ≡ true
unfolding pollfd_events
asked_out p d apart h =
    let e = has-or d.requested_events de_write de_connect in
    ground (arith, or-has p.ready_in p.ready_out p.ready_out, zero-and p.ready_out)

told-Requested :
    (d : Dispatcher) (readable writable : Bool) (errcode : ℕ)
    → (readable ≡ true → has d.requested_events de_read || has d.requested_events de_accept ≡ true)
    → (writable ≡ true
        → has d.requested_events de_write || has d.requested_events de_connect ≡ true)
    → Requested d (told d readable writable errcode)
unfolding Requested
told-Requested d readable writable errcode reads writes =
    let (on_read, on_accept, on_write, on_connect, on_close) =
      told_lem d readable writable errcode in
    (
      λ h. ground (arith, on_read),
      λ h. ground (arith, on_accept),
      λ h. ground (arith, on_write),
      λ h. ground (arith, on_connect),
    )

error_only_with_close :
    (d : Dispatcher) (readable writable : Bool) (errcode : ℕ)
    → has (told d readable writable errcode) de_close ≡ false
    → errcode ≡ 0
error_only_with_close d readable writable errcode h =
    let (on_read, on_accept, on_write, on_connect, on_close) =
      told_lem d readable writable errcode in
    ground (arith, on_close)

tell_cases :
    (user : Call → EvenLoop → EvenLoop) (dispatcher ff errcode : ℕ) (s : EvenLoop)
    → let call : Call = record { dispatcher = dispatcher; ff = ff; err = errcode } in
      let told_loop = if ff == 0 then s else on_event user call s in
      (told_loop ≡ s) ⊎ ((told_loop ≡ on_event user call s) × (0 < ff))
tell_cases user dispatcher ff errcode s = elim (Bool-cases (ff == 0)) [
  | inl e ↦ rw (e) (inl refl)
  | inr e ↦ rw (e) (inr (refl, ground arith))
]

-- If POLLIN and POLLOUT are different bits and poll answers only what it was asked, then what
-- ProcessPollEvents does is nothing, or one call of OnEvent of that dispatcher, for a nonempty set of
-- events which it requested or which is a close, and with an error code only with a close.
pub process_poll_events_lem :
    (user : Call → EvenLoop → EvenLoop) (p : ReadyFlags) (ebadf dispatcher revents : ℕ)
    (e : SocketError) (s : EvenLoop)
    → let d = s.dispatchers dispatcher in
      bit_and p.ready_in p.ready_out ≡ 0
      → Answers p (pollfd_events p d) revents
      → (process_poll_events user p ebadf dispatcher revents e s ≡ s)
        ⊎ ((call : Call) × (process_poll_events user p ebadf dispatcher revents e s
              ≡ on_event user call s)
            × (call.dispatcher ≡ dispatcher)
            × (0 < call.ff)
            × Requested d call.ff
            × (has call.ff de_close ≡ false → call.err ≡ 0))
unfolding process_poll_events process_events Answers
process_poll_events_lem user p ebadf dispatcher revents e s apart answers =
    let d = s.dispatchers dispatcher in
    let error = has revents (bit_or (bit_or p.ready_rdhup p.ready_err) p.ready_hup) in
    let readable = has revents (bit_or p.ready_in p.ready_pri) in
    let writable = has revents p.ready_out in
    let errcode = error_code ebadf error error e in
    let ff = told d readable writable errcode in
    elim (tell_cases user dispatcher ff errcode s) [
      | inl h ↦ inl h
      | inr (h, some_event) ↦ inr (
        record { dispatcher = dispatcher; ff = ff; err = errcode },
        h,
        refl,
        some_event,
        told-Requested d readable writable errcode
            (λ h. asked_in p d (and_comm p.ready_out p.ready_in ∙ apart) (answers.0 h))
            (λ h. asked_out p d apart (answers.1 h)),
        error_only_with_close d readable writable errcode,
      )
    ]
