-- ===== src/EvenLoop/Tests.antt =====
-- What the sample dispatchers are told.
use io_base.Base.{◌≡◌, ◌⊎◌, ◌<◌, refl, has, true, false}
use io_base.EvenLoop.Defs.{
  Call, told, pollfd_events, process_poll_events, on_event, de_read, de_write, de_connect, de_close,
  de_accept,
}
use io_base.EvenLoop.Told.{told_lem, Answers, Requested, process_poll_events_lem}
use io_base.EvenLoop.Samples.{linux, some_dispatchers, some_loop, idle, no_error}

told_lem_example :
    (has (told (some_dispatchers 2) true true 0) de_read ≡ true)
    × (has (told (some_dispatchers 2) true true 0) de_accept ≡ false)
    × (has (told (some_dispatchers 2) true true 0) de_write ≡ true)
    × (has (told (some_dispatchers 2) true true 0) de_connect ≡ false)
    × (has (told (some_dispatchers 2) true true 0) de_close ≡ false)
told_lem_example = told_lem (some_dispatchers 2) true true 0

process_poll_events_lem_example :
    (process_poll_events idle linux 9 2 1 (no_error 2) some_loop ≡ some_loop)
    ⊎ ((call : Call) × (process_poll_events idle linux 9 2 1 (no_error 2) some_loop
          ≡ on_event idle call some_loop)
        × (call.dispatcher ≡ 2)
        × (0 < call.ff)
        × Requested (some_dispatchers 2) call.ff
        × (has call.ff de_close ≡ false → call.err ≡ 0))
unfolding Answers pollfd_events
process_poll_events_lem_example =
    process_poll_events_lem idle linux 9 2 1 (no_error 2) some_loop refl (λ _. refl, λ _. refl)
