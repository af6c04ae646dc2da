-- ===== src/StackTrace/Tests.antt =====
-- A thread with two frames, one of which has no symbolic information.
use io_base.Base.{ℕ, ◌==◌, ◌≡◌, refl, map, if◌then◌else◌, true, false, Option, none, some, [], ◌∷◌}
use io_base.StackTrace.Defs.{
  Process, System, Error, DlInfo, max_stack_size, fresh, wait, capture_raw_stacktrace,
  format_stack_trace, get_stack_trace_of,
}
use io_base.StackTrace.Captures.{
  call_address, take, capture_raw_stacktrace_lem, get_stack_trace_of_lem,
}
use Error.{failed_to_change_signal_action, failed_to_interrupt_thread, failed_to_wait}

abbrev some_symbols : ℕ → Option DlInfo
some_symbols address =
    if address == 4094
    then some (record { dli_fname = 1; dli_fbase = 4000; dli_sname = some 2 })
    else none

abbrev some_process : Process
some_process = record { action = 5; current_output_state_ = none; output_states = λ at. fresh }

-- A spurious wake-up, and the signal.
abbrev all_succeeds : System
all_succeeds = record {
  sigaction_succeeds = true;
  tgkill_succeeds = true;
  frames = 4096 ∷ 9000 ∷ [];
  futex_returns =
      record { res_is_zero = true; handled = false }
      ∷ record { res_is_zero = false; handled = true }
      ∷ [];
}

abbrev no_thread : System
no_thread = record all_succeeds { tgkill_succeeds = false }

capture_raw_stacktrace_lem_example :
    let (after, result) = capture_raw_stacktrace 8 0 no_thread some_process in
    (result ≡ some none → after.action ≡ 5)
    × (result ≡ some (some failed_to_change_signal_action) → after.action ≡ 5)
    × (result ≡ some (some failed_to_interrupt_thread) → after.action ≡ 8)
    × (result ≡ some (some failed_to_wait) → after.action ≡ 8)
    × (after.current_output_state_ ≡ some 0)
capture_raw_stacktrace_lem_example = capture_raw_stacktrace_lem 8 0 no_thread some_process

get_stack_trace_of_lem_example :
    let (after, result) = get_stack_trace_of some_symbols 8 0 all_succeeds some_process in
    (result
      ≡ some (
          format_stack_trace some_symbols
            (take max_stack_size (map call_address (4096 ∷ 9000 ∷ [])))))
    × (after.action ≡ 5)
unfolding wait
get_stack_trace_of_lem_example =
    get_stack_trace_of_lem some_symbols 8 0 all_succeeds some_process refl refl refl
