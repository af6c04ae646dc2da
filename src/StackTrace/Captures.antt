-- ===== src/StackTrace/Captures.antt =====
-- What is captured, and what a capture leaves behind.
use io_base.Base.{
  ℕ, zero, suc, ◌+◌, ◌%◌, ◌≤◌, ◌≡◌, leb, refl, sym, ap, ap₂, ◌∙◌, true, false, Option, none, some,
  List, [], ◌∷◌, ◌++◌, map, length, append_assoc, append-nil, arith, Bool-cases, Option-cases, inl,
  inr, Bool, if◌then◌else◌,
}
use io_base.StackTrace.Defs.{
  OutputState, FutexReturn, Process, System, Error, DlInfo, max_stack_size, fresh, wait, signal,
  unwind_backtrace, unwound, write, signal_handler, capture_raw_stacktrace, format_stack_trace,
  get_stack_trace, get_stack_trace_of,
}
use Error.{failed_to_change_signal_action, failed_to_interrupt_thread, failed_to_wait}

-- The address of the call before a return address, in 64 bits.
abbrev pub call_address : ℕ → ℕ
call_address ip = (ip + 18446744073709551614) % 18446744073709551616

abbrev pub take : ℕ → List ℕ → List ℕ
take zero xs = []
take (suc n) [] = []
take (suc n) (x ∷ xs) = x ∷ take n xs

take-nil : (n : ℕ) → take n [] ≡ []
take-nil zero = refl
take-nil (suc n) = refl

-- The output state filled with more addresses.
abbrev filled : OutputState → List ℕ → OutputState
filled o more = record {
  futex_ = o.futex_;
  stack_size_counter = o.stack_size_counter + length more;
  addresses = o.addresses ++ more;
}

filled-nil : (o : OutputState) → filled o [] ≡ o
filled-nil o =
    ap₂ (λ c a. record { futex_ = o.futex_; stack_size_counter = c; addresses = a }) (omega arith)
      (append-nil o.addresses)

abbrev filled_once : OutputState → ℕ → OutputState
filled_once o x = record {
  futex_ = o.futex_;
  stack_size_counter = suc o.stack_size_counter;
  addresses = o.addresses ++ x ∷ [];
}

filled-cons :
    (o : OutputState) (x : ℕ) (more : List ℕ) → filled (filled_once o x) more ≡ filled o (x ∷ more)
filled-cons o x more =
    ap₂ (λ c a. record { futex_ = o.futex_; stack_size_counter = c; addresses = a }) (omega arith)
      (append_assoc o.addresses (x ∷ []) more)

unwound-full :
    (ips : List ℕ) (o : OutputState)
    → max_stack_size ≤ o.stack_size_counter
    → unwound ips (some o) ≡ some o
unfolding unwound unwind_backtrace
unwound-full [] o full = refl
unwound-full (ip ∷ ips) o full = elim (Bool-cases (leb max_stack_size o.stack_size_counter)) [
  | inl e ↦ rw (e, unwound) (unwound-full ips o full)
  | inr e ↦ absurd (ground arith)
]

unwound-filled :
    (room : ℕ) (ips : List ℕ) (o : OutputState)
    → o.stack_size_counter + room ≡ max_stack_size
    → unwound ips (some o) ≡ some (filled o (take room (map call_address ips)))
unfolding unwound unwind_backtrace
unwound-filled zero ips o left = rw (filled-nil o) (unwound-full ips o (omega (arith, left)))
unwound-filled (suc room) [] o left = ap some (sym (filled-nil o))
unwound-filled (suc room) (ip ∷ ips) o left =
    elim (Bool-cases (leb max_stack_size o.stack_size_counter)) [
      | inl e ↦ absurd (ground arith)
      | inr e ↦
          rw (e, unwound)
            (unwound-filled room ips (filled_once o (call_address ip)) (omega (arith, left))
              ∙ ap some (filled-cons o (call_address ip) (take room (map call_address ips))))
    ]

-- The stack trace of the thread itself is the symbolic information of its first 100 frames, in order.
get_stack_trace_lem :
    (dladdr : ℕ → Option DlInfo) (ips : List ℕ)
    → get_stack_trace dladdr ips
      ≡ format_stack_trace dladdr (take max_stack_size (map call_address ips))
unfolding get_stack_trace
get_stack_trace_lem dladdr ips =
    rw (get_stack_trace, unwound-filled max_stack_size ips fresh refl) refl

signal_handler-keeps :
    (ips : List ℕ) (w : Process)
    → ((signal_handler ips w).action ≡ w.action)
      × ((signal_handler ips w).current_output_state_ ≡ w.current_output_state_)
unfolding signal_handler
signal_handler-keeps ips w = elim (Option-cases w.current_output_state_) [
  | inl e ↦ rw (signal_handler, e) (refl, e)
  | inr (at, e) ↦ elim (Option-cases (unwound ips (some (w.output_states at)))) [
    | inl f ↦ rw (signal_handler, e, f) (refl, e)
    | inr (o, f) ↦ rw (signal_handler, e, f) (refl, e)
  ]
]

-- What a capture leaves behind: the previous action of the signal if it succeeded or the action could not be
-- changed, but its own handler if the thread could not be interrupted or the wait failed; and in each case the
-- global pointer to the output state, which is a local variable of the caller.
pub capture_raw_stacktrace_lem :
    (handler params : ℕ) (y : System) (w : Process)
    → let (after, result) = capture_raw_stacktrace handler params y w in
      (result ≡ some none → after.action ≡ w.action)
      × (result ≡ some (some failed_to_change_signal_action) → after.action ≡ w.action)
      × (result ≡ some (some failed_to_interrupt_thread) → after.action ≡ handler)
      × (result ≡ some (some failed_to_wait) → after.action ≡ handler)
      × (after.current_output_state_ ≡ some params)
unfolding capture_raw_stacktrace
capture_raw_stacktrace_lem handler params y w =
    let changed : Process = record w { current_output_state_ = some params; action = handler } in
    let interrupted = signal_handler y.frames changed in
    let (same_action, same_state) = signal_handler-keeps y.frames changed in
    elim (Bool-cases y.sigaction_succeeds) [
      | inr no_action ↦
          rw (no_action) (λ _. refl, λ _. refl, λ h. absurd (cc), λ h. absurd (cc), refl)
      | inl action ↦ elim (Bool-cases y.tgkill_succeeds) [
        | inr no_kill ↦
            rw (action, no_kill)
              (λ h. absurd (cc), λ h. absurd (cc), λ _. refl, λ h. absurd (cc), refl)
        | inl kill ↦
            elim (Option-cases (
              wait (changed.output_states params).futex_ (interrupted.output_states params).futex_
                y.futex_returns)) [
                  | inl waits ↦
                      rw (action, kill, waits)
                        (
                          λ h. absurd (cc),
                          λ h. absurd (cc),
                          λ h. absurd (cc),
                          λ h. absurd (cc),
                          same_state,
                        )
                  | inr (true, woken) ↦
                      rw (action, kill, woken)
                        (
                          λ _. refl,
                          λ h. absurd (cc),
                          λ h. absurd (cc),
                          λ h. absurd (cc),
                          same_state,
                        )
                  | inr (false, failed) ↦
                      rw (action, kill, failed)
                        (
                          λ h. absurd (cc),
                          λ h. absurd (cc),
                          λ h. absurd (cc),
                          λ _. same_action,
                          same_state,
                        )
                ]
      ]
    ]

written : (at : ℕ) (o : OutputState) (states : ℕ → OutputState) → write at o states at ≡ o
unfolding write
written at o states = ground arith

interrupted_state :
    (ips : List ℕ) (at : ℕ) (w : Process)
    → w.current_output_state_ ≡ some at
    → w.output_states at ≡ fresh
    → (signal_handler ips w).output_states at
      ≡ signal (filled fresh (take max_stack_size (map call_address ips)))
unfolding signal_handler
interrupted_state ips at w e new =
    rw (signal_handler, e, new, unwound-filled max_stack_size ips fresh refl)
      (written at _ w.output_states)

captured :
    (handler params : ℕ) (y : System) (w : Process)
    → y.sigaction_succeeds ≡ true
    → y.tgkill_succeeds ≡ true
    → let running : Process = record w { current_output_state_ = some params; action = handler } in
      wait
          (w.output_states params).futex_
          ((signal_handler y.frames running).output_states params).futex_
          y.futex_returns
        ≡ some true
      → capture_raw_stacktrace handler params y w ≡ (
        record (signal_handler y.frames
            (record w { current_output_state_ = some params; action = handler })) {
              action = w.action;
            },
        some none,
      )
unfolding capture_raw_stacktrace
captured handler params y w action kill woken =
    rw (capture_raw_stacktrace, action, kill, woken) refl

-- A wait that no failure ends before the signal handler has run, and that returns after it.
abbrev pub notified : List FutexReturn → Bool
notified [] = false
notified (r ∷ rest) = if r.handled then true else (if r.res_is_zero then notified rest else false)

notified-wait :
    (returns : List FutexReturn) → notified returns ≡ true → wait 0 1 returns ≡ some true
unfolding wait
notified-wait [] h = absurd (ground (arith, h))
notified-wait (r ∷ rest) h = ground (arith, notified-wait rest)

-- If sigaction and tgkill succeed, and the futex call returns at last after the signal handler has run and has not
-- failed before, however often it returned without reason: GetStackTrace of a thread returns the symbolic
-- information of the first 100 frames of the interrupted thread, in order, and restores the action of the signal.
pub get_stack_trace_of_lem :
    (dladdr : ℕ → Option DlInfo) (handler params : ℕ) (y : System) (w : Process)
    → y.sigaction_succeeds ≡ true
    → y.tgkill_succeeds ≡ true
    → notified y.futex_returns ≡ true
    → let (after, result) = get_stack_trace_of dladdr handler params y w in
      (result ≡ some (format_stack_trace dladdr (take max_stack_size (map call_address y.frames))))
      × (after.action ≡ w.action)
unfolding get_stack_trace_of signal
get_stack_trace_of_lem dladdr handler params y w action kill reached =
    let fresh_states = write params fresh w.output_states in
    let start : Process = record w { output_states = fresh_states } in
    let running : Process = record start {
      current_output_state_ = some params;
      action = handler;
    } in
    let new = written params fresh w.output_states in
    let recorded = interrupted_state y.frames params running refl new in
    let woken =
      ap₂ (λ (a b : OutputState). wait a.futex_ b.futex_ y.futex_returns) new recorded
      ∙ notified-wait y.futex_returns reached in
    let done = captured handler params y start action kill woken in
    rw (get_stack_trace_of, done)
      (
        ap (λ z. some (format_stack_trace dladdr (z.0.output_states params).addresses)) done
            ∙ ap (λ o. some (format_stack_trace dladdr o.addresses)) recorded,
        refl,
      )
