-- ===== src/StackTrace/Defs.antt =====
-- The states and the operations. An output state is known by a number, its address.
use io_base.Base.{
  ℕ, suc, ◌+◌, ◌-◌, ◌%◌, ◌==◌, leb, if◌then◌else◌, Bool, true, false, not, Option, none, some, List,
  [], ◌∷◌, ◌++◌,
}

-- kMaxStackSize.
abbrev pub max_stack_size : ℕ
max_stack_size = 100

-- SignalHandlerOutputState: the futex of its event, and the part of the array that is filled.
pub record OutputState : Type 0 where
  pub futex_ : ℕ
  pub stack_size_counter : ℕ
  pub addresses : List ℕ

abbrev pub fresh : OutputState
fresh = record { futex_ = 0; stack_size_counter = 0; addresses = [] }

-- A return of the system call FUTEX_WAIT: whether it failed, and whether the signal handler has run when
-- `futex_` is then read.
pub record FutexReturn : Type 0 where
  pub res_is_zero : Bool
  pub handled : Bool

-- AsyncSafeWaitableEvent::Wait, with `futex_` as it is before and after the signal handler; `none` while it waits.
unfoldable pub wait : (before after : ℕ) → List FutexReturn → Option Bool
wait before after [] = none
wait before after (r ∷ rest) =
    let later = wait before after rest in
    let futex = if r.handled then after else before in
    if not (futex == 0) then some true else (if r.res_is_zero then later else some false)

-- AsyncSafeWaitableEvent::Signal.
unfoldable pub signal : OutputState → OutputState
signal o = record o { futex_ = 1 }

pub data ReasonCode : Type 0 where
  end_of_stack : ReasonCode
  no_reason : ReasonCode

-- UnwindBacktrace with the instruction pointer of a frame; addresses have 64 bits.
unfoldable pub unwind_backtrace : (ip : ℕ) → Option OutputState → Option OutputState × ReasonCode
unwind_backtrace ip none = (none, end_of_stack)
unwind_backtrace ip (some o) =
    if leb max_stack_size o.stack_size_counter then (some o, end_of_stack) else (
      some (record o {
        addresses = o.addresses ++ ((ip + 18446744073709551614) % 18446744073709551616) ∷ [];
        stack_size_counter = suc o.stack_size_counter;
      }),
      no_reason,
    )

-- The calls of UnwindBacktrace that the unwinder makes.
unfoldable pub unwound : List ℕ → Option OutputState → Option OutputState
unfolding unwind_backtrace
unwound [] o = o
unwound (ip ∷ ips) o = unwound ips (unwind_backtrace ip o).0

-- The process: the action of the signal, the global pointer, and the output states.
pub record Process : Type 0 where
  pub action : ℕ
  pub current_output_state_ : Option ℕ
  pub output_states : ℕ → OutputState

unfoldable pub write : ℕ → OutputState → (ℕ → OutputState) → ℕ → OutputState
write at o states n = if n == at then o else states n

-- SignalHandler on a thread with the given frames.
unfoldable pub signal_handler : List ℕ → Process → Process
unfolding unwound signal write
signal_handler ips w = elim w.current_output_state_ [
  | none ↦ w
  | some at ↦ elim (unwound ips (some (w.output_states at))) [
    | none ↦ w
    | some o ↦ record w { output_states = write at (signal o) w.output_states }
  ]
]

-- The error strings.
pub data Error : Type 0 where
  failed_to_change_signal_action : Error
  failed_to_interrupt_thread : Error
  failed_to_wait : Error

-- What the system does: which calls fail, the frames of the interrupted thread, the returns of FUTEX_WAIT.
pub record System : Type 0 where
  pub sigaction_succeeds : Bool
  pub tgkill_succeeds : Bool
  pub frames : List ℕ
  pub futex_returns : List FutexReturn

-- CaptureRawStacktrace; `none` while it waits, else the error, or none.
unfoldable pub capture_raw_stacktrace :
    (handler params : ℕ) → System → Process → Process × Option (Option Error)
unfolding signal_handler wait
capture_raw_stacktrace handler params y w =
    let stored : Process = record w { current_output_state_ = some params } in
    let changed : Process = record stored { action = handler } in
    let interrupted = signal_handler y.frames changed in
    if not y.sigaction_succeeds
    then (stored, some (some failed_to_change_signal_action))
    else (if not y.tgkill_succeeds
        then (changed, some (some failed_to_interrupt_thread))
        else (elim (wait (changed.output_states params).futex_
            (interrupted.output_states params).futex_ y.futex_returns) [
              | none ↦ (interrupted, none)
              | some false ↦ (interrupted, some (some failed_to_wait))
              | some true ↦ (record interrupted { action = w.action }, some none)
            ]))

-- Dl_info: path, base address, and symbol name, which may be null. Strings are numbers.
pub record DlInfo : Type 0 where
  pub dli_fname : ℕ
  pub dli_fbase : ℕ
  pub dli_sname : Option ℕ

pub record StackTraceElement : Type 0 where
  pub shared_object_path : ℕ
  pub relative_address : ℕ
  pub symbol_name : Option ℕ

-- A piece of text that StackTraceToString appends.
pub data Piece : Type 0 where
  frame : (i relative_address path : ℕ) → Piece
  symbol : ℕ → Piece
  newline : Piece

module _ (dladdr : ℕ → Option DlInfo) where
  -- The difference is cast to uint32_t.
  unfoldable pub element : ℕ → DlInfo → StackTraceElement
  element address info = record {
    shared_object_path = info.dli_fname;
    relative_address = (address + 18446744073709551616 - info.dli_fbase) % 4294967296;
    symbol_name = info.dli_sname;
  }

  unfoldable pub format_stack_trace : List ℕ → List StackTraceElement
  unfolding element
  format_stack_trace [] = []
  format_stack_trace (address ∷ addresses) =
      let rest = format_stack_trace addresses in
      elim (dladdr address) [ none ↦ rest | some info ↦ element address info ∷ rest ]

  -- GetStackTrace(tid), with a new output state at `params`; `none` while it waits.
  unfoldable pub get_stack_trace_of :
      (handler params : ℕ) → System → Process → Process × Option (List StackTraceElement)
  unfolding capture_raw_stacktrace format_stack_trace write
  get_stack_trace_of handler params y w =
      let (after, result) =
        capture_raw_stacktrace handler params y
          (record w { output_states = write params fresh w.output_states }) in
      (
        after,
        elim result [
          | none ↦ none
          | some (some error) ↦ some []
          | some none ↦ some (format_stack_trace (after.output_states params).addresses)
        ],
      )

  -- GetStackTrace().
  unfoldable pub get_stack_trace : List ℕ → List StackTraceElement
  unfolding unwound format_stack_trace
  get_stack_trace ips = elim (unwound ips (some fresh)) [
    | none ↦ []
    | some o ↦ format_stack_trace o.addresses
  ]

unfoldable pub stack_trace_to_string : ℕ → List StackTraceElement → List Piece
stack_trace_to_string i [] = []
stack_trace_to_string i (e ∷ es) =
    let rest = newline ∷ stack_trace_to_string (suc i) es in
    frame i e.relative_address e.shared_object_path
    ∷ elim e.symbol_name [ none ↦ rest | some name ↦ symbol name ∷ rest ]
