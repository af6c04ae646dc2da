-- ===== src/Logging/Defs.antt =====
-- The state, InitializeLog and DeInitializeLog, programs that call them, and Send.
use io_base.Base.{ℕ, Option, none, some, List, [], ◌∷◌}
use io_base.Logging.Sinks.{Sinks}

pub data LogSeverity : Type 0 where
  info : LogSeverity
  warning : LogSeverity
  error : LogSeverity
  fatal : LogSeverity

-- The cases of absl::LogSeverity that Send tells apart.
pub data AbslSeverity : Type 0 where
  k_info : AbslSeverity
  k_warning : AbslSeverity
  k_error : AbslSeverity
  k_fatal : AbslSeverity
  other : ℕ → AbslSeverity

-- The call of OnLogMessage by Send.
abbrev pub send {ℓ} : {Text : Type ℓ} → AbslSeverity → Text → LogSeverity × Text
send k_info text = (info, text)
send k_warning text = (warning, text)
send k_error text = (error, text)
send k_fatal text = (fatal, text)
send (other n) text = (info, text)

pub data Call : Type 0 where
  initialize_call : (severity : LogSeverity) (log_sink : Option ℕ) → Call
  de_initialize_call : Call

-- `g_log_sink_` is `none` for the null pointer.
pub record Logging (Registry : Type 0) : Type 0 where
  pub g_log_sink_ : Option ℕ
  pub registry : Registry

module _ (c : Sinks) where
  open c use {Registry, initialize, add, remove}

  -- The end of a call, by what absl answers.
  abbrev pub keep : Option ℕ → Option Registry → Option (Logging Registry)
  keep sink none = none
  keep sink (some r) = some (record { g_log_sink_ = sink; registry = r })

  unfoldable pub de_initialize_log : Logging Registry → Option (Logging Registry)
  de_initialize_log s = elim s.g_log_sink_ [
    | none ↦ some s
    | some sink ↦ keep (some sink) (remove sink s.registry)
  ]

  -- InitializeLog behind the call of absl::InitializeLog.
  unfoldable pub add_log_sink : Option ℕ → Option ℕ → Registry → Option (Logging Registry)
  add_log_sink none sink r = keep sink (some r)
  add_log_sink (some log_sink) (some sink) r = keep (some sink) (some r)
  add_log_sink (some log_sink) none r = keep (some log_sink) (add log_sink r)

  unfoldable pub initialize_log :
      LogSeverity → Option ℕ → Logging Registry → Option (Logging Registry)
  unfolding add_log_sink
  initialize_log severity log_sink s = elim (initialize s.registry) [
    | none ↦ none
    | some r ↦ add_log_sink log_sink s.g_log_sink_ r
  ]

  unfoldable pub call : Call → Logging Registry → Option (Logging Registry)
  unfolding initialize_log de_initialize_log
  call (initialize_call severity log_sink) s = initialize_log severity log_sink s
  call de_initialize_call s = de_initialize_log s

  -- The calls of a program, in order.
  unfoldable pub run : List Call → Logging Registry → Option (Logging Registry)
  unfolding call
  run [] s = some s
  run (first ∷ calls) s = elim (call first s) [ none ↦ none | some t ↦ run calls t ]
