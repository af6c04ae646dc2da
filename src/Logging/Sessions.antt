-- ===== src/Logging/Sessions.antt =====
-- Programs that call InitializeLog once, and DeInitializeLog before and after.
use io_base.Base.{ℕ, zero, suc, ◌≡◌, refl, ap, ◌∙◌, true, false, none, some, List, [], ◌∷◌, ◌++◌}
use io_base.Logging.Sinks.{Sinks}
use io_base.Logging.Defs.{
  LogSeverity, Call, initialize_call, de_initialize_call, Logging, call, run, initialize_log,
  add_log_sink, keep,
}
use io_base.Logging.Calls.{
  de_initialize_none, de_initialize_some, run-fails, run-goes, initialize_answer, kept,
}

-- n calls of DeInitializeLog.
abbrev pub de_initialize_calls : ℕ → List Call
de_initialize_calls zero = []
de_initialize_calls (suc n) = de_initialize_call ∷ de_initialize_calls n

module _ (c : Sinks) where
  open c use {
    Registry, start, initialize, add, remove, is_initialized, has, start_initialized, start_has,
    initialize_first, initialize_again, add_new, add_initialized, remove_initialized,
    remove_unknown,
  }

  abbrev pub started : Logging Registry
  started = record { g_log_sink_ = none; registry = start }

  -- A program that calls DeInitializeLog n times, InitializeLog with a sink, and DeInitializeLog m times.
  abbrev pub session : (n : ℕ) (severity : LogSeverity) (sink m : ℕ) → List Call
  session n severity sink m =
      de_initialize_calls n ++ (initialize_call severity (some sink) ∷ de_initialize_calls m)

  session-start :
      (n : ℕ) (calls : List Call)
      → run c (de_initialize_calls n ++ calls) started ≡ run c calls started
  unfolding call
  session-start zero calls = refl
  session-start (suc n) calls =
      run-goes c de_initialize_call (de_initialize_calls n ++ calls) started started
        (de_initialize_none c started refl)
      ∙ session-start n calls

  initialize_some :
      (severity : LogSeverity) (sink : ℕ) (i a : Registry)
      → initialize start ≡ some i
      → add sink i ≡ some a
      → initialize_log c severity (some sink) started ≡ some (kept c sink a)
  unfolding add_log_sink
  initialize_some severity sink i a e e' =
      initialize_answer c severity (some sink) started i e ∙ ap (keep c (some sink)) e'

  session_lem :
      (n : ℕ) (severity : LogSeverity) (sink m : ℕ) (i a : Registry)
      → initialize start ≡ some i
      → add sink i ≡ some a
      → run c (session n severity sink m) started ≡ run c (de_initialize_calls m) (kept c sink a)
  unfolding call
  session_lem n severity sink m i a e e' =
      session-start n (initialize_call severity (some sink) ∷ de_initialize_calls m)
      ∙ run-goes c (initialize_call severity (some sink)) (de_initialize_calls m) started
          (kept c sink a) (initialize_some severity sink i a e e')

  once :
      (sink m : ℕ) (i a : Registry)
      → remove sink a ≡ some i
      → run c (de_initialize_calls (suc m)) (kept c sink a)
        ≡ run c (de_initialize_calls m) (kept c sink i)
  unfolding call
  once sink m i a e =
      run-goes c de_initialize_call (de_initialize_calls m) (kept c sink a) (kept c sink i)
        (de_initialize_some c sink (kept c sink a) refl ∙ ap (keep c (some sink)) e)

  twice :
      (sink m : ℕ) (i : Registry)
      → has sink i ≡ false
      → run c (de_initialize_calls (suc m)) (kept c sink i) ≡ none
  unfolding call
  twice sink m i e = run-fails c de_initialize_call (de_initialize_calls m) (kept c sink i) (
      de_initialize_some c sink (kept c sink i) refl
      ∙ ap (keep c (some sink)) (remove_unknown sink i e))

  -- After InitializeLog with a sink, before which DeInitializeLog may be called freely, the sink is registered; one
  -- call of DeInitializeLog removes it and leaves `g_log_sink_`; a second one ends the program.
  pub run-session :
      (n : ℕ) (severity : LogSeverity) (sink : ℕ)
      → (added removed : Registry) × (has sink added ≡ true)
        × (has sink removed ≡ false)
        × (run c (session n severity sink 0) started ≡ some (kept c sink added))
        × (run c (session n severity sink 1) started ≡ some (kept c sink removed))
        × ((m : ℕ) → run c (session n severity sink (suc (suc m))) started ≡ none)
  unfolding run
  run-session n severity sink =
      let (i, e, initialized, same) = initialize_first start start_initialized in
      let unknown = same sink ∙ start_has sink in
      let (a, e', known, back) = add_new sink i unknown in
      (
        a,
        i,
        known,
        unknown,
        session_lem n severity sink 0 i a e e',
        session_lem n severity sink 1 i a e e' ∙ once sink 0 i a back,
        λ m.
            session_lem n severity sink (suc (suc m)) i a e e'
            ∙ once sink (suc m) i a back
            ∙ twice sink m i unknown,
      )
