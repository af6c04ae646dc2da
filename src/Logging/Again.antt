-- ===== src/Logging/Again.antt =====
-- Programs that call InitializeLog twice.
use io_base.Base.{ℕ, ◌≡◌, ◌∙◌, true, Option, none, inl, inr, List, [], ◌∷◌, ◌++◌, Option-cases}
use io_base.Logging.Sinks.{Sinks}
use io_base.Logging.Defs.{LogSeverity, Call, initialize_call, Logging, call, run, initialize_log}
use io_base.Logging.Calls.{
  initialize_lem, call-initialized, run-fails, run-goes, initialize_log-initialized,
}

module _ (c : Sinks) where
  open c use {
    Registry, start, initialize, add, remove, is_initialized, has, start_initialized, start_has,
    initialize_first, initialize_again, add_new, add_initialized, remove_initialized,
    remove_unknown,
  }

  again :
      (calls rest : List Call) (severity : LogSeverity) (log_sink : Option ℕ) (s : Logging Registry)
      → is_initialized s.registry ≡ true
      → run c (calls ++ (initialize_call severity log_sink ∷ rest)) s ≡ none
  unfolding run call
  again [] rest severity log_sink s h =
      run-fails c (initialize_call severity log_sink) rest s
        (initialize_lem c severity log_sink s h)
  again (next ∷ calls) rest severity log_sink s h = elim (Option-cases (call c next s)) [
    | inl e ↦ run-fails c next (calls ++ (initialize_call severity log_sink ∷ rest)) s e
    | inr (t, e) ↦
        run-goes c next (calls ++ (initialize_call severity log_sink ∷ rest)) s t e
        ∙ again calls rest severity log_sink t (call-initialized c next s t h e)
  ]

  run-ends :
      (calls rest : List Call) (s : Logging Registry)
      → ((t : Logging Registry) → run c rest t ≡ none)
      → run c (calls ++ rest) s ≡ none
  run-ends [] rest s ends = ends s
  run-ends (next ∷ calls) rest s ends = elim (Option-cases (call c next s)) [
    | inl e ↦ run-fails c next (calls ++ rest) s e
    | inr (t, e) ↦ run-goes c next (calls ++ rest) s t e ∙ run-ends calls rest t ends
  ]

  -- InitializeLog ends a program that has called it before, whatever the program has called else.
  pub run-initialize_again :
      (before between after : List Call) (severity again_severity : LogSeverity)
      (log_sink again_sink : Option ℕ) (s : Logging Registry)
      → run c
          (before
            ++ (initialize_call severity log_sink
                ∷ (between ++ (initialize_call again_severity again_sink ∷ after))))
          s
        ≡ none
  unfolding call
  run-initialize_again before between after severity again_severity log_sink again_sink s =
      run-ends before (initialize_call severity log_sink ∷ rest) s (λ t.
        elim (Option-cases (initialize_log c severity log_sink t)) [
          | inl e ↦ run-fails c (initialize_call severity log_sink) rest t e
          | inr (u, e) ↦
              run-goes c (initialize_call severity log_sink) rest t u e
              ∙ again between after again_severity again_sink u
                  (initialize_log-initialized c severity log_sink t u e)
        ])
    where
      rest : List Call
      rest = between ++ (initialize_call again_severity again_sink ∷ after)
