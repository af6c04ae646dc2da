-- ===== src/Logging/Calls.antt =====
-- What each call comes to, and that absl stays initialized.
use io_base.Base.{
  ℕ, ◌≡◌, refl, sym, ap, subst, ◌∙◌, true, Option, none, some, inl, inr, List, ◌∷◌, Bool-cases,
  Option-cases, arith,
}
use io_base.Logging.Sinks.{Sinks}
use io_base.Logging.Defs.{
  LogSeverity, Call, initialize_call, de_initialize_call, Logging, call, run, initialize_log,
  de_initialize_log, add_log_sink, keep,
}

module _ (c : Sinks) where
  open c use {
    Registry, start, initialize, add, remove, is_initialized, has, start_initialized, start_has,
    initialize_first, initialize_again, add_new, add_initialized, remove_initialized,
    remove_unknown,
  }

  abbrev pub kept : ℕ → Registry → Logging Registry
  kept sink r = record { g_log_sink_ = some sink; registry = r }

  pub keep-initialized :
      (sink : Option ℕ) (o : Option Registry) (t : Logging Registry)
      → ((r : Registry) → o ≡ some r → is_initialized r ≡ true)
      → keep c sink o ≡ some t
      → is_initialized t.registry ≡ true
  keep-initialized sink none t h e = absurd (ground (arith, e))
  keep-initialized sink (some r) t h e =
      subst (λ q. is_initialized q ≡ true) (ground (arith, e)) (h r refl)

  pub initialize_lem :
      (severity : LogSeverity) (log_sink : Option ℕ) (s : Logging Registry)
      → is_initialized s.registry ≡ true
      → initialize_log c severity log_sink s ≡ none
  unfolding initialize_log
  initialize_lem severity log_sink s h = rw (initialize_log, initialize_again s.registry h)

  pub de_initialize_none :
      (s : Logging Registry) → s.g_log_sink_ ≡ none → de_initialize_log c s ≡ some s
  unfolding de_initialize_log
  de_initialize_none s g =
      ap
        (λ (o : Option ℕ). elim o [
          | none ↦ some s
          | some sink ↦ keep c (some sink) (remove sink s.registry)
        ])
        g

  pub de_initialize_some :
      (sink : ℕ) (s : Logging Registry)
      → s.g_log_sink_ ≡ some sink
      → de_initialize_log c s ≡ keep c (some sink) (remove sink s.registry)
  unfolding de_initialize_log
  de_initialize_some sink s g = rw (de_initialize_log, g)

  pub some-initialized :
      (s t : Logging Registry)
      → is_initialized s.registry ≡ true
      → some s ≡ some t
      → is_initialized t.registry ≡ true
  some-initialized s t h e = cc

  pub call-initialized :
      (next : Call) (s t : Logging Registry)
      → is_initialized s.registry ≡ true
      → call c next s ≡ some t
      → is_initialized t.registry ≡ true
  unfolding call
  call-initialized (initialize_call severity log_sink) s t h e =
      absurd (ground (arith, sym (initialize_lem severity log_sink s h) ∙ e))
  call-initialized de_initialize_call s t h e = elim (Option-cases s.g_log_sink_) [
    | inl g ↦ some-initialized s t h (sym (de_initialize_none s g) ∙ e)
    | inr (sink, g) ↦
        keep-initialized (some sink) (remove sink s.registry) t
          (λ r removed. remove_initialized sink s.registry r removed ∙ h)
          (sym (de_initialize_some sink s g) ∙ e)
  ]

  pub run-fails :
      (next : Call) (calls : List Call) (s : Logging Registry)
      → call c next s ≡ none
      → run c (next ∷ calls) s ≡ none
  unfolding run
  run-fails next calls s e = rw (run, e)

  pub run-goes :
      (next : Call) (calls : List Call) (s t : Logging Registry)
      → call c next s ≡ some t
      → run c (next ∷ calls) s ≡ run c calls t
  unfolding run
  run-goes next calls s t e = rw (run, e)

  pub initialize_answer :
      (severity : LogSeverity) (log_sink : Option ℕ) (s : Logging Registry) (i : Registry)
      → initialize s.registry ≡ some i
      → initialize_log c severity log_sink s ≡ add_log_sink c log_sink s.g_log_sink_ i
  unfolding initialize_log
  initialize_answer severity log_sink s i e = rw (initialize_log, e)

  pub add_log_sink-initialized :
      (log_sink sink : Option ℕ) (r : Registry) (t : Logging Registry)
      → is_initialized r ≡ true
      → add_log_sink c log_sink sink r ≡ some t
      → is_initialized t.registry ≡ true
  unfolding add_log_sink
  add_log_sink-initialized none sink r t h e =
      some-initialized (record { g_log_sink_ = sink; registry = r }) t h e
  add_log_sink-initialized (some log_sink) (some sink) r t h e =
      some-initialized (kept sink r) t h e
  add_log_sink-initialized (some log_sink) none r t h e =
      keep-initialized (some log_sink) (add log_sink r) t
        (λ a added. add_initialized log_sink r a added ∙ h) e

  pub initialize_log-initialized :
      (severity : LogSeverity) (log_sink : Option ℕ) (s t : Logging Registry)
      → initialize_log c severity log_sink s ≡ some t
      → is_initialized t.registry ≡ true
  initialize_log-initialized severity log_sink s t e =
      elim (Bool-cases (is_initialized s.registry)) [
        | inl h ↦ absurd (ground (arith, sym (initialize_lem severity log_sink s h) ∙ e))
        | inr h ↦
            let (i, e', h', same) = initialize_first s.registry h in
            add_log_sink-initialized log_sink s.g_log_sink_ i t h'
              (sym (initialize_answer severity log_sink s i e') ∙ e)
      ]
