-- ===== src/Logging/Tests.antt =====
-- A program that initializes its log for sink 5 and ends it.
use io_base.Base.{ℕ, suc, ◌≡◌, refl, Bool, true, false, none, some, List, [], ◌∷◌}
use io_base.Logging.Sinks.{lists, listed}
use io_base.Logging.Defs.{run, warning}
use io_base.Logging.Sessions.{started, session, run-session}

initialized_once :
    run lists (session lists 2 warning 5 0) (started lists)
    ≡ some (record { g_log_sink_ = some 5; registry = (true, 5 ∷ []) })
unfolding run
initialized_once = refl

ended_once :
    run lists (session lists 0 warning 5 1) (started lists)
    ≡ some (record { g_log_sink_ = some 5; registry = (true, []) })
unfolding run
ended_once = refl

ended_twice : run lists (session lists 0 warning 5 2) (started lists) ≡ none
unfolding run
ended_twice = refl

run-session_example :
    (added removed : Bool × List ℕ) × (listed 5 added.1 ≡ true)
    × (listed 5 removed.1 ≡ false)
    × (run lists (session lists 2 warning 5 0) (started lists)
        ≡ some (record { g_log_sink_ = some 5; registry = added }))
    × (run lists (session lists 2 warning 5 1) (started lists)
        ≡ some (record { g_log_sink_ = some 5; registry = removed }))
    × ((m : ℕ) → run lists (session lists 2 warning 5 (suc (suc m))) (started lists) ≡ none)
run-session_example = run-session lists 2 warning 5
