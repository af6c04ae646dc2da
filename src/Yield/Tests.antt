-- ===== src/Yield/Tests.antt =====
-- A thread with policy 1 that enters the scopes of policy 2 and of no policy.
use io_base.Base.{◌≡◌, none, some, [], ◌∷◌}
use io_base.Yield.Scopes.{Code, execute, execute-lexical}

abbrev nested : Code
nested = Code.yields (
    Code.scoped (some 2)
      (Code.yields (Code.scoped none (Code.yields Code.ends) (Code.yields Code.ends)))
      (Code.yields Code.ends))

execute-lexical_example :
    execute nested (record { current_yield_policy = some 1; calls = [] })
    ≡ record { current_yield_policy = some 1; calls = 1 ∷ 2 ∷ 2 ∷ 1 ∷ [] }
execute-lexical_example =
    execute-lexical nested (record { current_yield_policy = some 1; calls = [] })
