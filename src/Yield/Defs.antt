-- ===== src/Yield/Defs.antt =====
-- The state of one thread and the operations.
use io_base.Base.{ℕ, Option, none, some, List, [], ◌∷◌, ◌++◌}

-- `calls` are the calls of YieldInterface::YieldExecution, in order.
pub record Thread : Type 0 where
  pub current_yield_policy : Option ℕ
  pub calls : List ℕ

-- A ScopedYieldPolicy.
pub record ScopedYieldPolicy : Type 0 where
  pub previous_ : Option ℕ

unfoldable pub set_current_yield_policy : Option ℕ → Thread → Thread
set_current_yield_policy policy t = record t { current_yield_policy = policy }

unfoldable pub construct : Option ℕ → Thread → ScopedYieldPolicy × Thread
unfolding set_current_yield_policy
construct policy t =
    (record { previous_ = t.current_yield_policy }, set_current_yield_policy policy t)

unfoldable pub destruct : ScopedYieldPolicy → Thread → Thread
unfolding set_current_yield_policy
destruct scope t = set_current_yield_policy scope.previous_ t

unfoldable pub yield_execution : Thread → Thread
yield_execution t = elim t.current_yield_policy [
  | none ↦ t
  | some policy ↦ record t { calls = t.calls ++ policy ∷ [] }
]
