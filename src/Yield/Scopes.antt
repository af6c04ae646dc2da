-- ===== src/Yield/Scopes.antt =====
-- Policies are scoped: code that nests ScopedYieldPolicy objects calls the innermost one.
use io_base.Base.{
  ℕ, ◌≡◌, sym, ap, ◌∙◌, Option, none, some, List, [], ◌∷◌, ◌++◌, append_assoc, append-nil,
}
use io_base.Yield.Defs.{Thread, construct, destruct, set_current_yield_policy, yield_execution}

-- Code of a thread: it ends; it yields and goes on; it runs `inner` in the scope of a policy and goes on.
pub data Code : Type 0 where
  ends : Code
  yields : (rest : Code) → Code
  scoped : (policy : Option ℕ) (inner rest : Code) → Code

unfoldable pub execute : Code → Thread → Thread
unfolding construct destruct yield_execution
execute ends t = t
execute (yields rest) t = execute rest (yield_execution t)
execute (scoped policy inner rest) t =
    let (scope, entered) = construct policy t in
    execute rest (destruct scope (execute inner entered))

-- The policies that the text of the code says: at each yield the innermost one, if there is one.
abbrev pub lexical : Option ℕ → Code → List ℕ
lexical policy ends = []
lexical none (yields rest) = lexical none rest
lexical (some policy) (yields rest) = policy ∷ lexical (some policy) rest
lexical policy (scoped inner_policy inner rest) = lexical inner_policy inner ++ lexical policy rest

abbrev thread : Option ℕ → List ℕ → Thread
thread policy calls = record { current_yield_policy = policy; calls = calls }

execute-thread :
    (code : Code) (policy : Option ℕ) (calls : List ℕ)
    → execute code (thread policy calls) ≡ thread policy (calls ++ lexical policy code)
unfolding execute construct destruct yield_execution set_current_yield_policy
execute-thread ends policy calls = ap (thread policy) (sym (append-nil calls))
execute-thread (yields rest) none calls = execute-thread rest none calls
execute-thread (yields rest) (some policy) calls =
    execute-thread rest (some policy) (calls ++ policy ∷ [])
    ∙ ap (thread (some policy)) (append_assoc calls (policy ∷ []) (lexical (some policy) rest))
execute-thread (scoped policy inner rest) outer calls =
    let within = lexical policy inner in
    ap (λ t. execute rest (record t { current_yield_policy = outer }))
      (execute-thread inner policy calls)
    ∙ execute-thread rest outer (calls ++ within)
    ∙ ap (thread outer) (append_assoc calls within (lexical outer rest))

-- Whatever nesting of scopes a thread runs, it ends with the policy that it began with, and every yield
-- has called the policy of the innermost scope around it, in order, and none where that is null.
pub execute-lexical :
    (code : Code) (t : Thread)
    → execute code t ≡ record t { calls = t.calls ++ lexical t.current_yield_policy code }
execute-lexical code t = execute-thread code t.current_yield_policy t.calls
