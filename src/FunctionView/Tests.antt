-- ===== src/FunctionView/Tests.antt =====
-- Views of a counter and of a function.
use io_base.Base.{
  ℕ, ◌+◌, ◌*◌, ◌==◌, ◌≡◌, refl, if◌then◌else◌, true, false, Option, none, some, List, [], ◌∷◌, All,
}
use io_base.FunctionView.Defs.{
  callable, function, nothing, construct, invoke, World, returned, no_object,
}
use io_base.FunctionView.Programs.{
  Action, binds, copies, calls, tests, makes, ends, value, truth, run,
}
use io_base.FunctionView.Refines.{run_views, run_things, run_views-run_things}
use io_base.FunctionView.Typed.{FitsAction, FitsWorld, IsTyped, run-IsTyped}

-- Objects of the one class count what they are called with; the one function doubles.
abbrev count : (type address : ℕ) → ℕ → ℕ → ℕ × ℕ
count type address arg state = (state + arg, state + arg)

abbrev double : (address : ℕ) → ℕ → ℕ → ℕ × ℕ
double address arg state = (2 * arg, state)

abbrev functions : ℕ → Option ℕ
functions address = if address == 900 then some 5 else none

abbrev world : World ℕ
world = record { objects = λ address. none; functions = functions; state = 10 }

-- A copy of a view counts on the same object; a null pointer to a function is no callable; then the object ends.
abbrev program : List (Action ℕ)
program =
    makes 100 7
    ∷ binds 0 (callable 7 100)
    ∷ copies 1 0
    ∷ calls 0 3
    ∷ calls 1 4
    ∷ binds 0 (function 5 900)
    ∷ calls 0 4
    ∷ binds 0 (function 5 0)
    ∷ tests 0
    ∷ tests 1
    ∷ ends 100
    ∷ []

program_answers :
    run_views count double program (λ i. construct nothing) world
    ≡ returned (value 13 ∷ value 17 ∷ value 8 ∷ truth false ∷ truth true ∷ [])
unfolding run construct invoke
program_answers = refl

-- A call after the object has ended.
dangling :
    run_views count double
      (makes 100 7 ∷ binds 0 (callable 7 100) ∷ ends 100 ∷ calls 0 1 ∷ [])
      (λ i. construct nothing)
      world
    ≡ no_object
unfolding run construct invoke
dangling = refl

run_views-run_things_example :
    run_views count double program (λ i. construct nothing) world
    ≡ run_things count double program (λ i. nothing) world
run_views-run_things_example = run_views-run_things count double program (λ i. nothing) world

world-fits : FitsWorld (λ address. 7) functions world
world-fits = record { objects_fit = λ address type e. cc; functions_fit = λ address. refl }

program-fits : All (FitsAction (λ address. 7) functions) program
program-fits =
    (refl, (refl, (tt, (tt, (tt, ((λ e. refl), (tt, ((λ e. cc), (tt, (tt, (tt, tt)))))))))))

run-IsTyped_example : IsTyped (run_views count double program (λ i. construct nothing) world)
run-IsTyped_example =
    run-IsTyped count double (λ address. 7) functions program world program-fits world-fits
