-- ===== src/FunctionView/Programs.antt =====
-- Programs that use views, whatever a view is.
use io_base.Base.{ℕ, ◌==◌, if◌then◌else◌, Bool, Option, none, some, List, [], ◌∷◌}
use io_base.FunctionView.Defs.{
  Argument, World, Outcome, returned, check_failed, wrong_member, wrong_type, no_object,
}

-- A view is constructed, is a copy of another, is called, or is tested by operator bool; an object is made at an
-- address, or ends.
pub data Action (Arg : Type 0) : Type 0 where
  binds : (view : ℕ) → Argument → Action Arg
  copies : (view from : ℕ) → Action Arg
  calls : (view : ℕ) → Arg → Action Arg
  tests : (view : ℕ) → Action Arg
  makes : (address type : ℕ) → Action Arg
  ends : (address : ℕ) → Action Arg

-- What a program sees of its views.
pub data Answer (Ret : Type 0) : Type 0 where
  value : Ret → Answer Ret
  truth : Bool → Answer Ret

abbrev pub at_place {ℓ} : {A : Type ℓ} → (ℕ → A) → ℕ → A → ℕ → A
at_place f i x j = if i == j then x else f j

unfoldable pub and_then : {A B : Type 0} → Outcome A → (A → Outcome B) → Outcome B
and_then (returned a) f = f a
and_then check_failed f = check_failed
and_then wrong_member f = wrong_member
and_then wrong_type f = wrong_type
and_then no_object f = no_object

abbrev pub answers :
    {Ret : Type 0} → Answer Ret → Outcome (List (Answer Ret)) → Outcome (List (Answer Ret))
answers a rest = and_then rest (λ later. returned (a ∷ later))

abbrev pub put_object : {State : Type 0} → ℕ → Option ℕ → World State → World State
put_object address type w = record w { objects = at_place w.objects address type }

abbrev pub put_state : {State : Type 0} → State → World State → World State
put_state state w = record w { state = state }

-- `make` constructs a view, `apply` calls it, `test` is its operator bool.
module _ {View Arg Ret State : Type 0} (make : Argument → View)
    (apply : View → Arg → World State → Outcome (Ret × State)) (test : View → Bool) where
  unfoldable pub run : List (Action Arg) → (ℕ → View) → World State → Outcome (List (Answer Ret))
  unfolding and_then
  run [] views w = returned []
  run (binds i a ∷ rest) views w = run rest (at_place views i (make a)) w
  run (copies i j ∷ rest) views w = run rest (at_place views i (views j)) w
  run (calls i arg ∷ rest) views w =
      and_then (apply (views i) arg w)
        (λ (done : Ret × State). answers (value done.0) (run rest views (put_state done.1 w)))
  run (tests i ∷ rest) views w = answers (truth (test (views i))) (run rest views w)
  run (makes address type ∷ rest) views w = run rest views (put_object address (some type) w)
  run (ends address ∷ rest) views w = run rest views (put_object address none w)
