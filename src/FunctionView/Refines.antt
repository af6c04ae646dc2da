-- ===== src/FunctionView/Refines.antt =====
-- What a FunctionView promises: it is a reference to what it was constructed from.
use mathlib.Core.Path.{fun_ext}
use io_base.Base.{
  ℕ, ◌==◌, ◌≡◌, refl, ap, ◌∙◌, if◌then◌else◌, Bool, true, false, not, none, some, List, [], ◌∷◌,
  inl, inr, Bool-cases,
}
use io_base.FunctionView.Defs.{
  FunctionView, Argument, callable, function, null_pointer, nothing, construct, to_bool, World,
  Outcome, check_failed, call_as, run_call_ptr, invoke,
}
use io_base.FunctionView.Programs.{
  Action, binds, copies, calls, tests, makes, ends, Answer, value, truth, at_place, and_then,
  answers, put_object, put_state, run,
}

unfoldable pub is_thing : Argument → Bool
is_thing (callable type address) = true
is_thing (function type address) = not (address == 0)
is_thing null_pointer = false
is_thing nothing = false

to_bool-construct : (a : Argument) → to_bool (construct a) ≡ is_thing a
unfolding construct is_thing
to_bool-construct (callable type address) = refl
to_bool-construct (function type address) = elim (Bool-cases (address == 0)) [
  | inl e ↦ rw e refl
  | inr e ↦ rw e refl
]
to_bool-construct null_pointer = refl
to_bool-construct nothing = refl

construct-place :
    (things : ℕ → Argument) (i : ℕ) (a : Argument)
    → at_place (λ j. construct (things j)) i (construct a)
      ≡ (λ j. construct (at_place things i a j))
construct-place things i a =
    fun_ext λ j. elim (Bool-cases (i == j)) [ inl e ↦ rw e refl | inr e ↦ rw e refl ]

module _ {Arg Ret State : Type 0} (operators : (type address : ℕ) → Arg → State → Ret × State)
    (bodies : (address : ℕ) → Arg → State → Ret × State) where
  -- A call of the thing itself: the object as it is now, the function, or nothing.
  unfoldable pub call_itself : Argument → Arg → World State → Outcome (Ret × State)
  call_itself (callable type address) arg w =
      call_as (w.objects address) type (operators type address arg) w.state
  call_itself (function type address) arg w =
      if address == 0
      then check_failed
      else call_as (w.functions address) type (bodies address arg) w.state
  call_itself null_pointer arg w = check_failed
  call_itself nothing arg w = check_failed

  invoke-construct :
      (a : Argument) (arg : Arg) (w : World State)
      → invoke operators bodies (construct a) arg w ≡ call_itself a arg w
  unfolding invoke construct call_itself run_call_ptr
  invoke-construct (callable type address) arg w = refl
  invoke-construct (function type address) arg w = elim (Bool-cases (address == 0)) [
    | inl e ↦ rw e refl
    | inr e ↦ rw e refl
  ]
  invoke-construct null_pointer arg w = refl
  invoke-construct nothing arg w = refl

  abbrev pub run_views :
      List (Action Arg) → (ℕ → FunctionView) → World State → Outcome (List (Answer Ret))
  run_views = run construct (invoke operators bodies) to_bool

  abbrev pub run_things :
      List (Action Arg) → (ℕ → Argument) → World State → Outcome (List (Answer Ret))
  run_things = run (λ a. a) call_itself is_thing

  -- Whatever a program does with views that it constructs, copies, calls and tests, while objects are made and
  -- end: it sees and ends as if each view were the callable object, the function or the null that it was
  -- constructed from, or that the view was that it is a copy of. So a call always works on the object as it then is,
  -- and fails its check in just the case of a null.
  pub run_views-run_things :
      (actions : List (Action Arg)) (things : ℕ → Argument) (w : World State)
      → run_views actions (λ i. construct (things i)) w ≡ run_things actions things w
  unfolding run
  run_views-run_things [] things w = refl
  run_views-run_things (binds i a ∷ rest) things w =
      ap (λ views. run_views rest views w) (construct-place things i a)
      ∙ run_views-run_things rest (at_place things i a) w
  run_views-run_things (copies i j ∷ rest) things w =
      ap (λ views. run_views rest views w) (construct-place things i (things j))
      ∙ run_views-run_things rest (at_place things i (things j)) w
  run_views-run_things (calls i arg ∷ rest) things w =
      ap
        (λ (o : Outcome (Ret × State)). and_then o (λ (done : Ret × State).
          answers (value done.0) (run_views rest (λ j. construct (things j)) (put_state done.1 w))))
        (invoke-construct (things i) arg w)
      ∙ ap (and_then (call_itself (things i) arg w)) (
          fun_ext λ (done : Ret × State).
            ap (answers (value done.0)) (run_views-run_things rest things (put_state done.1 w)))
  run_views-run_things (tests i ∷ rest) things w =
      ap (λ (b : Bool). answers (truth b) (run_views rest (λ j. construct (things j)) w))
        (to_bool-construct (things i))
      ∙ ap (answers (truth (is_thing (things i)))) (run_views-run_things rest things w)
  run_views-run_things (makes address type ∷ rest) things w =
      run_views-run_things rest things (put_object address (some type) w)
  run_views-run_things (ends address ∷ rest) things w =
      run_views-run_things rest things (put_object address none w)
