-- ===== src/FunctionView/Typed.antt =====
-- The types behind the erasure: what a call reads from the union and casts to.
use io_base.Base.{
  ℕ, ◌==◌, ◌≡◌, refl, sym, subst, ◌∙◌, false, Option, none, some, List, [], ◌∷◌, inl, inr,
  Bool-cases, ==_iff, All, arith,
}
use io_base.FunctionView.Defs.{
  Argument, callable, function, null_pointer, nothing, construct, World, Outcome, returned,
  check_failed, wrong_member, wrong_type, no_object, call_as,
}
use io_base.FunctionView.Programs.{
  Action, binds, copies, calls, tests, makes, ends, value, truth, at_place, and_then, answers,
  put_object, put_state, run,
}
use io_base.FunctionView.Refines.{
  call_itself, is_thing, run_views, run_things, run_views-run_things,
}

-- The type `types address` is the one of all objects at an address, `functions` the types of the functions.
module _ (types : ℕ → ℕ) (functions : ℕ → Option ℕ) where
  -- What C++ knows of an argument: the type of the object or of the function.
  abbrev pub Fits : Argument → Type 0
  Fits (callable type address) = types address ≡ type
  Fits (function type address) = (address == 0) ≡ false → functions address ≡ some type
  Fits null_pointer = Unit
  Fits nothing = Unit

  abbrev pub FitsAction : {Arg : Type 0} → Action Arg → Type 0
  FitsAction (binds view a) = Fits a
  FitsAction (copies view from) = Unit
  FitsAction (calls view arg) = Unit
  FitsAction (tests view) = Unit
  FitsAction (makes address type) = types address ≡ type
  FitsAction (ends address) = Unit

  pub record FitsWorld {State : Type 0} (w : World State) : Type 0 where
    pub objects_fit : (address type : ℕ) → w.objects address ≡ some type → types address ≡ type
    pub functions_fit : (address : ℕ) → w.functions address ≡ functions address

-- Neither the union nor a cast is misused.
abbrev pub IsTyped : {A : Type 0} → Outcome A → Type 0
IsTyped (returned a) = Unit
IsTyped check_failed = Unit
IsTyped wrong_member = ⊥
IsTyped wrong_type = ⊥
IsTyped no_object = Unit

and_then-IsTyped :
    {A B : Type 0} (o : Outcome A) (f : A → Outcome B)
    → IsTyped o
    → ((a : A) → IsTyped (f a))
    → IsTyped (and_then o f)
unfolding and_then
and_then-IsTyped (returned a) f h k = k a
and_then-IsTyped check_failed f h k = tt
and_then-IsTyped wrong_member f h k = h
and_then-IsTyped wrong_type f h k = h
and_then-IsTyped no_object f h k = tt

call_as-IsTyped :
    {A State : Type 0} (found : Option ℕ) (type : ℕ) (body : State → A) (state : State)
    → ((other : ℕ) → found ≡ some other → other ≡ type)
    → IsTyped (call_as found type body state)
unfolding call_as
call_as-IsTyped none type body state h = tt
call_as-IsTyped (some other) type body state h = rw ((==_iff other type).1 (h other refl)) tt

module _ {Arg Ret State : Type 0} (operators : (type address : ℕ) → Arg → State → Ret × State)
    (bodies : (address : ℕ) → Arg → State → Ret × State) (types : ℕ → ℕ)
    (functions : ℕ → Option ℕ) where
  call_itself-IsTyped :
      (a : Argument) (arg : Arg) (w : World State)
      → Fits types functions a
      → FitsWorld types functions w
      → IsTyped (call_itself operators bodies a arg w)
  unfolding call_itself
  call_itself-IsTyped (callable type address) arg w fits world =
      call_as-IsTyped (w.objects address) type (operators type address arg) w.state
        (λ other e. sym (world.objects_fit address other e) ∙ fits)
  call_itself-IsTyped (function type address) arg w fits world = elim (Bool-cases (address == 0)) [
    | inl e ↦ rw e tt
    | inr e ↦ rw e (
        call_as-IsTyped (w.functions address) type (bodies address arg) w.state
          (λ other found. cc (fits e, world.functions_fit address)))
  ]
  call_itself-IsTyped null_pointer arg w fits world = tt
  call_itself-IsTyped nothing arg w fits world = tt

  put-FitsWorld :
      (address : ℕ) (found : Option ℕ) (w : World State)
      → ((type : ℕ) → found ≡ some type → types address ≡ type)
      → FitsWorld types functions w
      → FitsWorld types functions (put_object address found w)
  put-FitsWorld address found w fits world = record {
    objects_fit = λ other type e. ground (arith, e, fits type, world.objects_fit other type);
    functions_fit = world.functions_fit;
  }

  place-Fits :
      (things : ℕ → Argument) (i : ℕ) (a : Argument)
      → Fits types functions a
      → ((j : ℕ) → Fits types functions (things j))
      → (j : ℕ) → Fits types functions (at_place things i a j)
  place-Fits things i a fits all j = elim (Bool-cases (i == j)) [
    | inl e ↦ rw e fits
    | inr e ↦ rw e (all j)
  ]

  run_things-IsTyped :
      (actions : List (Action Arg)) (things : ℕ → Argument) (w : World State)
      → All (FitsAction types functions) actions
      → ((i : ℕ) → Fits types functions (things i))
      → FitsWorld types functions w
      → IsTyped (run_things operators bodies actions things w)
  unfolding run
  run_things-IsTyped [] things w a t f = tt
  run_things-IsTyped (binds i x ∷ rest) things w a t f =
      run_things-IsTyped rest (at_place things i x) w a.1 (place-Fits things i x a.0 t) f
  run_things-IsTyped (copies i j ∷ rest) things w a t f =
      run_things-IsTyped rest (at_place things i (things j)) w a.1
        (place-Fits things i (things j) (t j) t) f
  run_things-IsTyped (calls i arg ∷ rest) things w a t f =
      and_then-IsTyped (call_itself operators bodies (things i) arg w)
        (λ (done : Ret × State).
          answers (value done.0) (run_things operators bodies rest things (put_state done.1 w)))
        (call_itself-IsTyped (things i) arg w (t i) f)
        (λ done.
          and_then-IsTyped (run_things operators bodies rest things (put_state done.1 w))
            (λ later. returned (value done.0 ∷ later))
            (run_things-IsTyped rest things (put_state done.1 w) a.1 t
              (record { objects_fit = f.objects_fit; functions_fit = f.functions_fit }))
            (λ later. tt))
  run_things-IsTyped (tests i ∷ rest) things w a t f =
      and_then-IsTyped (run_things operators bodies rest things w)
        (λ later. returned (truth (is_thing (things i)) ∷ later))
        (run_things-IsTyped rest things w a.1 t f) (λ later. tt)
  run_things-IsTyped (makes address type ∷ rest) things w a t f =
      run_things-IsTyped rest things (put_object address (some type) w) a.1 t
        (put-FitsWorld address (some type) w (λ other e. cc (a.0)) f)
  run_things-IsTyped (ends address ∷ rest) things w a t f =
      run_things-IsTyped rest things (put_object address none w) a.1 t
        (put-FitsWorld address none w (λ other e. cc) f)

  -- If every view is constructed from an object or a function of the type that the constructor is instantiated
  -- with, and all objects that are made at one address are of one type: no call of a view reads a member of the
  -- union that was not written, nor casts a pointer to another type than that of what it points to, in any program,
  -- whichever views are copied, and even if the object of a view has ended.
  pub run-IsTyped :
      (actions : List (Action Arg)) (w : World State)
      → All (FitsAction types functions) actions
      → FitsWorld types functions w
      → IsTyped (run_views operators bodies actions (λ i. construct nothing) w)
  run-IsTyped actions w a f =
      subst IsTyped (sym (run_views-run_things operators bodies actions (λ i. nothing) w))
        (run_things-IsTyped actions (λ i. nothing) w a (λ i. tt) f)
