-- ===== src/FunctionView/Defs.antt =====
-- A FunctionView, its constructors and its call. A type is a number, and so is an address; the null pointer is 0.
use io_base.Base.{ℕ, ◌==◌, if◌then◌else◌, Bool, true, false, Option, none, some}

-- The union, with the member that was written last.
pub data VoidUnion : Type 0 where
  void_ptr : (address : ℕ) → VoidUnion
  fun_ptr : (address : ℕ) → VoidUnion

-- The instances of the templates CallVoidPtr and CallFunPtr, by their parameter F.
pub data CallPtr : Type 0 where
  call_void_ptr : (type : ℕ) → CallPtr
  call_fun_ptr : (type : ℕ) → CallPtr

-- `f_` is `none` where a constructor leaves it uninitialized.
pub record FunctionView : Type 0 where
  pub f_ : Option VoidUnion
  pub call_ : Option CallPtr

-- What a view is constructed from: an object with a call operator, a pointer to a function, nullptr, or nothing.
pub data Argument : Type 0 where
  callable : (type address : ℕ) → Argument
  function : (type address : ℕ) → Argument
  null_pointer : Argument
  nothing : Argument

unfoldable pub construct : Argument → FunctionView
construct (callable type address) = record {
  f_ = some (void_ptr address);
  call_ = some (call_void_ptr type);
}
construct (function type address) = record {
  f_ = some (fun_ptr address);
  call_ = if address == 0 then none else some (call_fun_ptr type);
}
construct null_pointer = record { f_ = none; call_ = none }
construct nothing = record { f_ = none; call_ = none }

abbrev pub is_some {ℓ} : {A : Type ℓ} → Option A → Bool
is_some none = false
is_some (some x) = true

-- operator bool.
abbrev pub to_bool : FunctionView → Bool
to_bool view = is_some view.call_

-- The program around the views: the type of the object that is alive at an address, the type of the function at
-- an address, and all else.
pub record World (State : Type 0) : Type 0 where
  pub objects : ℕ → Option ℕ
  pub functions : ℕ → Option ℕ
  pub state : State

-- How a call ends: it returns; the ABSL_DCHECK fails; it reads a member of the union that was not written last; it
-- casts a pointer to another type than that of what is there; there is nothing at the address.
pub data Outcome (A : Type 0) : Type 0 where
  returned : A → Outcome A
  check_failed : Outcome A
  wrong_member : Outcome A
  wrong_type : Outcome A
  no_object : Outcome A

-- The object or the function at an address, called as one of a type.
unfoldable pub call_as :
    {A State : Type 0} → (found : Option ℕ) (type : ℕ) → (State → A) → State → Outcome A
call_as none type body state = no_object
call_as (some other) type body state = if other == type then returned (body state) else wrong_type

-- `operators` is the call operator of a type, on the object at an address; `bodies` the function at an address.
module _ {Arg Ret State : Type 0} (operators : (type address : ℕ) → Arg → State → Ret × State)
    (bodies : (address : ℕ) → Arg → State → Ret × State) where
  unfoldable pub run_call_ptr :
      CallPtr → Option VoidUnion → Arg → World State → Outcome (Ret × State)
  unfolding call_as
  run_call_ptr (call_void_ptr type) (some (void_ptr address)) arg w =
      call_as (w.objects address) type (operators type address arg) w.state
  run_call_ptr (call_fun_ptr type) (some (fun_ptr address)) arg w =
      call_as (w.functions address) type (bodies address arg) w.state
  run_call_ptr (call_void_ptr type) (some (fun_ptr address)) arg w = wrong_member
  run_call_ptr (call_fun_ptr type) (some (void_ptr address)) arg w = wrong_member
  run_call_ptr call none arg w = wrong_member

  -- operator().
  unfoldable pub invoke : FunctionView → Arg → World State → Outcome (Ret × State)
  unfolding run_call_ptr
  invoke view arg w = elim view.call_ [
    | none ↦ check_failed
    | some call ↦ run_call_ptr call view.f_ arg w
  ]
