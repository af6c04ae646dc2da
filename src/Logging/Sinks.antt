-- ===== src/Logging/Sinks.antt =====
-- What the code relies on of absl's log library: absl::InitializeLog, absl::AddLogSink and absl::RemoveLogSink.
-- A sink is a number. A call that ends the program is `none`.

use io_base.Base.{
  ℕ, ◌==◌, ◌≡◌, refl, if◌then◌else◌, Bool, true, false, Option, none, some, List, [], ◌∷◌, arith,
}

-- InitializeLog may be called once; a sink is removed that has been added before.
pub record Sinks : Type 1 where
  pub Registry : Type 0
  pub start : Registry
  pub initialize : Registry → Option Registry
  pub add : ℕ → Registry → Option Registry
  pub remove : ℕ → Registry → Option Registry
  pub is_initialized : Registry → Bool
  pub has : ℕ → Registry → Bool
  pub start_initialized : is_initialized start ≡ false
  pub start_has : (s : ℕ) → has s start ≡ false
  pub initialize_first :
      (r : Registry)
      → is_initialized r ≡ false
      → (i : Registry) × (initialize r ≡ some i)
        × (is_initialized i ≡ true)
        × ((s : ℕ) → has s i ≡ has s r)
  pub initialize_again : (r : Registry) → is_initialized r ≡ true → initialize r ≡ none
  pub add_new :
      (s : ℕ) (r : Registry)
      → has s r ≡ false
      → (a : Registry) × (add s r ≡ some a) × (has s a ≡ true) × (remove s a ≡ some r)
  pub add_initialized :
      (s : ℕ) (r a : Registry) → add s r ≡ some a → is_initialized a ≡ is_initialized r
  pub remove_initialized :
      (s : ℕ) (r q : Registry) → remove s r ≡ some q → is_initialized q ≡ is_initialized r
  pub remove_unknown : (s : ℕ) (r : Registry) → has s r ≡ false → remove s r ≡ none

-- The sinks in a list, and whether InitializeLog has been called.
abbrev pub listed : ℕ → List ℕ → Bool
listed s [] = false
listed s (t ∷ sinks) = if t == s then true else listed s sinks

abbrev without : ℕ → List ℕ → List ℕ
without s [] = []
without s (t ∷ sinks) = if t == s then sinks else t ∷ without s sinks

abbrev initialize_list : Bool × List ℕ → Option (Bool × List ℕ)
initialize_list (true, sinks) = none
initialize_list (false, sinks) = some (true, sinks)

abbrev add_listed : ℕ → Bool × List ℕ → Option (Bool × List ℕ)
add_listed s (b, sinks) = if listed s sinks then none else some (b, s ∷ sinks)

abbrev remove_listed : ℕ → Bool × List ℕ → Option (Bool × List ℕ)
remove_listed s (b, sinks) = if listed s sinks then some (b, without s sinks) else none

pub list-first :
    (r : Bool × List ℕ)
    → r.0 ≡ false
    → (i : Bool × List ℕ) × (initialize_list r ≡ some i)
      × (i.0 ≡ true)
      × ((s : ℕ) → listed s i.1 ≡ listed s r.1)
list-first (true, sinks) e = absurd (ground (arith, e))
list-first (false, sinks) e = ((true, sinks), refl, refl, λ s. refl)

pub list-again : (r : Bool × List ℕ) → r.0 ≡ true → initialize_list r ≡ none
list-again (true, sinks) e = refl
list-again (false, sinks) e = absurd (ground (arith, e))

pub list-new :
    (s : ℕ) (r : Bool × List ℕ)
    → listed s r.1 ≡ false
    → (a : Bool × List ℕ) × (add_listed s r ≡ some a)
      × (listed s a.1 ≡ true)
      × (remove_listed s a ≡ some r)
list-new s (b, sinks) e = ((b, s ∷ sinks), ground arith, ground arith, ground arith)

pub list-added : (s : ℕ) (r a : Bool × List ℕ) → add_listed s r ≡ some a → a.0 ≡ r.0
list-added s (b, sinks) a e = ground arith

pub list-removed : (s : ℕ) (r q : Bool × List ℕ) → remove_listed s r ≡ some q → q.0 ≡ r.0
list-removed s (b, sinks) q e = ground arith

pub list-unknown : (s : ℕ) (r : Bool × List ℕ) → listed s r.1 ≡ false → remove_listed s r ≡ none
list-unknown s (b, sinks) e = ground arith

abbrev pub lists : Sinks
lists = record {
  Registry = Bool × List ℕ;
  start = (false, []);
  initialize = initialize_list;
  add = add_listed;
  remove = remove_listed;
  is_initialized = λ r. r.0;
  has = λ s r. listed s r.1;
  start_initialized = refl;
  start_has = λ s. refl;
  initialize_first = list-first;
  initialize_again = list-again;
  add_new = list-new;
  add_initialized = list-added;
  remove_initialized = list-removed;
  remove_unknown = list-unknown;
}
