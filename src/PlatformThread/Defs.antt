-- ===== src/PlatformThread/Defs.antt =====
-- Strings of C are lists of characters, in memory that may go on behind the 0. Reading behind the memory and writing
-- behind an array are `none`.
use io_base.Base.{
  ℕ, zero, suc, ◌+◌, ◌-◌, ◌==◌, ltb, if◌then◌else◌, Bool, Option, none, some, List, [], ◌∷◌, length,
}

-- arraysize(wide_thread_name).
abbrev pub name_size : ℕ
name_size = 64

-- A char, which is signed, as a wchar_t of 16 bits.
abbrev pub widen : ℕ → ℕ
widen ch = if ltb ch 128 then ch else ch + 65280

-- An assignment to an entry of an array; behind its end it changes nothing here.
abbrev pub set {ℓ} : {A : Type ℓ} → List A → ℕ → A → List A
set [] i v = []
set (x ∷ xs) zero v = v ∷ xs
set (x ∷ xs) (suc i) v = x ∷ set xs i v

-- The loop from `i` on, with `n` further rounds; `name` is the memory from name[i] on.
unfoldable pub copy_name : (n i : ℕ) (name wide_thread_name : List ℕ) → Option (List ℕ)
copy_name zero i name wide_thread_name = some wide_thread_name
copy_name (suc n) i [] wide_thread_name = none
copy_name (suc n) i (ch ∷ name) wide_thread_name =
    let written = set wide_thread_name i (widen ch) in
    let rest = copy_name n (suc i) name written in
    if ltb i (length wide_thread_name) then (if widen ch == 0 then some written else rest) else none

-- What SetThreadDescription is called with; the array is not initialized.
unfoldable pub wide_name : (name wide_thread_name : List ℕ) → Option (List ℕ)
unfolding copy_name
wide_name name wide_thread_name = elim (copy_name (name_size - 1) 0 name wide_thread_name) [
  | none ↦ none
  | some copied ↦
      if ltb (name_size - 1) (length copied) then some (set copied (name_size - 1) 0) else none
]

-- How SetCurrentThreadName ends on Windows: `description` is the argument of SetThreadDescription if the system has
-- the function, `exception` that of RaiseException.
pub record Named : Type 0 where
  pub description : Option (List ℕ)
  pub exception : List ℕ

unfoldable pub set_current_thread_name :
    (has_set_thread_description : Bool) (name wide_thread_name : List ℕ) → Option Named
unfolding wide_name
set_current_thread_name has_set_thread_description name wide_thread_name =
    if has_set_thread_description
    then (elim (wide_name name wide_thread_name) [
      | none ↦ none
      | some wide ↦ some (record { description = some wide; exception = name })
    ])
    else some (record { description = none; exception = name })
