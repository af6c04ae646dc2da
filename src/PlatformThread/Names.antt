-- ===== src/PlatformThread/Names.antt =====
-- The copy of a thread's name: its bounds and its end.
use io_base.Base.{
  ℕ, zero, suc, ◌==◌, ltb, lt→ltb, ◌<◌, ◌≡◌, refl, ap, ◌∙◌, if◌then◌else◌, true, false, Option,
  none, some, List, [], ◌∷◌, ◌++◌, map, append_assoc, length, length-append, All, arith,
}
use io_base.PlatformThread.Defs.{
  name_size, widen, set, copy_name, wide_name, set_current_thread_name,
}

abbrev pub take {ℓ} : {A : Type ℓ} → ℕ → List A → List A
take zero xs = []
take (suc n) [] = []
take (suc n) (x ∷ xs) = x ∷ take n xs

-- The string in a memory: what stands before the first 0, `none` if there is none.
abbrev pub string_at : List ℕ → Option (List ℕ)
string_at [] = none
string_at (ch ∷ rest) =
    if ch == 0 then some [] else (elim (string_at rest) [ none ↦ none | some s ↦ some (ch ∷ s) ])

-- A char that is not 0.
abbrev pub IsChar : ℕ → Type 0
IsChar ch = (0 < ch) × (ch < 256)

widen-ne-zero : (ch : ℕ) → IsChar ch → (widen ch == 0) ≡ false
widen-ne-zero ch h = ground arith

set-append :
    (front : List ℕ) (x : ℕ) (back : List ℕ) (v : ℕ)
    → set (front ++ x ∷ back) (length front) v ≡ front ++ v ∷ back
set-append [] x back v = refl
set-append (y ∷ front) x back v = ap (λ zs. y ∷ zs) (set-append front x back v)

length-set : (xs : List ℕ) (i v : ℕ) → length (set xs i v) ≡ length xs
length-set [] i v = refl
length-set (x ∷ xs) zero v = refl
length-set (x ∷ xs) (suc i) v = omega (arith, length-set xs i v)

string_at-cons :
    (ch : ℕ) (rest s : List ℕ)
    → (ch == 0) ≡ false
    → string_at rest ≡ some s
    → string_at (ch ∷ rest) ≡ some (ch ∷ s)
string_at-cons ch rest s h e = rw (h, e) refl

length-snoc : (front : List ℕ) (x : ℕ) → length (front ++ x ∷ []) ≡ suc (length front)
length-snoc front x = omega (arith, length-append front (x ∷ []))

in_array :
    (front : List ℕ) (b : ℕ) (back : List ℕ)
    → ltb (length front) (length (front ++ b ∷ back)) ≡ true
in_array front b back = lt→ltb _ _ (omega (arith, length-append front (b ∷ back)))

-- The loop fills the array behind `front`.
copy_name_lem :
    (n : ℕ) (text beyond front back : List ℕ)
    → length back ≡ suc n
    → All IsChar text
    → (filled : List ℕ) × (copy_name n (length front) (text ++ 0 ∷ beyond) (front ++ back)
        ≡ some (front ++ filled))
      × (length filled ≡ suc n)
      × (string_at (set filled n 0) ≡ some (map widen (take n text)))
unfolding copy_name
copy_name_lem n text beyond front [] size chars = absurd (omega (arith, size))
copy_name_lem zero text beyond front (b ∷ back) size chars = (b ∷ back, refl, size, refl)
copy_name_lem (suc n) [] beyond front (b ∷ back) size chars =
    (0 ∷ back, rw (in_array front b back) (ap some (set-append front b back 0)), size, refl)
copy_name_lem (suc n) (x ∷ text) beyond front (b ∷ back) size chars =
    let (filled, e, long, string) =
      copy_name_lem n text beyond (front ++ widen x ∷ []) back (omega (arith, size)) chars.1 in
    let appended =
      rw
        (
          length-snoc front (widen x),
          append_assoc front (widen x ∷ []) back,
          append_assoc front (widen x ∷ []) filled,
        )
        at e in
    (
      widen x ∷ filled,
      rw (in_array front b back, widen-ne-zero x chars.0, set-append front b back (widen x))
          appended,
      omega (arith, long),
      string_at-cons (widen x) (set filled n 0) (map widen (take n text)) (widen-ne-zero x chars.0)
          string,
    )

-- With a name that ends with a 0, whatever is in the memory behind it, and an array of the size that the code has,
-- whatever is in it: the loop reads no further than the 0 and writes no further than the array, which keeps its
-- size; SetThreadDescription is given a string that ends within the array and is the first 63 characters of the
-- name, widened; and the exception is raised with the name as it is.
pub set_current_thread_name_lem :
    (text beyond wide_thread_name : List ℕ)
    → All IsChar text
    → length wide_thread_name ≡ name_size
    → let name = text ++ 0 ∷ beyond in
      (wide : List ℕ) × (set_current_thread_name true name wide_thread_name
        ≡ some (record { description = some wide; exception = name }))
      × (length wide ≡ name_size)
      × (string_at wide ≡ some (map widen (take 63 text)))
unfolding set_current_thread_name wide_name
set_current_thread_name_lem text beyond wide_thread_name chars size =
    let (filled, e, long, string) = copy_name_lem 63 text beyond [] wide_thread_name size chars in
    (set filled 63 0, rw (e, long) refl, length-set filled 63 0 ∙ long, string)
