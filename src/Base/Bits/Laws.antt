-- ===== src/Base/Bits/Laws.antt =====
-- The laws of `&` and `|` on masks, at every width: each from its digits, by halving the operands.
use Prim.Native.Nat.{ℕ, zero, suc, ◌+◌, ◌/◌, ◌%◌, ◌≤◌, min, max, bit_and, bit_or}
use mathlib.Core.Path.{◌≡◌, refl, ◌∙◌}
use native.Mathlib.Omega.{arith}
use io_base.Base.Bits.Step.{bit_and_step, bit_or_step}

and_half : (a b : ℕ) → bit_and a b / 2 ≡ bit_and (a / 2) (b / 2)
and_half a b = omega (arith, bit_and_step a b)

and_digit : (a b : ℕ) → bit_and a b % 2 ≡ min (a % 2) (b % 2)
and_digit a b = omega (arith, bit_and_step a b)

or_half : (a b : ℕ) → bit_or a b / 2 ≡ bit_or (a / 2) (b / 2)
or_half a b = omega (arith, bit_or_step a b)

or_digit : (a b : ℕ) → bit_or a b % 2 ≡ max (a % 2) (b % 2)
or_digit a b = omega (arith, bit_or_step a b)

ruleset digits_of = (and_half, and_digit, or_half, or_digit)

eq_of_digits : (a b : ℕ) → a / 2 ≡ b / 2 → a % 2 ≡ b % 2 → a ≡ b
eq_of_digits a b h k = omega arith

halving_fuel :
    (P : ℕ → ℕ → ℕ → Type 0)
    → P 0 0 0
    → ((a b c : ℕ) → P (a / 2) (b / 2) (c / 2) → P a b c)
    → (n a b c : ℕ) → a + b + c ≤ n
    → P a b c
halving_fuel P base step zero zero zero zero h = base
halving_fuel P base step zero (suc a) b c h = absurd (omega arith)
halving_fuel P base step zero zero (suc b) c h = absurd (omega arith)
halving_fuel P base step zero zero zero (suc c) h = absurd (omega arith)
halving_fuel P base step (suc n) a b c h =
    step a b c (halving_fuel P base step n (a / 2) (b / 2) (c / 2) (omega arith))

halving :
    (P : ℕ → ℕ → ℕ → Type 0)
    → P 0 0 0
    → ((a b c : ℕ) → P (a / 2) (b / 2) (c / 2) → P a b c)
    → (a b c : ℕ) → P a b c
halving P base step a b c = halving_fuel P base step (a + b + c) a b c (omega arith)

-- Two expressions over masks are equal if they agree on zeros, and digit by digit.
eq_by_digits :
    (f g : ℕ → ℕ → ℕ → ℕ)
    → f 0 0 0 ≡ g 0 0 0
    → ((a b c : ℕ)
        → f (a / 2) (b / 2) (c / 2) ≡ g (a / 2) (b / 2) (c / 2)
        → (f a b c / 2 ≡ g a b c / 2) × (f a b c % 2 ≡ g a b c % 2))
    → (a b c : ℕ) → f a b c ≡ g a b c
eq_by_digits f g base step =
    halving (λ a b c. f a b c ≡ g a b c) base
      λ a b c ih. let (h, d) = step a b c ih in eq_of_digits _ _ h d

pub and_comm : (a b : ℕ) → bit_and a b ≡ bit_and b a
and_comm a b =
    eq_by_digits (λ x y _. bit_and x y) (λ x y _. bit_and y x) refl
      (λ x y z ih. (simp digits_of ih, simp digits_of (omega arith))) a b 0

pub or_comm : (a b : ℕ) → bit_or a b ≡ bit_or b a
or_comm a b =
    eq_by_digits (λ x y _. bit_or x y) (λ x y _. bit_or y x) refl
      (λ x y z ih. (simp digits_of ih, simp digits_of (omega arith))) a b 0

pub and_assoc : (a b c : ℕ) → bit_and (bit_and a b) c ≡ bit_and a (bit_and b c)
and_assoc a b c =
    eq_by_digits (λ x y z. bit_and (bit_and x y) z) (λ x y z. bit_and x (bit_and y z)) refl
      (λ x y z ih. (simp digits_of ih, simp digits_of (omega arith))) a b c

pub and-or : (a b c : ℕ) → bit_and (bit_or a b) c ≡ bit_or (bit_and a c) (bit_and b c)
and-or a b c =
    eq_by_digits (λ x y z. bit_and (bit_or x y) z) (λ x y z. bit_or (bit_and x z) (bit_and y z))
      refl (λ x y z ih. (simp digits_of ih, simp digits_of (omega arith))) a b c

pub or-zero : (a : ℕ) → bit_or a 0 ≡ a
or-zero a =
    eq_by_digits (λ x _ _. bit_or x 0) (λ x _ _. x) refl
      (λ x y z ih. (simp digits_of ih, simp digits_of (omega arith))) a 0 0

pub and-zero : (a : ℕ) → bit_and a 0 ≡ 0
and-zero a =
    eq_by_digits (λ x _ _. bit_and x 0) (λ _ _ _. 0) refl
      (λ x y z ih. (simp digits_of ih, simp digits_of (omega arith))) a 0 0

pub and_self : (a : ℕ) → bit_and a a ≡ a
and_self a =
    eq_by_digits (λ x _ _. bit_and x x) (λ x _ _. x) refl
      (λ x y z ih. (simp digits_of ih, simp digits_of (omega arith))) a 0 0

pub and-or_self : (a b : ℕ) → bit_and (bit_or a b) b ≡ b
and-or_self a b =
    eq_by_digits (λ x y _. bit_and (bit_or x y) y) (λ _ y _. y) refl
      (λ x y z ih. (simp digits_of ih, simp digits_of (omega arith))) a b 0

pub zero-or : (a : ℕ) → bit_or 0 a ≡ a
zero-or a = or_comm 0 a ∙ or-zero a

pub zero-and : (a : ℕ) → bit_and 0 a ≡ 0
zero-and a = and_comm 0 a ∙ and-zero a

pub and-le : (a b : ℕ) → bit_and a b ≤ a
and-le a b =
    halving (λ x y _. bit_and x y ≤ x) (omega arith) (λ x y _ ih. omega (arith, bit_and_step x y)) a
      b 0

pub le-or : (a b : ℕ) → a ≤ bit_or a b
le-or a b =
    halving (λ x y _. x ≤ bit_or x y) (omega arith) (λ x y _ ih. omega (arith, bit_or_step x y)) a b
      0
