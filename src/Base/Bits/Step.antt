-- ===== src/Base/Bits/Step.antt =====
-- How `bit_and` and `bit_or` act on the lowest digit and on the halves. The native definition counts
-- down rounds; rounds beyond the first operand's value change nothing.
use Prim.Native.Nat.{
  ℕ, zero, suc, ◌+◌, ◌-◌, ◌*◌, ◌/◌, ◌%◌, ◌≤◌, min, max, digits, bitwise, bit_and, bit_or,
  bit_and-bitwise, bit_or-bitwise,
}
use mathlib.Core.Path.{◌≡◌, refl, sym, ap, ◌∙◌}
use native.Mathlib.Omega.{arith}

-- The sum, by rounds.
abbrev later : ℕ → ℕ → ℕ
later zero rounds = rounds
later (suc more) rounds = suc (later more rounds)

later_sum : (more rounds : ℕ) → later more rounds ≡ more + rounds
later_sum zero rounds = omega arith
later_sum (suc more) rounds = omega (arith, later_sum more rounds)

module _ (rest : ℕ → ℕ) (digit : ℕ → ℕ → ℕ) where
  one_round :
      (rounds x y : ℕ)
      → x ≤ rounds
      → digits rest digit (suc rounds) x y ≡ digits rest digit rounds x y
  one_round rounds zero y fits =
      elim rounds as (λ k. digits rest digit (suc k) 0 y ≡ digits rest digit k 0 y) [
        | zero ↦ refl
        | suc k ↦ refl
      ]
  one_round zero (suc x) y fits = absurd (omega (arith, fits))
  one_round (suc k) (suc x) y fits =
      omega (arith, one_round k (suc x / 2) (y / 2) (omega (arith, fits)))

  spare_rounds :
      (more rounds x y : ℕ)
      → x ≤ rounds
      → digits rest digit (later more rounds) x y ≡ digits rest digit rounds x y
  spare_rounds zero rounds x y fits = refl
  spare_rounds (suc more) rounds x y fits =
      one_round (later more rounds) x y (omega (arith, later_sum more rounds, fits))
      ∙ spare_rounds more rounds x y fits

  low_digit :
      (x y : ℕ)
      → let half = suc x / 2 in
        bitwise rest digit (suc x) y
        ≡ digit (suc x % 2) (y % 2) + 2 * bitwise rest digit half (y / 2)
  low_digit x y =
      let half = suc x / 2 in
      let enough : later (x - half) half ≡ x = omega (arith, later_sum (x - half) half) in
      omega (
        arith,
        ap (λ rounds. digits rest digit rounds half (y / 2)) (sym enough)
            ∙ spare_rounds (x - half) half half (y / 2) (omega arith),
      )

pub bit_and_step : (x y : ℕ) → bit_and x y ≡ min (x % 2) (y % 2) + 2 * bit_and (x / 2) (y / 2)
bit_and_step zero y = simp bit_and-bitwise (omega arith)
bit_and_step (suc x) y = simp bit_and-bitwise (low_digit (λ _. 0) min x y)

pub bit_or_step : (x y : ℕ) → bit_or x y ≡ max (x % 2) (y % 2) + 2 * bit_or (x / 2) (y / 2)
bit_or_step zero y = simp bit_or-bitwise (omega arith)
bit_or_step (suc x) y = simp bit_or-bitwise (low_digit (λ m. m) max x y)
