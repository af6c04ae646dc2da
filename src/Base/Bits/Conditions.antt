-- ===== src/Base/Bits/Conditions.antt =====
-- `mask & flag` as a condition.
use Prim.Native.Nat.{ℕ, zero, suc, bit_and, bit_or}
use mathlib.Core.Path.{◌≡◌, ◌∙◌, ap₂}
use mathlib.Core.Bool.{not, ◌||◌}
use native.Mathlib.Omega.{arith}
use io_base.Base.Bits.Laws.{and_comm, or_comm, and-or, le-or, or-zero}
use io_base.Base.Tests.{◌==◌, has}

or-eq_zero : (a b : ℕ) → not (bit_or a b == 0) ≡ not (a == 0) || not (b == 0)
or-eq_zero zero b = ground (arith, or-zero b, or_comm 0 b)
or-eq_zero (suc a) b = ground (arith, le-or (suc a) b)

and-or_right : (m a b : ℕ) → bit_and m (bit_or a b) ≡ bit_or (bit_and m a) (bit_and m b)
and-or_right m a b =
    and_comm m (bit_or a b) ∙ and-or a b m ∙ ap₂ bit_or (and_comm a m) (and_comm b m)

-- A mask has one of two flags in exactly the case that it has the first or the second.
pub has-or : (m a b : ℕ) → has m (bit_or a b) ≡ has m a || has m b
has-or m a b = rw (and-or_right m a b) (or-eq_zero (bit_and m a) (bit_and m b))

-- A mask made of two has a flag in exactly the case that one of them has it.
pub or-has : (a b m : ℕ) → has (bit_or a b) m ≡ has a m || has b m
or-has a b m = rw (and-or a b m) (or-eq_zero (bit_and a m) (bit_and b m))
