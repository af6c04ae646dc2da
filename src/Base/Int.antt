-- ===== src/Base/Int.antt =====
-- Signed integers over the native numbers, under the library's names.
use Prim.Native.Nat.{ℕ, suc, ◌+◌, ◌*◌, ◌-◌, ◌/◌, ◌%◌, ◌≤◌, ◌<◌}
use mathlib.Core.Path.{◌≡◌}
use mathlib.Core.Bool.{Bool}
use native.Mathlib.Omega.{arith}
use io_base.Base.Tests.{ltb, leb, if◌then◌else◌}

-- `negsuc n` is -(n + 1).
pub data ℤ : Type 0 where
  pos : ℕ → ℤ
  negsuc : ℕ → ℤ

abbrev pub pos_part : ℤ → ℕ
pos_part (pos n) = n
pos_part (negsuc n) = 0

abbrev pub neg_part : ℤ → ℕ
neg_part (pos n) = 0
neg_part (negsuc n) = suc n

-- a - b, as an integer.
abbrev pub sub_ℕ : ℕ → ℕ → ℤ
sub_ℕ a b = if leb b a then pos (a - b) else negsuc (b - a - 1)

infixl 65 ◌+ℤ◌ ◌-ℤ◌
infix 50 ◌≤ℤ◌ ◌<ℤ◌
unfoldable pub ◌+ℤ◌ : ℤ → ℤ → ℤ
a +ℤ b = sub_ℕ (pos_part a + pos_part b) (neg_part a + neg_part b)

unfoldable pub ◌-ℤ◌ : ℤ → ℤ → ℤ
a -ℤ b = sub_ℕ (pos_part a + neg_part b) (neg_part a + pos_part b)

-- C's division and remainder by a positive number: both truncate towards zero.
unfoldable pub quot : ℤ → ℕ → ℤ
quot a d = sub_ℕ (pos_part a / d) (neg_part a / d)

unfoldable pub rem : ℤ → ℕ → ℤ
rem a d = sub_ℕ (pos_part a % d) (neg_part a % d)

-- By a natural number.
unfoldable pub times : ℤ → ℕ → ℤ
times a n = sub_ℕ (pos_part a * n) (neg_part a * n)

abbrev pub ◌≤ℤ◌ : ℤ → ℤ → Type 0
a ≤ℤ b = pos_part a + neg_part b ≤ pos_part b + neg_part a

abbrev pub ◌<ℤ◌ : ℤ → ℤ → Type 0
a <ℤ b = pos_part a + neg_part b < pos_part b + neg_part a

abbrev pub ltb_ℤ : ℤ → ℤ → Bool
ltb_ℤ a b = ltb (pos_part a + neg_part b) (pos_part b + neg_part a)

abbrev pub leb_ℤ : ℤ → ℤ → Bool
leb_ℤ a b = leb (pos_part a + neg_part b) (pos_part b + neg_part a)

abbrev pub max_ℤ : ℤ → ℤ → ℤ
max_ℤ a b = if ltb_ℤ a b then b else a

-- The casts to uint32_t and to int32_t.
abbrev pub u32 : ℤ → ℕ
u32 (pos n) = n % 4294967296
u32 (negsuc n) = 4294967295 - n % 4294967296

abbrev pub i32 : ℕ → ℤ
i32 n = if ltb n 2147483648 then pos n else negsuc (4294967295 - n)

pub +ℤ_parts :
    (a b : ℤ)
    → pos_part (a +ℤ b) + neg_part a + neg_part b ≡ neg_part (a +ℤ b) + pos_part a + pos_part b
unfolding ◌+ℤ◌
+ℤ_parts a b = ground arith

pub -ℤ_parts :
    (a b : ℤ)
    → pos_part (a -ℤ b) + neg_part a + pos_part b ≡ neg_part (a -ℤ b) + pos_part a + neg_part b
unfolding ◌-ℤ◌
-ℤ_parts a b = ground arith

pub eq_of_parts : (a b : ℤ) → pos_part a + neg_part b ≡ pos_part b + neg_part a → a ≡ b
eq_of_parts a b h = ground arith

pub ruleset int_laws = (arith, +ℤ_parts, -ℤ_parts, eq_of_parts)

-- On numbers that are not negative the operations are those of ℕ.
pub pos-plus : (a b : ℕ) → pos a +ℤ pos b ≡ pos (a + b)
unfolding ◌+ℤ◌
pos-plus a b = ground arith

pub pos-minus : (a b : ℕ) → b ≤ a → pos a -ℤ pos b ≡ pos (a - b)
unfolding ◌-ℤ◌
pos-minus a b h = ground arith

pub quot-pos : (a d : ℕ) → quot (pos a) (suc d) ≡ pos (a / suc d)
unfolding quot
quot-pos a d = ground arith

pub rem-pos : (a d : ℕ) → rem (pos a) (suc d) ≡ pos (a % suc d)
unfolding rem
rem-pos a d = ground arith

pub times-pos : (a n : ℕ) → times (pos a) n ≡ pos (a * n)
unfolding times
times-pos a n = ground arith

pub ruleset pos_laws = (pos-plus, quot-pos, rem-pos, times-pos)

-- A time in milliseconds, at least 1, as a DWORD that is not INFINITE.
pub at_least_one :
    (m : ℤ)
    → m <ℤ pos 4294967295
    → (1 ≤ u32 (max_ℤ (pos 1) m))
      × (u32 (max_ℤ (pos 1) m) < 4294967295)
      × (pos (u32 (max_ℤ (pos 1) m)) ≡ max_ℤ (pos 1) m)
at_least_one m h = (ground arith, ground arith, ground arith)
