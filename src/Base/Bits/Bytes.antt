-- ===== src/Base/Bits/Bytes.antt =====
-- Masks of one byte, where a law is decided by evaluation at each of the 256 values.
use Prim.Native.Nat.{ℕ, zero, suc, ◌-◌, ◌<◌, bit_and, bit_or}
use mathlib.Core.Path.{◌≡◌, refl, ◌∙◌, ap₂}
use mathlib.Core.Bool.{Bool, true, false}
use native.Mathlib.Omega.{arith}
use io_base.Base.Bits.Laws.{and_comm, and-or, and-le}
use io_base.Base.Tests.{◌==◌, if◌then◌else◌}

-- Two functions have the same values below a bound.
agree : (f g : ℕ → ℕ) → ℕ → Bool
agree f g zero = true
agree f g (suc bound) =
    let earlier = agree f g bound in if f bound == g bound then earlier else false

agree-eq : (f g : ℕ → ℕ) (bound m : ℕ) → agree f g bound ≡ true → m < bound → f m ≡ g m
unfolding agree
agree-eq f g zero m same small = absurd (omega (arith, small))
agree-eq f g (suc bound) m same small = ground (arith, agree-eq f g bound m)

-- `~m` on a byte has no bit of `m`, and all that `m` has not.
pub complement-and : (m : ℕ) → m < 256 → bit_and (255 - m) m ≡ 0
unfolding agree
complement-and m = agree-eq (λ m. bit_and (255 - m) m) (λ _. 0) 256 m refl

pub complement-or : (m : ℕ) → m < 256 → bit_or (255 - m) m ≡ 255
unfolding agree
complement-or m = agree-eq (λ m. bit_or (255 - m) m) (λ _. 255) 256 m refl

pub and_full : (m : ℕ) → m < 256 → bit_and m 255 ≡ m
unfolding agree
and_full m = agree-eq (λ m. bit_and m 255) (λ m. m) 256 m refl

-- The three lowest bits of a byte, put together again.
pub byte_bits :
    (m : ℕ)
    → m < 256
    → bit_or
        (bit_or (if bit_and m 1 == 0 then 0 else 1) (if bit_and m 2 == 0 then 0 else 2))
        (if bit_and m 4 == 0 then 0 else 4)
      ≡ bit_and m 7
unfolding agree
byte_bits m =
    agree-eq
      (λ m.
        bit_or (bit_or (if bit_and m 1 == 0 then 0 else 1) (if bit_and m 2 == 0 then 0 else 2))
          (if bit_and m 4 == 0 then 0 else 4))
      (λ m. bit_and m 7) 256 m refl

pub readable_bit : (m : ℕ) → m < 256 → bit_and 1 m ≡ (if bit_and m 1 == 0 then 0 else 1)
unfolding agree
readable_bit m = agree-eq (λ m. bit_and 1 m) (λ m. if bit_and m 1 == 0 then 0 else 1) 256 m refl

pub writable_bit : (m : ℕ) → m < 256 → bit_and 2 m ≡ (if bit_and m 2 == 0 then 0 else 2)
unfolding agree
writable_bit m = agree-eq (λ m. bit_and 2 m) (λ m. if bit_and m 2 == 0 then 0 else 2) 256 m refl

pub error_bit : (m : ℕ) → m < 256 → bit_and 4 m ≡ (if bit_and m 4 == 0 then 0 else 4)
unfolding agree
error_bit m = agree-eq (λ m. bit_and 4 m) (λ m. if bit_and m 4 == 0 then 0 else 4) 256 m refl

-- `|` of two bytes is a byte.
pub or-lt_byte : (a b : ℕ) → a < 256 → b < 256 → bit_or a b < 256
or-lt_byte a b h k =
    let e : bit_and 255 (bit_or a b) ≡ bit_or a b =
      and_comm 255 (bit_or a b) ∙ and-or a b 255 ∙ ap₂ bit_or (and_full a h) (and_full b k) in
    omega (arith, e, and-le 255 (bit_or a b))
