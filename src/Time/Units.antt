-- ===== src/Time/Units.antt =====
-- Units and the wrap-around of 32-bit times.
use io_base.Base.{ℕ, ◌+◌, ◌-◌, ◌/◌, ◌%◌, ◌<◌, ◌≤◌, ◌≡◌, arith, ◌⊎◌, inl, inr}
use io_base.Base.Int.{ℤ, pos, ◌-ℤ◌, quot, quot-pos, pos-minus}
use io_base.Time.Defs.{
  time32, time_millis, time_diff32, time_diff, time_utc_micros, time_utc_millis,
}

forward_residue :
    (a b : ℕ)
    → a ≤ b
    → b - a < 2147483648
    → (b % 4294967296 + 4294967296 - a % 4294967296) % 4294967296 ≡ b - a
forward_residue a b order close = omega (arith, order, close)

forward :
    (a b : ℕ)
    → a ≤ b
    → b - a < 2147483648
    → time_diff32 (b % 4294967296) (a % 4294967296) ≡ pos b -ℤ pos a
unfolding time_diff32
forward a b order close =
    rw (forward_residue a b order close, pos-minus b a order) (ground (arith, close))

backward_residue :
    (a b : ℕ)
    → a < b
    → b - a < 2147483648
    → (a % 4294967296 + 4294967296 - b % 4294967296) % 4294967296 ≡ 4294967296 - (b - a)
backward_residue a b order close = omega (arith, order, close)

backward :
    (a b : ℕ)
    → a < b
    → b - a < 2147483648
    → time_diff32 (a % 4294967296) (b % 4294967296) ≡ pos a -ℤ pos b
unfolding time_diff32 ◌-ℤ◌
backward a b order close = rw (backward_residue a b order close) (ground (arith, order, close))

le-cases : (a b : ℕ) → a ≤ b → (a ≡ b) ⊎ (a < b)
le-cases a b h = ground arith

-- A difference of two 32-bit times, taken at times that are not negative and less than 2^31
-- milliseconds apart, is the difference of the 64-bit times, in both directions and whether or not the
-- 32-bit times have wrapped around in between.
pub time_diff32-time_diff :
    (earlier later : ℕ)
    → earlier ≤ later
    → later / 1000000 - earlier / 1000000 < 2147483648
    → (time_diff32 (time32 (pos later)) (time32 (pos earlier))
        ≡ time_diff (time_millis (pos later)) (time_millis (pos earlier)))
      × (time_diff32 (time32 (pos earlier)) (time32 (pos later))
          ≡ time_diff (time_millis (pos earlier)) (time_millis (pos later)))
unfolding time_diff32 time32 time_diff time_millis
time_diff32-time_diff earlier later order close =
    let a = earlier / 1000000 in
    let b = later / 1000000 in
    let millis : a ≤ b = omega (arith, order) in
    rw (quot-pos later 999999, quot-pos earlier 999999)
      (
        forward a b millis close,
        elim (le-cases a b millis) [
          | inl e ↦ rw (e) (forward b b (omega arith) (omega arith))
          | inr lt ↦ backward a b lt close
        ],
      )

-- Milliseconds by way of microseconds are those of the nanoseconds, also before 1970.
time_utc_millis-time_millis : (nanos : ℤ) → time_utc_millis nanos ≡ time_millis nanos
unfolding time_utc_millis time_utc_micros time_millis quot
time_utc_millis-time_millis nanos = ground arith
