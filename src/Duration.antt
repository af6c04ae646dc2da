-- ===== src/Duration.antt =====
-- What the code relies on of absl::Duration, which is not part of the repository: a type of spans
-- that may be infinite, and its conversions. Times are microseconds or milliseconds, in ℤ: an int64_t
-- overflow, which C++ leaves undefined, is not modelled.
use io_base.Base.{Bool}
use io_base.Base.Int.{ℤ, pos, ◌-ℤ◌, leb_ℤ, max_ℤ, quot}

pub record Durations : Type 1 where
  pub Duration : Type 0
  -- ZeroDuration(), InfiniteDuration().
  pub zero_duration : Duration
  pub infinite_duration : Duration
  -- `a <= b`, `a == InfiniteDuration()`.
  pub le : Duration → Duration → Bool
  pub is_infinite : Duration → Bool
  -- Microseconds(n), `d -= Microseconds(n)`, std::max.
  pub microseconds : ℤ → Duration
  pub sub_microseconds : Duration → ℤ → Duration
  pub max_duration : Duration → Duration → Duration
  -- ToInt64Microseconds and ToInt64Milliseconds: they truncate towards zero.
  pub to_int64_microseconds : Duration → ℤ
  pub to_int64_milliseconds : Duration → ℤ

-- Spans of whole microseconds without an infinite one, to run the code on.
abbrev pub whole_microseconds : Durations
whole_microseconds = record {
  Duration = ℤ;
  zero_duration = pos 0;
  infinite_duration = pos 9223372036854775807;
  le = leb_ℤ;
  is_infinite = λ d. leb_ℤ (pos 9223372036854775807) d;
  microseconds = λ n. n;
  sub_microseconds = λ d n. d -ℤ n;
  max_duration = max_ℤ;
  to_int64_microseconds = λ d. d;
  to_int64_milliseconds = λ d. quot d 1000;
}
