-- ===== src/Time/Defs.antt =====
-- The operations; an int64_t is an integer without overflow, a uint32_t or int32_t wraps around.
use io_base.Base.{ℕ, ◌+◌, ◌-◌, ◌%◌}
use io_base.Base.Int.{ℤ, ◌+ℤ◌, ◌-ℤ◌, quot, u32, i32}

abbrev pub num_millisecs_per_sec : ℕ
num_millisecs_per_sec = 1000

abbrev pub num_nanosecs_per_microsec : ℕ
num_nanosecs_per_microsec = 1000

abbrev pub num_microsecs_per_millisec : ℕ
num_microsecs_per_millisec = 1000

abbrev pub num_nanosecs_per_millisec : ℕ
num_nanosecs_per_millisec = 1000000

unfoldable pub time_micros : ℤ → ℤ
time_micros nanos = quot nanos num_nanosecs_per_microsec

unfoldable pub time_millis : ℤ → ℤ
time_millis nanos = quot nanos num_nanosecs_per_millisec

unfoldable pub time32 : ℤ → ℕ
time32 nanos = u32 (quot nanos num_nanosecs_per_millisec)

unfoldable pub time_after : ℤ → ℤ → ℤ
unfolding time_millis
time_after nanos elapsed = time_millis nanos +ℤ elapsed

unfoldable pub time_diff32 : ℕ → ℕ → ℤ
time_diff32 later earlier = i32 ((later + 4294967296 - earlier) % 4294967296)

unfoldable pub time_diff : ℤ → ℤ → ℤ
time_diff later earlier = later -ℤ earlier

unfoldable pub time_utc_micros : ℤ → ℤ
time_utc_micros nanos = quot nanos num_nanosecs_per_microsec

unfoldable pub time_utc_millis : ℤ → ℤ
unfolding time_utc_micros
time_utc_millis nanos = quot (time_utc_micros nanos) num_microsecs_per_millisec

-- CurrentTimeNanos is SystemTimeNanos, on Windows between timeBeginPeriod and timeEndPeriod.
unfoldable pub current_time_micros : ℤ → ℤ
current_time_micros nanos = quot nanos num_nanosecs_per_microsec

unfoldable pub system_time_millis : ℤ → ℤ
system_time_millis nanos = quot nanos num_nanosecs_per_millisec

unfoldable pub time_since : ℤ → ℤ → ℤ
unfolding time_millis
time_since nanos earlier = time_millis nanos -ℤ earlier

unfoldable pub time_until : ℤ → ℤ → ℤ
unfolding time_millis
time_until nanos later = later -ℤ time_millis nanos
