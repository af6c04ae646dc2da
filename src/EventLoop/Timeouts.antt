-- ===== src/EventLoop/Timeouts.antt =====
-- The timeout that RunEventLoopOnce hands to the wait.
use io_base.Base.{ℕ, ◌<◌, ◌≤◌, ◌≡◌, false, arith}
use io_base.Base.Int.{pos, ◌<ℤ◌, max_ℤ, u32, i32, at_least_one}
use io_base.Duration.{Durations}
use io_base.EventLoop.Defs.{to_cms_wait}

u32-i32 : (n : ℕ) → n < 4294967296 → u32 (i32 n) ≡ n
u32-i32 n h = ground arith

-- For a duration that is not infinite and has fewer milliseconds than INFINITE, the timeout, cast to
-- the DWORD of the wait, is those milliseconds but at least 1, and not INFINITE: the loop neither polls
-- without a pause nor waits for ever.
pub to_cms_wait_lem :
    (c : Durations) (duration : c.Duration)
    → c.is_infinite duration ≡ false
    → c.to_int64_milliseconds duration <ℤ pos 4294967295
    → (pos (u32 (to_cms_wait c duration)) ≡ max_ℤ (pos 1) (c.to_int64_milliseconds duration))
      × (1 ≤ u32 (to_cms_wait c duration))
      × (u32 (to_cms_wait c duration) < 4294967295)
unfolding to_cms_wait
to_cms_wait_lem c duration finite h =
    let (low, high, same) = at_least_one (c.to_int64_milliseconds duration) h in
    let cast =
      u32-i32 (u32 (max_ℤ (pos 1) (c.to_int64_milliseconds duration))) (omega (arith, high)) in
    rw (finite, cast) (same, low, high)
