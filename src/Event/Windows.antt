-- ===== src/Event/Windows.antt =====
-- Event on Windows (event.cc), an event object of the kernel, and the Wait with one argument (event.h).
use io_base.Base.{ℕ, ◌==◌, ◌<◌, ◌≤◌, ◌≡◌, refl, if◌then◌else◌, Bool, true, false}
use io_base.Base.Int.{pos, ◌<ℤ◌, max_ℤ, u32, at_least_one}
use io_base.Duration.{Durations}

-- INFINITE, WAIT_OBJECT_0.
abbrev pub infinite : ℕ
infinite = 4294967295

abbrev pub wait_object_0 : ℕ
wait_object_0 = 0

module _ (c : Durations) where
  open c use {Duration, infinite_duration, microseconds, is_infinite, to_int64_milliseconds}

  -- The `warn_after` of a Wait with one argument: kDefaultWarnDuration or kForever.
  unfoldable pub default_warn_after : Duration → Duration
  default_warn_after give_up_after =
      if is_infinite give_up_after then microseconds (pos 3000000) else infinite_duration

  -- `ms` of Wait, a DWORD.
  unfoldable pub wait_ms : Duration → ℕ
  wait_ms give_up_after = u32 (
      if is_infinite give_up_after
      then pos infinite
      else max_ℤ (pos 1) (to_int64_milliseconds give_up_after))

  -- `wait_for_single_object` is what WaitForSingleObject returns for the event and a timeout.
  unfoldable pub wait_windows : (wait_for_single_object : ℕ → ℕ) → Duration → Bool
  unfolding wait_ms
  wait_windows wait_for_single_object give_up_after =
      wait_for_single_object (wait_ms give_up_after) == wait_object_0

  -- A wait for ever gives INFINITE to the system. Any other with fewer milliseconds than INFINITE gives these, but
  -- at least 1, and not INFINITE: it neither polls nor waits for ever.
  pub wait_ms_lem :
      (give_up_after : Duration)
      → (is_infinite give_up_after ≡ true → wait_ms give_up_after ≡ infinite)
        × (is_infinite give_up_after ≡ false
            → to_int64_milliseconds give_up_after <ℤ pos infinite
            → (pos (wait_ms give_up_after) ≡ max_ℤ (pos 1) (to_int64_milliseconds give_up_after))
              × (1 ≤ wait_ms give_up_after)
              × (wait_ms give_up_after < infinite))
  unfolding wait_ms
  wait_ms_lem give_up_after = (
    λ e. rw e refl,
    λ e h.
        let (low, high, same) = at_least_one (to_int64_milliseconds give_up_after) h in
        rw e (same, low, high),
  )
