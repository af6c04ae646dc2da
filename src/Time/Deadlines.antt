-- ===== src/Time/Deadlines.antt =====
-- Deadlines: TimeAfter, and what is left and what has passed.
use io_base.Base.{◌≡◌, refl}
use io_base.Base.Int.{ℤ, ◌-ℤ◌, int_laws}
use io_base.Time.Defs.{time_millis, time_after, time_diff, time_since, time_until}

-- What is left until a deadline that was `elapsed` away when the clock read `start` is `elapsed` less what has
-- passed since then, at any other reading of the clock, before or behind the deadline; and what is left until a time
-- and what has passed since it are opposites.
pub time_until-time_after :
    (start now elapsed : ℤ)
    → (time_until now (time_after start elapsed) ≡ elapsed -ℤ time_since now (time_millis start))
      × (time_until now (time_millis start) ≡ time_diff (time_millis start) (time_millis now))
      × (time_since now (time_millis start) ≡ time_diff (time_millis now) (time_millis start))
unfolding time_until time_after time_since time_diff time_millis
time_until-time_after start now elapsed = (omega int_laws, refl, refl)
