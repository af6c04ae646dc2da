-- ===== src/Event/Deadlines.antt =====
-- The deadlines of a wait.
use io_base.Base.{ℕ, ◌+◌, ◌*◌, ◌/◌, ◌%◌, ◌<◌, ◌≡◌, ap₂, ◌∙◌, arith, if◌then◌else◌}
use io_base.Base.Int.{pos, ◌+ℤ◌, ◌-ℤ◌, leb_ℤ, pos-plus, pos-minus, quot-pos, rem-pos, times-pos}
use io_base.Duration.{Durations}
use io_base.Event.Defs.{Timespec, get_timespec}

-- A time that is not negative.
abbrev pub timespec : ℕ → ℕ → Timespec
timespec sec nsec = record { tv_sec = pos sec; tv_nsec = pos nsec }

normalized :
    (sec nsec : ℕ)
    → nsec < 2000000000
    → (if leb_ℤ (pos 1000000000) (pos nsec)
        then record { tv_sec = pos sec +ℤ pos 1; tv_nsec = pos nsec -ℤ pos 1000000000 }
        else record { tv_sec = pos sec; tv_nsec = pos nsec })
      ≡ timespec (sec + nsec / 1000000000) (nsec % 1000000000)
normalized sec nsec small = ground (arith, pos-plus sec 1, pos-minus nsec 1000000000)

split :
    (sec nsec micros : ℕ)
    → let total = sec * 1000000000 + nsec + micros * 1000 in
      let rest = nsec + micros % 1000000 * 1000 in
      (sec + micros / 1000000 + rest / 1000000000 ≡ total / 1000000000)
      × (rest % 1000000000 ≡ total % 1000000000)
split sec nsec micros = (omega arith, omega arith)

-- With the clock at a normalized time that is not negative, and a duration of `micros` microseconds that is not
-- negative, GetTimespec gives the normalized time that many nanoseconds later.
pub get_timespec_lem :
    (c : Durations) (sec nsec micros : ℕ) (duration : c.Duration)
    → nsec < 1000000000
    → c.to_int64_microseconds duration ≡ pos micros
    → let total = sec * 1000000000 + nsec + micros * 1000 in
      get_timespec c (timespec sec nsec) duration
      ≡ timespec (total / 1000000000) (total % 1000000000)
unfolding get_timespec
get_timespec_lem c sec nsec micros duration small e =
    let rest = nsec + micros % 1000000 * 1000 in
    rw
      (
        e,
        quot-pos micros 999999,
        rem-pos micros 999999,
        times-pos (micros % 1000000) 1000,
        pos-plus sec (micros / 1000000),
        pos-plus nsec (micros % 1000000 * 1000),
      )
      (normalized (sec + micros / 1000000) rest (omega (arith, small))
        ∙ ap₂ timespec (split sec nsec micros).0 (split sec nsec micros).1)
