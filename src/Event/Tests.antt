-- ===== src/Event/Tests.antt =====
-- Waits on concrete wake-ups, with spans of whole microseconds and ETIMEDOUT as 110.
use io_base.Base.{ℕ, ◌≡◌, ◌≢◌, refl, true, false, some, [], ◌∷◌, arith}
use io_base.Base.Int.{pos, ◌+ℤ◌, ◌-ℤ◌, quot, rem, times}
use io_base.Duration.{whole_microseconds}
use io_base.Event.Defs.{
  Timespec, sets, resets, Wakeup, Outcome, set, reset, apply, wait_loop, finish, get_timespec,
  warn_ts, give_up_ts, wait,
}
use io_base.Event.Deadlines.{timespec, get_timespec_lem}
use io_base.Event.Waits.{event, wait_signaled}
use io_base.Event.Exclusive.{one_waiter}

abbrev now : Timespec
now = timespec 5 999999000

abbrev spurious : Wakeup
spurious = record { error = 0; changes = [] }

abbrev signal : Wakeup
signal = record { error = 0; changes = sets ∷ [] }

abbrev stolen : Wakeup
stolen = record { error = 0; changes = sets ∷ resets ∷ [] }

abbrev timeout : Wakeup
timeout = record { error = 110; changes = [] }

abbrev etimedout : ℕ
etimedout = 110

nonzero : etimedout ≢ 0
nonzero = omega arith

get_timespec_lem_example : get_timespec whole_microseconds now (pos 3000001) ≡ timespec 9 0
get_timespec_lem_example =
    get_timespec_lem whole_microseconds 5 999999000 3000001 (pos 3000001) (omega arith) refl

wait_signaled_example :
    (o : Outcome) × (wait whole_microseconds 110 now now
        (pos 9000000)
        (pos 3000000)
        (spurious ∷ stolen ∷ signal ∷ [])
        (event false false)
      ≡ some o)
    × (o.event ≡ event false false)
    × (o.result ≡ true)
    × (o.warned ≡ false)
wait_signaled_example =
    wait_signaled whole_microseconds 110 now now (pos 9000000) (pos 3000000)
      (spurious ∷ stolen ∷ []) [] signal false nonzero ((refl, refl), ((refl, refl), tt)) refl refl

abbrev seen : Outcome
seen = record {
  event = event false false;
  result = true;
  warned = false;
  deadlines = some (timespec 6 0) ∷ [];
}

abbrev missed : Outcome
missed = record {
  event = event false false;
  result = false;
  warned = false;
  deadlines = some (timespec 6 0) ∷ [];
}

first_wait :
    wait whole_microseconds 110 now now (pos 1) (pos 1) (signal ∷ []) (event false false)
    ≡ some seen
unfolding wait wait_loop finish warn_ts give_up_ts get_timespec apply set reset quot rem times ◌+ℤ◌
    ◌-ℤ◌
first_wait = refl

second_wait :
    wait whole_microseconds 110 now now
      (pos 1)
      (pos 1)
      (spurious ∷ timeout ∷ [])
      (event false false)
    ≡ some missed
unfolding wait wait_loop finish warn_ts give_up_ts get_timespec apply set reset quot rem times ◌+ℤ◌
    ◌-ℤ◌
second_wait = refl

one_waiter_example : missed.result ≡ false
one_waiter_example =
    one_waiter whole_microseconds 110 now now now now (pos 1) (pos 1) (pos 1) (pos 1) (signal ∷ [])
      (spurious ∷ timeout ∷ []) false seen missed first_wait refl (refl, (refl, tt)) second_wait
