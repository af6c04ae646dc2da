-- ===== src/CriticalSection/Tests.antt =====
-- Two threads and the lock.
use io_base.Base.{ℕ, ◌+◌, ◌<◌, ◌≤◌, ◌≡◌, refl, none, some, List, [], ◌∷◌, arith}
use io_base.CriticalSection.Defs.{Shared, Call, Stage, run, unlocked, leaves_own}
use io_base.CriticalSection.Invariant.{passes, is_inside, signals, waits, Counts}
use io_base.CriticalSection.Sound.{IsSound}
use io_base.CriticalSection.Stands.{total, AllStand}
use io_base.CriticalSection.Exclusive.{outsiders, run-exclusive}
use Call.{enters, leaves}
use Stage.{outside, waiting}

-- Thread 0 enters twice while thread 1 spins, and leaves once.
abbrev some_schedule : List (ℕ × Call)
some_schedule =
    (0, enters)
    ∷ (1, enters)
    ∷ (0, enters)
    ∷ (0, enters)
    ∷ (1, enters)
    ∷ (0, enters)
    ∷ (0, leaves)
    ∷ (0, leaves)
    ∷ []

run-exclusive_example :
    (end : List Stage × Shared) × (run some_schedule (outsiders 2) unlocked ≡ some end)
    × (let (stages, h) = end in
        let busy =
          total passes stages + total is_inside stages + total signals stages + h.semaphore_ in
        (busy ≤ 1)
        × (0 < total waits stages → busy ≡ 1)
        × (h.lock_queue_ ≡ h.recursion_ + total passes stages + total waits stages))
unfolding leaves_own
run-exclusive_example = run-exclusive 2 some_schedule refl

-- A Leave without the lock fails its check.
stray_leave : run ((1, leaves) ∷ []) (outsiders 2) unlocked ≡ none
unfolding run
stray_leave = refl

-- The semaphore has been signaled for the thread that waits.
abbrev handed : Shared
handed = record { lock_queue_ = 1; semaphore_ = 1; owning_thread_ = none; recursion_ = 0 }

handed-IsSound : IsSound (waiting ∷ []) handed
unfolding IsSound Counts total AllStand
handed-IsSound = (ground arith, (refl, tt))

alone-IsSound : IsSound (outside ∷ []) unlocked
unfolding IsSound Counts total AllStand
alone-IsSound = (ground arith, (refl, tt))
