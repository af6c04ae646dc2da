-- ===== src/CriticalSection/Native/Tests.antt =====
-- Two threads at a lock, one of which enters twice.
use mathlib.Core.Option
use io_base.Base.{ℕ, ◌≡◌, refl, Option, none, some, List, [], ◌∷◌}
use io_base.CriticalSection.Defs.{Call}
use io_base.CriticalSection.Native.Mutexes.{owned}
use io_base.CriticalSection.Native.Defs.{Section, Stage, between, unlocked, run}
use Call.{enters, tries, leaves}

-- Thread 1 enters twice, thread 2 tries in vain, thread 1 leaves twice, and thread 2 enters.
abbrev schedule : List (ℕ × Call)
schedule =
    (1, enters)
    ∷ (1, enters)
    ∷ (1, tries)
    ∷ (2, tries)
    ∷ (1, tries)
    ∷ (1, leaves)
    ∷ (1, leaves)
    ∷ (2, enters)
    ∷ (1, leaves)
    ∷ (1, leaves)
    ∷ (2, enters)
    ∷ (2, enters)
    ∷ []

schedule_count :
    Option.map {B = Stage × Option ℕ × ℕ}
      (λ (end : (ℕ → Stage) × Section (Option (ℕ × ℕ))).
        (end.0 2, end.1.thread_, end.1.recursion_count_))
      (run owned schedule (λ t. between 0) (unlocked owned))
    ≡ some (between 1, some 2, 1)
unfolding run
schedule_count = refl

-- A Leave without the lock fails its check.
stray_leave : run owned ((2, leaves) ∷ []) (λ t. between 0) (unlocked owned) ≡ none
unfolding run
stray_leave = refl
