-- ===== src/CriticalSection/Invariant.antt =====
-- What each step keeps, for the thread that steps and the counts of the others.
use io_base.Base.{
  ℕ, zero, suc, ◌+◌, ◌<◌, ◌≤◌, ◌≡◌, true, false, ◌&&◌, Option, none, some, arith, ◌⊎◌, inl, inr,
  refl,
}
use io_base.CriticalSection.Defs.{
  Shared, Call, Stage, owned_by, spin, spin_round, try_enter, leave, release, advance, checks,
  take_check, is_leave, is_outside,
}
use Call.{enters, tries, leaves}
use Stage.{outside, spinning, queueing, waiting, entering, inside, releasing, signaling}

-- Threads that have the lock before they are inside or after, threads inside, threads about to signal, threads
-- in the semaphore's wait.
abbrev pub passes : Stage → ℕ
passes entering = 1
passes releasing = 1
passes stage = 0

abbrev pub is_inside : Stage → ℕ
is_inside inside = 1
is_inside stage = 0

abbrev pub signals : Stage → ℕ
signals signaling = 1
signals stage = 0

abbrev pub waits : Stage → ℕ
waits waiting = 1
waits stage = 0

-- The counts fit the shared state: the queue is the recursion, the passing and the waiting threads; at most one
-- thread has the lock, is about to hand it on, or can take it from the semaphore; it is handed on only if a thread
-- waits, and while one waits it is not lost; without a thread that has it there is no recursion, with one
-- inside there is, and without recursion there is no owner.
unfoldable pub Counts : (p i s w : ℕ) → Shared → Type 0
Counts p i s w h =
    (h.lock_queue_ ≡ h.recursion_ + p + w)
    × (p + i + s + h.semaphore_ ≤ 1)
    × (s + h.semaphore_ ≤ w)
    × (p + i + s + h.semaphore_ ≡ 0 → w ≡ 0)
    × (p + i ≡ 0 → h.recursion_ ≡ 0)
    × (0 < i → 0 < h.recursion_)
    × (h.recursion_ ≡ 0 → h.owning_thread_ ≡ none)

-- Where a thread stands fits the owner.
abbrev pub Stands : Option ℕ → (recursion self : ℕ) → Stage → Type 0
Stands owner recursion self entering = Unit
Stands owner recursion self inside = owned_by owner self ≡ true
Stands owner recursion self releasing = 0 < recursion → owned_by owner self ≡ true
Stands owner recursion self stage = owned_by owner self ≡ false

-- A thread, and the counts of the others.
abbrev pub Local : (p i s w self : ℕ) → Stage → Shared → Type 0
Local p i s w self stage h =
    Counts (passes stage + p) (is_inside stage + i) (signals stage + s) (waits stage + w) h
    × Stands h.owning_thread_ h.recursion_ self stage

module _ (p i s w self : ℕ) (h : Shared) where
  release-Local : Local p i s w self releasing h → Local p i s w self (release h).0 (release h).1
  unfolding release Counts
  release-Local l = ground arith

  leave-Local : Local p i s w self inside h → Local p i s w self (leave h).0 (leave h).1
  unfolding leave Counts
  leave-Local l = ground arith

  signal-Local :
      Local p i s w self signaling h
      → Local p i s w self outside (record h { semaphore_ = h.semaphore_ + 1 })
  unfolding Counts
  signal-Local l = ground arith

  wait-Local :
      Local p i s w self waiting h
      → Local p i s w self (advance self enters waiting h).0 (advance self enters waiting h).1
  unfolding Counts advance
  wait-Local l = ground arith

  queue-Local :
      Local p i s w self queueing h
      → Local p i s w self (advance self enters queueing h).0 (advance self enters queueing h).1
  unfolding Counts advance
  queue-Local l = ground arith

  enter-Local :
      Local p i s w self entering h
      → Local p i s w self inside
          (record h { owning_thread_ = some self; recursion_ = h.recursion_ + 1 })
  unfolding Counts
  enter-Local l = ground arith

  try-outside :
      Local p i s w self outside h
      → Local p i s w self (try_enter self outside h).0 (try_enter self outside h).1
  unfolding Counts try_enter
  try-outside l = ground arith

  try-inside :
      Local p i s w self inside h
      → Local p i s w self (try_enter self inside h).0 (try_enter self inside h).1
  unfolding Counts try_enter
  try-inside l = ground arith

  spin-outside :
      (n : ℕ)
      → Local p i s w self outside h
      → Local p i s w self (spin_round self n h).0 (spin_round self n h).1
  unfolding Counts spin_round
  spin-outside zero l = ground arith
  spin-outside (suc n) l = ground arith

  spin-inside :
      (n : ℕ)
      → Local p i s w self inside h
      → Local p i s w self (spin_round self n h).0 (spin_round self n h).1
  unfolding Counts spin_round
  spin-inside n l = ground arith

-- A step keeps the counts and where the thread stands.
pub advance-Local :
    (p i s w self : ℕ) (call : Call) (stage : Stage) (h : Shared)
    → is_leave call && is_outside stage ≡ false
    → Local p i s w self stage h
    → Local p i s w self (advance self call stage h).0 (advance self call stage h).1
unfolding advance
advance-Local p i s w self enters outside h own l = spin-outside p i s w self h spin l
advance-Local p i s w self tries outside h own l = try-outside p i s w self h l
advance-Local p i s w self leaves outside h own l = absurd (ground (arith, own))
advance-Local p i s w self call (spinning n) h own l = spin-outside p i s w self h n l
advance-Local p i s w self call queueing h own l = queue-Local p i s w self h l
advance-Local p i s w self call waiting h own l = wait-Local p i s w self h l
advance-Local p i s w self call entering h own l = enter-Local p i s w self h l
advance-Local p i s w self enters inside h own l = spin-inside p i s w self h spin l
advance-Local p i s w self tries inside h own l = try-inside p i s w self h l
advance-Local p i s w self leaves inside h own l = leave-Local p i s w self h l
advance-Local p i s w self call releasing h own l = release-Local p i s w self h l
advance-Local p i s w self call signaling h own l = signal-Local p i s w self h l

module _ (p i s w self : ℕ) (h : Shared) where
  take-passes :
      (own : Local p i s w self outside h ⊎ Local p i s w self inside h) → take_check self h ≡ true
  unfolding Counts take_check
  take-passes (inl l) = ground arith
  take-passes (inr l) = ground arith

  queue-passes : (call : Call) → Local p i s w self queueing h → checks self call queueing h ≡ true
  unfolding Counts checks
  queue-passes call l = ground arith

  wait-passes : (call : Call) → Local p i s w self waiting h → checks self call waiting h ≡ true
  unfolding Counts checks
  wait-passes call l = ground arith

-- No check of a step fails.
pub advance-passes :
    (p i s w self : ℕ) (call : Call) (stage : Stage) (h : Shared)
    → is_leave call && is_outside stage ≡ false
    → Local p i s w self stage h
    → checks self call stage h ≡ true
unfolding checks
advance-passes p i s w self enters outside h own l = refl
advance-passes p i s w self tries outside h own l = take-passes p i s w self h (inl l)
advance-passes p i s w self leaves outside h own l = absurd (ground (arith, own))
advance-passes p i s w self call (spinning n) h own l = ground arith
advance-passes p i s w self call queueing h own l = queue-passes p i s w self h call l
advance-passes p i s w self call waiting h own l = wait-passes p i s w self h call l
advance-passes p i s w self call entering h own l = ground arith
advance-passes p i s w self enters inside h own l = refl
advance-passes p i s w self tries inside h own l = take-passes p i s w self h (inr l)
advance-passes p i s w self leaves inside h own l = l.1
advance-passes p i s w self call releasing h own l = ground arith
advance-passes p i s w self call signaling h own l = ground arith
