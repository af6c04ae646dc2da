-- ===== src/CriticalSection/Exclusive.antt =====
-- Any number of threads in any interleaving.
use io_base.Base.{
  ℕ, zero, suc, ◌+◌, ◌==◌, ◌<◌, ◌≤◌, ◌≡◌, ◌↔◌, refl, sym, ap, ◌∙◌, subst, true, false, inl, inr,
  Option, none, some, List, [], ◌∷◌, ◌++◌, length, arith, Bool-cases, Option-cases,
}
use io_base.CriticalSection.Defs.{
  Shared, Call, Stage, owned_by, try_enter, advance, split_at, step, run, unlocked, is_stray,
  leaves_own,
}
use io_base.CriticalSection.Invariant.{passes, is_inside, signals, waits, Counts}
use io_base.CriticalSection.Sound.{IsSound, advance-IsSound}
use io_base.CriticalSection.Stands.{total, AllStand, AllStand-split}
use Call.{enters, tries}
use Stage.{outside, waiting, entering}

joined : List Stage → Option (List Stage × Stage × List Stage) → List Stage
joined stages none = stages
joined stages (some (before, stage, after)) = before ++ stage ∷ after

joined-split_at : (i : ℕ) (stages : List Stage) → joined stages (split_at i stages) ≡ stages
unfolding joined split_at
joined-split_at i [] = refl
joined-split_at zero (x ∷ stages) = refl
joined-split_at (suc i) (x ∷ stages) = elim (Option-cases (split_at i stages)) [
  | inl absent ↦ rw (absent, split_at) refl
  | inr ((before, stage, after), found) ↦
      rw (found, split_at) (ap (◌∷◌ x) (sym (ap (joined stages) found) ∙ joined-split_at i stages))
]

split_at-append :
    (i : ℕ) (stages before : List Stage) (stage : Stage) (after : List Stage)
    → split_at i stages ≡ some (before, stage, after)
    → stages ≡ before ++ stage ∷ after
unfolding joined
split_at-append i stages before stage after e =
    sym (joined-split_at i stages) ∙ ap (joined stages) e

-- The step succeeds, and leaves what holds before it.
abbrev Goes : Option (List Stage × Shared) → Type 0
Goes result = (end : List Stage × Shared) × (result ≡ some end) × IsSound end.0 end.1

step-Goes :
    (i : ℕ) (call : Call) (stages : List Stage) (h : Shared)
    → is_stray i call stages ≡ false
    → IsSound stages h
    → Goes (step i call stages h)
unfolding step is_stray
step-Goes i call stages h own sound = elim (Option-cases (split_at i stages)) [
  | inl absent ↦ ((stages, h), rw (absent, step) refl, sound)
  | inr ((before, stage, after), found) ↦
      let (passed, sound') =
        advance-IsSound call before stage after h (ground (arith, own, found))
          (subst (λ t. IsSound t h) (split_at-append i stages before stage after found) sound) in
      let (next, k) = advance (length before) call stage h in
      ((before ++ next ∷ after, k), rw (found, step, passed) refl, sound')
]

leaves_own-cons :
    (i : ℕ) (call : Call) (rest : List (ℕ × Call)) (stages : List Stage) (h : Shared)
    → leaves_own ((i, call) ∷ rest) stages h ≡ true
    → (is_stray i call stages ≡ false)
      × ((next : List Stage × Shared)
          → step i call stages h ≡ some next
          → leaves_own rest next.0 next.1 ≡ true)
unfolding leaves_own
leaves_own-cons i call rest stages h own = elim (Bool-cases (is_stray i call stages)) [
  | inl bad ↦ absurd (ground (arith, own, bad))
  | inr good ↦ (good, λ next e. ground (arith, own, good, e))
]

run-Goes :
    (schedule : List (ℕ × Call)) (stages : List Stage) (h : Shared)
    → leaves_own schedule stages h ≡ true
    → IsSound stages h
    → Goes (run schedule stages h)
unfolding run leaves_own
run-Goes [] stages h own sound = ((stages, h), refl, sound)
run-Goes ((i, call) ∷ rest) stages h own sound =
    let (good, later) = leaves_own-cons i call rest stages h own in
    let (next, e, sound') = step-Goes i call stages h good sound in
    let (end, e', sound'') = run-Goes rest next.0 next.1 (later next e) sound' in
    (end, rw (run, e) e', sound'')

abbrev pub outsiders : ℕ → List Stage
outsiders zero = []
outsiders (suc n) = outside ∷ outsiders n

nobody :
    (n : ℕ)
    → (total passes (outsiders n) ≡ 0)
      × (total is_inside (outsiders n) ≡ 0)
      × (total signals (outsiders n) ≡ 0)
      × (total waits (outsiders n) ≡ 0)
unfolding total
nobody zero = (refl, refl, refl, refl)
nobody (suc n) =
    let (p, i, s, w) = nobody n in
    (omega (arith, p), omega (arith, i), omega (arith, s), omega (arith, w))

all_outside : (n first : ℕ) → AllStand none 0 first (outsiders n)
unfolding AllStand
all_outside zero first = tt
all_outside (suc n) first = (refl, all_outside n (suc first))

outsiders-IsSound : (n : ℕ) → IsSound (outsiders n) unlocked
unfolding IsSound Counts
outsiders-IsSound n = let (p, i, s, w) = nobody n in (ground (arith, p, i, s, w), all_outside n 0)

one_of : (busy w : ℕ) → busy ≤ 1 → (busy ≡ 0 → w ≡ 0) → 0 < w → busy ≡ 1
one_of busy w one lost waited = ground arith

-- In the implementation for macOS that USE_NATIVE_MUTEX_ON_MAC switches off, from a lock that is free and any number
-- of threads without it, in any interleaving of their calls of Enter, TryEnter and Leave in which a thread calls
-- Leave only when it has the lock: no ABSL_DCHECK on the owner or the recursion fails; at most one thread has the lock
-- or is about to hand it on or can take it from the semaphore; as long as a thread waits in the semaphore, there is
-- one such, so no hand-over is lost; and the queue counter is the recursion, the threads on their way in or out, and
-- the waiting threads.
pub run-exclusive :
    (threads : ℕ) (schedule : List (ℕ × Call))
    → leaves_own schedule (outsiders threads) unlocked ≡ true
    → (end : List Stage × Shared) × (run schedule (outsiders threads) unlocked ≡ some end)
      × (let (stages, h) = end in
          let busy =
            total passes stages + total is_inside stages + total signals stages + h.semaphore_ in
          (busy ≤ 1)
          × (0 < total waits stages → busy ≡ 1)
          × (h.lock_queue_ ≡ h.recursion_ + total passes stages + total waits stages))
unfolding IsSound Counts
run-exclusive threads schedule own =
    let (end, e, sound) =
      run-Goes schedule (outsiders threads) unlocked own (outsiders-IsSound threads) in
    let (queue, one, handed, lost, free, recursive, owner) = sound.0 in
    (end, e, (one, λ waited. one_of _ _ one lost waited, queue))

-- A waiting thread that the semaphore lets pass finds no owner and no recursion, whatever the other threads do.
woken_finds_it_free :
    (before : List Stage) (after : List Stage) (h : Shared)
    → IsSound (before ++ waiting ∷ after) h
    → (advance (length before) enters waiting h).0 ≡ entering
    → (h.owning_thread_ ≡ none) × (h.recursion_ ≡ 0)
unfolding advance IsSound Counts
woken_finds_it_free before after h sound passed =
    let (queue, one, handed, lost, free, recursive, owner) = sound.0 in
    let set : 0 < h.semaphore_ = ground arith in
    let none_left : h.recursion_ ≡ 0 = free (omega (arith, one, set)) in
    (owner none_left, none_left)

queue_is_empty :
    (queue recursion p i s sem w : ℕ)
    → queue ≡ recursion + p + w
    → (p + i ≡ 0 → recursion ≡ 0)
    → (0 < i → 0 < recursion)
    → (p + i + s + sem ≡ 0 → w ≡ 0)
    → s + sem ≤ w
    → (queue ≡ 0) ↔ (p + i + s + sem + w ≡ 0)
queue_is_empty queue recursion p i s sem w fits free recursive lost handed = ground arith

-- TryEnter gives the lock to a thread outside in exactly the case that no thread has it, is about to hand it on,
-- can take it from the semaphore, or waits for it.
try_enter_lem :
    (before : List Stage) (after : List Stage) (h : Shared)
    → IsSound (before ++ outside ∷ after) h
    → let stages = before ++ outside ∷ after in
      ((advance (length before) tries outside h).0 ≡ entering) ↔ (
        total passes stages
          + total is_inside stages
          + total signals stages
          + h.semaphore_
          + total waits stages
        ≡ 0)
unfolding advance try_enter IsSound Counts
try_enter_lem before after h sound =
    let (queue, one, handed, lost, free, recursive, owner) = sound.0 in
    let (b, x, a) = AllStand-split h.owning_thread_ h.recursion_ 0 before outside after sound.1 in
    let other : owned_by h.owning_thread_ (length before) ≡ false =
      subst (λ m. owned_by h.owning_thread_ m ≡ false) (omega arith) x in
    let empty = queue_is_empty _ _ _ _ _ _ _ queue free recursive lost handed in
    elim (Bool-cases (h.lock_queue_ == 0)) [
      | inl e ↦ rw (other, e) (λ _. empty.0 (ground arith), λ _. refl)
      | inr e ↦
          rw (other, e)
            (λ got. absurd (cc), λ zero_sum. absurd (let z = empty.1 zero_sum in ground arith))
    ]
