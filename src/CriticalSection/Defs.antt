-- ===== src/CriticalSection/Defs.antt =====
-- The shared state, where a thread stands in Enter, TryEnter or Leave, and the steps.
use io_base.Base.{
  ℕ, zero, suc, ◌+◌, ◌-◌, ◌==◌, ltb, if◌then◌else◌, Bool, true, false, not, ◌&&◌, Option, none,
  some, List, [], ◌∷◌, ◌++◌, length,
}

-- `lock_queue_` is an atomic int, `semaphore_` the value of the semaphore, `owning_thread_` is `none` for 0.
pub record Shared : Type 0 where
  pub lock_queue_ : ℕ
  pub semaphore_ : ℕ
  pub owning_thread_ : Option ℕ
  pub recursion_ : ℕ

-- What a thread calls next.
pub data Call : Type 0 where
  enters : Call
  tries : Call
  leaves : Call

-- outside and inside: before a call, without and with the lock. spinning n: in the loop of Enter, with n
-- further rounds. queueing: before the Increment behind the loop. waiting: in dispatch_semaphore_wait.
-- entering: has the lock, before it sets the owner. releasing: in Leave, before the Decrement. signaling:
-- before dispatch_semaphore_signal.
pub data Stage : Type 0 where
  outside : Stage
  spinning : ℕ → Stage
  queueing : Stage
  waiting : Stage
  entering : Stage
  inside : Stage
  releasing : Stage
  signaling : Stage

abbrev pub owned_by : Option ℕ → ℕ → Bool
owned_by none self = false
owned_by (some owner) self = owner == self

abbrev pub is_free : Option ℕ → Bool
is_free none = true
is_free (some owner) = false

-- The rounds of the loop of Enter, less the first.
abbrev pub spin : ℕ
spin = 2999

-- A round of the loop of Enter. The load before the CompareAndSwap only saves the latter.
unfoldable pub spin_round : (self n : ℕ) → Shared → Stage × Shared
spin_round self n h =
    if owned_by h.owning_thread_ self
    then (entering, record h { lock_queue_ = h.lock_queue_ + 1 })
    else (if h.lock_queue_ == 0
        then (entering, record h { lock_queue_ = 1 })
        else (elim n [ zero ↦ (queueing, h) | suc m ↦ (spinning m, h) ]))

unfoldable pub try_enter : (self : ℕ) → (otherwise : Stage) → Shared → Stage × Shared
try_enter self otherwise h =
    if owned_by h.owning_thread_ self
    then (entering, record h { lock_queue_ = h.lock_queue_ + 1 })
    else (if h.lock_queue_ == 0 then (entering, record h { lock_queue_ = 1 }) else (otherwise, h))

-- The check of TryEnter.
unfoldable pub take_check : (self : ℕ) → Shared → Bool
take_check self h =
    if owned_by h.owning_thread_ self
    then true
    else (if h.lock_queue_ == 0 then h.recursion_ == 0 else true)

-- Leave up to the Decrement; a recursion of 0 becomes negative.
unfoldable pub leave : Shared → Stage × Shared
leave h =
    let rest = h.recursion_ - 1 in
    (
      releasing,
      record h { recursion_ = rest; owning_thread_ = if rest == 0 then none else h.owning_thread_ },
    )

-- The Decrement, and `recursion_`, which only the thread with the lock changes.
unfoldable pub release : Shared → Stage × Shared
release h =
    let queue = h.lock_queue_ - 1 in
    let released = record h { lock_queue_ = queue } in
    if h.recursion_ == 0
    then (if ltb 0 queue then (signaling, released) else (outside, released))
    else (inside, released)

-- The next step of thread `self`.
unfoldable pub advance : (self : ℕ) → Call → Stage → Shared → Stage × Shared
unfolding spin_round try_enter leave release
advance self enters outside h = spin_round self spin h
advance self tries outside h = try_enter self outside h
advance self leaves outside h = leave h
advance self call (spinning n) h = spin_round self n h
advance self call queueing h = (
  if ltb 1 (h.lock_queue_ + 1) then waiting else entering,
  record h { lock_queue_ = h.lock_queue_ + 1 },
)
advance self call waiting h =
    if ltb 0 h.semaphore_
    then (entering, record h { semaphore_ = h.semaphore_ - 1 })
    else (waiting, h)
advance self call entering h =
    (inside, record h { owning_thread_ = some self; recursion_ = h.recursion_ + 1 })
advance self enters inside h = spin_round self spin h
advance self tries inside h = try_enter self inside h
advance self leaves inside h = leave h
advance self call releasing h = release h
advance self call signaling h = (outside, record h { semaphore_ = h.semaphore_ + 1 })

-- The ABSL_DCHECKs of the step: TryEnter takes the lock without a recursion; a thread waits only for another owner;
-- a thread that the semaphore lets in finds no owner and no recursion; only the owner leaves.
unfoldable pub checks : (self : ℕ) → Call → Stage → Shared → Bool
unfolding take_check
checks self tries outside h = take_check self h
checks self tries inside h = take_check self h
checks self leaves outside h = owned_by h.owning_thread_ self
checks self leaves inside h = owned_by h.owning_thread_ self
checks self call queueing h =
    if ltb 1 (h.lock_queue_ + 1) then not (owned_by h.owning_thread_ self) else true
checks self call waiting h =
    if ltb 0 h.semaphore_ then is_free h.owning_thread_ && h.recursion_ == 0 else true
checks self call stage h = true

abbrev pub is_leave : Call → Bool
is_leave enters = false
is_leave tries = false
is_leave leaves = true

abbrev pub is_outside : Stage → Bool
is_outside outside = true
is_outside stage = false

-- The threads before, at and after a place.
unfoldable pub split_at : ℕ → List Stage → Option (List Stage × Stage × List Stage)
split_at i [] = none
split_at zero (stage ∷ stages) = some ([], stage, stages)
split_at (suc i) (stage ∷ stages) = elim (split_at i stages) [
  | none ↦ none
  | some (before, found, after) ↦ some (stage ∷ before, found, after)
]

-- A step of the i-th thread; `none` if a check fails.
unfoldable pub step : ℕ → Call → List Stage → Shared → Option (List Stage × Shared)
unfolding split_at advance checks
step i call stages h = elim (split_at i stages) [
  | none ↦ some (stages, h)
  | some (before, stage, after) ↦
      let (next, k) = advance (length before) call stage h in
      if checks (length before) call stage h then some (before ++ next ∷ after, k) else none
]

-- An interleaving: which thread steps, and what it calls if it is between calls.
unfoldable pub run : List (ℕ × Call) → List Stage → Shared → Option (List Stage × Shared)
unfolding step
run [] stages h = some (stages, h)
run ((i, call) ∷ rest) stages h = elim (step i call stages h) [
  | none ↦ none
  | some (next, k) ↦ run rest next k
]

-- The i-th thread calls Leave without the lock.
unfoldable pub is_stray : ℕ → Call → List Stage → Bool
unfolding split_at
is_stray i call stages = elim (split_at i stages) [
  | none ↦ false
  | some (before, stage, after) ↦ is_leave call && is_outside stage
]

-- In this interleaving a thread calls Leave only when it has the lock.
unfoldable pub leaves_own : List (ℕ × Call) → List Stage → Shared → Bool
unfolding step is_stray
leaves_own [] stages h = true
leaves_own ((i, call) ∷ rest) stages h =
    let later : Bool = elim (step i call stages h) [
      | none ↦ true
      | some (next, k) ↦ leaves_own rest next k
    ] in
    if is_stray i call stages then false else later

-- The constructor: no owner, nobody in the queue, all threads outside.
abbrev pub unlocked : Shared
unlocked = record { lock_queue_ = 0; semaphore_ = 0; owning_thread_ = none; recursion_ = 0 }
