-- ===== src/CriticalSection/Native/Defs.antt =====
-- The state, where a thread stands in Enter, TryEnter or Leave, and the steps. What a failed ABSL_DCHECK leaves is
-- `none`.
use io_base.Base.{
  ℕ, zero, suc, ◌+◌, ◌==◌, if◌then◌else◌, Bool, ◌&&◌, true, false, Option, none, some, List, [],
  ◌∷◌,
}
use io_base.CriticalSection.Defs.{Call, owned_by, is_leave}
use io_base.CriticalSection.Native.Mutexes.{Mutexes, acquired, busy, refused}
use Call.{enters, tries, leaves}

-- `thread_` is `none` for 0.
pub record Section (Mutex : Type 0) : Type 0 where
  pub mutex_ : Mutex
  pub thread_ : Option ℕ
  pub recursion_count_ : ℕ

-- between n: between calls, with n locks that it has not left. entered n: has locked the mutex once more, before
-- the lines that the checks need. left n: in Leave behind these lines, before the unlock.
pub data Stage : Type 0 where
  between : ℕ → Stage
  entered : ℕ → Stage
  left : ℕ → Stage

abbrev pub is_none : Option ℕ → Bool
is_none none = true
is_none (some x) = false

abbrev pub set_stage : (ℕ → Stage) → ℕ → Stage → ℕ → Stage
set_stage stages self stage other = if self == other then stage else stages other

-- A thread between calls that has no lock to leave.
abbrev pub is_outside : Stage → Bool
is_outside (between zero) = true
is_outside stage = false

module _ (c : Mutexes) where
  open c use {Mutex, init, lock, unlock}

  abbrev pub unlocked : Section Mutex
  unlocked = record { mutex_ = init; thread_ = none; recursion_count_ = 0 }

  abbrev pub current_thread_is_owner : ℕ → Section Mutex → Bool
  current_thread_is_owner self s = owned_by s.thread_ self

  -- The end of Enter and of TryEnter.
  unfoldable pub count_enter : ℕ → Section Mutex → Option (Section Mutex)
  count_enter self s =
      if s.recursion_count_ == 0
      then (if is_none s.thread_
          then some (record s { thread_ = some self; recursion_count_ = s.recursion_count_ + 1 })
          else none)
      else (if current_thread_is_owner self s
          then some (record s { recursion_count_ = s.recursion_count_ + 1 })
          else none)

  -- Leave up to the unlock; a count of 0 becomes negative.
  unfoldable pub count_leave : ℕ → Section Mutex → Option (Section Mutex)
  count_leave self s =
      if current_thread_is_owner self s
      then (elim s.recursion_count_ [
        | zero ↦ none
        | suc count ↦ some (record s {
          recursion_count_ = count;
          thread_ = if count == 0 then none else s.thread_;
        })
      ])
      else none

  -- Enter does not look at what pthread_mutex_lock returns; a thread that waits tries again.
  unfoldable pub enter : ℕ → ℕ → Section Mutex → Stage × Section Mutex
  enter self n s = elim (lock self s.mutex_) [
    | acquired m ↦ (entered n, record s { mutex_ = m })
    | busy ↦ (between n, s)
    | refused ↦ (entered n, s)
  ]

  unfoldable pub try_enter : ℕ → ℕ → Section Mutex → Stage × Section Mutex
  try_enter self n s = elim (lock self s.mutex_) [
    | acquired m ↦ (entered n, record s { mutex_ = m })
    | busy ↦ (between n, s)
    | refused ↦ (between n, s)
  ]

  unfoldable pub to : Stage → Option (Section Mutex) → Option (Stage × Section Mutex)
  to stage none = none
  to stage (some s) = some (stage, s)

  -- The next step of thread `self`. Leave checks that the thread owns the lock.
  unfoldable pub advance : ℕ → Call → Stage → Section Mutex → Option (Stage × Section Mutex)
  unfolding enter try_enter count_enter count_leave to
  advance self enters (between n) s = some (enter self n s)
  advance self tries (between n) s = some (try_enter self n s)
  advance self leaves (between zero) s = to (left zero) (count_leave self s)
  advance self leaves (between (suc n)) s = to (left n) (count_leave self s)
  advance self call (entered n) s = to (between (suc n)) (count_enter self s)
  advance self call (left n) s = some (between n, record s { mutex_ = unlock self s.mutex_ })

  -- An interleaving: which thread steps, and what it calls if it is between calls.
  unfoldable pub run :
      List (ℕ × Call) → (ℕ → Stage) → Section Mutex → Option ((ℕ → Stage) × Section Mutex)
  unfolding advance
  run [] stages s = some (stages, s)
  run ((self, call) ∷ rest) stages s = elim (advance self call (stages self) s) [
    | none ↦ none
    | some (stage, t) ↦ run rest (set_stage stages self stage) t
  ]

  -- In this interleaving a thread calls Leave only when it has the lock.
  unfoldable pub leaves_own : List (ℕ × Call) → (ℕ → Stage) → Section Mutex → Bool
  unfolding advance
  leaves_own [] stages s = true
  leaves_own ((self, call) ∷ rest) stages s =
      let later : Bool = elim (advance self call (stages self) s) [
        | none ↦ true
        | some (stage, t) ↦ leaves_own rest (set_stage stages self stage) t
      ] in
      if is_leave call && is_outside (stages self) then false else later
