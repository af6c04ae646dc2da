-- ===== src/CriticalSection/Native/Mutexes.antt =====
-- What the code relies on of a pthread_mutex_t of the type PTHREAD_MUTEX_RECURSIVE, which POSIX describes.
use io_base.Base.{
  ℕ, suc, ◌+◌, ◌-◌, ◌==◌, ltb, ◌≤◌, ◌<◌, ◌≡◌, refl, if◌then◌else◌, false, Option, none, some, arith,
}

-- How a call of pthread_mutex_lock or pthread_mutex_trylock by a thread stands: the mutex is locked; another
-- thread has it (EBUSY, or the thread waits); the thread has locked it too often (EAGAIN).
pub data Answer (Mutex : Type 0) : Type 0 where
  acquired : Mutex → Answer Mutex
  busy : Answer Mutex
  refused : Answer Mutex

-- `depth m t` is how often thread `t` has locked the mutex and not unlocked it.
pub record Mutexes : Type 1 where
  pub Mutex : Type 0
  pub init : Mutex
  pub lock : ℕ → Mutex → Answer Mutex
  pub unlock : ℕ → Mutex → Mutex
  pub depth : Mutex → ℕ → ℕ
  pub max_depth : ℕ
  pub init_depth : (t : ℕ) → depth init t ≡ 0
  pub exclusive : (m : Mutex) (t u : ℕ) → 0 < depth m t → 0 < depth m u → t ≡ u
  pub lock_self : (m n : Mutex) (t : ℕ) → lock t m ≡ acquired n → depth n t ≡ suc (depth m t)
  pub lock_other :
      (m n : Mutex) (t u : ℕ) → lock t m ≡ acquired n → (t == u) ≡ false → depth n u ≡ depth m u
  pub lock_busy :
      (m : Mutex) (t : ℕ) → lock t m ≡ busy → (u : ℕ) × ((t == u) ≡ false) × (0 < depth m u)
  pub lock_refused : (m : Mutex) (t : ℕ) → lock t m ≡ refused → max_depth ≤ depth m t
  pub unlock_self : (m : Mutex) (t : ℕ) → 0 < depth m t → suc (depth (unlock t m) t) ≡ depth m t
  pub unlock_other :
      (m : Mutex) (t u : ℕ) → 0 < depth m t → (t == u) ≡ false → depth (unlock t m) u ≡ depth m u

-- A mutex that knows its owner, and how often the owner has locked it again.
abbrev lock_owned : ℕ → Option (ℕ × ℕ) → Answer (Option (ℕ × ℕ))
lock_owned t none = acquired (some (t, 0))
lock_owned t (some (owner, again)) =
    if owner == t
    then (if ltb again 1000 then acquired (some (owner, again + 1)) else refused)
    else busy

abbrev unlock_owned : ℕ → Option (ℕ × ℕ) → Option (ℕ × ℕ)
unlock_owned t none = none
unlock_owned t (some (owner, again)) = if again == 0 then none else some (owner, again - 1)

abbrev depth_owned : Option (ℕ × ℕ) → ℕ → ℕ
depth_owned none t = 0
depth_owned (some (owner, again)) t = if owner == t then suc again else 0

pub owned-exclusive :
    (m : Option (ℕ × ℕ)) (t u : ℕ) → 0 < depth_owned m t → 0 < depth_owned m u → t ≡ u
owned-exclusive none t u a b = elim a [ ]
owned-exclusive (some (owner, again)) t u a b = ground arith

pub lock_owned_self :
    (m n : Option (ℕ × ℕ)) (t : ℕ)
    → lock_owned t m ≡ acquired n
    → depth_owned n t ≡ suc (depth_owned m t)
lock_owned_self none n t e = ground arith
lock_owned_self (some (owner, again)) n t e = ground arith

pub lock_owned-other :
    (m n : Option (ℕ × ℕ)) (t u : ℕ)
    → lock_owned t m ≡ acquired n
    → (t == u) ≡ false
    → depth_owned n u ≡ depth_owned m u
lock_owned-other none n t u e other = ground arith
lock_owned-other (some (owner, again)) n t u e other = ground arith

pub lock_owned-busy :
    (m : Option (ℕ × ℕ)) (t : ℕ)
    → lock_owned t m ≡ busy
    → (u : ℕ) × ((t == u) ≡ false) × (0 < depth_owned m u)
lock_owned-busy none t e = ground arith
lock_owned-busy (some (owner, again)) t e = (owner, ground arith, ground arith)

pub lock_owned-refused :
    (m : Option (ℕ × ℕ)) (t : ℕ) → lock_owned t m ≡ refused → 1000 ≤ depth_owned m t
lock_owned-refused none t e = ground arith
lock_owned-refused (some (owner, again)) t e = ground arith

pub unlock_owned_self :
    (m : Option (ℕ × ℕ)) (t : ℕ)
    → 0 < depth_owned m t
    → suc (depth_owned (unlock_owned t m) t) ≡ depth_owned m t
unlock_owned_self none t h = elim h [ ]
unlock_owned_self (some (owner, again)) t h = ground arith

pub unlock_owned-other :
    (m : Option (ℕ × ℕ)) (t u : ℕ)
    → 0 < depth_owned m t
    → (t == u) ≡ false
    → depth_owned (unlock_owned t m) u ≡ depth_owned m u
unlock_owned-other none t u h other = elim h [ ]
unlock_owned-other (some (owner, again)) t u h other = ground arith

abbrev pub owned : Mutexes
owned = record {
  Mutex = Option (ℕ × ℕ);
  init = none;
  lock = lock_owned;
  unlock = unlock_owned;
  depth = depth_owned;
  max_depth = 1000;
  init_depth = λ t. refl;
  exclusive = owned-exclusive;
  lock_self = lock_owned_self;
  lock_other = lock_owned-other;
  lock_busy = lock_owned-busy;
  lock_refused = lock_owned-refused;
  unlock_self = unlock_owned_self;
  unlock_other = unlock_owned-other;
}
