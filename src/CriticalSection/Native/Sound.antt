-- ===== src/CriticalSection/Native/Sound.antt =====
-- The invariant, and what a step of the thread with the lock keeps of it.
use mathlib.Core.Path.{fun_ext}
use io_base.Base.{
  ℕ, zero, suc, ◌==◌, ◌≤◌, ◌<◌, ◌≡◌, refl, sym, ap, ◌∙◌, if◌then◌else◌, true, false, none, some,
  inl, inr, Bool-cases, ==_iff, dec_lt, arith,
}
use io_base.CriticalSection.Native.Mutexes.{Mutexes, Answer, acquired, busy, refused}
use io_base.CriticalSection.Native.Defs.{
  Section, Stage, between, entered, left, count_enter, count_leave, set_stage,
}

-- How often a thread has locked the mutex, and how often of that the count says it.
abbrev pub held : Stage → ℕ
held (between n) = n
held (entered n) = suc n
held (left n) = suc n

abbrev pub counted : Stage → ℕ
counted (between n) = n
counted (entered n) = n
counted (left n) = n

pub set_stage_self :
    (self : ℕ) (stages : ℕ → Stage) (stage : Stage)
    → stages self ≡ stage
    → set_stage stages self stage ≡ stages
set_stage_self self stages stage at = fun_ext λ u. elim (Bool-cases (self == u)) [
  | inl eq ↦ rw eq (sym at ∙ ap stages ((==_iff self u).0 eq))
  | inr other ↦ rw other refl
]

pub data Cases {M : Type 0} (answer : Answer M) : Type 0 where
  locks : (m : M) → answer ≡ acquired m → Cases answer
  waits : answer ≡ busy → Cases answer
  refuses : answer ≡ refused → Cases answer

pub Answer-cases : {M : Type 0} (answer : Answer M) → Cases answer
Answer-cases (acquired m) = locks m refl
Answer-cases busy = waits refl
Answer-cases refused = refuses refl

-- Of the threads at a lock.
module _ {M : Type 0} (stages : ℕ → Stage) (s : Section M) where
  -- The lock has one thread at most; `recursion_count_` and `thread_` say how often it is in, and which it is.
  pub record IsExact : Type 0 where
    pub one : (t u : ℕ) → 0 < held (stages t) → 0 < held (stages u) → t ≡ u
    pub count : (t : ℕ) → 0 < held (stages t) → s.recursion_count_ ≡ counted (stages t)
    pub owner :
        (t : ℕ)
        → 0 < held (stages t)
        → s.thread_ ≡ (if counted (stages t) == 0 then none else some t)
    pub free : ((t : ℕ) → held (stages t) ≡ 0) → (s.thread_ ≡ none) × (s.recursion_count_ ≡ 0)

module _ (c : Mutexes) where
  open c use {
    Mutex, init, lock, unlock, depth, max_depth, init_depth, exclusive, lock_self, lock_other,
    lock_refused, unlock_self, unlock_other,
  }

  -- After `k` steps.
  pub record IsSound (k : ℕ) (stages : ℕ → Stage) (s : Section Mutex) : Type 0 where
    pub depths : (t : ℕ) → depth s.mutex_ t ≡ held (stages t)
    pub bounded : (t : ℕ) → held (stages t) ≤ k
    pub exact : IsExact stages s

  -- What holds of the thread that has the lock.
  pub record Agrees (self : ℕ) (stage : Stage) (s : Section Mutex) : Type 0 where
    pub here : depth s.mutex_ self ≡ held stage
    pub count_here : s.recursion_count_ ≡ counted stage
    pub owner_here : s.thread_ ≡ (if counted stage == 0 then none else some self)

  pub count_enter_lem :
      (self n : ℕ) (s : Section Mutex)
      → s.recursion_count_ ≡ n
      → s.thread_ ≡ (if n == 0 then none else some self)
      → count_enter c self s ≡ some (record s { thread_ = some self; recursion_count_ = suc n })
  unfolding count_enter
  count_enter_lem self zero s count owner = ground (arith, count, owner)
  count_enter_lem self (suc n) s count owner = ground (arith, count, owner)

  pub count_leave_lem :
      (self n : ℕ) (s : Section Mutex)
      → s.recursion_count_ ≡ suc n
      → s.thread_ ≡ some self
      → count_leave c self s
        ≡ some (record s { thread_ = if n == 0 then none else some self; recursion_count_ = n })
  unfolding count_leave
  count_leave_lem self n s count owner = ground (arith, count, owner)

  pub not_held : (m : Mutex) (t u : ℕ) → 0 < depth m t → (t == u) ≡ false → depth m u ≡ 0
  not_held m t u has other = elim (dec_lt 0 (depth m u)) [
    | yes both ↦ let same = exclusive m t u has both in absurd (ground (arith, same, other))
    | no none_left ↦ omega arith
  ]

  left_free :
      (self : ℕ) (stage : Stage) (t : Section Mutex)
      → Agrees self stage t
      → held stage ≡ 0
      → (t.thread_ ≡ none) × (t.recursion_count_ ≡ 0)
  left_free self (between n) t agrees e = ground (arith, agrees.count_here, agrees.owner_here, e)
  left_free self (entered n) t agrees e = absurd (omega (arith, e))
  left_free self (left n) t agrees e = absurd (omega (arith, e))

  module _ (self k : ℕ) (stages : ℕ → Stage) (stage : Stage) (s t : Section Mutex) where
    unfoldable pub after : ℕ → Stage
    after = set_stage stages self stage

    at_self : (u : ℕ) → (self == u) ≡ true → after u ≡ stage
    unfolding after
    at_self u same = rw same refl

    at_others : (u : ℕ) → (self == u) ≡ false → after u ≡ stages u
    unfolding after
    at_others u other = rw other refl

    at_zero : held (after self) ≡ 0 → held stage ≡ 0
    unfolding after
    at_zero h = ground (arith, h)

    -- A step of a thread that has the lock, before or after it.
    module _ (sound : IsSound k stages s)
        (alone : (u : ℕ) → (self == u) ≡ false → depth s.mutex_ u ≡ 0)
        (same : (u : ℕ) → (self == u) ≡ false → depth t.mutex_ u ≡ depth s.mutex_ u)
        (bound : held stage ≤ suc k) (agrees : Agrees self stage t) where
      depths_after : (u : ℕ) → depth t.mutex_ u ≡ held (after u)
      depths_after u = elim (Bool-cases (self == u)) [
        | inl eq ↦ rw (at_self u eq, sym ((==_iff self u).0 eq)) agrees.here
        | inr other ↦ rw (at_others u other, same u other) (sound.depths u)
      ]

      is_self : (u : ℕ) → 0 < held (after u) → (self == u) ≡ true
      is_self u has = elim (Bool-cases (self == u)) [
        | inl eq ↦ eq
        | inr other ↦ absurd (omega (arith, has, depths_after u, same u other, alone u other))
      ]

      pub holder_step : IsSound (suc k) after t
      holder_step = record {
        depths = depths_after;
        bounded = λ u. elim (Bool-cases (self == u)) [
          | inl eq ↦ rw (at_self u eq) bound
          | inr other ↦ rw (at_others u other) (omega (arith, sound.bounded u))
        ];
        exact = record {
          one = λ u v has_u has_v.
              sym ((==_iff self u).0 (is_self u has_u)) ∙ (==_iff self v).0 (is_self v has_v);
          count = λ u has. rw (at_self u (is_self u has)) agrees.count_here;
          owner = λ u has.
              rw (at_self u (is_self u has), sym ((==_iff self u).0 (is_self u has)))
                agrees.owner_here;
          free = λ all. left_free self stage t agrees (at_zero (all self));
        };
      }
