-- ===== src/CriticalSection/Native/Steps.antt =====
-- Each step of Enter, TryEnter and Leave keeps the invariant and passes its checks.
use io_base.Base.{
  ℕ, zero, suc, ◌==◌, ◌<◌, ◌≡◌, refl, sym, ap, subst, ◌∙◌, if◌then◌else◌, false, ◌&&◌, Option, none,
  some, inl, inr, Bool-cases, ==_iff, dec_lt, arith,
}
use io_base.CriticalSection.Defs.{Call, is_leave}
use io_base.CriticalSection.Native.Mutexes.{Mutexes, acquired, refused}
use io_base.CriticalSection.Native.Defs.{
  Section, Stage, between, entered, left, count_enter, count_leave, enter, try_enter, to, advance,
  set_stage, is_outside,
}
use Call.{enters, tries, leaves}
use io_base.CriticalSection.Native.Sound.{
  held, counted, set_stage_self, locks, waits, refuses, Answer-cases, IsSound, Agrees,
  count_enter_lem, count_leave_lem, not_held, after, holder_step,
}

module _ (c : Mutexes) where
  open c use {
    Mutex, init, lock, unlock, depth, max_depth, init_depth, exclusive, lock_self, lock_other,
    lock_refused, unlock_self, unlock_other,
  }

  module _ (self k : ℕ) (stages : ℕ → Stage) (s : Section Mutex)
      (sound : IsSound c k stages s) where
    -- A step that leaves all as it is.
    idle_step :
        (stage : Stage) → stages self ≡ stage → IsSound c (suc k) (set_stage stages self stage) s
    idle_step stage at =
        subst (λ all. IsSound c (suc k) all s) (sym (set_stage_self self stages stage at))
          (record {
            depths = sound.depths;
            bounded = λ t. omega (arith, sound.bounded t);
            exact = sound.exact;
          })

    Agrees-now : (stage : Stage) → stages self ≡ stage → 0 < held stage → Agrees c self stage s
    Agrees-now stage at has =
        let has' : 0 < held (stages self) = rw at has in
        record {
          here = sound.depths self ∙ ap held at;
          count_here = sound.exact.count self has' ∙ ap counted at;
          owner_here =
              sound.exact.owner self has'
              ∙ ap (λ (x : Stage). if counted x == 0 then none else some self) at;
        }

    held_now : (stage : Stage) → stages self ≡ stage → depth s.mutex_ self ≡ held stage
    held_now stage at = sound.depths self ∙ ap held at

    deep_enough :
        (n : ℕ) → stages self ≡ between n → lock self s.mutex_ ≡ refused → k < max_depth → ⊥
    deep_enough n at e room =
        omega (arith, lock_refused s.mutex_ self e, sound.bounded self, sound.depths self)

    -- A thread that locks the mutex.
    module _ (n : ℕ) (m : Mutex) (at : stages self ≡ between n)
        (e : lock self s.mutex_ ≡ acquired m) where
      holds : depth m self ≡ suc n
      holds = lock_self s.mutex_ m self e ∙ ap suc (held_now (between n) at)

      others_out : (u : ℕ) → (self == u) ≡ false → depth s.mutex_ u ≡ 0
      others_out u other =
          sym (lock_other s.mutex_ m self u e other)
          ∙ not_held c m self u (omega (arith, holds)) other

      agrees_free : n ≡ 0 → (s.thread_ ≡ none) × (s.recursion_count_ ≡ 0)
      agrees_free zero_n = sound.exact.free λ u. elim (Bool-cases (self == u)) [
        | inl eq ↦ rw (sym ((==_iff self u).0 eq)) (ap held at ∙ zero_n)
        | inr other ↦ sym (sound.depths u) ∙ others_out u other
      ]

      Agrees-locked : Agrees c self (entered n) (record s { mutex_ = m })
      Agrees-locked = elim (dec_lt 0 n) [
        | yes some_locks ↦
            let now = Agrees-now (between n) at some_locks in
            record { here = holds; count_here = now.count_here; owner_here = now.owner_here }
        | no no_locks ↦
            let zero_n : n ≡ 0 = omega arith in
            let (nobody, nothing) = agrees_free zero_n in
            record {
              here = holds;
              count_here = nothing ∙ sym zero_n;
              owner_here = rw zero_n nobody;
            }
      ]

      lock_step : IsSound c (suc k) (set_stage stages self (entered n)) (record s { mutex_ = m })
      unfolding after
      lock_step =
          holder_step c self k stages (entered n) s (record s { mutex_ = m }) sound others_out
            (λ u other. lock_other s.mutex_ m self u e other)
            (omega (arith, sound.bounded self, sound.depths self, held_now (between n) at))
            Agrees-locked

    -- A step of the thread that has the lock and leaves the mutex as it is.
    counting_step :
        (before stage : Stage) (t : Section Mutex)
        → stages self ≡ before
        → 0 < held before
        → t.mutex_ ≡ s.mutex_
        → held stage ≡ held before
        → t.recursion_count_ ≡ counted stage
        → t.thread_ ≡ (if counted stage == 0 then none else some self)
        → IsSound c (suc k) (set_stage stages self stage) t
    unfolding after
    counting_step before stage t at has same_mutex same_held count owner =
        let depth_now = held_now before at in
        holder_step c self k stages stage s t sound
          (λ u other. not_held c s.mutex_ self u (omega (arith, depth_now)) other)
          (λ u other. ap (λ m. depth m u) same_mutex)
          (omega (arith, sound.bounded self, sound.depths self, depth_now))
          (record {
            here = ap (λ m. depth m self) same_mutex ∙ depth_now ∙ sym same_held;
            count_here = count;
            owner_here = owner;
          })

    unlock_step :
        (n : ℕ)
        → stages self ≡ left n
        → IsSound c
            (suc k)
            (set_stage stages self (between n))
            (record s { mutex_ = unlock self s.mutex_ })
    unfolding after
    unlock_step n at =
        let has : 0 < depth s.mutex_ self = omega (arith, held_now (left n) at) in
        let now = Agrees-now (left n) at (omega arith) in
        holder_step c self k stages (between n) s (record s { mutex_ = unlock self s.mutex_ }) sound
          (λ u other. not_held c s.mutex_ self u has other)
          (λ u other. unlock_other s.mutex_ self u has other)
          (omega (arith, sound.bounded self, sound.depths self, held_now (left n) at))
          (record {
            here = omega (arith, unlock_self s.mutex_ self has, held_now (left n) at);
            count_here = now.count_here;
            owner_here = now.owner_here;
          })

    -- The step succeeds, and leaves what holds before it.
    unfoldable pub Goes : Option (Stage × Section Mutex) → Type 0
    Goes result =
        (next : Stage × Section Mutex) × (result ≡ some next)
        × IsSound c (suc k) (set_stage stages self next.0) next.1

    count_enter-Goes :
        (n : ℕ) → stages self ≡ entered n → Goes (to c (between (suc n)) (count_enter c self s))
    unfolding Goes to
    count_enter-Goes n at =
        let now = Agrees-now (entered n) at (omega arith) in
        let t = record s { thread_ = some self; recursion_count_ = suc n } in
        (
          (between (suc n), t),
          ap (to c (between (suc n))) (count_enter_lem c self n s now.count_here now.owner_here),
          counting_step (entered n) (between (suc n)) t at (omega arith) refl refl refl
              (ground arith),
        )

    count_leave-Goes :
        (n : ℕ) → stages self ≡ between (suc n) → Goes (to c (left n) (count_leave c self s))
    unfolding Goes to
    count_leave-Goes n at =
        let now = Agrees-now (between (suc n)) at (omega arith) in
        let t = record s { thread_ = if n == 0 then none else some self; recursion_count_ = n } in
        (
          (left n, t),
          ap (to c (left n))
              (count_leave_lem c self n s now.count_here (now.owner_here ∙ ground arith)),
          counting_step (between (suc n)) (left n) t at (omega arith) refl refl refl refl,
        )

    enter-Goes : (n : ℕ) → k < max_depth → stages self ≡ between n → Goes (some (enter c self n s))
    unfolding Goes enter
    enter-Goes n room at = elim (Answer-cases (lock self s.mutex_)) [
      | locks m e ↦ ((entered n, record s { mutex_ = m }), rw (e, enter), lock_step n m at e)
      | waits e ↦ ((between n, s), rw (e, enter), idle_step (between n) at)
      | refuses e ↦ absurd (deep_enough n at e room)
    ]

    try_enter-Goes : (n : ℕ) → stages self ≡ between n → Goes (some (try_enter c self n s))
    unfolding Goes try_enter
    try_enter-Goes n at = elim (Answer-cases (lock self s.mutex_)) [
      | locks m e ↦ ((entered n, record s { mutex_ = m }), rw (e, try_enter), lock_step n m at e)
      | waits e ↦ ((between n, s), rw (e, try_enter), idle_step (between n) at)
      | refuses e ↦ ((between n, s), rw (e, try_enter), idle_step (between n) at)
    ]

    pub advance-Goes :
        (call : Call) (stage : Stage)
        → k < max_depth
        → stages self ≡ stage
        → is_leave call && is_outside stage ≡ false
        → Goes (advance c self call stage s)
    unfolding advance Goes
    advance-Goes enters (between n) room at own = enter-Goes n room at
    advance-Goes tries (between n) room at own = try_enter-Goes n at
    advance-Goes leaves (between zero) room at own = absurd (ground (arith, own))
    advance-Goes leaves (between (suc n)) room at own = count_leave-Goes n at
    advance-Goes call (entered n) room at own = count_enter-Goes n at
    advance-Goes call (left n) room at own =
        ((between n, record s { mutex_ = unlock self s.mutex_ }), refl, unlock_step n at)
