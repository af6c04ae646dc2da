-- ===== src/CriticalSection/Sound.antt =====
-- The state of all threads, and that a step of one keeps it.
use io_base.Base.{
  ℕ, zero, suc, ◌+◌, ◌==◌, ◌<◌, ◌≤◌, ◌≡◌, refl, sym, subst, true, false, ◌&&◌, ◌⊎◌, inl, inr, List,
  ◌∷◌, ◌++◌, length, arith,
}
use io_base.CriticalSection.Defs.{
  Shared, Call, Stage, owned_by, spin, spin_round, try_enter, leave, release, advance, checks,
  is_leave, is_outside,
}
use io_base.CriticalSection.Invariant.{
  passes, is_inside, signals, waits, Counts, Stands, advance-Local, advance-passes,
}
use io_base.CriticalSection.Stands.{
  total, total-append, AllStand, AllStand-append, AllStand-split, AllStand-free,
}
use Call.{enters, tries, leaves}
use Stage.{outside, spinning, queueing, waiting, entering, inside, releasing, signaling}

unfoldable pub IsSound : List Stage → Shared → Type 0
unfolding total AllStand Counts
IsSound stages h =
    Counts (total passes stages) (total is_inside stages) (total signals stages)
      (total waits stages) h
    × AllStand h.owning_thread_ h.recursion_ 0 stages

-- A step leaves the owner and the recursion as they are, or is one of the thread with the lock and leaves no other
-- owner.
Owner : (self : ℕ) → Stage → Shared → Shared → Type 0
Owner self stage h k =
    ((k.owning_thread_ ≡ h.owning_thread_) × (k.recursion_ ≡ h.recursion_))
    ⊎ ((passes stage + is_inside stage ≡ 1)
        × ((m : ℕ) → (self == m) ≡ false → owned_by k.owning_thread_ m ≡ false))

spin_round-owner :
    (self n : ℕ) (h : Shared)
    → ((spin_round self n h).1.owning_thread_ ≡ h.owning_thread_)
      × ((spin_round self n h).1.recursion_ ≡ h.recursion_)
unfolding spin_round
spin_round-owner self zero h = ground arith
spin_round-owner self (suc n) h = ground arith

try_enter-owner :
    (self : ℕ) (otherwise : Stage) (h : Shared)
    → ((try_enter self otherwise h).1.owning_thread_ ≡ h.owning_thread_)
      × ((try_enter self otherwise h).1.recursion_ ≡ h.recursion_)
unfolding try_enter
try_enter-owner self otherwise h = ground arith

queue-owner :
    (self : ℕ) (h : Shared)
    → ((advance self enters waiting h).1.owning_thread_ ≡ h.owning_thread_)
      × ((advance self enters waiting h).1.recursion_ ≡ h.recursion_)
unfolding advance
queue-owner self h = ground arith

release-owner :
    (h : Shared)
    → ((release h).1.owning_thread_ ≡ h.owning_thread_) × ((release h).1.recursion_ ≡ h.recursion_)
unfolding release
release-owner h = ground arith

left_to_nobody :
    (self m : ℕ) (h : Shared)
    → owned_by h.owning_thread_ self ≡ true
    → (self == m) ≡ false
    → owned_by (leave h).1.owning_thread_ m ≡ false
unfolding leave
left_to_nobody self m h own apart = ground arith

advance-Owner :
    (self : ℕ) (call : Call) (stage : Stage) (h : Shared)
    → is_leave call && is_outside stage ≡ false
    → Stands h.owning_thread_ h.recursion_ self stage
    → Owner self stage h (advance self call stage h).1
unfolding advance Owner
advance-Owner self enters outside h own x = inl (spin_round-owner self spin h)
advance-Owner self tries outside h own x = inl (try_enter-owner self outside h)
advance-Owner self leaves outside h own x = absurd (ground (arith, own))
advance-Owner self call (spinning n) h own x = inl (spin_round-owner self n h)
advance-Owner self call queueing h own x = inl (refl, refl)
advance-Owner self call waiting h own x = inl (queue-owner self h)
advance-Owner self call entering h own x = inr (refl, λ m apart. apart)
advance-Owner self enters inside h own x = inl (spin_round-owner self spin h)
advance-Owner self tries inside h own x = inl (try_enter-owner self inside h)
advance-Owner self leaves inside h own x = inr (refl, λ m apart. left_to_nobody self m h x apart)
advance-Owner self call releasing h own x = inl (release-owner h)
advance-Owner self call signaling h own x = inl (refl, refl)

-- The others stand where they stood.
others-stand :
    (self n : ℕ) (stage : Stage) (h k : Shared) (stages : List Stage)
    (one : passes stage + is_inside stage + (total passes stages + total is_inside stages) ≤ 1)
    → Owner self stage h k
    → ((m : ℕ) → n ≤ m → m < n + length stages → (self == m) ≡ false)
    → AllStand h.owning_thread_ h.recursion_ n stages
    → AllStand k.owning_thread_ k.recursion_ n stages
unfolding Owner
others-stand self n stage h k stages one (inl (same_owner, same_recursion)) apart a =
    rw (same_owner, same_recursion) a
others-stand self n stage h k stages one (inr (has, nobody)) apart a =
    AllStand-free k.owning_thread_ k.recursion_ n stages (omega (arith, one, has))
      (λ m low high. nobody m (apart m low high))

not_below : (self m : ℕ) → m < self → (self == m) ≡ false
not_below self m h = ground arith

not_above : (self m : ℕ) → suc self ≤ m → (self == m) ≡ false
not_above self m h = ground arith

pub advance-IsSound :
    (call : Call) (before : List Stage) (stage : Stage) (after : List Stage) (h : Shared)
    → is_leave call && is_outside stage ≡ false
    → IsSound (before ++ stage ∷ after) h
    → let self = length before in
      (checks self call stage h ≡ true)
      × IsSound (before ++ (advance self call stage h).0 ∷ after) (advance self call stage h).1
unfolding IsSound
advance-IsSound call before stage after h no_stray sound =
    let self = length before in
    let next = (advance self call stage h).0 in
    let k = (advance self call stage h).1 in
    let others = λ (f : Stage → ℕ). total f before + total f after in
    let (b, x, a) = AllStand-split h.owning_thread_ h.recursion_ 0 before stage after sound.1 in
    let own = subst (λ m. Stands h.owning_thread_ h.recursion_ m stage) (omega arith) x in
    let counted : Counts (passes stage + others passes) (is_inside stage + others is_inside)
        (signals stage + others signals) (waits stage + others waits) h =
      rw
        (
          sym (total-append passes before stage after),
          sym (total-append is_inside before stage after),
          sym (total-append signals before stage after),
          sym (total-append waits before stage after),
        )
        sound.0 in
    let (counts, stands) =
      advance-Local (others passes) (others is_inside) (others signals) (others waits) self call
        stage h no_stray (counted, own) in
    let moved = advance-Owner self call stage h no_stray own in
    let few = counted.1 in
    let b' =
      others-stand self 0 stage h k before (omega (arith, few)) moved
        (λ m low high. not_below self m (omega (arith, high))) b in
    let a' =
      others-stand self (suc (0 + self)) stage h k after (omega (arith, few)) moved
        (λ m low high. not_above self m (omega (arith, low))) a in
    (
      advance-passes (others passes) (others is_inside) (others signals) (others waits) self call
          stage h no_stray (counted, own),
      (
        rw
            (
              total-append passes before next after,
              total-append is_inside before next after,
              total-append signals before next after,
              total-append waits before next after,
            )
            counts,
        AllStand-append k.owning_thread_ k.recursion_ 0 before next after b'
            (subst (λ m. Stands k.owning_thread_ k.recursion_ m next) (omega arith) stands) a',
      ),
    )
