-- ===== src/CriticalSection/Stands.antt =====
-- Where the threads stand, one after the other, and what the list of them counts.
use io_base.Base.{
  ℕ, suc, ◌+◌, ◌<◌, ◌≤◌, ◌≡◌, subst, false, Option, List, [], ◌∷◌, ◌++◌, length, arith,
}
use io_base.CriticalSection.Defs.{Stage, owned_by}
use io_base.CriticalSection.Invariant.{passes, is_inside, Stands}
use Stage.{outside, spinning, queueing, waiting, entering, inside, releasing, signaling}

unfoldable pub total : (Stage → ℕ) → List Stage → ℕ
total f [] = 0
total f (stage ∷ stages) = f stage + total f stages

pub total-append :
    (f : Stage → ℕ) (before : List Stage) (stage : Stage) (after : List Stage)
    → total f (before ++ stage ∷ after) ≡ f stage + (total f before + total f after)
unfolding total
total-append f [] stage after = omega arith
total-append f (x ∷ before) stage after = omega (arith, total-append f before stage after)

-- Every thread, the first being thread `n`, stands where the owner allows it.
unfoldable pub AllStand : Option ℕ → (recursion n : ℕ) → List Stage → Type 0
AllStand owner recursion n [] = Unit
AllStand owner recursion n (stage ∷ stages) =
    Stands owner recursion n stage × AllStand owner recursion (suc n) stages

pub AllStand-append :
    (owner : Option ℕ) (recursion n : ℕ) (before : List Stage) (stage : Stage) (after : List Stage)
    → AllStand owner recursion n before
    → Stands owner recursion (n + length before) stage
    → AllStand owner recursion (suc (n + length before)) after
    → AllStand owner recursion n (before ++ stage ∷ after)
unfolding AllStand
AllStand-append owner recursion n [] stage after b x a = (
  subst (λ m. Stands owner recursion m stage) (omega arith) x,
  subst (λ m. AllStand owner recursion m after) (omega arith) a,
)
AllStand-append owner recursion n (y ∷ before) stage after b x a = (
  b.0,
  AllStand-append owner recursion (suc n) before stage after b.1
      (subst (λ m. Stands owner recursion m stage) (omega arith) x)
      (subst (λ m. AllStand owner recursion m after) (omega arith) a),
)

pub AllStand-split :
    (owner : Option ℕ) (recursion n : ℕ) (before : List Stage) (stage : Stage) (after : List Stage)
    → AllStand owner recursion n (before ++ stage ∷ after)
    → AllStand owner recursion n before
      × Stands owner recursion (n + length before) stage
      × AllStand owner recursion (suc (n + length before)) after
unfolding AllStand
AllStand-split owner recursion n [] stage after a = (
  tt,
  subst (λ m. Stands owner recursion m stage) (omega arith) a.0,
  subst (λ m. AllStand owner recursion m after) (omega arith) a.1,
)
AllStand-split owner recursion n (y ∷ before) stage after a =
    let (b, x, c) = AllStand-split owner recursion (suc n) before stage after a.1 in
    (
      (a.0, b),
      subst (λ m. Stands owner recursion m stage) (omega arith) x,
      subst (λ m. AllStand owner recursion m after) (omega arith) c,
    )

-- Threads without the lock stand anywhere that an owner who is none of them allows.
Stands-free :
    (owner : Option ℕ) (recursion n : ℕ) (stage : Stage)
    → passes stage + is_inside stage ≡ 0
    → owned_by owner n ≡ false
    → Stands owner recursion n stage
Stands-free owner recursion n outside none_has others = others
Stands-free owner recursion n (spinning m) none_has others = others
Stands-free owner recursion n queueing none_has others = others
Stands-free owner recursion n waiting none_has others = others
Stands-free owner recursion n entering none_has others = tt
Stands-free owner recursion n inside none_has others = absurd (omega (arith, none_has))
Stands-free owner recursion n releasing none_has others = absurd (omega (arith, none_has))
Stands-free owner recursion n signaling none_has others = others

pub AllStand-free :
    (owner : Option ℕ) (recursion n : ℕ) (stages : List Stage)
    → total passes stages + total is_inside stages ≡ 0
    → ((m : ℕ) → n ≤ m → m < n + length stages → owned_by owner m ≡ false)
    → AllStand owner recursion n stages
unfolding AllStand total
AllStand-free owner recursion n [] none_has others = tt
AllStand-free owner recursion n (stage ∷ stages) none_has others = (
  Stands-free owner recursion n stage (omega (arith, none_has))
      (others n (omega arith) (omega arith)),
  AllStand-free owner recursion (suc n) stages (omega (arith, none_has))
      (λ m low high. others m (omega (arith, low)) (omega (arith, high))),
)
