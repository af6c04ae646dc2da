-- ===== src/EvenLoop/Waits/Ends.antt =====
-- Rounds that end a wait.
use io_base.Base.{
  ◌≡◌, ◌≢◌, refl, Bool, true, false, none, some, List, [], ◌∷◌, ◌++◌, Bool-cases, inl, inr,
}
use io_base.EvenLoop.Waits.Loop.{Next, Outcome, while_waiting, after_round}
use Next.{returns, goes_on}

-- After the round the loop is left, or the wait returns.
unfoldable pub Ends : {S C : Type 0} (f_wait : S → Bool) → S × Next C → Type 0
Ends f_wait (s, returns b) = Unit
Ends f_wait (s, goes_on d) = f_wait s ≡ false

module _ {S R C : Type 0} (f_wait : S → Bool) (round : R → C → S → S × Next C) where
  not_waiting :
      (rs : List R) (c : C) (s : S)
      → f_wait s ≡ false
      → (while_waiting f_wait round rs c s).returned ≡ some true
  unfolding while_waiting
  not_waiting [] c s over = rw (over) refl
  not_waiting (r ∷ rs) c s over = rw (over) refl

  after_end :
      (c : C) (s : S) (next : Next C) (rs : List R)
      → Ends f_wait (s, next)
      → (after_round c s next (while_waiting f_wait round rs)).returned ≢ none
  unfolding after_round Ends
  after_end c s (returns b) rs h e = absurd (cc)
  after_end c s (goes_on d) rs h e = absurd (let k = not_waiting rs d s h in cc)

  after_other :
      (c : C) (s : S) (next : Next C) (rest : C → S → Outcome S C)
      → ((d : C) → (rest d s).returned ≢ none)
      → (after_round c s next rest).returned ≢ none
  unfolding after_round
  after_other c s (returns b) rest h e = absurd (cc)
  after_other c s (goes_on d) rest h e = h d e

  -- A wait returns if its rounds keep a property and one of them ends it wherever the property holds.
  pub while_waiting-returns :
      (I : S → Type 0)
      → ((q : R) (c : C) (s : S) → I s → I (round q c s).0)
      → (before : List R) (r : R) (after : List R)
      → ((c : C) (s : S) → I s → Ends f_wait (round r c s))
      → (c : C) (s : S) → I s
      → (while_waiting f_wait round (before ++ r ∷ after) c s).returned ≢ none
  unfolding while_waiting
  while_waiting-returns I keeps [] r after ends c s h = elim (Bool-cases (f_wait s)) [
    | inl waits ↦ rw (waits) (after_end c (round r c s).0 (round r c s).1 after (ends c s h))
    | inr over ↦ rw (over) (λ e. absurd (cc))
  ]
  while_waiting-returns I keeps (q ∷ before) r after ends c s h = elim (Bool-cases (f_wait s)) [
    | inl waits ↦ rw (waits) (
        after_other c (round q c s).0 (round q c s).1
          (while_waiting f_wait round (before ++ r ∷ after))
          (λ d.
            while_waiting-returns I keeps before r after ends d (round q c s).0 (keeps q c s h)))
    | inr over ↦ rw (over) (λ e. absurd (cc))
  ]
