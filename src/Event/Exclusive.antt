-- ===== src/Event/Exclusive.antt =====
-- One signal of an event that is not manual lets one waiter go.
use io_base.Base.{
  ℕ, ◌≡◌, refl, subst, ◌∙◌, arith, ◌==◌, Bool, true, false, Option, none, some, List, [], ◌∷◌, All,
  Option-cases, inl, inr, Bool-cases,
}
use io_base.Duration.{Durations}
use io_base.Event.Defs.{
  Timespec, Event, Change, sets, resets, Wakeup, Outcome, wait_loop, finish, warn_ts, wait,
}
use io_base.Event.Waits.{event, status_after, apply-status}

abbrev pub has_set : List Change → Bool
has_set [] = false
has_set (sets ∷ changes) = true
has_set (resets ∷ changes) = has_set changes

-- No other thread sets the event while the waiter waits.
abbrev pub IsUnset : Wakeup → Type 0
IsUnset w = has_set w.changes ≡ false

unset_after : (changes : List Change) → has_set changes ≡ false → status_after changes false ≡ false
unset_after [] h = refl
unset_after (sets ∷ changes) h = absurd (cc)
unset_after (resets ∷ changes) h = unset_after changes h

abbrev Holds : {A : Type 0} → (A → Type 0) → Option A → Type 0
Holds P none = Unit
Holds P (some a) = P a

-- A loop that ends although nobody sets the event ends with an error, and the event is not set.
abbrev IsError : Bool → Event × ℕ × List Wakeup → Type 0
IsError manual r = (r.0 ≡ event manual false) × ((r.1 == 0) ≡ false) × All IsUnset r.2

loop_unset :
    (ws : List Wakeup) (manual : Bool) (error : ℕ)
    → All IsUnset ws
    → Holds (IsError manual) (wait_loop ws (event manual false) error)
unfolding wait_loop
loop_unset [] manual error h = elim (Bool-cases (error == 0)) [
  | inl z ↦ rw (z) tt
  | inr z ↦ rw (z) (refl, z, tt)
]
loop_unset (w ∷ ws) manual error h = elim (Bool-cases (error == 0)) [
  | inl z ↦
      rw (z, apply-status w.changes manual false, unset_after w.changes h.0)
        (loop_unset ws manual w.error h.1)
  | inr z ↦ rw (z) (refl, z, h)
]

-- A loop leaves the kind of the event as it is.
loop_kind :
    (ws : List Wakeup) (manual b : Bool) (error : ℕ)
    → Holds (λ r. r.0.is_manual_reset_ ≡ manual) (wait_loop ws (event manual b) error)
unfolding wait_loop
loop_kind [] manual true error = refl
loop_kind [] manual false error = elim (Bool-cases (error == 0)) [
  | inl z ↦ rw (z) tt
  | inr z ↦ rw (z) refl
]
loop_kind (w ∷ ws) manual true error = refl
loop_kind (w ∷ ws) manual false error = elim (Bool-cases (error == 0)) [
  | inl z ↦
      rw (z, apply-status w.changes manual false)
        (loop_kind ws manual (status_after w.changes false) w.error)
  | inr z ↦ rw (z) refl
]

module _ (c : Durations) (etimedout : ℕ) (now now' : Timespec)
    (give_up_after warn_after : c.Duration) where
  open c use {le}

  -- How the phases of a wait make up its outcome, for any property of outcomes.
  by_phases :
      (P : Outcome → Type 0) (ws : List Wakeup) (e : Event)
      → ((e' : Event) (error : ℕ) (rest : List Wakeup) (warned : Bool)
            (deadlines : List (Option Timespec))
          → wait_loop ws e 0 ≡ some (e', error, rest)
          → P (finish e' error warned deadlines))
      → ((e' : Event) (error : ℕ) (rest : List Wakeup) (e'' : Event) (error' : ℕ)
            (rest' : List Wakeup) (warned : Bool) (deadlines : List (Option Timespec))
          → wait_loop ws e 0 ≡ some (e', error, rest)
          → wait_loop rest e' 0 ≡ some (e'', error', rest')
          → P (finish e'' error' warned deadlines))
      → Holds P (wait c etimedout now now' give_up_after warn_after ws e)
  unfolding wait
  by_phases P ws e one two = elim (Option-cases (wait_loop ws e 0)) [
    | inl n ↦ elim (Option-cases (warn_ts c now give_up_after warn_after)) [
      | inl t ↦ rw (t, n, wait) tt
      | inr (d, t) ↦ rw (t, n, wait) tt
    ]
    | inr ((e', error, rest), n) ↦ elim (Option-cases (warn_ts c now give_up_after warn_after)) [
      | inl t ↦ rw (t, n, wait) (one e' error rest false _ n)
      | inr (d, t) ↦ elim (Bool-cases (error == etimedout)) [
        | inr z ↦ rw (t, n, z, wait) (one e' error rest false _ n)
        | inl z ↦ elim (Option-cases (wait_loop rest e' 0)) [
          | inl n' ↦ rw (t, n, z, n', wait) tt
          | inr ((e'', error', rest'), n') ↦
              rw (t, n, z, n', wait) (two e' error rest e'' error' rest' true _ n n')
        ]
      ]
    ]
  ]

  kind_of :
      (ws : List Wakeup) (e e' : Event) (error error' : ℕ) (rest : List Wakeup)
      → wait_loop ws e error ≡ some (e', error', rest)
      → e'.is_manual_reset_ ≡ e.is_manual_reset_
  kind_of ws e e' error error' rest n =
      subst (Holds (λ r. r.0.is_manual_reset_ ≡ e.is_manual_reset_)) n
        (loop_kind ws e.is_manual_reset_ e.event_status_ error)

  finish_resets :
      (e : Event) (error : ℕ) (warned : Bool) (deadlines : List (Option Timespec))
      → e.is_manual_reset_ ≡ false
      → (finish e error warned deadlines).result ≡ true
      → (finish e error warned deadlines).event ≡ event false false
  unfolding finish
  finish_resets e error warned deadlines kind done = ground (arith, kind, done)

  success_resets :
      (ws : List Wakeup) (b : Bool)
      → Holds
          (λ o. o.result ≡ true → o.event ≡ event false false)
          (wait c etimedout now now' give_up_after warn_after ws (event false b))
  success_resets ws b =
      by_phases (λ o. o.result ≡ true → o.event ≡ event false false) ws (event false b)
        (λ e' error rest warned deadlines n.
          finish_resets e' error warned deadlines (kind_of ws (event false b) e' 0 error rest n))
        (λ e' error rest e'' error' rest' warned deadlines n n'.
          finish_resets e'' error' warned deadlines
            (kind_of rest e' e'' 0 error' rest' n' ∙ kind_of ws (event false b) e' 0 error rest n))

  wait_loop-IsError :
      (ws : List Wakeup) (manual : Bool) (r : Event × ℕ × List Wakeup)
      → All IsUnset ws
      → wait_loop ws (event manual false) 0 ≡ some r
      → IsError manual r
  wait_loop-IsError ws manual r h n = subst (Holds (IsError manual)) n (loop_unset ws manual 0 h)

  unset_fails :
      (ws : List Wakeup) (manual : Bool)
      → All IsUnset ws
      → Holds
          (λ o. o.result ≡ false)
          (wait c etimedout now now' give_up_after warn_after ws (event manual false))
  unfolding finish
  unset_fails ws manual h =
      by_phases (λ o. o.result ≡ false) ws (event manual false)
        (λ e' error rest warned deadlines n. (wait_loop-IsError ws manual (e', error, rest) h n).1)
        (λ e' error rest e'' error' rest' warned deadlines n n'.
          let first = wait_loop-IsError ws manual (e', error, rest) h n in
          (wait_loop-IsError rest manual (e'', error', rest') first.2
            (subst (λ u. wait_loop rest u 0 ≡ some (e'', error', rest')) first.0 n')).1)

-- After a wait on an event that is not manual has returned true, a later wait during which nobody sets
-- the event does not: one signal lets one waiter go, whatever the timeouts of the two.
pub one_waiter :
    (c : Durations) (etimedout : ℕ) (now1 now1' now2 now2' : Timespec)
    (give_up1 warn1 give_up2 warn2 : c.Duration) (ws1 ws2 : List Wakeup) (b : Bool)
    (o1 o2 : Outcome)
    → wait c etimedout now1 now1' give_up1 warn1 ws1 (event false b) ≡ some o1
    → o1.result ≡ true
    → All IsUnset ws2
    → wait c etimedout now2 now2' give_up2 warn2 ws2 o1.event ≡ some o2
    → o2.result ≡ false
one_waiter c etimedout now1 now1' now2 now2' give_up1 warn1 give_up2 warn2 ws1 ws2 b o1 o2 first
      done unset second =
    let at_rest : o1.event ≡ event false false =
      subst (Holds (λ o. o.result ≡ true → o.event ≡ event false false)) first
        (success_resets c etimedout now1 now1' give_up1 warn1 ws1 b) done in
    subst (Holds (λ o. o.result ≡ false))
      (subst (λ e. wait c etimedout now2 now2' give_up2 warn2 ws2 e ≡ some o2) at_rest second)
      (unset_fails c etimedout now2 now2' give_up2 warn2 ws2 false unset)
