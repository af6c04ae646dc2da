-- ===== src/Event/Waits.antt =====
-- How a wait ends: by a signal, by a timeout, with or without the warning in between.
use io_base.Base.{
  ℕ, ◌≡◌, ◌≢◌, refl, ◌∙◌, arith, ◌==◌, if◌then◌else◌, Bool, true, false, not, ◌||◌, some, List, [],
  ◌∷◌, ◌++◌, All,
}
use io_base.Duration.{Durations}
use io_base.Event.Defs.{
  Timespec, Event, Change, sets, resets, Wakeup, Outcome, set, reset, apply, wait_loop, finish,
  get_timespec, warn_ts, give_up_ts, wait,
}

-- The status after some changes.
abbrev pub status_after : List Change → Bool → Bool
status_after [] b = b
status_after (sets ∷ changes) b = status_after changes true
status_after (resets ∷ changes) b = status_after changes false

abbrev pub event : Bool → Bool → Event
event manual status = record { is_manual_reset_ = manual; event_status_ = status }

-- A return without an error that finds the event not set, as after a spurious wake-up or when another waiter was faster.
abbrev pub IsQuiet : Wakeup → Type 0
IsQuiet w = (w.error ≡ 0) × (status_after w.changes false ≡ false)

pub apply-status :
    (changes : List Change) (manual b : Bool)
    → apply changes (event manual b) ≡ event manual (status_after changes b)
unfolding apply set reset
apply-status [] manual b = refl
apply-status (sets ∷ changes) manual b = apply-status changes manual true
apply-status (resets ∷ changes) manual b = apply-status changes manual false

-- The loop passes over quiet returns.
pub wait_loop-quiet :
    (quiet ws : List Wakeup) (manual : Bool)
    → All IsQuiet quiet
    → wait_loop (quiet ++ ws) (event manual false) 0 ≡ wait_loop ws (event manual false) 0
unfolding wait_loop
wait_loop-quiet [] ws manual h = refl
wait_loop-quiet (w ∷ quiet) ws manual h =
    rw (apply-status w.changes manual false, h.0.0, h.0.1) (wait_loop-quiet quiet ws manual h.1)

stop :
    (ws : List Wakeup) (manual b : Bool) (error : ℕ)
    → b || not (error == 0) ≡ true
    → wait_loop ws (event manual b) error ≡ some (event manual b, error, ws)
unfolding wait_loop
stop [] manual b error ends = ground arith
stop (w ∷ ws) manual b error ends = ground arith

-- It ends at a return that is an error or finds the event set.
pub wait_loop-end :
    (quiet rest : List Wakeup) (w : Wakeup) (manual : Bool)
    → All IsQuiet quiet
    → status_after w.changes false || not (w.error == 0) ≡ true
    → wait_loop (quiet ++ w ∷ rest) (event manual false) 0
      ≡ some (event manual (status_after w.changes false), w.error, rest)
unfolding wait_loop
wait_loop-end quiet rest w manual h ends =
    wait_loop-quiet quiet (w ∷ rest) manual h
    ∙ rw (apply-status w.changes manual false)
        (stop rest manual (status_after w.changes false) w.error ends)

module _ (c : Durations) (etimedout : ℕ) (now now' : Timespec)
    (give_up_after warn_after : c.Duration) where
  open c use {le}

  -- If some of the returns to a waiter find nothing and the next one, without an error, finds the
  -- event set, then Wait returns true at that return, without a warning, whatever the timeouts; the
  -- event stays set if it is manual and is reset if it is not.
  pub wait_signaled :
      (quiet rest : List Wakeup) (w : Wakeup) (manual : Bool)
      → etimedout ≢ 0
      → All IsQuiet quiet
      → w.error ≡ 0
      → status_after w.changes false ≡ true
      → (o : Outcome) × (wait c etimedout now now' give_up_after warn_after
            (quiet ++ w ∷ rest)
            (event manual false)
          ≡ some o)
        × (o.event ≡ event manual manual)
        × (o.result ≡ true)
        × (o.warned ≡ false)
  unfolding wait finish warn_ts
  wait_signaled quiet rest w manual nonzero h ok signal =
      let loop = wait_loop-end quiet rest w manual h (ground (arith, signal)) in
      let o : Outcome = record {
        event = event manual manual;
        result = true;
        warned = false;
        deadlines =
            if le give_up_after warn_after
            then give_up_ts c now' give_up_after ∷ []
            else some (get_timespec c now warn_after) ∷ [];
      } in
      (o, ground (arith, loop, ok, signal, nonzero), refl, refl, refl)

  -- With no warning to give before the end: if the returns before find nothing and the next one is
  -- ETIMEDOUT, then Wait returns false, having waited for the deadline of the end, and leaves the event
  -- as the other threads made it: a signal that comes with the timeout is kept for the next waiter.
  wait_timed_out :
      (quiet rest : List Wakeup) (w : Wakeup) (manual : Bool)
      → etimedout ≢ 0
      → le give_up_after warn_after ≡ true
      → All IsQuiet quiet
      → w.error ≡ etimedout
      → wait c etimedout now now' give_up_after warn_after (quiet ++ w ∷ rest) (event manual false)
        ≡ some (record {
          event = event manual (status_after w.changes false);
          result = false;
          warned = false;
          deadlines = give_up_ts c now' give_up_after ∷ [];
        })
  unfolding wait finish warn_ts
  wait_timed_out quiet rest w manual nonzero no_warning h late =
      let ends : status_after w.changes false || not (w.error == 0) ≡ true =
        ground (arith, late, nonzero) in
      let loop = wait_loop-end quiet rest w manual h ends in
      ground (arith, loop, no_warning, late, nonzero)

  -- If the deadline of the warning passes first, Wait warns once and waits on, now until the deadline of
  -- the end: a later return without an error that finds the event set makes it return true, a later
  -- error makes it return false and leaves the event as it is.
  wait_warned :
      (quiet quiet' rest : List Wakeup) (t w : Wakeup) (manual : Bool)
      → etimedout ≢ 0
      → le give_up_after warn_after ≡ false
      → All IsQuiet quiet
      → t.error ≡ etimedout
      → status_after t.changes false ≡ false
      → All IsQuiet quiet'
      → status_after w.changes false || not (w.error == 0) ≡ true
      → wait c etimedout now now' give_up_after warn_after
          (quiet ++ t ∷ (quiet' ++ w ∷ rest))
          (event manual false)
        ≡ some (record {
          event = event manual (if w.error == 0 then manual else status_after w.changes false);
          result = w.error == 0;
          warned = true;
          deadlines = some (get_timespec c now warn_after) ∷ give_up_ts c now' give_up_after ∷ [];
        })
  unfolding wait finish warn_ts
  wait_warned quiet quiet' rest t w manual nonzero warning h late unset h' ends =
      let ends' : status_after t.changes false || not (t.error == 0) ≡ true =
        ground (arith, late, nonzero) in
      let loop = wait_loop-end quiet (quiet' ++ w ∷ rest) t manual h ends' in
      let loop' = wait_loop-end quiet' rest w manual h' ends in
      let loop0 : wait_loop (quiet ++ t ∷ (quiet' ++ w ∷ rest)) (event manual false) 0
          ≡ some (event manual false, etimedout, quiet' ++ w ∷ rest) =
        loop ∙ rw (late, unset) refl in
      ground (arith, loop0, loop', warning, nonzero, ends)
