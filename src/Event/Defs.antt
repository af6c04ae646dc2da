-- ===== src/Event/Defs.antt =====
-- The state and the operations of Event.
use io_base.Base.{
  ℕ, ◌==◌, if◌then◌else◌, Bool, true, false, not, ◌&&◌, Option, none, some, List, [], ◌∷◌,
}
use io_base.Base.Int.{ℤ, pos, ◌+ℤ◌, ◌-ℤ◌, leb_ℤ, quot, rem, times}
use io_base.Duration.{Durations}

pub record Timespec : Type 0 where
  pub tv_sec : ℤ
  pub tv_nsec : ℤ

pub record Event : Type 0 where
  pub is_manual_reset_ : Bool
  pub event_status_ : Bool

-- What another thread does: Set; Reset, or the end of its own wait on an event that is not manual.
pub data Change : Type 0 where
  sets : Change
  resets : Change

-- A return of pthread_cond_wait or pthread_cond_timedwait.
pub record Wakeup : Type 0 where
  pub error : ℕ
  pub changes : List Change

-- How a wait ended: the deadlines are those of its phases, `none` for no deadline.
pub record Outcome : Type 0 where
  pub event : Event
  pub result : Bool
  pub warned : Bool
  pub deadlines : List (Option Timespec)

unfoldable pub set : Event → Event
set e = record e { event_status_ = true }

unfoldable pub reset : Event → Event
reset e = record e { event_status_ = false }

unfoldable pub apply : List Change → Event → Event
unfolding set reset
apply [] e = e
apply (sets ∷ changes) e = apply changes (set e)
apply (resets ∷ changes) e = apply changes (reset e)

-- The lambda `wait`: it goes on while the event is not set and there is no error.
unfoldable pub wait_loop : List Wakeup → Event → ℕ → Option (Event × ℕ × List Wakeup)
unfolding apply
wait_loop [] e error = if not e.event_status_ && (error == 0) then none else some (e, error, [])
wait_loop (w ∷ ws) e error =
    let rest = wait_loop ws (apply w.changes e) w.error in
    if not e.event_status_ && (error == 0) then rest else some (e, error, w ∷ ws)

-- The end of Wait: the automatic reset and the result.
unfoldable pub finish : Event → ℕ → Bool → List (Option Timespec) → Outcome
finish e error warned deadlines = record {
  event = if (error == 0) && not e.is_manual_reset_ then record e { event_status_ = false } else e;
  result = error == 0;
  warned = warned;
  deadlines = deadlines;
}

module _ (c : Durations) where
  open c use {Duration, le, is_infinite, to_int64_microseconds}

  -- GetTimespec, with the clock at `now`.
  unfoldable pub get_timespec : Timespec → Duration → Timespec
  get_timespec now duration_from_now =
      let microsecs_from_now = to_int64_microseconds duration_from_now in
      let sec = now.tv_sec +ℤ quot microsecs_from_now 1000000 in
      let nsec = now.tv_nsec +ℤ times (rem microsecs_from_now 1000000) 1000 in
      if leb_ℤ (pos 1000000000) nsec
      then record { tv_sec = sec +ℤ pos 1; tv_nsec = nsec -ℤ pos 1000000000 }
      else record { tv_sec = sec; tv_nsec = nsec }

  unfoldable pub warn_ts : Timespec → Duration → Duration → Option Timespec
  unfolding get_timespec
  warn_ts now give_up_after warn_after =
      if le give_up_after warn_after then none else some (get_timespec now warn_after)

  unfoldable pub give_up_ts : Timespec → Duration → Option Timespec
  unfolding get_timespec
  give_up_ts now give_up_after =
      if is_infinite give_up_after then none else some (get_timespec now give_up_after)

  -- Wait; the clock reads `now` for the warning and `now'` for the end.
  unfoldable pub wait :
      (etimedout : ℕ) (now now' : Timespec) (give_up_after warn_after : Duration)
      → List Wakeup
      → Event
      → Option Outcome
  unfolding warn_ts give_up_ts wait_loop finish
  wait etimedout now now' give_up_after warn_after wakeups e =
      let give_up = give_up_ts now' give_up_after in
      elim (warn_ts now give_up_after warn_after) [
        | none ↦ (elim (wait_loop wakeups e 0) [
          | none ↦ none
          | some (e', error, rest) ↦ some (finish e' error false (give_up ∷ []))
        ])
        | some warn ↦ (elim (wait_loop wakeups e 0) [
          | none ↦ none
          | some (e', error, rest) ↦
              if error == etimedout
              then (elim (wait_loop rest e' 0) [
                | none ↦ none
                | some (e'', error', rest') ↦
                    some (finish e'' error' true (some warn ∷ give_up ∷ []))
              ])
              else some (finish e' error false (some warn ∷ []))
        ])
      ]
