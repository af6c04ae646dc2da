-- ===== src/EvenLoop/Waits/Loop.antt =====
-- What the waits share: the wake-up, the loop, the time that is left.
use io_base.Base.{
  ℕ, zero, suc, ◌+◌, if◌then◌else◌, Bool, true, false, Option, none, some, List, [], ◌∷◌,
}
use io_base.Base.Int.{ℤ, pos, negsuc, ltb_ℤ, leb_ℤ, max_ℤ, u32, i32}
use io_base.Time.{time_millis, time_diff, time_after}
use io_base.Duration.{Durations}
use io_base.EvenLoop.Defs.{Signaler, EvenLoop, SocketError}

-- kForeverMs.
abbrev pub forever_ms : ℤ
forever_ms = negsuc 0

abbrev pub is_forever : ℤ → Bool
is_forever (pos n) = false
is_forever (negsuc zero) = true
is_forever (negsuc (suc n)) = false

-- A value of int64_t as an int.
abbrev pub to_int : ℤ → ℤ
to_int a = i32 (u32 a)

-- Signal, with an eventfd that could be created: the write adds 1 to its counter.
unfoldable pub signal : Signaler → Signaler
signal g = if g.f_signaled_ then g else record { f_signaled_ = true; counter = g.counter + 1 }

unfoldable pub wake_up : EvenLoop → EvenLoop
unfolding signal
wake_up s = record s { signaler = signal s.signaler }

module _ (c : Durations) where
  open c use {Duration, is_infinite, to_int64_milliseconds}

  unfoldable pub to_cms_wait : Duration → ℤ
  to_cms_wait max_wait_duration =
      if is_infinite max_wait_duration
      then forever_ms
      else to_int (max_ℤ (pos 1) (to_int64_milliseconds max_wait_duration))

-- What the system answers: an error, the error EINTR, 0, or that descriptors are ready.
pub data Answer (A : Type 0) : Type 0 where
  failed : Answer A
  interrupted : Answer A
  timed_out : Answer A
  ready : A → Answer A

-- A round of a wait: how the system answers, whether another thread calls WakeUp in the meantime, what
-- getsockopt then says of a dispatcher, and the clock at the end of the round.
pub record Round (S : Type 0) : Type 0 where
  pub system_call : S
  pub woken : Bool
  pub socket_error : ℕ → SocketError
  pub clock : ℤ

-- How a round ends: Wait returns, or goes on with the next timeout.
pub data Next (C : Type 0) : Type 0 where
  returns : Bool → Next C
  goes_on : C → Next C

-- How a wait ended, `none` for one that still waits when the rounds are over, and the timeouts that it
-- gave to the system.
pub record Outcome (S C : Type 0) : Type 0 where
  pub state : S
  pub returned : Option Bool
  pub timeouts : List C

-- The end of a round with timeout `c`: the wait returns, or `rest` goes on.
unfoldable pub after_round :
    {S C : Type 0} → C → S → Next C → (rest : C → S → Outcome S C) → Outcome S C
after_round c s (returns b) rest = record { state = s; returned = some b; timeouts = c ∷ [] }
after_round c s (goes_on d) rest =
    let o = rest d s in record { state = o.state; returned = o.returned; timeouts = c ∷ o.timeouts }

-- `while (fWait_)`, from the timeout `c` and the state `s`.
module _ {S R C : Type 0} (f_wait : S → Bool) (round : R → C → S → S × Next C) where
  unfoldable pub while_waiting : List R → C → S → Outcome S C
  unfolding after_round
  while_waiting [] c s = record {
    state = s;
    returned = if f_wait s then none else some true;
    timeouts = [];
  }
  while_waiting (r ∷ rs) c s =
      let after = after_round c (round r c s).0 (round r c s).1 (while_waiting rs) in
      if f_wait s then after else record { state = s; returned = some true; timeouts = [] }

-- The start of a wait in milliseconds: msStop.
unfoldable pub ms_stop_of : (clock : ℤ) → (cms_wait : ℤ) → ℤ
unfolding time_after
ms_stop_of clock cms_wait = if is_forever cms_wait then negsuc 0 else time_after clock cms_wait

-- The end of a round in milliseconds: epoll waits only if some time is left, poll also at the deadline.
unfoldable pub ms_next : (at_deadline : Bool) (cms_wait ms_stop : ℤ) → (clock ms_wait : ℤ) → Next ℤ
unfolding time_diff time_millis
ms_next at_deadline cms_wait ms_stop clock ms_wait =
    let left = time_diff ms_stop (time_millis clock) in
    if is_forever cms_wait
    then goes_on ms_wait
    else (if (if at_deadline then ltb_ℤ left (pos 0) else leb_ℤ left (pos 0))
        then returns true
        else goes_on left)
