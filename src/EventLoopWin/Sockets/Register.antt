-- ===== src/EventLoopWin/Sockets/Register.antt =====
-- What a client of the loop may rely on: the results of the calls, the invariant of the registrations,
-- and that an unregistered listener is never called again.
use io_base.Base.{
  ℕ, ◌<◌, ◌≡◌, refl, bit_or, Bool, true, none, some, List, [], ◌∷◌, arith, Option-cases, inl, inr,
}
use io_base.Base.Bits.{or-lt_byte}
use io_base.LinkedHashMap.Entries.{insert_entry}
use io_base.EventLoopWin.Masks.{PollFlags}
use io_base.EventLoopWin.Sockets.Defs.{
  Registration, Sockets, ReadyListEntry, find, register_socket, unregister_socket, rearm_socket,
  artificially_notify_event,
}
use io_base.EventLoopWin.Sockets.Poll.{lock, run_ready_callbacks, Delivery}
use io_base.EventLoopWin.Sockets.Entries.{
  WellFormed, WellFormed-suc, lock-append, WellFormed-append, erase-append, lock-erase,
  WellFormed-erase, lock-erase_self, lock-update, WellFormed-update, WellFormed-find,
}

-- The calls of the EventLoop interface on sockets; the masks are bytes.
pub data Call : Type 0 where
  registers : (selects : Bool) (fd events listener : ℕ) → events < 256 → Call
  unregisters : (fd : ℕ) → Call
  rearms : (selects : Bool) (fd events : ℕ) → events < 256 → Call
  notifies : (fd events : ℕ) → events < 256 → Call

abbrev pub IsWellFormed : Sockets → Type 0
IsWellFormed s = WellFormed s.next_registration s.registrations_

module _ (p : PollFlags) where
  unfoldable pub step : Sockets → Call → Sockets × Bool
  step s (registers selects fd events listener h) = register_socket p s selects fd events listener
  step s (unregisters fd) = unregister_socket p s fd
  step s (rearms selects fd events h) = rearm_socket p s selects fd events
  step s (notifies fd events h) = artificially_notify_event p s fd events

  unfoldable pub run : Sockets → List Call → Sockets
  run s [] = s
  run s (c ∷ cs) = run (step s c).0 cs

  register-IsWellFormed :
      (s : Sockets) (selects : Bool) (fd events listener : ℕ)
      → events < 256
      → IsWellFormed s
      → IsWellFormed (register_socket p s selects fd events listener).0
  unfolding register_socket insert_entry
  register-IsWellFormed s selects fd events listener h v =
      let r : Registration = record {
        id = s.next_registration;
        events = events;
        listener = listener;
        artificially_notify_at_next_iteration = 0;
      } in
      ground (
        arith,
        WellFormed-suc s.next_registration s.registrations_ v,
        WellFormed-append s.next_registration fd r s.registrations_ v,
        erase-append fd r s.registrations_,
      )

  rearm-IsWellFormed :
      (s : Sockets) (selects : Bool) (fd events : ℕ)
      → events < 256
      → IsWellFormed s
      → IsWellFormed (rearm_socket p s selects fd events).0
  unfolding rearm_socket
  rearm-IsWellFormed s selects fd events h v = elim (Option-cases (find fd s.registrations_)) [
    | inl e ↦ ground arith
    | inr (r, e) ↦
        let (_, small, note) = WellFormed-find s.next_registration fd r s.registrations_ v e in
        let kept =
          WellFormed-update s.next_registration fd r (record r { events = bit_or r.events events })
            s.registrations_ v e refl (or-lt_byte r.events events small h) note in
        ground arith
  ]

  notify-IsWellFormed :
      (s : Sockets) (fd events : ℕ)
      → events < 256
      → IsWellFormed s
      → IsWellFormed (artificially_notify_event p s fd events).0
  unfolding artificially_notify_event
  notify-IsWellFormed s fd events h v = elim (Option-cases (find fd s.registrations_)) [
    | inl e ↦ ground arith
    | inr (r, e) ↦
        let (_, small, note) = WellFormed-find s.next_registration fd r s.registrations_ v e in
        let kept =
          WellFormed-update s.next_registration fd r
            (record r {
              artificially_notify_at_next_iteration =
                  bit_or r.artificially_notify_at_next_iteration events;
            })
            s.registrations_ v e refl small
            (or-lt_byte r.artificially_notify_at_next_iteration events note h) in
        ground arith
  ]

  unregister-IsWellFormed :
      (s : Sockets) (fd : ℕ) → IsWellFormed s → IsWellFormed (unregister_socket p s fd).0
  unfolding unregister_socket
  unregister-IsWellFormed s fd v =
      ground (arith, WellFormed-erase s.next_registration fd s.registrations_ v)

  -- Every call keeps the registrations well formed: one entry for each socket, no Registration shared
  -- by two entries, masks that fit a uint8_t.
  pub step-IsWellFormed : (s : Sockets) (c : Call) → IsWellFormed s → IsWellFormed (step s c).0
  unfolding step
  step-IsWellFormed s (registers selects fd events listener h) v =
      register-IsWellFormed s selects fd events listener h v
  step-IsWellFormed s (unregisters fd) v = unregister-IsWellFormed s fd v
  step-IsWellFormed s (rearms selects fd events h) v = rearm-IsWellFormed s selects fd events h v
  step-IsWellFormed s (notifies fd events h) v = notify-IsWellFormed s fd events h v

  -- A Registration that is gone does not come back: no call makes one with an old identity.
  abbrev IsGone : ℕ → Sockets → Type 0
  IsGone i s = (lock i s.registrations_ ≡ none) × (i < s.next_registration)

  register-IsGone :
      (s : Sockets) (selects : Bool) (fd events listener i : ℕ)
      → IsGone i s
      → IsGone i (register_socket p s selects fd events listener).0
  unfolding register_socket insert_entry
  register-IsGone s selects fd events listener i g =
      let r : Registration = record {
        id = s.next_registration;
        events = events;
        listener = listener;
        artificially_notify_at_next_iteration = 0;
      } in
      ground (arith, lock-append i fd r s.registrations_ g.0, erase-append fd r s.registrations_)

  step-IsGone : (s : Sockets) (c : Call) (i : ℕ) → IsGone i s → IsGone i (step s c).0
  unfolding step unregister_socket rearm_socket artificially_notify_event
  step-IsGone s (registers selects fd events listener h) i g =
      register-IsGone s selects fd events listener i g
  step-IsGone s (unregisters fd) i g = ground (arith, lock-erase i fd s.registrations_ g.0)
  step-IsGone s (rearms selects fd events h) i g = elim (Option-cases (find fd s.registrations_)) [
    | inl e ↦ ground arith
    | inr (r, e) ↦ ground (
      arith,
      lock-update i fd r (record r { events = bit_or r.events events }) s.registrations_ e refl g.0,
    )
  ]
  step-IsGone s (notifies fd events h) i g = elim (Option-cases (find fd s.registrations_)) [
    | inl e ↦ ground arith
    | inr (r, e) ↦ ground (
      arith,
      lock-update i fd r
          (record r {
            artificially_notify_at_next_iteration =
                bit_or r.artificially_notify_at_next_iteration events;
          })
          s.registrations_ e refl g.0,
    )
  ]

  run-IsGone : (s : Sockets) (cs : List Call) (i : ℕ) → IsGone i s → IsGone i (run s cs)
  unfolding run
  run-IsGone s [] i g = g
  run-IsGone s (c ∷ cs) i g = run-IsGone (step s c).0 cs i (step-IsGone s c i g)

  unregister-IsGone :
      (s : Sockets) (fd : ℕ) (r : Registration)
      → IsWellFormed s
      → s.running ≡ true
      → find fd s.registrations_ ≡ some r
      → IsGone r.id (unregister_socket p s fd).0
  unfolding unregister_socket
  unregister-IsGone s fd r v running e = ground (
    arith,
    lock-erase_self s.next_registration fd r s.registrations_ v e,
    WellFormed-find s.next_registration fd r s.registrations_ v e,
  )

  -- In a running loop with well-formed registrations, once `fd` is unregistered, an entry of a ready
  -- list that was made for its registration calls nobody, whatever calls are made before it is reached,
  -- and even if `fd` is registered again: RunReadyCallbacks goes on with the rest of the list.
  pub unregistered_not_called :
      (s : Sockets) (fd : ℕ) (r : Registration) (cs : List Call)
      (on_socket_event : Delivery → Sockets → Sockets) (entry : ReadyListEntry)
      (rest : List ReadyListEntry)
      → IsWellFormed s
      → s.running ≡ true
      → find fd s.registrations_ ≡ some r
      → entry.registration ≡ r.id
      → run_ready_callbacks on_socket_event (entry ∷ rest) (run (unregister_socket p s fd).0 cs)
        ≡ run_ready_callbacks on_socket_event rest (run (unregister_socket p s fd).0 cs)
  unfolding run_ready_callbacks
  unregistered_not_called s fd r cs on_socket_event entry rest v running e same =
      let gone =
        run-IsGone (unregister_socket p s fd).0 cs r.id (unregister-IsGone s fd r v running e) in
      rw (same, gone.0, run_ready_callbacks) refl
