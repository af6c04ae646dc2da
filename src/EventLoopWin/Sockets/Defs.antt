-- ===== src/EventLoopWin/Sockets/Defs.antt =====
-- The state and the operations on sockets.
use io_base.Base.{
  ℕ, suc, bit_and, bit_or, ◌==◌, if◌then◌else◌, Bool, true, false, not, Option, none, some, List,
  [], ◌∷◌, ◌++◌, ite, ℕ_discrete,
}
use io_base.LinkedHashMap.Entries.{lookup_entry, insert_entry, erase_entry}
use io_base.EventLoopWin.Masks.{PollFlags, get_poll_mask, get_event_mask, clear_bits}

pub record Registration : Type 0 where
  pub id : ℕ
  pub events : ℕ
  pub listener : ℕ
  pub artificially_notify_at_next_iteration : ℕ

pub record ReadyListEntry : Type 0 where
  pub fd : ℕ
  pub registration : ℕ
  pub events : ℕ

abbrev pub RegistrationMap : Type 0
RegistrationMap = List (ℕ × Registration)

pub record Sockets : Type 0 where
  pub running : Bool
  pub registrations_ : RegistrationMap
  pub has_artificial_events_pending_ : Bool
  pub socket_ev_ : Bool
  pub next_registration : ℕ
  pub selected : List (ℕ × ℕ)

abbrev pub find : ℕ → RegistrationMap → Option Registration
find = lookup_entry ℕ_discrete

-- A write to the Registration that the entry of `fd` points to.
unfoldable pub update : ℕ → Registration → RegistrationMap → RegistrationMap
update fd r [] = []
update fd r ((j, q) ∷ es) = ite (ℕ_discrete fd j) ((fd, r) ∷ es) ((j, q) ∷ update fd r es)

module _ (p : PollFlags) where
  -- `selects` says whether WSAEventSelect returns 0.
  unfoldable pub register_socket : Sockets → Bool → ℕ → ℕ → ℕ → Sockets × Bool
  register_socket s selects fd events listener =
      if not s.running then (s, false) else (elim (find fd s.registrations_) [
        | some r ↦ (record s { next_registration = suc s.next_registration }, false)
        | none ↦
            let r : Registration = record {
              id = s.next_registration;
              events = events;
              listener = listener;
              artificially_notify_at_next_iteration = 0;
            } in
            let inserted = insert_entry ℕ_discrete fd r s.registrations_ in
            let t : Sockets = record s {
              registrations_ = inserted;
              next_registration = suc s.next_registration;
              selected = (fd, get_poll_mask p events) ∷ s.selected;
            } in
            if selects
            then (t, true)
            else (record t { registrations_ = erase_entry ℕ_discrete fd inserted }, false)
      ])

  unfoldable pub unregister_socket : Sockets → ℕ → Sockets × Bool
  unregister_socket s fd = if not s.running then (s, false) else (elim (find fd s.registrations_) [
    | none ↦ (s, false)
    | some r ↦ (
      record s {
        registrations_ = erase_entry ℕ_discrete fd s.registrations_;
        selected = (fd, 0) ∷ s.selected;
      },
      true,
    )
  ])

  unfoldable pub rearm_socket : Sockets → Bool → ℕ → ℕ → Sockets × Bool
  rearm_socket s selects fd events =
      if not s.running then (s, false) else (elim (find fd s.registrations_) [
        | none ↦ (s, false)
        | some r ↦
            let armed = bit_or r.events events in
            (
              record s {
                registrations_ = update fd (record r { events = armed }) s.registrations_;
                selected = (fd, get_poll_mask p armed) ∷ s.selected;
              },
              selects,
            )
      ])

  unfoldable pub artificially_notify_event : Sockets → ℕ → ℕ → Sockets × Bool
  artificially_notify_event s fd events =
      if not s.running then (s, false) else (elim (find fd s.registrations_) [
        | none ↦ (s, false)
        | some r ↦ (
          record s {
            registrations_ =
                update fd
                  (record r {
                    artificially_notify_at_next_iteration =
                        bit_or r.artificially_notify_at_next_iteration events;
                  })
                  s.registrations_;
            has_artificial_events_pending_ = true;
            socket_ev_ = true;
          },
          true,
        )
      ])

  -- DispatchSocketEvent: at most one more entry on the ready list; what is delivered is disarmed.
  unfoldable pub dispatch_socket_event :
      RegistrationMap → List ReadyListEntry → ℕ → ℕ → RegistrationMap × List ReadyListEntry
  dispatch_socket_event regs ready fd mask = elim (find fd regs) [
    | none ↦ (regs, ready)
    | some r ↦
        let within = bit_and mask (get_poll_mask p r.events) in
        if within == 0 then (regs, ready) else (
          update fd (record r { events = clear_bits r.events (get_event_mask p within) }) regs,
          ready ++ record { fd = fd; registration = r.id; events = get_event_mask p within } ∷ [],
        )
  ]
