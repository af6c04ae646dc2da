-- ===== src/EventLoopWin/Sockets/Dispatch.antt =====
-- What a poll round delivers: exactly the reported events that are armed, once.
use io_base.Base.{
  subst, if_pos, ℕ, ◌-◌, ◌<◌, ◌≡◌, refl, sym, ap, ◌∙◌, inl, inr, bit_and, ◌==◌, if◌then◌else◌,
  Bool-cases, some, List, [], ◌∷◌, ◌++◌, ite, ℕ_discrete, arith,
}
use io_base.Base.Bits.{and_comm, and_assoc, complement-and, and-le}
use io_base.LinkedHashMap.Entries.{lookup_entry}
use io_base.EventLoopWin.Masks.{
  PollFlags, IsDisjoint, get_event_mask, clear_bits, get_event_mask-and, get_event_mask-lt,
  get_event_mask-zero, within-eq-zero, clear_bits-le,
}
use io_base.EventLoopWin.Sockets.Defs.{
  Registration, RegistrationMap, ReadyListEntry, find, update, dispatch_socket_event,
}

pub find-update :
    (fd j : ℕ) (q r : Registration) (regs : RegistrationMap)
    → find fd regs ≡ some q
    → find j (update fd r regs) ≡ ite (ℕ_discrete j fd) (some r) (find j regs)
unfolding lookup_entry update
find-update fd j q r [] h = absurd (cc)
find-update fd j q r ((i, x) ∷ es) h = ground (arith, find-update fd j q r es)

-- What the code puts on the ready list and disarms, said with event masks alone.
unfoldable pub deliver :
    RegistrationMap
    → List ReadyListEntry
    → ℕ
    → Registration
    → ℕ
    → RegistrationMap × List ReadyListEntry
deliver regs ready fd r delivered = if delivered == 0 then (regs, ready) else (
  update fd (record r { events = clear_bits r.events delivered }) regs,
  ready ++ record { fd = fd; registration = r.id; events = delivered } ∷ [],
)

module _ (p : PollFlags) (d : IsDisjoint p) where
  -- If `fd` has the registration `r`, whose events fit a uint8_t, DispatchSocketEvent delivers exactly
  -- the reported events that `r` is armed for: they go on the ready list with `r`'s identity and are
  -- disarmed; if there is none, nothing changes.
  pub dispatch-deliver :
      (regs : RegistrationMap) (ready : List ReadyListEntry) (fd mask : ℕ) (r : Registration)
      → find fd regs ≡ some r
      → r.events < 256
      → dispatch_socket_event p regs ready fd mask
        ≡ deliver regs ready fd r (bit_and (get_event_mask p mask) r.events)
  unfolding dispatch_socket_event deliver
  dispatch-deliver regs ready fd mask r h lt = ground (
    arith,
    get_event_mask-and p d mask r.events lt,
    within-eq-zero p d mask r.events,
    get_event_mask-zero p,
  )

  -- Nothing that was disarmed is left to deliver.
  disarmed : (x e : ℕ) → bit_and x e < 256 → bit_and x (clear_bits e (bit_and x e)) ≡ 0
  unfolding clear_bits
  disarmed x e lt =
      sym (and_assoc x e (255 - bit_and x e))
      ∙ and_comm (bit_and x e) _
      ∙ complement-and (bit_and x e) lt

  deliver_nothing :
      (regs : RegistrationMap) (ready : List ReadyListEntry) (fd : ℕ) (r : Registration)
      → deliver regs ready fd r 0 ≡ (regs, ready)
  unfolding deliver
  deliver_nothing regs ready fd r = refl

  -- If `fd` has the registration `r`, whose events fit a uint8_t, an event is delivered once: a second
  -- DispatchSocketEvent for the same socket and mask changes nothing.
  dispatch_once :
      (regs : RegistrationMap) (ready : List ReadyListEntry) (fd mask : ℕ) (r : Registration)
      → find fd regs ≡ some r
      → r.events < 256
      → let once = dispatch_socket_event p regs ready fd mask in
        dispatch_socket_event p once.0 once.1 fd mask ≡ once
  unfolding deliver
  dispatch_once regs ready fd mask r h lt =
      let x = bit_and (get_event_mask p mask) r.events in
      let small : x < 256 =
        omega (arith, and-le (get_event_mask p mask) r.events, get_event_mask-lt p mask) in
      let r' : Registration = record r { events = clear_bits r.events x } in
      let regs' = update fd r' regs in
      let ready' = ready ++ record { fd = fd; registration = r.id; events = x } ∷ [] in
      let first = dispatch-deliver regs ready fd mask r h lt in
      let here : find fd regs' ≡ some r' =
        find-update fd fd r r' regs h ∙ if_pos (ℕ_discrete fd fd) refl _ _ in
      let second =
        dispatch-deliver regs' ready' fd mask r' here (omega (arith, clear_bits-le r.events x)) in
      let rest : bit_and (get_event_mask p mask) (clear_bits r.events x) ≡ 0 =
        disarmed (get_event_mask p mask) r.events small in
      subst (λ t. dispatch_socket_event p t.0 t.1 fd mask ≡ t) (sym first)
        (elim (Bool-cases (x == 0)) [
          | inl z ↦ rw (z, deliver) (first ∙ rw (z, deliver) refl)
          | inr n ↦
              rw (n, deliver)
                (second ∙ ap (deliver regs' ready' fd r') rest ∙ deliver_nothing regs' ready' fd r')
        ])
