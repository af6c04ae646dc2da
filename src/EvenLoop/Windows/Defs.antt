-- ===== src/EvenLoop/Windows/Defs.antt =====
-- The state and the operations.
use io_base.Base.{
  ℕ, ◌-◌, ◌==◌, has, bit_or, if◌then◌else◌, Bool, true, false, not, ◌&&◌, ◌||◌, Option, none, some,
  List, [], ◌∷◌, ◌++◌, ℕ_discrete,
}
use io_base.Base.Int.{ℤ, pos, ◌-ℤ◌, leb_ℤ, max_ℤ, u32}
use io_base.Duration.{Durations}
use io_base.Time.{time_millis, time_since}
use io_base.LinkedHashMap.Entries.{lookup_entry}
use io_base.EvenLoop.Defs.{Call, de_read, de_write, de_connect, de_close, de_accept}
use io_base.EvenLoop.Waits.{Next, while_waiting, is_forever, to_cms_wait}
use io_base.EvenLoop.Waits.{keys_of}
use Next.{returns, goes_on}

-- The network events of winsock2.h.
pub record FdFlags : Type 0 where
  pub fd_read : ℕ
  pub fd_write : ℕ
  pub fd_connect : ℕ
  pub fd_accept : ℕ
  pub fd_close : ℕ

-- What GetSocket (`none` for INVALID_SOCKET), GetWSAEvent and GetRequestedEvents say.
pub record Dispatcher : Type 0 where
  pub socket : Option ℕ
  pub wsa_event : ℕ
  pub requested_events : ℕ

-- `hev_` is the Signaler's event, `none` if it could not be created; an event is whether it is set.
-- `selected` are the calls of WSAEventSelect, the latest first. The dispatcher 0 is the null pointer.
pub record EvenLoop : Type 0 where
  pub dispatchers : ℕ → Dispatcher
  pub dispatcher_by_key_ : List (ℕ × ℕ)
  pub current_dispatcher_keys_ : List ℕ
  pub signal_wakeup_ : ℕ
  pub hev_ : Option Bool
  pub socket_ev_ : Bool
  pub f_wait_ : Bool
  pub waiting_ : Bool
  pub selected : List (ℕ × ℕ)
  pub calls : List Call

abbrev pub at : ℕ → EvenLoop → Option ℕ
at key s = lookup_entry ℕ_discrete key s.dispatcher_by_key_

unfoldable pub flags_to_events : FdFlags → ℕ → ℕ
flags_to_events w events =
    let on_read = if has events de_read then bit_or w.fd_close w.fd_read else w.fd_close in
    let on_write = if has events de_write then bit_or on_read w.fd_write else on_read in
    let on_connect = if has events de_connect then bit_or on_write w.fd_connect else on_write in
    if has events de_accept then bit_or on_connect w.fd_accept else on_connect

-- What WSAEnumNetworkEvents reports: the events, and the error codes of the connect and the close.
pub record NetworkEvents : Type 0 where
  pub l_network_events : ℕ
  pub connect_error : ℕ
  pub close_error : ℕ

-- `ff` and `errcode` of a socket.
unfoldable pub network_told : FdFlags → NetworkEvents → ℕ × ℕ
network_told w e =
    let on_read = if has e.l_network_events w.fd_read then de_read else 0 in
    let on_write = if has e.l_network_events w.fd_write then bit_or on_read de_write else on_read in
    let connected = has e.l_network_events w.fd_connect in
    let on_connect =
      if connected
      then bit_or on_write (if e.connect_error == 0 then de_connect else de_close)
      else on_write in
    let on_accept =
      if has e.l_network_events w.fd_accept then bit_or on_connect de_accept else on_connect in
    if has e.l_network_events w.fd_close
    then (bit_or on_accept de_close, e.close_error)
    else (on_accept, if connected then e.connect_error else 0)

-- What WSAWaitForMultipleEvents answers.
pub data Answer : Type 0 where
  wait_failed : Answer
  wait_timeout : Answer
  signaled : ℕ → Answer

-- A round: the answer to the events and the timeout, whether another thread calls WakeUp, what
-- WSAEnumNetworkEvents reports of a socket, `none` if it fails, and the clock at the end.
pub record Round : Type 0 where
  pub wait_for_multiple_events : List ℕ → ℕ → Answer
  pub woken : Bool
  pub enum_network_events : ℕ → Option NetworkEvents
  pub clock : ℤ

unfoldable pub wake_up : EvenLoop → EvenLoop
wake_up s = elim s.hev_ [ none ↦ s | some set ↦ record s { hev_ = some true } ]

-- Signaler::OnEvent.
unfoldable pub signaler_on_event : EvenLoop → EvenLoop
signaler_on_event s = record s {
  hev_ = elim s.hev_ [ none ↦ none | some set ↦ some false ];
  f_wait_ = false;
}

-- An owner: its key, and the event that its dispatcher gave.
unfoldable pub owner_at : ℕ → List (ℕ × ℕ) → Option ℕ
owner_at i [] = none
owner_at i ((key, event) ∷ owners) =
    let rest = owner_at (i - 1) owners in if i == 0 then some key else rest

-- The end of a round.
unfoldable pub end_of_round : (cms_wait elapsed : ℤ) → EvenLoop → EvenLoop × Next ℤ
end_of_round cms_wait elapsed s = (
  s,
  if not s.f_wait_ || (not (is_forever cms_wait) && leb_ℤ cms_wait elapsed)
      then returns true
      else goes_on elapsed,
)

-- cmsNext, as a DWORD.
unfoldable pub cms_next : (cms_wait cms_elapsed : ℤ) → ℕ
cms_next cms_wait cms_elapsed =
    u32 (if is_forever cms_wait then cms_wait else max_ℤ (pos 0) (cms_wait -ℤ cms_elapsed))

unfoldable pub wsa_events : List (ℕ × ℕ) → List ℕ
wsa_events [] = []
wsa_events ((key, event) ∷ owners) = event ∷ wsa_events owners

-- `user` is what the OnEvent of another dispatcher does, `check_signal_close` what CheckSignalClose does and
-- says.
module _ (w : FdFlags) (user : Call → EvenLoop → EvenLoop)
    (check_signal_close : ℕ → EvenLoop → EvenLoop × Bool) where
  unfoldable pub on_event : Call → EvenLoop → EvenLoop
  unfolding signaler_on_event
  on_event call s =
      let t : EvenLoop = record s { calls = s.calls ++ call ∷ [] } in
      if call.dispatcher == s.signal_wakeup_ then signaler_on_event t else user call t

  -- One dispatcher of the snapshot: its socket is selected, or its key is an owner of an event of its own.
  unfoldable pub ask_for :
      (process_io : Bool) (key dispatcher : ℕ) → EvenLoop → EvenLoop × List (ℕ × ℕ)
  unfolding flags_to_events
  ask_for process_io key dispatcher s =
      let (t, closed) = check_signal_close dispatcher s in
      if dispatcher == 0 || (not process_io && not (dispatcher == s.signal_wakeup_))
      then (s, [])
      else (if closed then (t, []) else (elim (s.dispatchers dispatcher).socket [
        | none ↦ (t, (key, (t.dispatchers dispatcher).wsa_event) ∷ [])
        | some socket ↦
            let mask = flags_to_events w (t.dispatchers dispatcher).requested_events in
            (record t { selected = (socket, mask) ∷ t.selected }, [])
      ]))

  -- The loop over the snapshot of the keys: the state after it and event_owners.
  unfoldable pub ask_all : (process_io : Bool) → List ℕ → EvenLoop → EvenLoop × List (ℕ × ℕ)
  unfolding ask_for
  ask_all process_io [] s = (s, [])
  ask_all process_io (key ∷ keys) s = elim (at key s) [
    | none ↦ ask_all process_io keys s
    | some dispatcher ↦
        let (t, owners) = ask_for process_io key dispatcher s in
        let (u, others) = ask_all process_io keys t in (u, owners ++ others)
  ]

  -- The loop over current_dispatcher_keys_ when the event of the sockets is set.
  unfoldable pub tell_sockets : (ℕ → Option NetworkEvents) → List ℕ → EvenLoop → EvenLoop
  unfolding network_told on_event
  tell_sockets enum [] s = s
  tell_sockets enum (key ∷ keys) s = elim (at key s) [
    | none ↦ tell_sockets enum keys s
    | some dispatcher ↦ elim (s.dispatchers dispatcher).socket [
      | none ↦ tell_sockets enum keys s
      | some socket ↦ elim (enum socket) [
        | none ↦ tell_sockets enum keys s
        | some e ↦
            let (ff, errcode) = network_told w e in
            let call : Call = record { dispatcher = dispatcher; ff = ff; err = errcode } in
            tell_sockets enum keys (if ff == 0 then s else on_event call s)
      ]
    ]
  ]

  -- A signaled event. An owner without a dispatcher is passed over with `continue`: the event of the sockets
  -- is not reset and the time is not read. There is always an owner for the index.
  unfoldable pub on_signaled :
      (cms_wait ms_start cms_elapsed : ℤ) (process_io : Bool) (r : Round) (owners : List (ℕ × ℕ))
      (index : ℕ)
      → EvenLoop
      → EvenLoop × Next ℤ
  unfolding on_event tell_sockets end_of_round owner_at time_since
  on_signaled cms_wait ms_start cms_elapsed process_io r owners index s =
      if index == 0
      then (let told =
            if process_io
            then tell_sockets r.enum_network_events s.current_dispatcher_keys_ s
            else s in
          end_of_round cms_wait (time_since r.clock ms_start) (record told { socket_ev_ = false }))
      else (elim (owner_at (index - 1) owners) [
        | none ↦ (s, goes_on cms_elapsed)
        | some key ↦ elim (at key s) [
          | none ↦ (s, goes_on cms_elapsed)
          | some dispatcher ↦
              let told = on_event (record { dispatcher = dispatcher; ff = 0; err = 0 }) s in
              end_of_round cms_wait (time_since r.clock ms_start)
                (record told { socket_ev_ = false })
        ]
      ])

  unfoldable pub on_answer :
      (cms_wait ms_start cms_elapsed : ℤ) (process_io : Bool) (r : Round) (owners : List (ℕ × ℕ))
      → Answer
      → EvenLoop
      → EvenLoop × Next ℤ
  unfolding on_signaled
  on_answer cms_wait ms_start cms_elapsed process_io r owners wait_failed s = (s, returns false)
  on_answer cms_wait ms_start cms_elapsed process_io r owners wait_timeout s = (s, returns true)
  on_answer cms_wait ms_start cms_elapsed process_io r owners (signaled index) s =
      on_signaled cms_wait ms_start cms_elapsed process_io r owners index s

  unfoldable pub round :
      (cms_wait ms_start : ℤ) (process_io : Bool) → Round → ℤ → EvenLoop → EvenLoop × Next ℤ
  unfolding ask_all on_answer cms_next wake_up wsa_events
  round cms_wait ms_start process_io r cms_elapsed s =
      let keys = keys_of s.dispatcher_by_key_ in
      let (t, owners) = ask_all process_io keys (record s { current_dispatcher_keys_ = keys }) in
      on_answer cms_wait ms_start cms_elapsed process_io r owners
        (r.wait_for_multiple_events (wsa_events owners) (cms_next cms_wait cms_elapsed))
        (if r.woken then wake_up t else t)

  module _ (c : Durations) where
    open c use {Duration}

    unfoldable pub wait :
        Duration → (clock : ℤ) (process_io : Bool) → List Round → EvenLoop → EvenLoop × Option Bool
    unfolding while_waiting round to_cms_wait time_millis
    wait max_wait_duration clock process_io rounds s =
        let cms_wait = to_cms_wait c max_wait_duration in
        let ms_start = time_millis clock in
        let o =
          while_waiting (λ t. t.f_wait_) (round cms_wait ms_start process_io) rounds (pos 0)
            (record s { f_wait_ = true; waiting_ = true }) in
        (
          elim o.returned [ none ↦ o.state | some b ↦ record o.state { waiting_ = false } ],
          o.returned,
        )
