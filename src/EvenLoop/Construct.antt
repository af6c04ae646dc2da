-- ===== src/EvenLoop/Construct.antt =====
-- How an EvenLoop begins and ends on POSIX, and its Add, Remove and Update.
use io_base.Base.{ℕ, ◌==◌, if◌then◌else◌, false, Option, none, some, List, [], ◌∷◌, ◌++◌}
use io_base.Base.Int.{ℤ, pos, ltb_ℤ}
use io_base.EvenLoop.Defs.{EvenLoop, Dispatcher, de_read}
use io_base.EvenLoop.Waits.{is_forever}

-- The dispatcher that a Signaler is, with what eventfd returned.
abbrev pub signaler_dispatcher : (fd : ℕ) → Dispatcher
signaler_dispatcher fd = record {
  descriptor = fd;
  requested_events = de_read;
  is_descriptor_closed = false;
}

-- A call of a member function that other code makes.
pub data Change : Type 0 where
  adds : (dispatcher : ℕ) → Change
  removes : (dispatcher : ℕ) → Change
  updates : (dispatcher : ℕ) → Change

-- Add, Remove and Update have no body.
unfoldable pub change : Change → EvenLoop → EvenLoop
change (adds dispatcher) s = s
change (removes dispatcher) s = s
change (updates dispatcher) s = s

unfoldable pub change_all : List Change → EvenLoop → EvenLoop
unfolding change
change_all [] s = s
change_all (x ∷ xs) s = change_all xs (change x s)

-- The constructor of a Signaler, which is dispatcher `self`.
unfoldable pub construct_signaler : (self fd : ℕ) → EvenLoop → EvenLoop
unfolding change
construct_signaler self fd s = change (adds self) (record s {
  dispatchers = λ d. if d == self then signaler_dispatcher fd else s.dispatchers d;
  signaler = record { f_signaled_ = false; counter = 0 };
  signal_wakeup_ = self;
})

-- The constructor of EvenLoop, among other dispatchers.
unfoldable pub construct : (others : ℕ → Dispatcher) (self fd : ℕ) → EvenLoop
unfolding construct_signaler
construct others self fd = construct_signaler self fd (record {
  dispatchers = others;
  dispatcher_by_key_ = [];
  current_dispatcher_keys_ = [];
  signal_wakeup_ = 0;
  signaler = record { f_signaled_ = false; counter = 0 };
  f_wait_ = false;
  waiting_ = false;
  calls = [];
})

-- The destructors: the descriptors that they close, `none` if the ABSL_DCHECK fails. `afd_` and `epoll_fd_` may
-- be -1.
unfoldable pub destruct : (afd_ epoll_fd_ : ℤ) → EvenLoop → Option (List ℤ)
unfolding change
destruct afd_ epoll_fd_ s =
    let t = change (removes s.signal_wakeup_) s in
    let closed = if ltb_ℤ (pos 0) afd_ then afd_ ∷ [] else [] in
    let all = if is_forever epoll_fd_ then closed else closed ++ epoll_fd_ ∷ [] in
    elim t.dispatcher_by_key_ [ [] ↦ some all | entry ∷ entries ↦ none ]
