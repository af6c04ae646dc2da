-- ===== src/EventLoopWin/Sockets/Entries.antt =====
-- The registration list: what an entry says, and what inserting, updating and erasing keep of it.
use io_base.Base.{ℕ, suc, ◌<◌, ◌≡◌, ◌≢◌, refl, none, some, [], ◌∷◌, ◌++◌, ite, ℕ_discrete, arith}
use io_base.LinkedHashMap.Entries.{lookup_entry, erase_entry}
use io_base.EventLoopWin.Sockets.Defs.{Registration, RegistrationMap, find, update}
use io_base.EventLoopWin.Sockets.Poll.{lock}

-- One entry for each socket and for each Registration, with masks that fit a uint8_t and an identity
-- that was handed out.
abbrev pub WellFormed : ℕ → RegistrationMap → Type 0
WellFormed next [] = Unit
WellFormed next ((fd, r) ∷ es) =
    (r.id < next)
    × (r.events < 256)
    × (r.artificially_notify_at_next_iteration < 256)
    × (lock r.id es ≡ none)
    × (find fd es ≡ none)
    × WellFormed next es

pub WellFormed-suc :
    (next : ℕ) (es : RegistrationMap) → WellFormed next es → WellFormed (suc next) es
WellFormed-suc next [] h = tt
WellFormed-suc next ((fd, r) ∷ es) h = (omega arith, h.1, h.2, h.3, h.4, WellFormed-suc next es h.5)

pub lock_fresh : (next : ℕ) (es : RegistrationMap) → WellFormed next es → lock next es ≡ none
unfolding lock
lock_fresh next [] h = refl
lock_fresh next ((fd, r) ∷ es) h = ground (arith, lock_fresh next es h.5)

pub lock-append :
    (i fd : ℕ) (r : Registration) (es : RegistrationMap)
    → lock i es ≡ none
    → r.id ≢ i
    → lock i (es ++ (fd, r) ∷ []) ≡ none
unfolding lock
lock-append i fd r [] h n = ground arith
lock-append i fd r ((j, q) ∷ es) h n = ground (arith, lock-append i fd r es)

pub find-append :
    (j fd : ℕ) (r : Registration) (es : RegistrationMap)
    → find fd es ≡ none
    → find j (es ++ (fd, r) ∷ []) ≡ ite (ℕ_discrete j fd) (some r) (find j es)
unfolding lookup_entry
find-append j fd r [] h = refl
find-append j fd r ((i, q) ∷ es) h = ground (arith, find-append j fd r es)

pub WellFormed-append :
    (next fd : ℕ) (r : Registration) (es : RegistrationMap)
    → WellFormed next es
    → find fd es ≡ none
    → r.id ≡ next
    → r.events < 256
    → r.artificially_notify_at_next_iteration < 256
    → WellFormed (suc next) (es ++ (fd, r) ∷ [])
unfolding lookup_entry lock
WellFormed-append next fd r [] h n e b c = (omega arith, b, c, refl, refl, tt)
WellFormed-append next fd r ((j, q) ∷ es) h n e b c = (
  omega arith,
  h.1,
  h.2,
  lock-append q.id fd r es h.3 (omega arith),
  ground (arith, find-append j fd r es),
  WellFormed-append next fd r es h.5 (ground arith) e b c,
)

pub erase-append :
    (fd : ℕ) (r : Registration) (es : RegistrationMap)
    → find fd es ≡ none
    → erase_entry ℕ_discrete fd (es ++ (fd, r) ∷ []) ≡ es
unfolding lookup_entry erase_entry
erase-append fd r [] h = ground arith
erase-append fd r ((j, q) ∷ es) h = ground (arith, erase-append fd r es)

pub lock-erase :
    (i fd : ℕ) (es : RegistrationMap)
    → lock i es ≡ none
    → lock i (erase_entry ℕ_discrete fd es) ≡ none
unfolding lock erase_entry
lock-erase i fd [] h = refl
lock-erase i fd ((j, q) ∷ es) h = ground (arith, lock-erase i fd es)

pub find-erase_none :
    (j fd : ℕ) (es : RegistrationMap)
    → find j es ≡ none
    → find j (erase_entry ℕ_discrete fd es) ≡ none
unfolding lookup_entry erase_entry
find-erase_none j fd [] h = refl
find-erase_none j fd ((i, q) ∷ es) h = ground (arith, find-erase_none j fd es)

pub WellFormed-erase :
    (next fd : ℕ) (es : RegistrationMap)
    → WellFormed next es
    → WellFormed next (erase_entry ℕ_discrete fd es)
unfolding erase_entry
WellFormed-erase next fd [] h = tt
WellFormed-erase next fd ((j, q) ∷ es) h =
    ground (
      arith,
      WellFormed-erase next fd es h.5,
      lock-erase q.id fd es h.3,
      find-erase_none j fd es h.4,
    )

-- A registration that is found is alive.
pub lock-find :
    (next fd : ℕ) (r : Registration) (es : RegistrationMap)
    → WellFormed next es
    → find fd es ≡ some r
    → lock r.id es ≡ some r
unfolding lookup_entry lock
lock-find next fd r [] h e = absurd (cc)
lock-find next fd r ((j, q) ∷ es) h e = ground (arith, lock-find next fd r es h.5)

-- The erased Registration is gone: its weak pointers lock no more.
pub lock-erase_self :
    (next fd : ℕ) (r : Registration) (es : RegistrationMap)
    → WellFormed next es
    → find fd es ≡ some r
    → lock r.id (erase_entry ℕ_discrete fd es) ≡ none
unfolding lookup_entry lock erase_entry
lock-erase_self next fd r [] h e = refl
lock-erase_self next fd r ((j, q) ∷ es) h e =
    ground (arith, lock-erase_self next fd r es h.5, lock-find next fd r es h.5)

-- A write to a Registration that keeps its identity.
pub lock-update :
    (i fd : ℕ) (q r : Registration) (es : RegistrationMap)
    → find fd es ≡ some q
    → r.id ≡ q.id
    → lock i es ≡ none
    → lock i (update fd r es) ≡ none
unfolding lookup_entry lock update
lock-update i fd q r [] h e l = refl
lock-update i fd q r ((j, x) ∷ es) h e l = ground (arith, lock-update i fd q r es)

pub find-update-none :
    (j fd : ℕ) (q r : Registration) (es : RegistrationMap)
    → find fd es ≡ some q
    → find j es ≡ none
    → find j (update fd r es) ≡ none
unfolding lookup_entry update
find-update-none j fd q r [] h e = refl
find-update-none j fd q r ((i, x) ∷ es) h e = ground (arith, find-update-none j fd q r es)

pub WellFormed-update :
    (next fd : ℕ) (q r : Registration) (es : RegistrationMap)
    → WellFormed next es
    → find fd es ≡ some q
    → r.id ≡ q.id
    → r.events < 256
    → r.artificially_notify_at_next_iteration < 256
    → WellFormed next (update fd r es)
unfolding lookup_entry update
WellFormed-update next fd q r [] h f e b c = tt
WellFormed-update next fd q r ((j, x) ∷ es) h f e b c = ground (
  arith,
  WellFormed-update next fd q r es h.5,
  lock-update x.id fd q r es,
  find-update-none j fd q r es,
)

pub WellFormed-find :
    (next fd : ℕ) (r : Registration) (es : RegistrationMap)
    → WellFormed next es
    → find fd es ≡ some r
    → (r.id < next) × (r.events < 256) × (r.artificially_notify_at_next_iteration < 256)
unfolding lookup_entry
WellFormed-find next fd r [] h e = absurd (cc)
WellFormed-find next fd r ((j, q) ∷ es) h e = ground (arith, WellFormed-find next fd r es h.5)
