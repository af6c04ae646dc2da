-- ===== src/EvenLoop/Interest/Interface.antt =====
-- epoll_ctl, which is not part of the repository, and what its manual says of it.
use io_base.Base.{ℕ, ◌==◌, ◌≡◌, ◌≢◌, false, Option, none, some}

-- How a call ends: with 0, or with -1 and errno ENOENT or another one.
pub data Ctl : Type 0 where
  done : Ctl
  enoent : Ctl
  another : Ctl

pub record Epoll : Type 1 where
  pub Interest : Type 0
  -- What a descriptor is watched for: events and key.
  pub watched : ℕ → Interest → Option (ℕ × ℕ)
  pub ctl_add : ℕ → ℕ × ℕ → Interest → Interest × Ctl
  pub ctl_mod : ℕ → ℕ × ℕ → Interest → Interest × Ctl
  pub ctl_del : ℕ → Interest → Interest × Ctl
  -- EPOLL_CTL_ADD adds a descriptor that is not watched, EPOLL_CTL_MOD changes one that is, unless they fail, and
  -- MOD says ENOENT exactly of a descriptor that is not watched; after EPOLL_CTL_DEL a descriptor is not watched, if
  -- it ends with 0 or ENOENT; other descriptors stay as they are.
  pub add-watched :
      (fd : ℕ) (e : ℕ × ℕ) (i : Interest)
      → watched fd i ≡ none
      → (ctl_add fd e i).1 ≡ Ctl.done
      → watched fd (ctl_add fd e i).0 ≡ some e
  pub add-other :
      (fd other : ℕ) (e : ℕ × ℕ) (i : Interest)
      → (other == fd) ≡ false
      → watched other (ctl_add fd e i).0 ≡ watched other i
  pub mod-watched :
      (fd : ℕ) (e f : ℕ × ℕ) (i : Interest)
      → watched fd i ≡ some f
      → (ctl_mod fd e i).1 ≡ Ctl.done
      → watched fd (ctl_mod fd e i).0 ≡ some e
  pub mod-present :
      (fd : ℕ) (e f : ℕ × ℕ) (i : Interest)
      → watched fd i ≡ some f
      → (ctl_mod fd e i).1 ≢ Ctl.enoent
  pub mod-absent :
      (fd : ℕ) (e : ℕ × ℕ) (i : Interest) → watched fd i ≡ none → ctl_mod fd e i ≡ (i, Ctl.enoent)
  pub mod-other :
      (fd other : ℕ) (e : ℕ × ℕ) (i : Interest)
      → (other == fd) ≡ false
      → watched other (ctl_mod fd e i).0 ≡ watched other i
  pub del-watched :
      (fd : ℕ) (i : Interest) → (ctl_del fd i).1 ≢ Ctl.another → watched fd (ctl_del fd i).0 ≡ none
  pub del-other :
      (fd other : ℕ) (i : Interest)
      → (other == fd) ≡ false
      → watched other (ctl_del fd i).0 ≡ watched other i

-- The system has the memory and the room that epoll_ctl needs, and the descriptors can be watched: no call fails but
-- EPOLL_CTL_ADD of a descriptor that is watched, and with ENOENT.
pub record NeverFails (k : Epoll) : Type 0 where
  pub adds :
      (fd : ℕ) (e : ℕ × ℕ) (i : k.Interest)
      → k.watched fd i ≡ none
      → (k.ctl_add fd e i).1 ≡ Ctl.done
  pub mods : (fd : ℕ) (e : ℕ × ℕ) (i : k.Interest) → (k.ctl_mod fd e i).1 ≢ Ctl.another
  pub dels : (fd : ℕ) (i : k.Interest) → (k.ctl_del fd i).1 ≢ Ctl.another
