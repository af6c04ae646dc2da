-- ===== src/EvenLoop/Interest.antt =====
-- The descriptors that epoll watches: AddEpoll, RemoveEpoll, UpdateEpoll. The kernel's interest list is an
-- interface: what it holds for a descriptor is its events and its key.
mod Interface
mod Defs
pub mod Refines
mod Tests
