-- ===== src/Event.antt =====
-- Event (event.h, event.cc), the implementation on pthreads: an event that threads wait for, that
-- resets itself when a waiter has seen it unless it is manual. A wait is run on a list of wake-ups: for
-- each return of pthread_cond_wait or pthread_cond_timedwait its error code, and what other threads did
-- to the event while the mutex was released. `none` is a wait that is still waiting when the list ends.
mod Defs
pub mod Deadlines
pub mod Waits
pub mod Exclusive
pub mod Windows
mod Tests
unfoldable pub use Defs.*
