-- ===== src/EvenLoop.antt =====
-- EvenLoop (event_loop_temp.h, event_loop_temp.cc): a server that waits for descriptors by select, poll,
-- epoll or Winsock events, and tells their dispatchers. A dispatcher is a number.
mod Defs
mod Waits
pub mod Interest
pub mod Windows
pub mod Told
pub mod Construct
pub mod Unheard
mod Samples
mod Tests
mod WaitTests
unfoldable pub use Defs.*
unfoldable pub use Waits.*
