-- ===== src/EvenLoop/Waits.antt =====
-- The waits of EvenLoop on POSIX: a loop of rounds, each of which asks the system which descriptors are
-- ready, tells their dispatchers, and works out the time that is left.
mod Loop
mod Defs
mod Select
mod Tells
pub mod Keeps
pub mod Signals
pub mod Removed
mod Ends
pub mod Returns
pub mod Wakeups
pub mod Lasting
pub mod Timeouts
pub mod Timevals
pub mod Wait
unfoldable pub use Loop.*
unfoldable pub use Select.*
unfoldable pub use Defs.*
