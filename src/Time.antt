-- ===== src/Time.antt =====
-- time_utils.h and time_utils.cc: readings of clocks in several units, and differences. What the clock
-- says, in nanoseconds, is an argument.
mod Defs
pub mod Units
pub mod Deadlines
mod Tests
unfoldable pub use Defs.*
