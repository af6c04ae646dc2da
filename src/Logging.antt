-- ===== src/Logging.antt =====
-- logging.h and logging.cc: InitializeLog, DeInitializeLog and what a BasicLogSink is sent.
pub mod Sinks
mod Defs
mod Calls
mod Again
pub mod Sessions
mod Tests
unfoldable pub use Defs.*
