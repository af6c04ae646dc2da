-- ===== src/EvenLoop/Windows.antt =====
-- Wait on Windows, where sockets share one event and the Signaler has its own.
mod Defs
pub mod Flags
pub mod Removed
mod Tests
unfoldable pub use Defs.*
