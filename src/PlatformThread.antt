-- ===== src/PlatformThread.antt =====
-- SetCurrentThreadName (platform_thread_types.cc) on Windows: the copy of the name into wide characters.
mod Defs
pub mod Names
mod Tests
unfoldable pub use Defs.*
