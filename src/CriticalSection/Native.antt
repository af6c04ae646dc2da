-- ===== src/CriticalSection/Native.antt =====
-- RecursiveCriticalSection (recursive_critical_section.h, recursive_critical_section.cc), the implementation
-- on a recursive mutex of pthreads, built with BASE_DCHECK_IS_ON.
pub mod Mutexes
mod Defs
mod Sound
mod Steps
pub mod Checks
mod Tests
unfoldable pub use Defs.*
