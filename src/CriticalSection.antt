-- ===== src/CriticalSection.antt =====
-- RecursiveCriticalSection (recursive_critical_section.h, recursive_critical_section.cc), the implementation
-- for macOS with a queue counter, an owner and a semaphore. Threads run in steps, each of which makes at most
-- one access to what the threads share that another thread may have changed.
mod Defs
pub mod Invariant
mod Stands
mod Sound
pub mod Exclusive
pub mod Native
mod Tests
unfoldable pub use Defs.*
