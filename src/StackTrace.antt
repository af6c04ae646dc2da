-- ===== src/StackTrace.antt =====
-- Stack traces (stacktrace.h, stacktrace.cc): a thread interrupts another with a signal, whose handler records
-- the return addresses of the interrupted thread. What the unwinder, sigaction, tgkill, futex and dladdr do is
-- given: the frames for which the unwinder calls back, and which of the system calls fail.
mod Defs
pub mod Captures
mod Tests
unfoldable pub use Defs.*
