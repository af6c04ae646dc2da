-- ===== src/CriticalSection/Native/Checks.antt =====
-- The checks of Enter, TryEnter and Leave: that none of them fails.
use io_base.CriticalSection.Native.Mutexes.{Mutexes}
