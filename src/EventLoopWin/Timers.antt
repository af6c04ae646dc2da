-- ===== src/EventLoopWin/Timers.antt =====
-- The timers of EventLoopWin (event_loop_win.cc): DelayedTaskInfo, the priority queue, MultimediaTimer.
mod Defs
pub mod Queue
pub mod Due
pub mod Rounds
pub mod Armed
mod Tests
unfoldable pub use Defs.*
