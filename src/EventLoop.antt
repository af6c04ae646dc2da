-- ===== src/EventLoop.antt =====
-- EventLoop (event_loop.h, event_loop.cc) on TaskQueueBase (task_queue_base.h): posting tasks, running
-- them, blocking calls, Begin and Quit. A functor is a number; what a functor does to the loop when it
-- is called is a parameter. WakeUp is the implementation's: here it sets `woken`, as
-- EventLoopWin::WakeUp sets wakeup_ev_.
mod Defs
pub mod TaskQueue
pub mod Rounds
pub mod Wakeups
pub mod Delayed
pub mod Timeouts
mod Tests
pub mod Blocking
pub mod Results
unfoldable pub use Defs.*
