-- ===== src/EventLoopWin.antt =====
-- event_loop_win.h and event_loop_win.cc: the event loop over Winsock.
pub mod Masks
pub mod Sockets
pub mod Timers
pub mod Once
mod Tests
