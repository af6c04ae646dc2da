-- ===== src/EventLoopWin/Masks.antt =====
-- The event masks of event_loop.h and their translation to and from poll masks in event_loop_win.cc.
-- POLLIN, POLLOUT, POLLERR and POLLHUP are winsock2.h's: a parameter. What the code relies on is that
-- they are masks that are not zero and share no bit.
mod Defs
mod Laws
mod Unions
unfoldable pub use Defs.*
pub use Laws.*
pub use Unions.*
