-- ===== src/EventLoopWin/Sockets.antt =====
-- The socket half of EventLoopWin (event_loop_win.cc): registrations, one poll round, callbacks.
-- `registrations_` is a LinkedHashMap, used here by its contract (LinkedHashMap.Contract): the list of
-- its entries in the order of insertion. A Registration has the identity of its shared_ptr, which no
-- other ever gets; a weak_ptr is this identity, and locks while an entry still owns it. Winsock's
-- answers (whether WSAEventSelect succeeded, what WSAEnumNetworkEvents reported) are arguments, and
-- the masks that the code hands to WSAEventSelect are kept in `selected`, the latest first.
mod Defs
pub mod Poll
mod Entries
pub mod Round
pub mod Results
pub mod Winsock
pub mod Register
pub mod Dispatch
mod Tests
unfoldable pub use Defs.*
