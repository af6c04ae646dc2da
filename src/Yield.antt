-- ===== src/Yield.antt =====
-- yield_policy.cc: the yield policy of a thread, set and restored by ScopedYieldPolicy. A policy is a
-- number, or `none` for a null pointer; its YieldExecution is a call that is kept.
mod Defs
pub mod Scopes
mod Tests
unfoldable pub use Defs.*
