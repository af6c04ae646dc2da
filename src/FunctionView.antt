-- ===== src/FunctionView.antt =====
-- FunctionView (function_view.h): a reference to a callable with the type erased.
mod Defs
mod Programs
pub mod Refines
pub mod Typed
mod Tests
unfoldable pub use Defs.*
