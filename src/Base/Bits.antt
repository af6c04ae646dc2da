-- ===== src/Base/Bits.antt =====
-- The bitwise operators of C on natural numbers, and the laws that masks need at every width.
mod Step
mod Laws
mod Bytes
mod Conditions
pub use Laws.*
pub use Bytes.*
pub use Conditions.*
