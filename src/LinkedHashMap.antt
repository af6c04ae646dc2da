-- ===== src/LinkedHashMap.antt =====
-- linked_hash_map.h: the insertion-ordered map. `list_` is a std::list whose nodes have an identity
-- (a number that is never used twice), so that an iterator stays good while other nodes come and go;
-- `map_` is the hash table from a key to the node that holds it. An iterator is `some` node, or
-- `none` for end(). `none` as the result of an operation is a failed ABSL_CHECK, or a read through an
-- iterator that points to no node.
mod Defs
mod Nodes
pub mod Invariant
pub mod Entries
pub mod Contract
pub mod Access
pub mod Range
mod Tests
unfoldable pub use Defs.*
