-- ===== src/FlatHashMap.antt =====
-- What linked_hash_map.h relies on of absl::flat_hash_map, which is not part of the repository: a
-- table of keys with its documented behaviour, taken as a parameter. `set` is a write through the
-- entry of a key, which makes the entry if there is none. `Assoc` shows that it can be met.
mod Assoc
mod Interface
pub use Interface.*
unfoldable pub use Assoc.{assoc}
