-- ===== src/BTreeMap.antt =====
-- `BTreeMap<K, V>` over keys that are ordered as numbers (32-byte addresses and digests, read
-- big-endian): the entries in the order in which the source iterates over them.
mod Defs
pub mod Laws
pub mod Canonical
unfoldable pub use Defs.*
