-- ===== src/Store.antt =====
-- The storage engine: src/kvstore.
pub mod HashTable
pub mod Lru
pub mod KvStore
