-- ===== src/Cache.antt =====
-- The package internal/wait0/cache: entries, the cache in memory, the cache on disk.
pub mod Entry
pub mod Lru
pub mod Ram
pub mod Disk
