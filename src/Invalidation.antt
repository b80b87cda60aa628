-- ===== src/Invalidation.antt =====
-- internal/wait0/invalidation: the endpoint that deletes cached responses by path and by tag.
pub mod Normalize
pub mod Handle
pub mod Cached
pub mod Jobs
