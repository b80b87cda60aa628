-- ===== src/Stats.antt =====
-- internal/wait0/stats: what is counted of the traffic and of the caches.
pub mod Collector
pub mod Service
pub mod Api
