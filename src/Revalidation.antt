-- ===== src/Revalidation.antt =====
-- internal/wait0/revalidation: refreshing cached responses in the background.
pub mod Warmup
pub mod Once
pub mod Keys
