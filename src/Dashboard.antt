-- ===== src/Dashboard.antt =====
-- internal/wait0/dashboard: the page for operators.
pub mod Limiter
pub mod Client
pub mod Csrf
pub mod Handle
