-- ===== src/Config.antt =====
-- internal/wait0/config.go: the checks of a configuration after it was parsed.
pub mod Matching
pub mod Tokens
pub mod Load
mod Tests
