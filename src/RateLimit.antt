-- ===== src/RateLimit.antt =====
-- Rate limits: server/rate_limit.py.
pub mod Database
pub mod Window
pub mod Memory
pub mod Counted
pub mod Examples
