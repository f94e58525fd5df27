-- ===== src/Health.antt =====
-- internal/health: the per-server circuit breaker.
pub mod Breaker
pub mod Monitor
