-- ===== src/Middleware.antt =====
-- internal/middleware: what wraps a request on its way to a backend.
pub mod Chain
pub mod Retry
pub mod Auth
pub mod Breaker
pub mod Timeout
pub mod Cors
pub mod Headers
pub mod AccessLog
pub mod RateLimit
pub mod Builder
mod Examples
