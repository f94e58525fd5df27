-- ===== src/Balancer.antt =====
-- internal/balancer: the four algorithms behind the interface `Algorithm`, and the router.
pub mod Algorithm
pub mod Canary
pub mod RoundRobin
pub mod LeastConn
pub mod Weighted
pub mod Router
mod Examples
