-- ===== src/Lb.antt =====
-- The load balancer: include/loadbalancer and src/loadbalancer.
pub mod UpstreamPool
pub mod Proxy
pub mod HealthChecker
pub mod Descriptors
pub mod Handler
pub mod Options
