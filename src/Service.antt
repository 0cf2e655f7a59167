-- ===== src/Service.antt =====
-- The parts of agentkit that every agent's HTTP service has: its metrics and its rate limit.
pub mod Limits
pub mod Metrics
pub mod RateLimit
pub mod RedisBucket
pub mod Boot
mod Tests
