-- ===== src/Limiter/Redis.antt =====
-- internal/limiter/redis_limiter.go: the limiter that keeps its buckets in Redis. The server is an
-- argument: a store of numbers under keys, with an expiry in seconds.
pub mod Scripts
pub mod Keys
pub mod Reserve
pub mod Refinement
pub mod Reserving
pub mod Isolation
pub mod Notified
