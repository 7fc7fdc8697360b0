-- ===== src/Limiter.antt =====
-- Package internal/limiter.
pub mod Types
pub mod Bucket
pub mod Redis
