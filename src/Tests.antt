-- ===== src/Tests.antt =====
-- Tests of the definitions at concrete values, and the theorems at inputs that meet their conditions.
mod Memory
mod Worker
mod Colliding
mod Bucket
mod Retry
mod Proxy
mod Llm
mod Handler
mod Redis
mod RedisQueue
mod Config
mod Server
mod Waiting
mod Tracking
mod Stopping
mod Logger
