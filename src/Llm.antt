-- ===== src/Llm.antt =====
-- internal/llm/provider.go.
pub mod Types
pub mod Json
pub mod Tokens
pub mod Retry
pub mod Provider
pub mod Service
