-- ===== src/Handler.antt =====
-- internal/handler: `LLMRequestHandler` and `DirectLLMRequestHandler`, and the token calculator of
-- cmd/server/main.go.
pub mod Pricing
pub mod Requests
pub mod Serving
