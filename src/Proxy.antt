-- ===== src/Proxy.antt =====
-- internal/proxy/reverse_proxy.go: messages and modifiers in `Message`, `Forward` and its metrics in
-- `Forward`, the search for a number of tokens in `Tokens`, and the handlers in `Handler`.
pub mod Message
pub mod Tokens
pub mod Forward
pub mod Handler
