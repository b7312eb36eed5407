-- ===== src/Llm.antt =====
-- backend/app/llm: provider routing, the circuit breakers and the structured lane.
pub mod Breaker
pub mod Gate
pub mod Registry
pub mod Store
pub mod Router
pub mod Structured
pub mod Providers
pub mod Fixtures
pub mod JsonText
pub mod Dialects
pub mod Cipher
