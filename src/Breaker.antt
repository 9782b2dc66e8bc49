-- ===== src/Breaker.antt =====
-- The circuit breakers: the asynchronous one round the copilot's adapters
-- (backend/ai_copilot/adapters/circuit_breaker.py) and the one round uploads
-- (backend/instagram_runtime/circuit_breaker.py).
pub mod Calls
pub mod Upload
