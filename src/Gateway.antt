-- ===== src/Gateway.antt =====
-- gateway.py: circuit breakers, budgets, retries and fallback around the model providers.
pub mod Breaker
pub mod Packing
pub mod Failures
pub mod Delays
pub mod Attempts
pub mod Complete
mod Tests
