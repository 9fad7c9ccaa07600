-- ===== src/Retry.antt =====
-- state-sync-engine/internal/retry: exponential backoff, the retry loop and the circuit breaker.
pub mod Backoff
pub mod Loop
pub mod Breaker
