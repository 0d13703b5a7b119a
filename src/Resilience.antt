-- ===== src/Resilience.antt =====
-- Guards of a provider call: circuit breaker, concurrency and rate limits, budget, errors, retries.
pub mod CircuitBreaker
pub mod ConcurrencyLimiter
pub mod RateLimiter
pub mod Budget
pub mod ProviderError
pub mod RetryPolicy
pub mod Execute
pub mod Fallback
