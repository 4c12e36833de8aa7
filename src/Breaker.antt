-- ===== src/Breaker.antt =====
-- The circuit breaker of shared/src/resilience/circuitBreaker.js: class `CircuitBreaker`, method by
-- method. A clock reading (`Date.now()`, `new Date()`) is the argument `now`, in milliseconds; the
-- readings of one synchronous stretch of code are one value. The text of a transition's reason is
-- kept as its template (`Reason`). Log lines are left out.
pub mod Config
pub mod State
pub mod Execute
pub mod Admin
pub mod Counters
pub mod History
pub mod Steps
pub mod Spec
pub mod Runs
pub mod Registry
mod Tests
