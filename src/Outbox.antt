-- ===== src/Outbox.antt =====
-- services/payment-service: services/outboxWorker.js, the worker that publishes the outbox, and the
-- updates of repositories/outboxRepository.js.
pub mod Model
pub mod Worker
pub mod Delivery
pub mod Turns
pub mod Batch
pub mod Runs
mod Tests
