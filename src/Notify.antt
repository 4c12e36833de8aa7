-- ===== src/Notify.antt =====
-- services/notification-service: the consumer of the notification queues (services/
-- notificationConsumer.js), the texts (services/notificationService.js) and the audit records
-- (repositories/notificationRepository.js).
pub mod Message
pub mod Broker
pub mod Audit
pub mod Consumer
pub mod Outcome
pub mod Drain
pub mod Channels
mod Tests
