-- ===== src/Lock.antt =====
-- shared/src/lock/lockService.js: class `LockService`, the account locks and the first layer of
-- idempotency, both kept in Redis.
pub mod Redis
pub mod Order
pub mod Service
pub mod Release
pub mod Acquire
pub mod Hold
mod Tests
