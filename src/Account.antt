-- ===== src/Account.antt =====
-- The account service (services/account-service/src) and its cache of accounts in Redis
-- (shared/src/cache/accountCache.js).
pub mod Users
pub mod Redis
pub mod Cache
pub mod Service
pub mod Coherent
pub mod Reads
pub mod Changes
pub mod Invalidate
pub mod Create
pub mod Histories
pub mod Stale
pub mod Listing
mod Tests
