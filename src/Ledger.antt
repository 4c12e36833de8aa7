-- ===== src/Ledger.antt =====
-- services/ledger-service/src/repositories/ledgerRepository.js: the three postings of class
-- `LedgerRepository`, each one PostgreSQL transaction. Amounts are whole cents, the columns being
-- `Decimal(18, 2)`; ids, keys and the fixed-length account numbers are only compared and are
-- numbers here. `createdAt` and `updatedAt` are left out.
pub mod Model
pub mod Reads
pub mod Requests
pub mod Posting
pub mod Service
pub mod Updates
pub mod Versions
pub mod Atomic
pub mod Rollback
pub mod Cash
pub mod Reconcile
pub mod Retry
pub mod Keys
pub mod Tests
