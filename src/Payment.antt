-- ===== src/Payment.antt =====
-- services/payment-service: clients/ledgerClient.js, the client of the ledger, and the orchestration
-- of services/paymentService.js.
pub mod Client
pub mod CashClient
pub mod Network
pub mod Transfer
pub mod Cash
pub mod CashOutcome
pub mod CashRetry
pub mod Queries
pub mod Summary
pub mod SummaryTotals
mod CashTests
mod QueryTests
pub mod Settle
pub mod Complete
pub mod Outcome
mod TransferTests
mod Tests
