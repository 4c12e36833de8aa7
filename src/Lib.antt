-- ===== src/Lib.antt =====
-- VaultCore is a banking platform of Node.js services over PostgreSQL, Redis and RabbitMQ. A transfer
-- enters at the payment service, which takes the locks of both accounts (Redis), creates a PENDING
-- transaction, and calls the ledger service behind a circuit breaker; the ledger posts both sides in
-- one database transaction with optimistic locking; the payment service completes the transaction and
-- writes an outbox event; a worker publishes the outbox to RabbitMQ, and the notification service and
-- the gateway consume it. This library models the parts below from their source and proves what makes
-- them correct.
--
-- Conventions. A function that may throw returns a `Result` (Result.antt). Money is a natural number
-- of the smallest unit: the code computes it in JavaScript numbers, whose rounding is not modelled. A
-- time is in milliseconds. Ids, account numbers and keys, which the code only compares and sorts, are
-- natural numbers. Log lines are left out.
-- PostgreSQL is the record `Table` (Table.antt), Redis the record `Lock.Redis`: an abstract state, the
-- queries or commands that the source sends, and their documented effect as laws. Table/Lists.antt and
-- Lock/Tests.antt have instances that meet the laws. What other processes commit between two steps of
-- a call is an argument of the ledger's postings, or a step of a relation. The payment service's calls
-- (`process_transfer`, `process_deposit`, `process_withdrawal`) are modelled without it: no other
-- process commits between their steps, the postings of the ledger included, and the lock, which the
-- code lets expire after ten seconds, outlives them.
--
-- Prelude, Result, Table: shared names, tests on numbers, exceptions, tables as rows keyed by id.
--
-- Breaker: shared/src/resilience/circuitBreaker.js. Config has the options, `isFailure` and the errors;
--   State the fields of `CircuitBreaker` and `_transitionTo` (`transition_to`); Execute has `execute`,
--   cut where the action is awaited into `begin` and `settle`, so that calls may interleave; Admin has
--   `reset`, `forceState` and `getStatus`; Registry the `CircuitBreakerRegistry`. Counters and History
--   hold lemmas on the statistics and the transitions, Steps the step relation and its invariants,
--   Spec an abstract breaker, Runs sequences of calls.
--
-- Ledger: services/ledger-service/src/repositories/ledgerRepository.js and services/ledgerService.js.
--   Model has the rows of prisma/schema.prisma and the errors, Reads the queries and checks, Requests
--   what the postings take and return, Posting `executeDoubleEntryTransfer`, `executeDeposit` and
--   `executeWithdrawal`, each as reads and checks (`plan_…`), writes (`post_…`), and `finish`, which is
--   `prisma.$transaction`; Service has `getAccountLedgerHistory`. Updates and Versions hold lemmas on
--   the writes, Atomic, Cash, Rollback and Reconcile prove the postings, Retry what a repeated call
--   does.
--
-- Paging: the cursor scheme of `getAccountLedgerEntries`, `getPaginatedTransactions`
--   (services/payment-service/src/repositories/paymentRepository.js) and the notifications
--   (services/notification-service/src/repositories/notificationRepository.js).
--
-- Lock: shared/src/lock/lockService.js. Order is the sorting of the accounts, Service has
--   `acquireLock`, `releaseLock` and the idempotency records, Acquire has `acquireAccountLocks`,
--   `releaseAccountLocks` and `withAccountLocks`; Release and Hold prove them.
--
-- Outbox: services/payment-service/src/services/outboxWorker.js and the updates of
--   services/payment-service/src/repositories/outboxRepository.js. Model has the rows and the worker's
--   state, Worker `calculateBackoffMs`, `processBatch` (`process_batch`), `start`, the timer's tick and
--   `stop`; Delivery and Turns follow one row through its turn, Batch through a batch, Runs through
--   many.
--
-- Payment: services/payment-service. Client has `recordDoubleEntry` (src/clients/ledgerClient.js), the
--   attempts at one posting, of which each calls the model in Ledger; Network what they amount to.
--   Transfer has `processTransfer` of services/payment-service/src/services/paymentService.js with the
--   writes of repositories/paymentRepository.js, composed from Lock, Client and Ledger; Complete and
--   Outcome follow the books to its end, Settle the locks. CashClient has `recordDeposit` and
--   `recordWithdrawal`, Cash `processDeposit` and `processWithdrawal` with `recordOperationOutbox`,
--   which CashOutcome and CashRetry follow. Queries has `getPaymentByReference` and the where clause of
--   the searches, Summary `getFinancialSummary`, SummaryTotals its sums.
--
-- RateLimit: shared/src/rate-limit/rateLimiterService.js. Window has the Lua script (`sliding_window`),
--   `checkRateLimit` and `reset`; Bound compares it with a log of the accepted requests.
--
-- Notify: services/notification-service/src. Message has the messages, `resolveRecipient` and
--   `formatMessage` (services/notificationService.js), Broker RabbitMQ as a parameter with the bindings
--   of `setupTopology`, Audit the records (repositories/notificationRepository.js), Consumer the handler
--   of `consumeQueue`, `retryMessage`, `sendToDLQ` and `processIncomingEvent`
--   (services/notificationConsumer.js). Outcome follows one handling, Drain many, Channels one event on
--   both queues.
--
-- Account: Users has the users and their queries, Redis DB1 as a parameter, Cache
--   shared/src/cache/accountCache.js, Service `createAccount`, `getAccountDetails` and
--   `getAccountBalance` of services/account-service/src/services/accountService.js over the tables of
--   Ledger. Coherent says when the cache agrees with the database, Reads compares the reads with the
--   database alone, Changes and Invalidate follow a posting, Create the new accounts, Histories
--   sequences of all of these, Stale the reads that race with a posting, and Listing the pages of
--   `getUserAccounts`.
--
-- Auth: services/auth-service/src. Tokens has jsonwebtoken, bcrypt and Redis DB3 as parameters,
--   Service `signup`, `login`, `refreshToken`, `logout` and `getProfile` (services/authService.js,
--   utils/token.js, utils/tokenStore.js). Sessions and Logout follow a session, Entry a new user, Login
--   a login.
--
-- Gateway: Events has `handleLiveEvent` of services/gateway/src/services/gatewayEventConsumer.js with
--   `broadcastSSEEvent` and the event stream of services/gateway/src/app.js. Window follows the ids
--   that are remembered, Resume a browser that comes back. Proxy has `createMicroserviceProxy`
--   (middleware/proxyFactory.js), which ProxySpec compares with the abstract breaker of Breaker.
--
-- No definition uses fuel: every loop is structural recursion, on a list or on the attempts left. A
-- property with hypotheses has a test beside it that meets them (the Tests modules).
--
-- Not modelled: the search of customers, the connections of the notification consumer
-- and of the gateway to the broker, the gateway's checks of tokens and rates; and the frontend, the
-- wiring of Express, logging and metrics, and deployment, which have little logic of their own.
pub mod Account
pub mod Auth
pub mod Breaker
pub mod Gateway
pub mod Ledger
pub mod Lock
pub mod Notify
pub mod Outbox
pub mod Paging
pub mod Payment
pub mod Prelude
pub mod RateLimit
pub mod Result
pub mod Table
