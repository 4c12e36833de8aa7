-- ===== src/Payment/Transfer.antt =====
-- `PaymentService.processTransfer` (services/payment-service/src/services/paymentService.js) with the
-- writes of repositories/paymentRepository.js. The invalidation of the account cache and the live
-- event, whose errors are swallowed, change nothing that is modelled; the circuit breaker around the
-- ledger client is closed; the re-read of the transaction for the reply is left out. No other process
-- commits between the steps of a call, and its lock does not expire while it runs.
use vault_core.Prelude.{
  ltb, ◌==◌, is_some, ℕ, ◌+◌, String, Bool, true, false, not, ◌&&◌, Option, none, some, [], ◌∷◌,
}
use vault_core.Result.{Result, ok, err, ◌>>=◌, ◌>>◌, or_throw, throw_if}
use vault_core.Table.{Table}
use vault_core.Lock.Redis.{Redis}
use vault_core.Lock.Service.{Env, Service, get_idempotency_record, set_idempotency_record}
use vault_core.Lock.Acquire.{CallError, with_account_locks}
use vault_core.Ledger.Model.{
  AccountStatus, Account, TransactionStatus, pending, completed, failed, transfer, Transaction,
  Role, source, target, Tables, Db,
}
use vault_core.Ledger.Reads.{is_active, find_account, find_by_key}
use vault_core.Ledger.Posting.{TransferRequest, currency_or_usd, Receipt, create_transaction}
use vault_core.Ledger.Service.{UserRole, is_staff}
use vault_core.Payment.Client.{Delivery, ClientError, record_double_entry}
use vault_core.Payment.CashClient.{CashFailure}

pub record UserContext : Type 0 where
  pub user_id : ℕ
  pub role : UserRole

-- The reply, which Redis keeps under the idempotency key.
pub record Response : Type 0 where
  pub transaction_id : ℕ
  pub reference_id : Option ℕ
  pub status : TransactionStatus
  pub amount : ℕ
  pub currency : String
  pub is_idempotent : Bool

-- The rows that a completed transfer leaves beside its transaction.
pub record PaymentEvent : Type 0 where
  pub transaction_id : ℕ
  pub reference_id : ℕ
  pub amount : ℕ

pub record AuditLog : Type 0 where
  pub user_id : ℕ
  pub entity_id : ℕ
  pub amount : ℕ

pub data PaymentError : Type 0 where
  not_found : Role → ℕ → PaymentError
  access_denied : ℕ → PaymentError
  account_inactive : Role → ℕ → AccountStatus → PaymentError
  not_covered : ℕ → ℕ → PaymentError
  ledger_failed : ClientError → PaymentError
  cash_failed : CashFailure → PaymentError
  database_failed : String → PaymentError

-- One call's surroundings: the lock ids, the new reference id, the network to the ledger, and the
-- errors of the two closing writes.
pub record CallEnv : Type 0 where
  pub lock_env : Env
  pub reference_id : ℕ
  pub network : ℕ → Delivery
  pub finalize_error : Option String
  pub mark_failed_error : Option String
  -- `error.message`
  pub message_of : PaymentError → String

pub record Books (T : Tables) (P : Table PaymentEvent) (A : Table AuditLog) : Type 0 where
  pub db : Db T
  pub outbox : P.State
  pub audit_logs : A.State

module _ (R : Redis Response) (T : Tables) (P : Table PaymentEvent) (A : Table AuditLog) where
  -- The checks 4 to 6, in the source's order.
  unfoldable pub check_transfer :
      UserContext → TransferRequest → Db T → Result PaymentError ((ℕ × Account) × (ℕ × Account))
  check_transfer user req db = do
    s ←
        or_throw (find_account T req.source_account_number db)
          (not_found source req.source_account_number)
    throw_if (not (s.1.user_id == user.user_id) && not (is_staff user.role))
        (access_denied req.source_account_number)
    throw_if (not (is_active s.1.status))
        (account_inactive source req.source_account_number s.1.status)
    t ←
        or_throw (find_account T req.target_account_number db)
          (not_found target req.target_account_number)
    throw_if (not (is_active t.1.status))
        (account_inactive target req.target_account_number t.1.status)
    throw_if (ltb s.1.balance req.amount) (not_covered req.source_account_number s.1.balance)
    ok (s, t)

  -- `transaction.update({ where: { id }, data })`, which throws where the row is gone.
  unfoldable pub update_transaction : ℕ → (Transaction → Transaction) → Db T → Option (Db T)
  update_transaction id change db = elim (T.transactions.find_unique db.transactions id) [
    | none ↦ none
    | some t ↦
        some (record db { transactions = T.transactions.update db.transactions id (change t) })
  ]

  abbrev pub pending_row : CallEnv → TransferRequest → ℕ → ℕ → Transaction
  pending_row env req from to = record {
    idempotency_key = req.idempotency_key;
    reference_id = some env.reference_id;
    source_account_id = some from;
    target_account_id = some to;
    amount = req.amount;
    currency = currency_or_usd req.currency;
    category = transfer;
    status = pending;
    description = req.description;
    failure_reason = none;
  }

  abbrev pub count_postgres_hit : Service R → Service R
  count_postgres_hit s = record s {
    metrics = record s.metrics {
      idempotency_hits_postgres = s.metrics.idempotency_hits_postgres + 1;
    };
  }

  -- What a second request with the key of this transaction gets.
  abbrev pub existing_response : ℕ × Transaction → Response
  existing_response (id, t) = record {
    transaction_id = id;
    reference_id = t.reference_id;
    status = t.status;
    amount = t.amount;
    currency = t.currency;
    is_idempotent = true;
  }

  abbrev pub completed_response : CallEnv → TransferRequest → ℕ → Response
  completed_response env req id = record {
    transaction_id = id;
    reference_id = some env.reference_id;
    status = completed;
    amount = req.amount;
    currency = currency_or_usd req.currency;
    is_idempotent = false;
  }

  -- A throw with what it leaves in the books, or the reply.
  abbrev pub Settled : Type 0
  Settled = Result (PaymentError × Books T P A) (Response × Books T P A)

  abbrev pub refused_or : Option String → Option (Db T) → Option (Db T)
  refused_or none updated = updated
  refused_or (some message) updated = none

  abbrev error_or : String → Option String → String
  error_or default none = default
  error_or default (some message) = message

  -- `finalizeSuccessfulTransaction`: one database transaction of three writes.
  unfoldable pub finalize_successful_transaction :
      CallEnv → UserContext → TransferRequest → ℕ → Books T P A → Result String (Books T P A)
  unfolding update_transaction
  finalize_successful_transaction env user req id b = do
    throw_if (is_some env.finalize_error) (error_or "" env.finalize_error)
    db ←
        or_throw (update_transaction id (λ t. record t { status = completed }) b.db)
          "Record to update not found"
    ok (record {
      db = db;
      outbox =
          (P.create b.outbox (record {
            transaction_id = id;
            reference_id = env.reference_id;
            amount = req.amount;
          })).1;
      audit_logs =
          (A.create b.audit_logs
            (record { user_id = user.user_id; entity_id = id; amount = req.amount })).1;
    })

  -- The inner `catch`: `markTransactionFailed`, whose own error replaces the one that was caught.
  unfoldable pub mark_transaction_failed :
      CallEnv → ℕ → PaymentError → Books T P A → PaymentError × Books T P A
  unfolding update_transaction
  mark_transaction_failed env id e b =
      elim (refused_or env.mark_failed_error (
        update_transaction id
          (λ t. record t { status = failed; failure_reason = some (env.message_of e) }) b.db)) [
            | none ↦
                (database_failed (error_or "Record to update not found" env.mark_failed_error), b)
            | some db ↦ (e, record b { db = db })
          ]

  -- After the ledger's reply.
  unfoldable pub close_transfer :
      CallEnv
      → UserContext
      → TransferRequest
      → ℕ
      → Books T P A
      → Result ClientError Receipt
      → Settled
  unfolding finalize_successful_transaction mark_transaction_failed
  close_transfer env user req id b (err e) =
      err (mark_transaction_failed env id (ledger_failed e) b)
  close_transfer env user req id b (ok receipt) =
      elim (finalize_successful_transaction env user req id b) [
        | err message ↦ err (mark_transaction_failed env id (database_failed message) b)
        | ok b' ↦ ok (completed_response env req id, b')
      ]

  -- From the PENDING transaction to the end: it is created outside the inner `try`.
  unfoldable pub post_pending :
      CallEnv
      → UserContext
      → TransferRequest
      → Books T P A
      → Result PaymentError ((ℕ × Account) × (ℕ × Account))
      → Settled
  unfolding close_transfer
  post_pending env user req b (err e) = err (e, b)
  post_pending env user req b (ok (s, t)) =
      elim (create_transaction T (pending_row env req s.0 t.0) b.db) [
        | err e ↦ err (database_failed "Unique constraint failed", b)
        | ok created ↦
            let (receipt, db) =
              record_double_entry T (record req { reference_id = some env.reference_id })
                env.network created.1 in
            close_transfer env user req created.0 (record b { db = db }) receipt
      ]

  -- `setIdempotencyRecord` where there is a reply, with the default of one day.
  abbrev pub remember_reply : ℕ → Settled → Service R → Settled × Service R
  remember_reply key (err e) s = (err e, s)
  remember_reply key (ok reply) s = (ok reply, set_idempotency_record R key reply.0 86400 s)

  -- The body under the locks.
  unfoldable pub transfer_locked :
      CallEnv → UserContext → TransferRequest → Books T P A → Service R → Settled × Service R
  unfolding check_transfer post_pending
  transfer_locked env user req b s = elim (find_by_key T req.idempotency_key b.db) [
    | some found ↦
        remember_reply req.idempotency_key (ok (existing_response found, b)) (count_postgres_hit s)
    | none ↦
        remember_reply req.idempotency_key
          (post_pending env user req b (check_transfer user req b.db)) s
  ]

  unfoldable pub process_transfer :
      CallEnv
      → UserContext
      → TransferRequest
      → Books T P A
      → Service R
      → Result (CallError (PaymentError × Books T P A)) (Response × Books T P A) × Service R
  unfolding transfer_locked
  process_transfer env user req b s =
      let (cached, s') = get_idempotency_record R req.idempotency_key s in
      elim cached [
        | some reply ↦ (ok (record reply { is_idempotent = true }, b), s')
        | none ↦
            with_account_locks R env.lock_env 10000
              (some req.source_account_number ∷ some req.target_account_number ∷ [])
              (transfer_locked env user req b) s'
      ]
