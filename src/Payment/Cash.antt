-- ===== src/Payment/Cash.antt =====
-- `PaymentService.processDeposit` and `processWithdrawal`, with `recordOperationOutbox` of
-- repositories/paymentRepository.js. The invalidation of the account cache and the live event, whose
-- errors are swallowed, change nothing that is modelled here, and the circuit breaker around the
-- ledger client is closed. No other process commits between the steps of a call, and its lock does not
-- expire while it runs.
use vault_core.Prelude.{ltb, ◌==◌, ℕ, String, true, false, not, ◌&&◌, Option, none, some, [], ◌∷◌}
use vault_core.Result.{Result, ok, err, ◌>>=◌, ◌>>◌, or_throw, throw_if}
use vault_core.Table.{Table}
use vault_core.Lock.Redis.{Redis}
use vault_core.Lock.Service.{Env, Service, get_idempotency_record}
use vault_core.Lock.Acquire.{CallError, with_account_locks}
use vault_core.Ledger.Model.{Account, completed, sole, Tables, Db}
use vault_core.Ledger.Reads.{is_active, find_account, find_by_key}
use vault_core.Ledger.Posting.{CashRequest, currency_or_usd, Receipt}
use vault_core.Ledger.Service.{is_staff}
use vault_core.Payment.Client.{Delivery}
use vault_core.Payment.CashClient.{CashFailure, record_deposit, record_withdrawal}
use vault_core.Payment.Transfer.{
  UserContext, Response, PaymentEvent, AuditLog, PaymentError, not_found, access_denied,
  account_inactive, not_covered, cash_failed, Books, existing_response, Settled, remember_reply,
}

-- One call's surroundings: the lock ids, the new reference id, the network to the ledger, and the
-- error of the outbox write.
pub record CashEnv : Type 0 where
  pub lock_env : Env
  pub reference_id : ℕ
  pub delivery : Delivery
  pub outbox_error : Option String

module _ (R : Redis Response) (T : Tables) (P : Table PaymentEvent) (A : Table AuditLog) where
  unfoldable pub check_deposit : CashRequest → Db T → Result PaymentError (ℕ × Account)
  check_deposit req db = do
    a ← or_throw (find_account T req.account_number db) (not_found sole req.account_number)
    throw_if (not (is_active a.1.status)) (account_inactive sole req.account_number a.1.status)
    ok a

  unfoldable pub check_withdrawal :
      UserContext → CashRequest → Db T → Result PaymentError (ℕ × Account)
  check_withdrawal user req db = do
    a ← or_throw (find_account T req.account_number db) (not_found sole req.account_number)
    throw_if (not (a.1.user_id == user.user_id) && not (is_staff user.role))
        (access_denied req.account_number)
    throw_if (not (is_active a.1.status)) (account_inactive sole req.account_number a.1.status)
    throw_if (ltb a.1.balance req.amount) (not_covered req.account_number a.1.balance)
    ok a

  -- `recordOperationOutbox` in its `try`: one database transaction of two writes, or none of them.
  unfoldable pub record_operation_outbox :
      CashEnv → CashRequest → ℕ → Account → Books T P A → Books T P A
  record_operation_outbox env req id a b = elim env.outbox_error [
    | some message ↦ b
    | none ↦ record b {
      outbox =
          (P.create b.outbox (record {
            transaction_id = id;
            reference_id = env.reference_id;
            amount = req.amount;
          })).1;
      audit_logs =
          (A.create b.audit_logs
            (record { user_id = a.user_id; entity_id = id; amount = req.amount })).1;
    }
  ]

  abbrev pub cash_response : CashEnv → CashRequest → ℕ → Response
  cash_response env req id = record {
    transaction_id = id;
    reference_id = some env.reference_id;
    status = completed;
    amount = req.amount;
    currency = currency_or_usd req.currency;
    is_idempotent = false;
  }

  -- After the ledger's reply.
  abbrev pub close_cash :
      CashEnv
      → CashRequest
      → Account
      → Books T P A
      → Result CashFailure Receipt × Db T
      → Settled R T P A
  close_cash env req a b (err e, db) = err (cash_failed e, record b { db = db })
  close_cash env req a b (ok receipt, db) = ok (
    cash_response env req receipt.transaction_id,
    record_operation_outbox env req receipt.transaction_id a (record b { db = db }),
  )

  -- From the checks to the end, for the client's call `post`.
  abbrev pub post_checked :
      (CashRequest → Delivery → Db T → Result CashFailure Receipt × Db T)
      → CashEnv
      → CashRequest
      → Books T P A
      → Result PaymentError (ℕ × Account)
      → Settled R T P A
  post_checked post env req b (err e) = err (e, b)
  post_checked post env req b (ok (id, a)) =
      close_cash env req a b
        (post (record req { reference_id = some env.reference_id }) env.delivery b.db)

  -- The body under the lock, which both operations share.
  unfoldable pub cash_locked :
      (CashRequest → Delivery → Db T → Result CashFailure Receipt × Db T)
      → Result PaymentError (ℕ × Account)
      → CashEnv
      → CashRequest
      → Books T P A
      → Service R
      → Settled R T P A × Service R
  unfolding record_operation_outbox
  cash_locked post checked env req b s = elim (find_by_key T req.idempotency_key b.db) [
    | some found ↦
        remember_reply R T P A req.idempotency_key (ok (existing_response R T P A found, b)) s
    | none ↦ remember_reply R T P A req.idempotency_key (post_checked post env req b checked) s
  ]

  abbrev pub under_account_lock :
      CashEnv
      → CashRequest
      → Books T P A
      → (Service R → Settled R T P A × Service R)
      → Option Response × Service R
      → Result (CallError (PaymentError × Books T P A)) (Response × Books T P A) × Service R
  under_account_lock env req b body (some reply, s) =
      (ok (record reply { is_idempotent = true }, b), s)
  under_account_lock env req b body (none, s) =
      with_account_locks R env.lock_env 10000 (some req.account_number ∷ []) body s

  unfoldable pub process_deposit :
      CashEnv
      → UserContext
      → CashRequest
      → Books T P A
      → Service R
      → Result (CallError (PaymentError × Books T P A)) (Response × Books T P A) × Service R
  unfolding cash_locked check_deposit record_deposit
  process_deposit env user req b s =
      under_account_lock env req b
        (cash_locked (record_deposit T) (check_deposit req b.db) env req b)
        (get_idempotency_record R req.idempotency_key s)

  unfoldable pub process_withdrawal :
      CashEnv
      → UserContext
      → CashRequest
      → Books T P A
      → Service R
      → Result (CallError (PaymentError × Books T P A)) (Response × Books T P A) × Service R
  unfolding cash_locked check_withdrawal record_withdrawal
  process_withdrawal env user req b s =
      under_account_lock env req b
        (cash_locked (record_withdrawal T) (check_withdrawal user req b.db) env req b)
        (get_idempotency_record R req.idempotency_key s)
