-- ===== src/Payment/Outcome.antt =====
-- The outcome of a whole `processTransfer`.
use vault_core.Prelude.{
  Option-cases, ℕ, String, ◌≡◌, refl, sym, ap, ◌∙◌, inl, inr, false, none, some, List, [], ◌∷◌,
  arith,
}
use vault_core.Result.{Result, ok, err, Result-cases}
use vault_core.Table.{Table}
use vault_core.Lock.Redis.{Redis}
use vault_core.Lock.Service.{LockError, Lock, Service, get_idempotency_record}
use vault_core.Lock.Acquire.{acquire_account_locks, run_locked, with_account_locks}
use vault_core.Ledger.Model.{Account, failed, Transaction, Tables, Db}
use vault_core.Ledger.Reads.{find_by_key}
use vault_core.Ledger.Posting.{TransferRequest, Receipt, create_transaction}
use vault_core.Payment.Client.{record_double_entry}
use vault_core.Payment.Transfer.{
  UserContext, Response, PaymentEvent, AuditLog, database_failed, CallEnv, Books, check_transfer,
  update_transaction, pending_row, Settled, refused_or, finalize_successful_transaction,
  mark_transaction_failed, close_transfer, post_pending, remember_reply, transfer_locked,
  process_transfer,
}
use vault_core.Payment.Complete.{
  transaction_row, update_transaction-row, IsCarriedOut, post_pending-IsCarriedOut,
}

module _ (R : Redis Response) (T : Tables) (P : Table PaymentEvent) (A : Table AuditLog) where
  pub run_locked-ok :
      {E B : Type 0} (callback : Service R → Result E B × Service R)
      (q : Result LockError (List Lock) × Service R) (y : B)
      → (run_locked R callback q).0 ≡ ok y
      → (s : Service R) × ((callback s).0 ≡ ok y)
  run_locked-ok callback (err e, s) y h = absurd (ground arith)
  run_locked-ok callback (ok locks, s) y h = elim (Result-cases (callback s).0) [
    | inl (x, e) ↦ (s, ground arith)
    | inr (x, e) ↦ absurd (ground arith)
  ]

  pub remember_reply-same :
      (key : ℕ) (q : Settled R T P A) (s : Service R) → (remember_reply R T P A key q s).0 ≡ q
  remember_reply-same key (err e) s = refl
  remember_reply-same key (ok reply) s = refl

  transfer_locked-IsCarriedOut :
      (env : CallEnv) (user : UserContext) (req : TransferRequest) (b b' : Books T P A)
      (reply : Response) (s : Service R)
      → (transfer_locked R T P A env user req b s).0 ≡ ok (reply, b')
      → reply.is_idempotent ≡ false
      → IsCarriedOut R T P A env user req b b' reply
  unfolding transfer_locked
  transfer_locked-IsCarriedOut env user req b b' reply s h new =
      elim (Option-cases (find_by_key T req.idempotency_key b.db)) [
        | inr (found, x) ↦ absurd (ground arith)
        | inl x ↦
            let settled =
              post_pending R T P A env user req b (check_transfer R T P A user req b.db) in
            let step : (transfer_locked R T P A env user req b s).0 ≡ settled =
              rw (x, transfer_locked) (remember_reply-same req.idempotency_key settled s) in
            post_pending-IsCarriedOut R T P A env user req b b' reply (sym step ∙ h)
      ]

  -- A transfer whose reply is no repetition was carried out: the checks passed, the PENDING transaction
  -- was created, the ledger client returned a receipt, and the transaction is now COMPLETED, with one
  -- outbox event and one audit log of it more than before; the reply names that transaction.
  pub process_transfer-IsCarriedOut :
      (env : CallEnv) (user : UserContext) (req : TransferRequest) (b b' : Books T P A)
      (reply : Response) (s : Service R)
      → (process_transfer R T P A env user req b s).0 ≡ ok (reply, b')
      → reply.is_idempotent ≡ false
      → IsCarriedOut R T P A env user req b b' reply
  unfolding process_transfer with_account_locks
  process_transfer-IsCarriedOut env user req b b' reply s h new =
      elim (Option-cases (get_idempotency_record R req.idempotency_key s).0) [
        | inr (cached, x) ↦ absurd (ground arith)
        | inl x ↦
            let s' = (get_idempotency_record R req.idempotency_key s).1 in
            let accounts = some req.source_account_number ∷ some req.target_account_number ∷ [] in
            let step : (process_transfer R T P A env user req b s).0
                ≡ (with_account_locks R env.lock_env 10000 accounts
                    (transfer_locked R T P A env user req b) s').0 =
              rw (x, process_transfer) refl in
            let (t, y) =
              run_locked-ok (transfer_locked R T P A env user req b)
                (acquire_account_locks R env.lock_env 10000 accounts s') (reply, b')
                (sym step ∙ h) in
            transfer_locked-IsCarriedOut env user req b b' reply t y new
      ]

  update_transaction-some :
      (id : ℕ) (change : Transaction → Transaction) (db : Db T) (t : Transaction)
      → transaction_row R T P A id db ≡ some t
      → update_transaction R T P A id change db
        ≡ some (record db { transactions = T.transactions.update db.transactions id (change t) })
  unfolding update_transaction
  update_transaction-some id change db t h =
      let found = T.transactions.find_unique_lem db.transactions id ∙ h in
      rw (found, update_transaction) refl

  finalize_refused :
      (env : CallEnv) (user : UserContext) (req : TransferRequest) (id : ℕ) (b : Books T P A)
      (message : String)
      → env.finalize_error ≡ some message
      → finalize_successful_transaction R T P A env user req id b ≡ err message
  unfolding finalize_successful_transaction
  finalize_refused env user req id b message e = ground (arith, e)

  failed_close :
      (env : CallEnv) (user : UserContext) (req : TransferRequest) (id : ℕ) (b : Books T P A)
      (db : Db T) (receipt : Receipt) (message : String)
      → env.finalize_error ≡ some message
      → env.mark_failed_error ≡ none
      → update_transaction R T P A id
          (λ u. record u {
            status = failed;
            failure_reason = some (env.message_of (database_failed message));
          })
          b.db
        ≡ some db
      → close_transfer R T P A env user req id b (ok receipt)
        ≡ err (database_failed message, record b { db = db })
  unfolding close_transfer mark_transaction_failed
  failed_close env user req id b db receipt message e n u =
      let not_updated = finalize_refused env user req id b message e in
      let change : Transaction → Transaction = λ x. record x {
        status = failed;
        failure_reason = some (env.message_of (database_failed message));
      } in
      let marked =
        ap (λ m. refused_or R T P A m (update_transaction R T P A id change b.db)) n ∙ u in
      rw (not_updated, close_transfer) (ap err (rw (marked, mark_transaction_failed) refl))

  -- Where the closing writes of a carried out transfer fail, its transaction is still there and the
  -- write that marks it does not fail, the transaction is marked FAILED although the ledger has posted
  -- it: the call throws, and the accounts and the entries stay as the ledger left them.
  pub posted_but_failed :
      (env : CallEnv) (user : UserContext) (req : TransferRequest) (b : Books T P A)
      (accounts : (ℕ × Account) × (ℕ × Account)) (id : ℕ) (prepared posted : Db T)
      (receipt : Receipt) (t : Transaction) (message : String)
      → check_transfer R T P A user req b.db ≡ ok accounts
      → create_transaction T (pending_row R T P A env req accounts.0.0 accounts.1.0) b.db
        ≡ ok (id, prepared)
      → record_double_entry T
          (record req { reference_id = some env.reference_id })
          env.network
          prepared
        ≡ (ok receipt, posted)
      → transaction_row R T P A id posted ≡ some t
      → env.finalize_error ≡ some message
      → env.mark_failed_error ≡ none
      → (b' : Books T P A) × (post_pending R T P A env user req b
            (check_transfer R T P A user req b.db)
          ≡ err (database_failed message, b'))
        × (b'.db.accounts ≡ posted.accounts)
        × (b'.db.entries ≡ posted.entries)
        × ((t' : Transaction) × (transaction_row R T P A id b'.db ≡ some t') × (t'.status ≡ failed))
  unfolding post_pending close_transfer finalize_successful_transaction mark_transaction_failed
  posted_but_failed env user req b accounts id prepared posted receipt t message c p l f e n =
      let change : Transaction → Transaction = λ u. record u {
        status = failed;
        failure_reason = some (env.message_of (database_failed message));
      } in
      let b' : Books T P A = record b {
        db = record posted {
          transactions = T.transactions.update posted.transactions id (change t);
        };
      } in
      let updated : update_transaction R T P A id change posted ≡ some b'.db =
        update_transaction-some id change posted t f in
      let (u, here, new, same_accounts, same_entries) =
        update_transaction-row R T P A id change posted b'.db updated in
      (
        b',
        ap (post_pending R T P A env user req b) c
            ∙ rw (p, l, post_pending)
                (failed_close env user req id (record b { db = posted }) b'.db receipt message e n
                  updated),
        refl,
        refl,
        (change u, new, refl),
      )
