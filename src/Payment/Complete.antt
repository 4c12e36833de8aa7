-- ===== src/Payment/Complete.antt =====
-- What stands in the books when a transfer is closed.
use vault_core.Prelude.{
  Option-cases, ℕ, ◌≡◌, refl, sym, ap, ◌∙◌, inl, inr, Option, some, ◌∷◌, arith,
}
use vault_core.Result.{Result, ok, err, Result-cases}
use vault_core.Table.{Table}
use vault_core.Table.Rows.{lookup, lookup-replace}
use vault_core.Lock.Redis.{Redis}
use vault_core.Ledger.Model.{Account, completed, Transaction, Tables, Db}
use vault_core.Ledger.Posting.{TransferRequest, Receipt, create_transaction}
use vault_core.Payment.Client.{ClientError, record_double_entry}
use vault_core.Payment.Transfer.{
  UserContext, Response, PaymentEvent, AuditLog, CallEnv, Books, check_transfer, update_transaction,
  pending_row, completed_response, finalize_successful_transaction, close_transfer, post_pending,
}

module _ (R : Redis Response) (T : Tables) (P : Table PaymentEvent) (A : Table AuditLog) where
  abbrev pub transaction_row : ℕ → Db T → Option Transaction
  transaction_row id db = lookup id (T.transactions.rows db.transactions)

  pub update_transaction-row :
      (id : ℕ) (change : Transaction → Transaction) (db db' : Db T)
      → update_transaction R T P A id change db ≡ some db'
      → (t : Transaction) × (transaction_row id db ≡ some t)
        × (transaction_row id db' ≡ some (change t))
        × (db'.accounts ≡ db.accounts)
        × (db'.entries ≡ db.entries)
  unfolding update_transaction
  update_transaction-row id change db db' h =
      elim (Option-cases (T.transactions.find_unique db.transactions id)) [
        | inl x ↦ absurd (ground arith)
        | inr (t, x) ↦
            let here : transaction_row id db ≡ some t =
              sym (T.transactions.find_unique_lem db.transactions id) ∙ x in
            (
              t,
              here,
              ground (
                arith,
                T.transactions.rows-update db.transactions id (change t),
                lookup-replace id id (change t) t (T.transactions.rows db.transactions) here,
              ),
              ground arith,
              ground arith,
            )
      ]

  -- The books after `finalizeSuccessfulTransaction`.
  pub record IsFinalized (env : CallEnv) (user : UserContext) (req : TransferRequest) (id : ℕ)
      (b b' : Books T P A) : Type 0 where
    pub status_completed :
        (t : Transaction) × (transaction_row id b'.db ≡ some t) × (t.status ≡ completed)
    pub one_event :
        (i : ℕ) × (P.rows b'.outbox
          ≡ (
            i,
            record { transaction_id = id; reference_id = env.reference_id; amount = req.amount },
          )
            ∷ P.rows b.outbox)
    pub one_audit_log :
        (i : ℕ) × (A.rows b'.audit_logs
          ≡ (i, record { user_id = user.user_id; entity_id = id; amount = req.amount })
            ∷ A.rows b.audit_logs)

  finalize-IsFinalized :
      (env : CallEnv) (user : UserContext) (req : TransferRequest) (id : ℕ) (b b' : Books T P A)
      → finalize_successful_transaction R T P A env user req id b ≡ ok b'
      → IsFinalized env user req id b b'
  unfolding finalize_successful_transaction
  finalize-IsFinalized env user req id b b' h =
      let event : PaymentEvent = record {
        transaction_id = id;
        reference_id = env.reference_id;
        amount = req.amount;
      } in
      let log : AuditLog = record { user_id = user.user_id; entity_id = id; amount = req.amount } in
      elim (Option-cases env.finalize_error) [
        | inr (m, x) ↦ absurd (ground arith)
        | inl x ↦
            elim (Option-cases
              (update_transaction R T P A id (λ t. record t { status = completed }) b.db)) [
                | inl y ↦ absurd (ground arith)
                | inr (db, y) ↦
                    let (t, old, new, same_accounts, same_entries) =
                      update_transaction-row id (λ t. record t { status = completed }) b.db db y in
                    record {
                      status_completed =
                          (record t { status = completed }, ground (arith, new), refl);
                      one_event = (
                        (P.create b.outbox event).0,
                        ground (arith, P.rows-create b.outbox event),
                      );
                      one_audit_log = (
                        (A.create b.audit_logs log).0,
                        ground (arith, A.rows-create b.audit_logs log),
                      );
                    }
              ]
      ]

  -- A transfer that was carried out: the PENDING transaction was created, the ledger answered with a
  -- receipt, and the closing writes were made.
  pub record IsCarriedOut (env : CallEnv) (user : UserContext) (req : TransferRequest)
      (b b' : Books T P A) (reply : Response) : Type 0 where
    pub id : ℕ
    pub prepared : Db T
    pub receipt : Receipt
    pub posted : Db T
    pub checked :
        (accounts : (ℕ × Account) × (ℕ × Account)) × (check_transfer R T P A user req b.db
          ≡ ok accounts)
        × (create_transaction T (pending_row R T P A env req accounts.0.0 accounts.1.0) b.db
            ≡ ok (id, prepared))
    pub ledger :
        record_double_entry T
          (record req { reference_id = some env.reference_id })
          env.network
          prepared
        ≡ (ok receipt, posted)
    pub finalized : IsFinalized env user req id (record b { db = posted }) b'
    pub answered : reply ≡ completed_response R T P A env req id

  close_transfer-ok :
      (env : CallEnv) (user : UserContext) (req : TransferRequest) (id : ℕ) (b b' : Books T P A)
      (r : Result ClientError Receipt) (reply : Response)
      → close_transfer R T P A env user req id b r ≡ ok (reply, b')
      → (receipt : Receipt) × (r ≡ ok receipt)
        × IsFinalized env user req id b b'
        × (reply ≡ completed_response R T P A env req id)
  unfolding close_transfer
  close_transfer-ok env user req id b b' (err e) reply h = absurd (ground arith)
  close_transfer-ok env user req id b b' (ok receipt) reply h =
      elim (Result-cases (finalize_successful_transaction R T P A env user req id b)) [
        | inr (m, x) ↦ absurd (ground arith)
        | inl (b₁, x) ↦
            let same : b₁ ≡ b' = ground arith in
            (
              receipt,
              refl,
              finalize-IsFinalized env user req id b b' (x ∙ ap ok same),
              ground arith,
            )
      ]

  created_transfer :
      (env : CallEnv) (user : UserContext) (req : TransferRequest) (b b' : Books T P A)
      (reply : Response) (s t : ℕ × Account)
      → check_transfer R T P A user req b.db ≡ ok (s, t)
      → post_pending R T P A env user req b (ok (s, t)) ≡ ok (reply, b')
      → IsCarriedOut env user req b b' reply
  unfolding post_pending
  created_transfer env user req b b' reply s t c h =
      elim (Result-cases (create_transaction T (pending_row R T P A env req s.0 t.0) b.db)) [
        | inr (e, x) ↦ absurd (ground arith)
        | inl ((id, prepared), x) ↦
            let request : TransferRequest = record req { reference_id = some env.reference_id } in
            let posted = (record_double_entry T request env.network prepared).1 in
            let answer = (record_double_entry T request env.network prepared).0 in
            let step : post_pending R T P A env user req b (ok (s, t))
                ≡ close_transfer R T P A env user req id (record b { db = posted }) answer =
              rw (x, post_pending) refl in
            let closed = sym step ∙ h in
            let (receipt, y, f, a) =
              close_transfer-ok env user req id (record b { db = posted }) b' answer reply closed in
            record {
              id = id;
              prepared = prepared;
              receipt = receipt;
              posted = posted;
              checked = ((s, t), c, x);
              ledger = ap (λ r. (r, posted)) y;
              finalized = f;
              answered = a;
            }
      ]

  pub post_pending-IsCarriedOut :
      (env : CallEnv) (user : UserContext) (req : TransferRequest) (b b' : Books T P A)
      (reply : Response)
      → post_pending R T P A env user req b (check_transfer R T P A user req b.db) ≡ ok (reply, b')
      → IsCarriedOut env user req b b' reply
  unfolding post_pending
  post_pending-IsCarriedOut env user req b b' reply h =
      elim (Result-cases (check_transfer R T P A user req b.db)) [
        | inr (e, x) ↦ absurd (ground arith)
        | inl ((s, t), x) ↦
            created_transfer env user req b b' reply s t x
              (sym (ap (post_pending R T P A env user req b) x) ∙ h)
      ]
