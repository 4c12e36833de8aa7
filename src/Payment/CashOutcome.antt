-- ===== src/Payment/CashOutcome.antt =====
-- How `processDeposit` and `processWithdrawal` end.
use mathlib.Core.Path.{subst}
use vault_core.Prelude.{
  ◌+◌, String, Bool-cases, Option-cases, ℕ, ◌≤◌, ◌≡◌, refl, sym, ap, ◌∙◌, ◌⊎◌, inl, inr, true,
  false, Option, none, some, [], ◌∷◌, arith,
}
use vault_core.Result.{Result, ok, err, Result-cases}
use vault_core.Table.{Table}
use vault_core.Lock.Redis.{Redis}
use vault_core.Lock.Service.{Service, get_idempotency_record}
use vault_core.Lock.Acquire.{acquire_account_locks, with_account_locks}
use vault_core.Ledger.Model.{Account, debit, Tables, Db}
use vault_core.Ledger.Cash.{CashDone, withdrawal-CashDone}
use vault_core.Ledger.Rollback.{withdrawal_is_new}
use vault_core.Ledger.Retry.{KeepsVersions-refl}
use vault_core.Ledger.Reads.{find_account, find_by_key}
use vault_core.Ledger.Posting.{CashRequest, Receipt, execute_withdrawal}
use vault_core.Ledger.Service.{is_staff}
use vault_core.Payment.Client.{Delivery, replied, reply_lost, not_delivered}
use vault_core.Payment.CashClient.{CashFailure, post_once, record_withdrawal}
use vault_core.Payment.Transfer.{UserContext, Response, PaymentEvent, AuditLog, PaymentError, Books}
use vault_core.Payment.Cash.{
  CashEnv, check_withdrawal, record_operation_outbox, cash_response, close_cash, post_checked,
  cash_locked, under_account_lock, process_withdrawal,
}
use vault_core.Payment.Outcome.{run_locked-ok, remember_reply-same}

module _ (R : Redis Response) (T : Tables) (P : Table PaymentEvent) (A : Table AuditLog) where
  abbrev pub Post : Type 0
  Post = CashRequest → Delivery → Db T → Result CashFailure Receipt × Db T

  -- What the ledger is asked to post.
  abbrev pub with_reference : CashEnv → CashRequest → CashRequest
  with_reference env req = record req { reference_id = some env.reference_id }

  -- The outbox event and the audit log were both written, or their write failed and neither was.
  pub data Recorded (env : CashEnv) (req : CashRequest) (id : ℕ) (a : Account) (b b' : Books T P A)
      : Type 0 where
    both_written :
        (i j : ℕ)
        → P.rows b'.outbox
          ≡ (
            i,
            record { transaction_id = id; reference_id = env.reference_id; amount = req.amount },
          )
            ∷ P.rows b.outbox
        → A.rows b'.audit_logs
          ≡ (j, record { user_id = a.user_id; entity_id = id; amount = req.amount })
            ∷ A.rows b.audit_logs
        → Recorded env req id a b b'
    neither_written :
        (message : String)
        → env.outbox_error ≡ some message
        → b'.outbox ≡ b.outbox
        → b'.audit_logs ≡ b.audit_logs
        → Recorded env req id a b b'

  record_operation_outbox-Recorded :
      (env : CashEnv) (req : CashRequest) (id : ℕ) (a : Account) (b : Books T P A) (db : Db T)
      → Recorded env req id a b
          (record_operation_outbox R T P A env req id a (record b { db = db }))
  unfolding record_operation_outbox
  record_operation_outbox-Recorded env req id a b db =
      let event : PaymentEvent = record {
        transaction_id = id;
        reference_id = env.reference_id;
        amount = req.amount;
      } in
      let log : AuditLog = record { user_id = a.user_id; entity_id = id; amount = req.amount } in
      elim (Option-cases env.outbox_error) [
        | inr (m, x) ↦
            neither_written m x (rw (x, record_operation_outbox) refl)
              (rw (x, record_operation_outbox) refl)
        | inl x ↦
            both_written (P.create b.outbox event).0 (A.create b.audit_logs log).0
              (rw (x, record_operation_outbox) (P.rows-create b.outbox event))
              (rw (x, record_operation_outbox) (A.rows-create b.audit_logs log))
      ]

  record_operation_outbox-db :
      (env : CashEnv) (req : CashRequest) (id : ℕ) (a : Account) (b : Books T P A)
      → (record_operation_outbox R T P A env req id a b).db ≡ b.db
  unfolding record_operation_outbox
  record_operation_outbox-db env req id a b = ground arith

  -- A new reply stands on an account that passed the checks and a receipt of the ledger.
  pub record IsPosted (post : Post) (checked : Result PaymentError (ℕ × Account)) (env : CashEnv)
      (req : CashRequest) (b b' : Books T P A) (reply : Response) : Type 0 where
    pub account : ℕ × Account
    pub checks : checked ≡ ok account
    pub receipt : Receipt
    pub after : Db T
    pub posted : post (with_reference env req) env.delivery b.db ≡ (ok receipt, after)
    pub replied_with : reply ≡ cash_response R T P A env req receipt.transaction_id
    pub kept_db : b'.db ≡ after
    pub recorded : Recorded env req receipt.transaction_id account.1 b b'
    pub key_was_free : find_by_key T req.idempotency_key b.db ≡ none

  close_cash-IsPosted :
      (post : Post) (env : CashEnv) (req : CashRequest) (a : ℕ × Account) (b b' : Books T P A)
      (reply : Response) (q : Result CashFailure Receipt × Db T)
      → post (with_reference env req) env.delivery b.db ≡ q
      → find_by_key T req.idempotency_key b.db ≡ none
      → close_cash R T P A env req a.1 b q ≡ ok (reply, b')
      → IsPosted post (ok a) env req b b' reply
  close_cash-IsPosted post env req a b b' reply (err e, db) p free h = absurd (ground arith)
  close_cash-IsPosted post env req a b b' reply (ok receipt, db) p free h =
      let id = receipt.transaction_id in
      let same : record_operation_outbox R T P A env req id a.1 (record b { db = db }) ≡ b' =
        ground arith in
      record {
        account = a;
        checks = refl;
        receipt = receipt;
        after = db;
        posted = p;
        replied_with = ground arith;
        kept_db =
            sym (ap (λ (x : Books T P A). x.db) same)
            ∙ record_operation_outbox-db env req id a.1 (record b { db = db });
        recorded =
            subst (Recorded env req id a.1 b) same
              (record_operation_outbox-Recorded env req id a.1 b db);
        key_was_free = free;
      }

  post_checked-IsPosted :
      (post : Post) (checked : Result PaymentError (ℕ × Account)) (env : CashEnv)
      (req : CashRequest) (b b' : Books T P A) (reply : Response)
      → find_by_key T req.idempotency_key b.db ≡ none
      → post_checked R T P A post env req b checked ≡ ok (reply, b')
      → IsPosted post checked env req b b' reply
  post_checked-IsPosted post (err e) env req b b' reply free h = absurd (ground arith)
  post_checked-IsPosted post (ok a) env req b b' reply free h =
      close_cash-IsPosted post env req a b b' reply _ refl free h

  cash_locked-IsPosted :
      (post : Post) (checked : Result PaymentError (ℕ × Account)) (env : CashEnv)
      (req : CashRequest) (b b' : Books T P A) (reply : Response) (s : Service R)
      → (cash_locked R T P A post checked env req b s).0 ≡ ok (reply, b')
      → reply.is_idempotent ≡ false
      → IsPosted post checked env req b b' reply
  unfolding cash_locked
  cash_locked-IsPosted post checked env req b b' reply s h new =
      elim (Option-cases (find_by_key T req.idempotency_key b.db)) [
        | inr (found, x) ↦ absurd (ground arith)
        | inl x ↦
            let step : (cash_locked R T P A post checked env req b s).0
                ≡ post_checked R T P A post env req b checked =
              rw (x, cash_locked)
                (remember_reply-same R T P A req.idempotency_key
                  (post_checked R T P A post env req b checked) s) in
            post_checked-IsPosted post checked env req b b' reply x (sym step ∙ h)
      ]

  under_account_lock-IsPosted :
      (post : Post) (checked : Result PaymentError (ℕ × Account)) (env : CashEnv)
      (req : CashRequest) (b b' : Books T P A) (reply : Response) (q : Option Response × Service R)
      → (under_account_lock R T P A env req b (cash_locked R T P A post checked env req b) q).0
        ≡ ok (reply, b')
      → reply.is_idempotent ≡ false
      → IsPosted post checked env req b b' reply
  unfolding with_account_locks
  under_account_lock-IsPosted post checked env req b b' reply (some cached, s) h new =
      absurd (ground arith)
  under_account_lock-IsPosted post checked env req b b' reply (none, s) h new =
      let (t, y) =
        run_locked-ok R T P A (cash_locked R T P A post checked env req b)
          (acquire_account_locks R env.lock_env 10000 (some req.account_number ∷ []) s) (reply, b')
          h in
      cash_locked-IsPosted post checked env req b b' reply t y new

  record_withdrawal-paid :
      (req : CashRequest) (d : Delivery) (db db' : Db T) (r : Receipt)
      → record_withdrawal T req d db ≡ (ok r, db')
      → execute_withdrawal T req (λ x. x) db ≡ (ok r, db')
  unfolding record_withdrawal post_once
  record_withdrawal-paid req replied db db' r h =
      elim (Result-cases (execute_withdrawal T req (λ x. x) db).0) [
        | inl (y, e) ↦ ground arith
        | inr (y, e) ↦ absurd (ground arith)
      ]
  record_withdrawal-paid req (reply_lost message) db db' r h = absurd (ground arith)
  record_withdrawal-paid req (not_delivered message) db db' r h = absurd (ground arith)

  check_withdrawal-allowed :
      (user : UserContext) (req : CashRequest) (db : Db T) (a : ℕ × Account)
      → check_withdrawal R T P A user req db ≡ ok a
      → (find_account T req.account_number db ≡ some a)
        × ((a.1.user_id ≡ user.user_id) ⊎ (is_staff user.role ≡ true))
        × (req.amount ≤ a.1.balance)
  unfolding check_withdrawal
  check_withdrawal-allowed user req db a h =
      elim (Option-cases (find_account T req.account_number db)) [
        | inl gone ↦ absurd (ground arith)
        | inr (f, x) ↦
            let same : f ≡ a = ground arith in
            (
              x ∙ ap some same,
              elim (Bool-cases (is_staff user.role)) [
                | inl staff ↦ inr staff
                | inr other ↦ inl (ground arith)
              ],
              ground arith,
            )
      ]

  -- A withdrawal that was paid out: by the ledger, as its own theorem describes it.
  pub record IsPaidOut (env : CashEnv) (user : UserContext) (req : CashRequest) (b b' : Books T P A)
      (reply : Response) : Type 0 where
    pub account : ℕ × Account
    pub found : find_account T req.account_number b.db ≡ some account
    pub may : (account.1.user_id ≡ user.user_id) ⊎ (is_staff user.role ≡ true)
    pub covers : req.amount ≤ account.1.balance
    pub receipt : Receipt
    pub not_repeated : receipt.is_idempotent ≡ false
    pub posted : execute_withdrawal T (with_reference env req) (λ x. x) b.db ≡ (ok receipt, b'.db)
    pub done : CashDone T (with_reference env req) debit receipt b.db b.db b'.db
    pub lowered : done.new_balance + req.amount ≡ done.account_row.balance
    pub replied_with : reply ≡ cash_response R T P A env req receipt.transaction_id
    pub recorded : Recorded env req receipt.transaction_id account.1 b b'

  -- Where no other process commits between its steps, a withdrawal whose reply is no repetition was
  -- paid out once: the account was found by its number, it belongs to the caller or the caller is
  -- staff, its balance covered the amount, and the ledger carried out the withdrawal under the new
  -- reference, no duplicate: it lowered the balance by exactly the amount, changed no other account and
  -- added one DEBIT entry. The reply names the transaction of the ledger's receipt; and one outbox
  -- event and one audit log of it were added, or their write failed and neither was.
  pub process_withdrawal-IsPosted :
      (env : CashEnv) (user : UserContext) (req : CashRequest) (b b' : Books T P A)
      (reply : Response) (s : Service R)
      → (process_withdrawal R T P A env user req b s).0 ≡ ok (reply, b')
      → reply.is_idempotent ≡ false
      → IsPaidOut env user req b b' reply
  unfolding process_withdrawal
  process_withdrawal-IsPosted env user req b b' reply s h new =
      let q =
        under_account_lock-IsPosted (record_withdrawal T) (check_withdrawal R T P A user req b.db)
          env req b b' reply (get_idempotency_record R req.idempotency_key s) h new in
      let (found, may, covers) = check_withdrawal-allowed user req b.db q.account q.checks in
      let paid =
        record_withdrawal-paid (with_reference env req) env.delivery b.db q.after q.receipt q.posted
        ∙ ap (λ d. (ok q.receipt, d)) (sym q.kept_db) in
      let once =
        withdrawal_is_new T (with_reference env req) b.db b'.db q.receipt q.key_was_free paid in
      let (done, lowered) =
        withdrawal-CashDone T (with_reference env req) (λ x. x) b.db b'.db q.receipt
          (KeepsVersions-refl T b.db) paid once in
      record {
        account = q.account;
        found = found;
        may = may;
        covers = covers;
        receipt = q.receipt;
        not_repeated = once;
        posted = paid;
        done = done;
        lowered = lowered;
        replied_with = q.replied_with;
        recorded = q.recorded;
      }
