-- ===== src/Ledger/Retry.antt =====
-- A second posting with the same key, where the first is COMPLETED and where it is PENDING.
use vault_core.Ledger.Rollback.{post_transfer_new}
use vault_core.Prelude.{
  ◌==◌, if◌then◌else◌, ℕ, ◌+◌, ◌-◌, ◌*◌, ◌≤◌, ◌≡◌, refl, ◌≢◌, inl, inr, true, false, not, ◌&&◌,
  none, some, [], arith,
}
use vault_core.Result.{Result, ok, err, Result-cases}
use vault_core.Table.Rows.{sum_by, lookup-replace}
use vault_core.Ledger.Model.{
  active, Account, pending, completed, Transaction, LedgerEntry, target, LedgerError,
  version_conflict, Tables, Db,
}
use vault_core.Ledger.Reads.{
  find_account, find_by_key, has_entries, is_duplicate, require_active, require_funds,
}
use vault_core.Ledger.Posting.{
  TransferRequest, CashRequest, Receipt, TransferPlan, Prepared, duplicate, planned,
  unless_duplicate, plan_transfer, update_balance, post_transfer, finish,
  execute_double_entry_transfer, execute_deposit, execute_withdrawal,
}
use vault_core.Ledger.Updates.{account_rows, entry_rows, rewritten, find_account-found}
use vault_core.Ledger.Versions.{KeepsVersions}
use vault_core.Ledger.Atomic.{transfer-TransferDone}
use vault_core.Ledger.Reconcile.{is_credit}

-- What the DEBIT entries of one transaction take in all.
abbrev pub charged : ℕ → LedgerEntry → ℕ
charged id e = if e.transaction_id == id && not (is_credit e.entry_type) then e.amount else 0

module _ (T : Tables) where
  abbrev pub receipt_of_duplicate : ℕ → Receipt
  receipt_of_duplicate id = record { transaction_id = id; entry_ids = []; is_idempotent = true }

  -- Where a COMPLETED transaction with entries has the key, every posting with that key returns it as a
  -- duplicate and changes nothing, whatever else the request says and whatever others commit.
  pub completed_is_duplicate :
      (req : TransferRequest) (cash : CashRequest) (others : Db T → Db T) (db : Db T)
      {t : ℕ × Transaction}
      → find_by_key T req.idempotency_key db ≡ some t
      → cash.idempotency_key ≡ req.idempotency_key
      → t.1.status ≡ completed
      → has_entries T t.0 db ≡ true
      → (execute_double_entry_transfer T req others db ≡ (ok (receipt_of_duplicate t.0), db))
        × (execute_deposit T cash others db ≡ (ok (receipt_of_duplicate t.0), db))
        × (execute_withdrawal T cash others db ≡ (ok (receipt_of_duplicate t.0), db))
  unfolding execute_double_entry_transfer execute_deposit execute_withdrawal unless_duplicate
      is_duplicate
  completed_is_duplicate req cash others db {t} f k c h =
      let g : find_by_key T cash.idempotency_key db ≡ some t = rw k f in
      (ground arith, ground arith, ground arith)

  -- A transfer from an account to itself that passes every check meets its own new version at the
  -- second update: it is a conflict on the target, and nothing remains of it.
  pub self_transfer_conflicts :
      (req : TransferRequest) (db : Db T) (id : ℕ) (a : Account)
      → req.target_account_number ≡ req.source_account_number
      → find_by_key T req.idempotency_key db ≡ none
      → find_account T req.source_account_number db ≡ some (id, a)
      → a.status ≡ active
      → req.amount ≤ a.balance
      → execute_double_entry_transfer T req (λ d. d) db
        ≡ (err (version_conflict target req.source_account_number), db)
  unfolding execute_double_entry_transfer unless_duplicate plan_transfer require_active
      require_funds post_transfer update_balance
  self_transfer_conflicts req db id a same key found works covered =
      let p = find_account-found T req.source_account_number id a db found in
      let b = rewritten T a (a.balance - req.amount) in
      rw same (
        ground (
          arith,
          p,
          T.accounts.find_unique_lem db.accounts id,
          T.accounts.find_unique_lem (T.accounts.update db.accounts id b) id,
          T.accounts.rows-update db.accounts id b,
          lookup-replace id id b a (account_rows T db),
        ))

  pub KeepsVersions-refl : (db : Db T) → KeepsVersions T db db
  KeepsVersions-refl db = record { guarded = λ id a b p q v. cc }

  -- The checks do not take a PENDING transaction for a duplicate.
  pending-ne-duplicate :
      {P : Type 0} (t : ℕ × Transaction) (db : Db T) (rest : Result LedgerError P) (id : ℕ)
      → t.1.status ≡ pending
      → unless_duplicate T (some t) db rest ≢ ok (duplicate id)
  unfolding unless_duplicate is_duplicate
  pending-ne-duplicate t db (ok p) id s h = ground arith
  pending-ne-duplicate t db (err e) id s h = ground arith

  finish_is_new :
      (req : TransferRequest) (db db' : Db T) (r : Receipt)
      (q : Result LedgerError (Prepared TransferPlan))
      → ((id : ℕ) → q ≢ ok (duplicate id))
      → finish T (post_transfer T req) (λ d. d) db q ≡ (ok r, db')
      → r.is_idempotent ≡ false
  unfolding finish
  finish_is_new req db db' r (err e) ne h = absurd (ground arith)
  finish_is_new req db db' r (ok (duplicate id)) ne h = absurd (ne id refl)
  finish_is_new req db db' r (ok (planned p)) ne h =
      elim (Result-cases (post_transfer T req p db)) [
        | inr (e, x) ↦ absurd (ground arith)
        | inl ((y, d), x) ↦ ground (arith, post_transfer_new T req p db y d x)
      ]

  pending_is_new :
      (req : TransferRequest) (db db' : Db T) (r : Receipt) (t : ℕ × Transaction)
      → find_by_key T req.idempotency_key db ≡ some t
      → t.1.status ≡ pending
      → execute_double_entry_transfer T req (λ d. d) db ≡ (ok r, db')
      → r.is_idempotent ≡ false
  unfolding execute_double_entry_transfer
  pending_is_new req db db' r t f s h =
      finish_is_new req db db' r _
        (λ id. rw f (pending-ne-duplicate t db (plan_transfer T req db) id s)) h

  -- One posting with a PENDING transaction charges it once more, and leaves it PENDING.
  pending_charges :
      (req : TransferRequest) (db db' : Db T) (r : Receipt) (t : ℕ × Transaction)
      → find_by_key T req.idempotency_key db ≡ some t
      → t.1.status ≡ pending
      → execute_double_entry_transfer T req (λ d. d) db ≡ (ok r, db')
      → (sum_by (charged t.0) (entry_rows T db')
          ≡ req.amount + sum_by (charged t.0) (entry_rows T db))
        × (find_by_key T req.idempotency_key db' ≡ some t)
  unfolding sum_by find_by_key
  pending_charges req db db' r t f s h =
      let done =
        transfer-TransferDone T req (λ d. d) db db' r (KeepsVersions-refl db) h
          (pending_is_new req db db' r t f s h) in
      elim done.transaction [
        | inl (u, g, i, same) ↦ (rw done.entries (ground (arith, i, g, f)), rw same f)
        | inr (g, fresh, rest) ↦ absurd (cc (f, g))
      ]

  -- The ledger leaves the transaction of a transfer PENDING, so its duplicate check does not see a
  -- repeated call: where the key has a PENDING transaction, two successful calls with one request
  -- charge that transaction twice the amount.
  pub retry_charges_twice :
      (req : TransferRequest) (db db₁ db₂ : Db T) (r₁ r₂ : Receipt) (t : ℕ × Transaction)
      → find_by_key T req.idempotency_key db ≡ some t
      → t.1.status ≡ pending
      → execute_double_entry_transfer T req (λ d. d) db ≡ (ok r₁, db₁)
      → execute_double_entry_transfer T req (λ d. d) db₁ ≡ (ok r₂, db₂)
      → sum_by (charged t.0) (entry_rows T db₂)
        ≡ 2 * req.amount + sum_by (charged t.0) (entry_rows T db)
  retry_charges_twice req db db₁ db₂ r₁ r₂ t f s h k =
      let a = pending_charges req db db₁ r₁ t f s h in
      let b = pending_charges req db₁ db₂ r₂ t a.1 s k in omega (arith, a.0, b.0)
