-- ===== src/Ledger/Posting.antt =====
-- `executeDoubleEntryTransfer`, `executeDeposit` and `executeWithdrawal`. A posting reads and checks,
-- then writes. Other transactions may commit between the two: they are the argument `others`. Once
-- both rows are updated PostgreSQL holds their locks, so nothing comes between the writes. A throw
-- rolls the posting's own writes back.
use vault_core.Prelude.{
  ◌==◌, if◌then◌else◌, is_some, ℕ, ◌+◌, ◌-◌, String, Bool, true, false, ◌||◌, Option, none, some,
  [], ◌∷◌,
}
use vault_core.Result.{Result, ok, err, ◌>>=◌, ◌>>◌, or_throw}
use vault_core.Ledger.Model.{
  pending, completed, Category, deposit, withdrawal, transfer, Transaction, EntryType, debit,
  credit, LedgerEntry, source, target, sole, LedgerError, version_conflict, unique_violation,
  Tables, Db,
}
use vault_core.Ledger.Reads.{find_by_key, is_duplicate, require_active, require_funds}
pub use vault_core.Ledger.Requests.{
  TransferRequest, CashRequest, currency_or_usd, description_or, Receipt, TransferPlan, CashPlan,
  Prepared, duplicate, planned,
}

module _ (T : Tables) where
  -- The idempotency check in front of the others.
  unfoldable pub unless_duplicate :
      {P : Type 0}
      → Option (ℕ × Transaction)
      → Db T
      → Result LedgerError P
      → Result LedgerError (Prepared P)
  unless_duplicate none db rest = rest >>= λ p. ok (planned p)
  unless_duplicate (some t) db rest =
      if is_duplicate T t db then ok (duplicate t.0) else (rest >>= λ p. ok (planned p))

  unfoldable pub plan_transfer : TransferRequest → Db T → Result LedgerError TransferPlan
  plan_transfer req db = do
    s ← require_active T source req.source_account_number db
    t ← require_active T target req.target_account_number db
    require_funds T req.amount s.1
    ok (record {
      source_id = s.0;
      source_row = s.1;
      target_id = t.0;
      target_row = t.1;
      existing = find_by_key T req.idempotency_key db;
    })

  -- `account.updateMany({ where: { id, version }, data: { balance, version: { increment: 1 } } })`;
  -- `none` where its `count` is 0.
  unfoldable pub update_balance : ℕ → ℕ → ℕ → Db T → Option (Db T)
  update_balance id version balance db = elim (T.accounts.find_unique db.accounts id) [
    | none ↦ none
    | some a ↦
        if a.version == version
        then some (record db {
          accounts =
              T.accounts.update db.accounts id
                (record a { balance = balance; version = a.version + 1 });
        })
        else none
  ]

  -- Is the `@unique` reference id taken? Absent ones never clash.
  unfoldable pub reference_taken : Option ℕ → Db T → Bool
  reference_taken none db = false
  reference_taken (some r) db = is_some (
      T.transactions.find_first db.transactions
        (λ t. elim t.reference_id [ none ↦ false | some q ↦ q == r ]))

  -- `transaction.create`, which throws where the key or the reference id is taken.
  unfoldable pub create_transaction : Transaction → Db T → Result LedgerError (ℕ × Db T)
  create_transaction t db =
      if is_some (find_by_key T t.idempotency_key db) || reference_taken t.reference_id db
      then err unique_violation
      else let (id, s) = T.transactions.create db.transactions t in
        ok (id, record db { transactions = s })

  -- Reuse the transaction that was found, or create one.
  unfoldable pub reuse_or_create :
      Option (ℕ × Transaction) → Transaction → Db T → Result LedgerError (ℕ × Db T)
  reuse_or_create (some found) t db = ok (found.0, db)
  reuse_or_create none t db = create_transaction t db

  -- `ledgerEntry.create`
  unfoldable pub create_entry : LedgerEntry → Db T → ℕ × Db T
  create_entry e db = let (id, s) = T.entries.create db.entries e in (id, record db { entries = s })

  -- The transaction that a transfer creates, where the payment service has not.
  abbrev pub transfer_row : TransferRequest → TransferPlan → Transaction
  transfer_row req p = record {
    idempotency_key = req.idempotency_key;
    reference_id = req.reference_id;
    source_account_id = some p.source_id;
    target_account_id = some p.target_id;
    amount = req.amount;
    currency = currency_or_usd req.currency;
    category = transfer;
    status = pending;
    description = req.description;
    failure_reason = none;
  }

  -- The DEBIT and the CREDIT entry.
  unfoldable pub post_entries : TransferRequest → TransferPlan → ℕ × Db T → Receipt × Db T
  unfolding create_entry
  post_entries req p (id, db) =
      let (d, db₁) =
        create_entry
          (record {
            transaction_id = id;
            account_id = p.source_id;
            entry_type = debit;
            amount = req.amount;
            balance_after = p.source_row.balance - req.amount;
          })
          db in
      let (c, db₂) =
        create_entry
          (record {
            transaction_id = id;
            account_id = p.target_id;
            entry_type = credit;
            amount = req.amount;
            balance_after = p.target_row.balance + req.amount;
          })
          db₁ in
      (record { transaction_id = id; entry_ids = d ∷ c ∷ []; is_idempotent = false }, db₂)

  unfoldable pub post_transfer :
      TransferRequest → TransferPlan → Db T → Result LedgerError (Receipt × Db T)
  post_transfer req p db = do
    db₁ ←
        or_throw
          (update_balance p.source_id p.source_row.version (p.source_row.balance - req.amount) db)
          (version_conflict source req.source_account_number)
    db₂ ←
        or_throw
          (update_balance p.target_id p.target_row.version (p.target_row.balance + req.amount) db₁)
          (version_conflict target req.target_account_number)
    posted ← reuse_or_create p.existing (transfer_row req p) db₂
    ok (post_entries req p posted)

  -- `prisma.$transaction`: a throw leaves what the others have committed.
  unfoldable pub commit :
      Result LedgerError (Receipt × Db T) → Db T → Result LedgerError Receipt × Db T
  commit (ok (r, db')) db = (ok r, db')
  commit (err e) db = (err e, db)

  unfoldable pub finish :
      {P : Type 0}
      → (P → Db T → Result LedgerError (Receipt × Db T))
      → (Db T → Db T)
      → Db T
      → Result LedgerError (Prepared P)
      → Result LedgerError Receipt × Db T
  unfolding commit
  finish post others db (err e) = (err e, db)
  finish post others db (ok (duplicate id)) =
      (ok (record { transaction_id = id; entry_ids = []; is_idempotent = true }), db)
  finish post others db (ok (planned p)) = commit (post p (others db)) (others db)

  unfoldable pub execute_double_entry_transfer :
      TransferRequest → (Db T → Db T) → Db T → Result LedgerError Receipt × Db T
  unfolding finish
  execute_double_entry_transfer req others db =
      finish (post_transfer req) others db
        (unless_duplicate (find_by_key T req.idempotency_key db) db (plan_transfer req db))

  -- The single account's update, transaction and entry, which deposit and withdrawal share.
  unfoldable pub post_cash :
      CashRequest
      → ℕ
      → Transaction
      → EntryType
      → CashPlan
      → Db T
      → Result LedgerError (Receipt × Db T)
  unfolding create_entry
  post_cash req new_balance t entry_type p db = do
    db₁ ←
        or_throw (update_balance p.account_id p.row.version new_balance db)
          (version_conflict sole req.account_number)
    posted ← reuse_or_create p.existing t db₁
    let entry =
        create_entry
          (record {
            transaction_id = posted.0;
            account_id = p.account_id;
            entry_type = entry_type;
            amount = req.amount;
            balance_after = new_balance;
          })
          posted.1
    ok (
      record { transaction_id = posted.0; entry_ids = entry.0 ∷ []; is_idempotent = false },
      entry.1,
    )

  abbrev cash_row : CashRequest → Category → Option ℕ → Option ℕ → String → Transaction
  cash_row req category from to default = record {
    idempotency_key = req.idempotency_key;
    reference_id = req.reference_id;
    source_account_id = from;
    target_account_id = to;
    amount = req.amount;
    currency = currency_or_usd req.currency;
    category = category;
    status = completed;
    description = some (description_or default req.description);
    failure_reason = none;
  }

  unfoldable pub plan_deposit : CashRequest → Db T → Result LedgerError CashPlan
  plan_deposit req db = do
    a ← require_active T sole req.account_number db
    ok (record { account_id = a.0; row = a.1; existing = find_by_key T req.idempotency_key db })

  unfoldable pub post_deposit : CashRequest → CashPlan → Db T → Result LedgerError (Receipt × Db T)
  post_deposit req p =
      post_cash req (p.row.balance + req.amount)
        (cash_row req deposit none (some p.account_id) "Cash Deposit") credit p

  unfoldable pub execute_deposit :
      CashRequest → (Db T → Db T) → Db T → Result LedgerError Receipt × Db T
  unfolding finish
  execute_deposit req others db =
      finish (post_deposit req) others db
        (unless_duplicate (find_by_key T req.idempotency_key db) db (plan_deposit req db))

  unfoldable pub plan_withdrawal : CashRequest → Db T → Result LedgerError CashPlan
  plan_withdrawal req db = do
    a ← require_active T sole req.account_number db
    require_funds T req.amount a.1
    ok (record { account_id = a.0; row = a.1; existing = find_by_key T req.idempotency_key db })

  unfoldable pub post_withdrawal :
      CashRequest → CashPlan → Db T → Result LedgerError (Receipt × Db T)
  post_withdrawal req p =
      post_cash req (p.row.balance - req.amount)
        (cash_row req withdrawal (some p.account_id) none "Cash Withdrawal") debit p

  unfoldable pub execute_withdrawal :
      CashRequest → (Db T → Db T) → Db T → Result LedgerError Receipt × Db T
  unfolding finish
  execute_withdrawal req others db =
      finish (post_withdrawal req) others db
        (unless_duplicate (find_by_key T req.idempotency_key db) db (plan_withdrawal req db))
