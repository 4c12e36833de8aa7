-- ===== src/Ledger/Reads.antt =====
-- The queries and checks that the three postings begin with.
use vault_core.Prelude.{ltb, ◌==◌, is_some, ℕ, Bool, true, false, not, ◌&&◌, Option}
use vault_core.Result.{Result, ok, ◌>>=◌, ◌>>◌, or_throw, throw_if}
use vault_core.Ledger.Model.{
  AccountStatus, active, Account, TransactionStatus, completed, Transaction, Role, LedgerError,
  account_not_found, account_is, insufficient_funds, Tables, Db,
}

abbrev pub is_active : AccountStatus → Bool
is_active active = true
is_active _ = false

abbrev pub is_completed : TransactionStatus → Bool
is_completed completed = true
is_completed _ = false

module _ (T : Tables) where
  -- `account.findFirst({ where: { accountNumber, deletedAt: null } })`
  unfoldable pub find_account : ℕ → Db T → Option (ℕ × Account)
  find_account n db =
      T.accounts.find_first db.accounts (λ a. a.account_number == n && not a.is_deleted)

  -- `transaction.findUnique({ where: { idempotencyKey } })`
  unfoldable pub find_by_key : ℕ → Db T → Option (ℕ × Transaction)
  find_by_key key db = T.transactions.find_first db.transactions (λ t. t.idempotency_key == key)

  -- `include: { ledgerEntries: true }`, as far as it is used: is the list not empty?
  unfoldable pub has_entries : ℕ → Db T → Bool
  has_entries id db = is_some (T.entries.find_first db.entries (λ e. e.transaction_id == id))

  -- The test for a true duplicate: COMPLETED, with ledger entries.
  unfoldable pub is_duplicate : ℕ × Transaction → Db T → Bool
  is_duplicate t db = is_completed t.1.status && has_entries t.0 db

  -- An account that exists and is ACTIVE, with its id, or the error.
  unfoldable pub require_active : Role → ℕ → Db T → Result LedgerError (ℕ × Account)
  require_active role n db = do
    found ← or_throw (find_account n db) (account_not_found role n)
    throw_if (not (is_active found.1.status)) (account_is role n found.1.status)
    ok found

  -- `Number(account.balance) < Number(amount)`
  unfoldable pub require_funds : ℕ → Account → Result LedgerError (Unit {0})
  require_funds amount a =
      throw_if (ltb a.balance amount) (insufficient_funds a.account_number a.balance a.currency)
