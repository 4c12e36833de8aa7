-- ===== src/Ledger/Updates.antt =====
-- The effect of each query and write on the rows, and the inversion of a posting that succeeded.
use vault_core.Prelude.{
  Option-cases, ℕ, ◌+◌, ◌≤◌, ◌≡◌, refl, sym, ◌∙◌, ◌⊎◌, inl, inr, false, Option, none, some, List,
  ◌∷◌, arith,
}
use vault_core.Result.{ok, Result-cases}
use vault_core.Table.Rows.{lookup, replace}
use vault_core.Ledger.Model.{
  active, Account, Transaction, LedgerEntry, Role, source, target, Tables, Db,
}
use vault_core.Ledger.Reads.{find_account, find_by_key, require_active, require_funds}
use vault_core.Ledger.Posting.{
  TransferRequest, TransferPlan, plan_transfer, update_balance, create_transaction, reuse_or_create,
}

module _ (T : Tables) where
  abbrev pub account_rows : Db T → List (ℕ × Account)
  account_rows db = T.accounts.rows db.accounts

  abbrev pub transaction_rows : Db T → List (ℕ × Transaction)
  transaction_rows db = T.transactions.rows db.transactions

  abbrev pub entry_rows : Db T → List (ℕ × LedgerEntry)
  entry_rows db = T.entries.rows db.entries

  -- What a row becomes under `updateMany`.
  abbrev pub rewritten : Account → ℕ → Account
  rewritten a balance = record a { balance = balance; version = a.version + 1 }

  pub record Updated (id version balance : ℕ) (db db' : Db T) : Type 0 where
    pub row : Account
    pub found : lookup id (account_rows db) ≡ some row
    pub at_version : row.version ≡ version
    pub rows : account_rows db' ≡ replace id (rewritten row balance) (account_rows db)
    pub same_transactions : db'.transactions ≡ db.transactions
    pub same_entries : db'.entries ≡ db.entries

  pub update_balance-Updated :
      (id version balance : ℕ) (db db' : Db T)
      → update_balance T id version balance db ≡ some db'
      → Updated id version balance db db'
  unfolding update_balance
  update_balance-Updated id version balance db db' h =
      elim (Option-cases (T.accounts.find_unique db.accounts id)) [
        | inl gone ↦ absurd (ground arith)
        | inr (a, e) ↦ record {
          row = a;
          found = sym (T.accounts.find_unique_lem db.accounts id) ∙ e;
          at_version = ground arith;
          rows = ground (arith, T.accounts.rows-update db.accounts id (rewritten a balance));
          same_transactions = ground arith;
          same_entries = ground arith;
        }
      ]

  pub find_account-found :
      (n id : ℕ) (a : Account) (db : Db T)
      → find_account T n db ≡ some (id, a)
      → (lookup id (account_rows db) ≡ some a) × (a.account_number ≡ n) × (a.is_deleted ≡ false)
  unfolding find_account
  find_account-found n id a db h =
      let p = T.accounts.find_first_sound db.accounts _ id a h in (p.0, ground arith, ground arith)

  pub record ActiveRow (n id : ℕ) (a : Account) (db : Db T) : Type 0 where
    pub found : lookup id (account_rows db) ≡ some a
    pub numbered : a.account_number ≡ n
    pub live : a.is_deleted ≡ false
    pub works : a.status ≡ active

  pub require_active-ActiveRow :
      (side : Role) (n id : ℕ) (a : Account) (db : Db T)
      → require_active T side n db ≡ ok (id, a)
      → ActiveRow n id a db
  unfolding require_active
  require_active-ActiveRow side n id a db h = elim (Option-cases (find_account T n db)) [
    | inl gone ↦ absurd (ground arith)
    | inr (f, e) ↦
        let q = find_account-found n id a db (ground arith) in
        record { found = q.0; numbered = q.1; live = q.2; works = ground arith }
  ]

  pub record TransferPlanned (req : TransferRequest) (p : TransferPlan) (db : Db T) : Type 0 where
    pub from_row : ActiveRow req.source_account_number p.source_id p.source_row db
    pub to_row : ActiveRow req.target_account_number p.target_id p.target_row db
    pub covered : req.amount ≤ p.source_row.balance
    pub existing : p.existing ≡ find_by_key T req.idempotency_key db

  pub plan_transfer-TransferPlanned :
      (req : TransferRequest) (p : TransferPlan) (db : Db T)
      → plan_transfer T req db ≡ ok p
      → TransferPlanned req p db
  unfolding plan_transfer require_funds
  plan_transfer-TransferPlanned req p db h =
      elim (Result-cases (require_active T source req.source_account_number db)) [
        | inr (x, e) ↦ absurd (ground arith)
        | inl ((sid, s), es) ↦
            elim (Result-cases (require_active T target req.target_account_number db)) [
              | inr (x, e) ↦ absurd (ground arith)
              | inl ((tid, t), et) ↦ record {
                from_row =
                    require_active-ActiveRow source _ p.source_id p.source_row db (ground arith);
                to_row =
                    require_active-ActiveRow target _ p.target_id p.target_row db (ground arith);
                covered = ground arith;
                existing = ground arith;
              }
            ]
      ]

  -- A new or a reused transaction leaves accounts and entries alone.
  pub record TransactionKept (existing : Option (ℕ × Transaction)) (t : Transaction) (id : ℕ)
      (db db' : Db T) : Type 0 where
    pub same_accounts : db'.accounts ≡ db.accounts
    pub same_entries : db'.entries ≡ db.entries
    pub recorded :
        ((u : ℕ × Transaction) × (existing ≡ some u)
          × (id ≡ u.0)
          × (db'.transactions ≡ db.transactions))
        ⊎ ((existing ≡ none)
            × (lookup id (transaction_rows db) ≡ none)
            × (transaction_rows db' ≡ (id, t) ∷ transaction_rows db))

  pub reuse_or_create-TransactionKept :
      (existing : Option (ℕ × Transaction)) (t : Transaction) (id : ℕ) (db db' : Db T)
      → reuse_or_create T existing t db ≡ ok (id, db')
      → TransactionKept existing t id db db'
  unfolding reuse_or_create create_transaction
  reuse_or_create-TransactionKept (some u) t id db db' h = record {
    same_accounts = ground arith;
    same_entries = ground arith;
    recorded = inl (u, refl, ground arith, ground arith);
  }
  reuse_or_create-TransactionKept none t id db db' h = record {
    same_accounts = ground arith;
    same_entries = ground arith;
    recorded = inr (
      refl,
      ground (arith, T.transactions.create_fresh db.transactions t),
      ground (arith, T.transactions.rows-create db.transactions t),
    );
  }
