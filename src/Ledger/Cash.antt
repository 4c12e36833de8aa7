-- ===== src/Ledger/Cash.antt =====
-- What a deposit and a withdrawal do.
use vault_core.Prelude.{
  ◌==◌, if◌then◌else◌, Option-cases, ℕ, ◌+◌, ◌≤◌, ◌≡◌, sym, inl, inr, false, some, [], ◌∷◌, arith,
}
use vault_core.Result.{ok, Result-cases}
use vault_core.Table.Rows.{lookup, replace, sum_by, lookup-replace, sum_by-replace}
use vault_core.Ledger.Model.{
  Account, Transaction, EntryType, debit, credit, LedgerEntry, sole, Tables, Db,
}
use vault_core.Ledger.Reads.{find_by_key, require_active, require_funds}
use vault_core.Ledger.Posting.{
  CashRequest, Receipt, CashPlan, update_balance, reuse_or_create, post_cash, plan_deposit,
  post_deposit, execute_deposit, plan_withdrawal, post_withdrawal, execute_withdrawal,
}
use vault_core.Ledger.Updates.{
  account_rows, entry_rows, rewritten, Updated, update_balance-Updated, ActiveRow,
  require_active-ActiveRow, reuse_or_create-TransactionKept,
}
use vault_core.Ledger.Versions.{KeepsVersions, finish-posted, unless_duplicate-planned}
use vault_core.Ledger.Atomic.{balance_of}

module _ (T : Tables) where
  abbrev cash_entry : CashRequest → CashPlan → EntryType → ℕ → ℕ → LedgerEntry
  cash_entry req p entry_type balance id = record {
    transaction_id = id;
    account_id = p.account_id;
    entry_type = entry_type;
    amount = req.amount;
    balance_after = balance;
  }

  pub record CashPosted (req : CashRequest) (balance : ℕ) (entry_type : EntryType) (p : CashPlan)
      (r : Receipt) (db db' : Db T) : Type 0 where
    pub changed : Db T
    pub update : Updated T p.account_id p.row.version balance db changed
    pub same_accounts : account_rows T db' ≡ account_rows T changed
    pub entry_id : ℕ
    pub ids : r.entry_ids ≡ entry_id ∷ []
    pub entries :
        entry_rows T db'
        ≡ (entry_id, cash_entry req p entry_type balance r.transaction_id) ∷ entry_rows T db

  post_cash-CashPosted :
      (req : CashRequest) (balance : ℕ) (t : Transaction) (entry_type : EntryType) (p : CashPlan)
      (r : Receipt) (db db' : Db T)
      → post_cash T req balance t entry_type p db ≡ ok (r, db')
      → CashPosted req balance entry_type p r db db'
  unfolding post_cash
  post_cash-CashPosted req balance t entry_type p r db db' h =
      elim (Option-cases (update_balance T p.account_id p.row.version balance db)) [
        | inl stale ↦ absurd (ground arith)
        | inr (db₁, u) ↦ elim (Result-cases (reuse_or_create T p.existing t db₁)) [
          | inr (e, x) ↦ absurd (ground arith)
          | inl ((id, db₂), x) ↦
              let k = reuse_or_create-TransactionKept T p.existing t id db₁ db₂ x in
              let v = update_balance-Updated T _ _ _ db db₁ u in
              let entry = cash_entry req p entry_type balance id in
              let re : r.transaction_id ≡ id = ground arith in
              record {
                changed = db₁;
                update = v;
                same_accounts = ground (arith, k.same_accounts);
                entry_id = (T.entries.create db₂.entries entry).0;
                ids = ground arith;
                entries = ground (
                  arith,
                  re,
                  k.same_entries,
                  v.same_entries,
                  T.entries.rows-create db₂.entries entry,
                );
              }
        ]
      ]

  -- The account whose balance became `balance`, and the entry that says so.
  pub record CashDone (req : CashRequest) (entry_type : EntryType) (r : Receipt)
      (db before db' : Db T) : Type 0 where
    pub account_id : ℕ
    pub account_read : Account
    pub account_row : Account
    pub account_active : ActiveRow T req.account_number account_id account_read db
    pub account_before : lookup account_id (account_rows T before) ≡ some account_row
    pub new_balance : ℕ
    pub accounts :
        (j : ℕ)
        → lookup j (account_rows T db') ≡ (
            if account_id == j
            then some (rewritten T account_row new_balance)
            else lookup j (account_rows T before))
    pub total :
        sum_by balance_of (account_rows T db') + account_row.balance
        ≡ sum_by balance_of (account_rows T before) + new_balance
    pub entry_id : ℕ
    pub receipt : r.entry_ids ≡ entry_id ∷ []
    pub entries :
        entry_rows T db'
        ≡ (
          entry_id,
          record {
            transaction_id = r.transaction_id;
            account_id = account_id;
            entry_type = entry_type;
            amount = req.amount;
            balance_after = new_balance;
          },
        )
          ∷ entry_rows T before

  posted-CashDone :
      (req : CashRequest) (balance : ℕ) (entry_type : EntryType) (p : CashPlan) (r : Receipt)
      (db before db' : Db T)
      → ActiveRow T req.account_number p.account_id p.row db
      → CashPosted req balance entry_type p r before db'
      → CashDone req entry_type r db before db'
  posted-CashDone req balance entry_type p r db before db' works posted =
      let rows : account_rows T db'
          ≡ replace p.account_id (rewritten T posted.update.row balance) (account_rows T before) =
        cc (posted.same_accounts, posted.update.rows) in
      record {
        account_id = p.account_id;
        account_read = p.row;
        account_row = posted.update.row;
        account_active = works;
        account_before = posted.update.found;
        new_balance = balance;
        accounts = λ j. rw rows (
            lookup-replace p.account_id j _ posted.update.row (account_rows T before)
              posted.update.found);
        total = rw rows (
            sum_by-replace balance_of p.account_id _ posted.update.row (account_rows T before)
              posted.update.found);
        entry_id = posted.entry_id;
        receipt = posted.ids;
        entries = posted.entries;
      }

  plan_deposit-ActiveRow :
      (req : CashRequest) (p : CashPlan) (db : Db T)
      → plan_deposit T req db ≡ ok p
      → ActiveRow T req.account_number p.account_id p.row db
  unfolding plan_deposit
  plan_deposit-ActiveRow req p db h =
      elim (Result-cases (require_active T sole req.account_number db)) [
        | inr (x, e) ↦ absurd (ground arith)
        | inl ((id, a), e) ↦ require_active-ActiveRow T sole _ p.account_id p.row db (ground arith)
      ]

  plan_withdrawal-ActiveRow :
      (req : CashRequest) (p : CashPlan) (db : Db T)
      → plan_withdrawal T req db ≡ ok p
      → ActiveRow T req.account_number p.account_id p.row db × (req.amount ≤ p.row.balance)
  unfolding plan_withdrawal require_funds
  plan_withdrawal-ActiveRow req p db h =
      elim (Result-cases (require_active T sole req.account_number db)) [
        | inr (x, e) ↦ absurd (ground arith)
        | inl ((id, a), e) ↦
            (require_active-ActiveRow T sole _ p.account_id p.row db (ground arith), ground arith)
      ]

  -- A deposit that reports success and no duplicate, whatever others committed between its reads and
  -- its write (if none of them changed a balance and kept the version), has raised the balance of the
  -- active account of that number, as the others left it, by exactly the amount, changed no other
  -- account, and added one CREDIT entry with the new balance.
  pub deposit-CashDone :
      (req : CashRequest) (others : Db T → Db T) (db db' : Db T) (r : Receipt)
      → KeepsVersions T db (others db)
      → execute_deposit T req others db ≡ (ok r, db')
      → r.is_idempotent ≡ false
      → (done : CashDone req credit r db (others db) db') × (done.new_balance
          ≡ done.account_row.balance + req.amount)
  unfolding execute_deposit post_deposit posted-CashDone
  deposit-CashDone req others db db' r kept h f =
      let (p, planned_eq, posted_eq) = finish-posted T (post_deposit T req) others db db' _ r h f in
      let works =
        plan_deposit-ActiveRow req p db
          (unless_duplicate-planned T (find_by_key T req.idempotency_key db) db _ p planned_eq) in
      let posted = post_cash-CashPosted req _ _ credit p r (others db) db' posted_eq in
      (
        posted-CashDone req _ credit p r db (others db) db' works posted,
        omega (
          arith,
          kept.guarded p.account_id p.row posted.update.row works.found posted.update.found
              (sym posted.update.at_version),
        ),
      )

  -- A withdrawal that reports success and no duplicate, whatever others committed between its reads
  -- and its write (if none of them changed a balance and kept the version), has lowered the balance of
  -- the active account of that number, as the others left it, by exactly the amount, which it covered,
  -- changed no other account, and added one DEBIT entry with the new balance.
  pub withdrawal-CashDone :
      (req : CashRequest) (others : Db T → Db T) (db db' : Db T) (r : Receipt)
      → KeepsVersions T db (others db)
      → execute_withdrawal T req others db ≡ (ok r, db')
      → r.is_idempotent ≡ false
      → (done : CashDone req debit r db (others db) db') × (done.new_balance + req.amount
          ≡ done.account_row.balance)
  unfolding execute_withdrawal post_withdrawal posted-CashDone
  withdrawal-CashDone req others db db' r kept h f =
      let (p, planned_eq, posted_eq) =
        finish-posted T (post_withdrawal T req) others db db' _ r h f in
      let works =
        plan_withdrawal-ActiveRow req p db
          (unless_duplicate-planned T (find_by_key T req.idempotency_key db) db _ p planned_eq) in
      let posted = post_cash-CashPosted req _ _ debit p r (others db) db' posted_eq in
      (
        posted-CashDone req _ debit p r db (others db) db' works.0 posted,
        omega (
          arith,
          works.1,
          kept.guarded p.account_id p.row posted.update.row works.0.found posted.update.found
              (sym posted.update.at_version),
        ),
      )
