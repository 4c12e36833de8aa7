-- ===== src/Ledger/Atomic.antt =====
-- The whole transfer: both accounts, the others, the transaction and its entries.
use vault_core.Prelude.{
  ◌==◌, if◌then◌else◌, Bool-cases, ℕ, ◌+◌, ◌-◌, ◌≤◌, ◌≡◌, refl, sym, ◌⊎◌, inl, inr, false, none,
  some, [], ◌∷◌, arith,
}
use vault_core.Result.{ok}
use vault_core.Table.Rows.{lookup, replace, sum_by, lookup-replace, sum_by-replace}
use vault_core.Ledger.Model.{Account, pending, Transaction, debit, credit, Tables, Db}
use vault_core.Ledger.Reads.{find_by_key}
use vault_core.Ledger.Posting.{
  TransferRequest, Receipt, TransferPlan, transfer_row, post_transfer,
  execute_double_entry_transfer,
}
use vault_core.Ledger.Updates.{
  account_rows, transaction_rows, entry_rows, rewritten, ActiveRow, TransferPlanned,
  plan_transfer-TransferPlanned,
}
use vault_core.Ledger.Versions.{
  KeepsVersions, finish-posted, unless_duplicate-planned, TransferPosted,
  post_transfer-TransferPosted,
}

abbrev pub balance_of : Account → ℕ
balance_of a = a.balance

module _ (T : Tables) where
  -- What a transfer has done, from the state that the others left.
  pub record TransferDone (req : TransferRequest) (r : Receipt) (db before db' : Db T)
      : Type 0 where
    pub source_id : ℕ
    pub target_id : ℕ
    pub source_read : Account
    pub target_read : Account
    pub source_row : Account
    pub target_row : Account
    pub source_active : ActiveRow T req.source_account_number source_id source_read db
    pub target_active : ActiveRow T req.target_account_number target_id target_read db
    pub source_before : lookup source_id (account_rows T before) ≡ some source_row
    pub target_before : lookup target_id (account_rows T before) ≡ some target_row
    pub distinct : (source_id == target_id) ≡ false
    pub covered : req.amount ≤ source_row.balance
    pub accounts :
        (j : ℕ)
        → lookup j (account_rows T db') ≡ (
            if source_id == j
            then some (rewritten T source_row (source_row.balance - req.amount))
            else if target_id == j
            then some (rewritten T target_row (target_row.balance + req.amount))
            else lookup j (account_rows T before))
    pub total : sum_by balance_of (account_rows T db') ≡ sum_by balance_of (account_rows T before)
    pub transaction :
        ((t : ℕ × Transaction) × (find_by_key T req.idempotency_key db ≡ some t)
          × (r.transaction_id ≡ t.0)
          × (db'.transactions ≡ before.transactions))
        ⊎ ((find_by_key T req.idempotency_key db ≡ none)
            × (lookup r.transaction_id (transaction_rows T before) ≡ none)
            × ((t : Transaction) × (t.idempotency_key ≡ req.idempotency_key)
                × (t.amount ≡ req.amount)
                × (t.status ≡ pending)
                × (transaction_rows T db' ≡ (r.transaction_id, t) ∷ transaction_rows T before)))
    pub debit_id : ℕ
    pub credit_id : ℕ
    pub receipt : r.entry_ids ≡ debit_id ∷ credit_id ∷ []
    pub entries :
        entry_rows T db'
        ≡ (
          credit_id,
          record {
            transaction_id = r.transaction_id;
            account_id = target_id;
            entry_type = credit;
            amount = req.amount;
            balance_after = target_row.balance + req.amount;
          },
        )
          ∷ (
            debit_id,
            record {
              transaction_id = r.transaction_id;
              account_id = source_id;
              entry_type = debit;
              amount = req.amount;
              balance_after = source_row.balance - req.amount;
            },
          )
          ∷ entry_rows T before

  module _ (req : TransferRequest) (p : TransferPlan) (r : Receipt) (db before db' : Db T)
      (kept : KeepsVersions T db before) (planned_well : TransferPlanned T req p db)
      (posted : TransferPosted T req p r before db') where
    two_accounts : (p.source_id == p.target_id) ≡ false
    two_accounts = elim (Bool-cases (p.source_id == p.target_id)) [
      | inr apart ↦ apart
      | inl same ↦ absurd (
          ground (
            arith,
            same,
            planned_well.from_row.found,
            planned_well.to_row.found,
            posted.from_update.found,
            posted.from_update.at_version,
            posted.from_update.rows,
            posted.to_update.found,
            posted.to_update.at_version,
            lookup-replace p.source_id p.target_id
                (rewritten T posted.from_update.row (p.source_row.balance - req.amount))
                posted.from_update.row (account_rows T before),
          ))
    ]

    target_before : lookup p.target_id (account_rows T before) ≡ some posted.to_update.row
    target_before = ground (
      arith,
      two_accounts,
      posted.from_update.found,
      posted.from_update.rows,
      posted.to_update.found,
      lookup-replace p.source_id p.target_id
          (rewritten T posted.from_update.row (p.source_row.balance - req.amount))
          posted.from_update.row (account_rows T before),
    )

    source_balance : posted.from_update.row.balance ≡ p.source_row.balance
    source_balance = sym (
        kept.guarded p.source_id p.source_row posted.from_update.row planned_well.from_row.found
          posted.from_update.found (sym posted.from_update.at_version))

    target_balance : posted.to_update.row.balance ≡ p.target_row.balance
    target_balance = sym (
        kept.guarded p.target_id p.target_row posted.to_update.row planned_well.to_row.found
          target_before (sym posted.to_update.at_version))

    abbrev debited_row : Account
    debited_row = rewritten T posted.from_update.row (posted.from_update.row.balance - req.amount)

    abbrev credited_row : Account
    credited_row = rewritten T posted.to_update.row (posted.to_update.row.balance + req.amount)

    rows_after :
        account_rows T db'
        ≡ replace p.target_id credited_row (replace p.source_id debited_row (account_rows T before))
    rows_after =
        rw (source_balance, target_balance)
          (cc (posted.same_accounts, posted.to_update.rows, posted.from_update.rows))

    target_debited :
        lookup p.target_id (replace p.source_id debited_row (account_rows T before))
        ≡ some posted.to_update.row
    target_debited = ground (
      arith,
      two_accounts,
      target_before,
      lookup-replace p.source_id p.target_id debited_row posted.from_update.row
          (account_rows T before) posted.from_update.found,
    )

    lookup_after :
        (j : ℕ)
        → lookup j (account_rows T db') ≡ (
            if p.source_id == j
            then some debited_row
            else if p.target_id == j
            then some credited_row
            else lookup j (account_rows T before))
    lookup_after j = rw rows_after (
        ground (
          arith,
          two_accounts,
          lookup-replace p.target_id j credited_row posted.to_update.row
              (replace p.source_id debited_row (account_rows T before)) target_debited,
          lookup-replace p.source_id j debited_row posted.from_update.row (account_rows T before)
              posted.from_update.found,
        ))

    funds : req.amount ≤ posted.from_update.row.balance
    funds = omega (arith, source_balance, planned_well.covered)

    total_after : sum_by balance_of (account_rows T db') ≡ sum_by balance_of (account_rows T before)
    total_after = rw rows_after (
        omega (
          arith,
          funds,
          sum_by-replace balance_of p.target_id credited_row posted.to_update.row
              (replace p.source_id debited_row (account_rows T before)) target_debited,
          sum_by-replace balance_of p.source_id debited_row posted.from_update.row
              (account_rows T before) posted.from_update.found,
        ))

    same_before : posted.credited.transactions ≡ before.transactions
    same_before = cc (posted.to_update.same_transactions, posted.from_update.same_transactions)

    transaction_after :
        ((t : ℕ × Transaction) × (find_by_key T req.idempotency_key db ≡ some t)
          × (r.transaction_id ≡ t.0)
          × (db'.transactions ≡ before.transactions))
        ⊎ ((find_by_key T req.idempotency_key db ≡ none)
            × (lookup r.transaction_id (transaction_rows T before) ≡ none)
            × ((t : Transaction) × (t.idempotency_key ≡ req.idempotency_key)
                × (t.amount ≡ req.amount)
                × (t.status ≡ pending)
                × (transaction_rows T db' ≡ (r.transaction_id, t) ∷ transaction_rows T before)))
    transaction_after = elim posted.kept.recorded [
      | inl (u, e, i, same) ↦
          inl (
            u,
            cc (e, planned_well.existing),
            i,
            cc (same, posted.settled_transactions, same_before),
          )
      | inr (e, fresh, rows) ↦ inr (
        cc (e, planned_well.existing),
        cc (fresh, same_before),
        (
          transfer_row T req p,
          refl,
          refl,
          refl,
          cc (rows, posted.settled_transactions, same_before),
        ),
      )
    ]

    posted-TransferDone : TransferDone req r db before db'
    posted-TransferDone = record {
      source_id = p.source_id;
      target_id = p.target_id;
      source_read = p.source_row;
      target_read = p.target_row;
      source_row = posted.from_update.row;
      target_row = posted.to_update.row;
      source_active = planned_well.from_row;
      target_active = planned_well.to_row;
      source_before = posted.from_update.found;
      target_before = target_before;
      distinct = two_accounts;
      covered = funds;
      accounts = lookup_after;
      total = total_after;
      transaction = transaction_after;
      debit_id = posted.debit_id;
      credit_id = posted.credit_id;
      receipt = posted.ids;
      entries = rw (source_balance, target_balance) posted.entries;
    }

  -- A transfer that reports success and no duplicate, whatever others committed between its reads and
  -- its writes (if none of them changed a balance and kept the version), has moved exactly the amount
  -- from the account of the source number to another account, that of the target number: both were
  -- read as active, the source covered it, every other account and the total of all balances are as
  -- the others left them, the transaction is that of the key or a new PENDING one, and one DEBIT and
  -- one CREDIT entry of it with the new balances were added.
  pub transfer-TransferDone :
      (req : TransferRequest) (others : Db T → Db T) (db db' : Db T) (r : Receipt)
      → KeepsVersions T db (others db)
      → execute_double_entry_transfer T req others db ≡ (ok r, db')
      → r.is_idempotent ≡ false
      → TransferDone req r db (others db) db'
  unfolding execute_double_entry_transfer
  transfer-TransferDone req others db db' r kept h f =
      let (p, planned_eq, posted_eq) =
        finish-posted T (post_transfer T req) others db db' _ r h f in
      posted-TransferDone req p r db (others db) db' kept
        (plan_transfer-TransferPlanned T req p db
          (unless_duplicate-planned T (find_by_key T req.idempotency_key db) db _ p planned_eq))
        (post_transfer-TransferPosted T req p r (others db) db' posted_eq)
