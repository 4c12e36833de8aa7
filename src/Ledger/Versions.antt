-- ===== src/Ledger/Versions.antt =====
-- Optimistic locking: what a posting may rely on after others have committed, and how a posting that
-- succeeded was carried out.
use vault_core.Prelude.{
  Option-cases, ℕ, ◌+◌, ◌-◌, ◌≡◌, refl, ap, inl, inr, false, Option, none, some, [], ◌∷◌, arith,
}
use vault_core.Result.{Result, ok, err, Result-cases}
use vault_core.Table.Rows.{lookup}
use vault_core.Ledger.Model.{
  Account, Transaction, debit, credit, LedgerEntry, LedgerError, Tables, Db,
}
use vault_core.Ledger.Posting.{
  TransferRequest, Receipt, TransferPlan, Prepared, duplicate, planned, unless_duplicate,
  update_balance, reuse_or_create, transfer_row, post_entries, post_transfer, finish,
}
use vault_core.Ledger.Updates.{
  account_rows, entry_rows, Updated, update_balance-Updated, TransactionKept,
  reuse_or_create-TransactionKept,
}

module _ (T : Tables) where
  -- From the first state to the second, no account kept its version and changed its balance.
  pub record KeepsVersions (db db' : Db T) : Type 0 where
    pub guarded :
        (id : ℕ) (a b : Account)
        → lookup id (account_rows T db) ≡ some a
        → lookup id (account_rows T db') ≡ some b
        → a.version ≡ b.version
        → a.balance ≡ b.balance

  pub finish-posted :
      {P : Type 0} (post : P → Db T → Result LedgerError (Receipt × Db T)) (others : Db T → Db T)
      (db db' : Db T) (q : Result LedgerError (Prepared P)) (r : Receipt)
      → finish T post others db q ≡ (ok r, db')
      → r.is_idempotent ≡ false
      → (p : P) × (q ≡ ok (planned p)) × (post p (others db) ≡ ok (r, db'))
  unfolding finish
  finish-posted post others db db' (err e) r h f = absurd (ground arith)
  finish-posted post others db db' (ok (duplicate id)) r h f = absurd (ground arith)
  finish-posted post others db db' (ok (planned p)) r h f =
      elim (Result-cases (post p (others db))) [
        | inr (e, x) ↦ absurd (ground arith)
        | inl (y, x) ↦ (p, refl, ground arith)
      ]

  pub unless_duplicate-planned :
      {P : Type 0} (existing : Option (ℕ × Transaction)) (db : Db T) (rest : Result LedgerError P)
      (p : P)
      → unless_duplicate T existing db rest ≡ ok (planned p)
      → rest ≡ ok p
  unfolding unless_duplicate
  unless_duplicate-planned none db (ok q) p h = ground arith
  unless_duplicate-planned none db (err e) p h = ground arith
  unless_duplicate-planned (some t) db (ok q) p h = ground arith
  unless_duplicate-planned (some t) db (err e) p h = ground arith

  -- The two entries of a transfer.
  abbrev pub debit_entry : TransferRequest → TransferPlan → ℕ → LedgerEntry
  debit_entry req p id = record {
    transaction_id = id;
    account_id = p.source_id;
    entry_type = debit;
    amount = req.amount;
    balance_after = p.source_row.balance - req.amount;
  }

  abbrev pub credit_entry : TransferRequest → TransferPlan → ℕ → LedgerEntry
  credit_entry req p id = record {
    transaction_id = id;
    account_id = p.target_id;
    entry_type = credit;
    amount = req.amount;
    balance_after = p.target_row.balance + req.amount;
  }

  pub record TransferPosted (req : TransferRequest) (p : TransferPlan) (r : Receipt) (db db' : Db T)
      : Type 0 where
    pub debited : Db T
    pub credited : Db T
    pub settled : Db T
    pub from_update :
        Updated T p.source_id p.source_row.version (p.source_row.balance - req.amount) db debited
    pub to_update :
        Updated T p.target_id p.target_row.version
          (p.target_row.balance + req.amount)
          debited
          credited
    pub same_accounts : account_rows T db' ≡ account_rows T credited
    pub debit_id : ℕ
    pub credit_id : ℕ
    pub ids : r.entry_ids ≡ debit_id ∷ credit_id ∷ []
    pub kept : TransactionKept T p.existing (transfer_row T req p) r.transaction_id credited settled
    pub settled_transactions : db'.transactions ≡ settled.transactions
    pub entries :
        entry_rows T db'
        ≡ (credit_id, credit_entry req p r.transaction_id)
          ∷ (debit_id, debit_entry req p r.transaction_id)
          ∷ entry_rows T db

  post_entries-rows :
      (req : TransferRequest) (p : TransferPlan) (id : ℕ) (db : Db T)
      → let (r, db') = post_entries T req p (id, db) in
        let d = (T.entries.create db.entries (debit_entry req p id)).0 in
        let c =
          (T.entries.create
            (T.entries.create db.entries (debit_entry req p id)).1
            (credit_entry req p id)).0 in
        (db'.accounts ≡ db.accounts)
        × (db'.transactions ≡ db.transactions)
        × (r ≡ record { transaction_id = id; entry_ids = d ∷ c ∷ []; is_idempotent = false })
        × (entry_rows T db'
            ≡ (c, credit_entry req p id) ∷ (d, debit_entry req p id) ∷ entry_rows T db)
  unfolding post_entries
  post_entries-rows req p id db = (
    refl,
    refl,
    refl,
    cc (
      T.entries.rows-create (T.entries.create db.entries (debit_entry req p id)).1
          (credit_entry req p id),
      T.entries.rows-create db.entries (debit_entry req p id),
    ),
  )

  pub post_transfer-TransferPosted :
      (req : TransferRequest) (p : TransferPlan) (r : Receipt) (db db' : Db T)
      → post_transfer T req p db ≡ ok (r, db')
      → TransferPosted req p r db db'
  unfolding post_transfer
  post_transfer-TransferPosted req p r db db' h =
      elim (Option-cases (
        update_balance T p.source_id p.source_row.version (p.source_row.balance - req.amount) db)) [
          | inl stale ↦ absurd (ground arith)
          | inr (db₁, u₁) ↦
              elim (Option-cases (
                update_balance T p.target_id p.target_row.version
                  (p.target_row.balance + req.amount) db₁)) [
                    | inl stale ↦ absurd (ground arith)
                    | inr (db₂, u₂) ↦
                        elim (Result-cases
                          (reuse_or_create T p.existing (transfer_row T req p) db₂)) [
                            | inr (e, x) ↦ absurd (ground arith)
                            | inl ((id, db₃), x) ↦
                                let k =
                                  reuse_or_create-TransactionKept T p.existing
                                    (transfer_row T req p) id db₂ db₃ x in
                                let v₁ = update_balance-Updated T _ _ _ db db₁ u₁ in
                                let v₂ = update_balance-Updated T _ _ _ db₁ db₂ u₂ in
                                let w = post_entries-rows req p id db₃ in
                                let e : post_entries T req p (id, db₃) ≡ (r, db') = ground arith in
                                let re : r.transaction_id ≡ id = cc (
                                  ap (λ (q : Receipt × Db T). q.0.transaction_id) e,
                                  ap (λ (q : Receipt). q.transaction_id) w.2,
                                ) in
                                record {
                                  debited = db₁;
                                  credited = db₂;
                                  settled = db₃;
                                  kept = rw re k;
                                  settled_transactions = cc (e, w.1);
                                  from_update = v₁;
                                  to_update = v₂;
                                  same_accounts = cc (e, w.0, k.same_accounts);
                                  debit_id =
                                      (T.entries.create db₃.entries (debit_entry req p id)).0;
                                  credit_id =
                                      (T.entries.create
                                        (T.entries.create db₃.entries (debit_entry req p id)).1
                                        (credit_entry req p id)).0;
                                  ids = cc (e, w.2);
                                  entries = cc (
                                    e, re, w.3, k.same_entries, v₁.same_entries, v₂.same_entries,
                                  );
                                }
                          ]
                  ]
        ]
