-- ===== src/Ledger/Keys.antt =====
-- A deposit or a withdrawal is found by its key afterwards.
use vault_core.Prelude.{
  ◌==◌, if◌then◌else◌, Bool-cases, Option-cases, ℕ, ◌≡◌, refl, ◌∙◌, inl, inr, Bool, false, none,
  some, arith,
}
use vault_core.Result.{ok, Result-cases}
use vault_core.Table.Rows.{lookup, lookup-cons}
use vault_core.Ledger.Model.{completed, Transaction, EntryType, debit, credit, Tables, Db}
use vault_core.Ledger.Reads.{find_by_key}
use vault_core.Ledger.Posting.{
  CashRequest, Receipt, CashPlan, update_balance, create_transaction, reuse_or_create, post_cash,
  plan_deposit, post_deposit, execute_deposit, plan_withdrawal, post_withdrawal, execute_withdrawal,
}
use vault_core.Ledger.Versions.{finish-posted, unless_duplicate-planned}

module _ (T : Tables) where
  create_transaction-found :
      (t : Transaction) (id : ℕ) (db db' : Db T)
      → create_transaction T t db ≡ ok (id, db')
      → find_by_key T t.idempotency_key db' ≡ some (id, t)
  unfolding create_transaction find_by_key
  create_transaction-found t id db db' h =
      let hits : Transaction → Bool = λ u. u.idempotency_key == t.idempotency_key in
      let made = T.transactions.create db.transactions t in
      let rows = T.transactions.rows-create db.transactions t in
      let at : (k : ℕ)
          → lookup k (T.transactions.rows made.1)
            ≡ (if made.0 == k then some t else lookup k (T.transactions.rows db.transactions)) =
        λ k. rw rows (lookup-cons made.0 k t (T.transactions.rows db.transactions)) in
      elim (Option-cases (T.transactions.find_first db.transactions hits)) [
        | inr (f, x) ↦ absurd (ground arith)
        | inl free ↦
            let new : (id ≡ made.0) × (db'.transactions ≡ made.1) = (ground arith, ground arith) in
            elim (Option-cases (T.transactions.find_first made.1 hits)) [
              | inl gone ↦ absurd (
                  ground (
                    arith,
                    at made.0,
                    T.transactions.find_first_complete made.1 hits made.0 t gone,
                  ))
              | inr ((k, v), e) ↦
                  let s = T.transactions.find_first_sound made.1 hits k v e in
                  elim (Bool-cases (made.0 == k)) [
                    | inl x ↦ ground (arith, new.0, new.1, e, at k, s)
                    | inr x ↦ absurd (
                        ground (
                          arith,
                          at k,
                          s,
                          T.transactions.find_first_complete db.transactions hits k v free,
                        ))
                  ]
            ]
      ]

  find_by_key-same :
      (key : ℕ) (db db' : Db T)
      → db'.transactions ≡ db.transactions
      → find_by_key T key db' ≡ find_by_key T key db
  unfolding find_by_key
  find_by_key-same key db db' e = rw e refl

  -- The transaction that the key stands for is COMPLETED, and it is that of the receipt.
  abbrev pub IsKeyed : ℕ → Receipt → Db T → Type 0
  IsKeyed key r db =
      (t : Transaction) × (find_by_key T key db ≡ some (r.transaction_id, t))
      × (t.status ≡ completed)

  post_cash-IsKeyed :
      (req : CashRequest) (balance : ℕ) (t : Transaction) (side : EntryType) (p : CashPlan)
      (r : Receipt) (db db' : Db T)
      → post_cash T req balance t side p db ≡ ok (r, db')
      → p.existing ≡ none
      → t.status ≡ completed
      → IsKeyed t.idempotency_key r db'
  unfolding post_cash reuse_or_create
  post_cash-IsKeyed req balance t side p r db db' h fresh done =
      elim (Option-cases (update_balance T p.account_id p.row.version balance db)) [
        | inl stale ↦ absurd (ground arith)
        | inr (db₁, u) ↦ elim (Result-cases (create_transaction T t db₁)) [
          | inr (e, x) ↦ absurd (ground (arith, fresh))
          | inl ((id, db₂), x) ↦
              let kept : (r.transaction_id ≡ id) × (db'.transactions ≡ db₂.transactions) =
                (ground (arith, fresh), ground (arith, fresh)) in
              let found = create_transaction-found t id db₁ db₂ x in
              (t, rw kept.0 (find_by_key-same t.idempotency_key db₂ db' kept.1 ∙ found), done)
        ]
      ]

  pub deposit-IsKeyed :
      (req : CashRequest) (r : Receipt) (db db' : Db T)
      → find_by_key T req.idempotency_key db ≡ none
      → execute_deposit T req (λ d. d) db ≡ (ok r, db')
      → r.is_idempotent ≡ false
      → IsKeyed req.idempotency_key r db'
  unfolding execute_deposit plan_deposit post_deposit
  deposit-IsKeyed req r db db' free h new =
      let (p, planned_eq, posted_eq) =
        finish-posted T (post_deposit T req) (λ d. d) db db' _ r h new in
      let plan =
        unless_duplicate-planned T (find_by_key T req.idempotency_key db) db _ p planned_eq in
      post_cash-IsKeyed req _ _ credit p r db db' posted_eq (ground (arith, free, plan)) refl

  pub withdrawal-IsKeyed :
      (req : CashRequest) (r : Receipt) (db db' : Db T)
      → find_by_key T req.idempotency_key db ≡ none
      → execute_withdrawal T req (λ d. d) db ≡ (ok r, db')
      → r.is_idempotent ≡ false
      → IsKeyed req.idempotency_key r db'
  unfolding execute_withdrawal plan_withdrawal post_withdrawal
  withdrawal-IsKeyed req r db db' free h new =
      let (p, planned_eq, posted_eq) =
        finish-posted T (post_withdrawal T req) (λ d. d) db db' _ r h new in
      let plan =
        unless_duplicate-planned T (find_by_key T req.idempotency_key db) db _ p planned_eq in
      post_cash-IsKeyed req _ _ debit p r db db' posted_eq (ground (arith, free, plan)) refl
