-- ===== src/Ledger/Rollback.antt =====
-- What a posting leaves behind when it throws, and when it is a duplicate.
use vault_core.Prelude.{ℕ, ◌≡◌, refl, sym, ap, ◌∙◌, ◌⊎◌, inl, inr, true, false, none, arith}
use vault_core.Result.{Result, ok, err, Result-cases}
use vault_core.Ledger.Model.{Transaction, EntryType, debit, credit, LedgerError, Tables, Db}
use vault_core.Ledger.Reads.{find_by_key}
use vault_core.Ledger.Posting.{
  TransferRequest, CashRequest, Receipt, TransferPlan, CashPlan, Prepared, duplicate, planned,
  post_entries, post_transfer, finish, execute_double_entry_transfer, post_cash, post_deposit,
  execute_deposit, plan_withdrawal, post_withdrawal, execute_withdrawal, unless_duplicate,
}

module _ (T : Tables) where
  -- The database as it was, or as the others left it.
  abbrev pub Untouched : Db T → Db T → Db T → Type 0
  Untouched db before after = (after ≡ db) ⊎ (after ≡ before)

  -- What a posting that throws leaves behind.
  abbrev pub RollsBack : Db T → Db T → Result LedgerError Receipt × Db T → Type 0
  RollsBack db before (ok r, after) = Unit
  RollsBack db before (err e, after) = Untouched db before after

  pub finish-RollsBack :
      {P : Type 0} (post : P → Db T → Result LedgerError (Receipt × Db T)) (others : Db T → Db T)
      (db : Db T) (q : Result LedgerError (Prepared P))
      → RollsBack db (others db) (finish T post others db q)
  unfolding finish
  finish-RollsBack post others db (err x) = inl refl
  finish-RollsBack post others db (ok (duplicate id)) = tt
  finish-RollsBack post others db (ok (planned p)) = elim (Result-cases (post p (others db))) [
    | inl ((r, after), e) ↦ rw e tt
    | inr (x, e) ↦ rw e (inr refl)
  ]

  pub transfer-RollsBack :
      (req : TransferRequest) (others : Db T → Db T) (db : Db T)
      → RollsBack db (others db) (execute_double_entry_transfer T req others db)
  unfolding execute_double_entry_transfer
  transfer-RollsBack req others db = finish-RollsBack (post_transfer T req) others db _

  pub deposit-RollsBack :
      (req : CashRequest) (others : Db T → Db T) (db : Db T)
      → RollsBack db (others db) (execute_deposit T req others db)
  unfolding execute_deposit
  deposit-RollsBack req others db = finish-RollsBack (post_deposit T req) others db _

  pub withdrawal-RollsBack :
      (req : CashRequest) (others : Db T → Db T) (db : Db T)
      → RollsBack db (others db) (execute_withdrawal T req others db)
  unfolding execute_withdrawal
  withdrawal-RollsBack req others db = finish-RollsBack (post_withdrawal T req) others db _

  finish-duplicate :
      {P : Type 0} (post : P → Db T → Result LedgerError (Receipt × Db T)) (others : Db T → Db T)
      (db : Db T) (q : Result LedgerError (Prepared P)) (r : Receipt)
      → ((p : P) (x : Receipt) (d : Db T)
          → post p (others db) ≡ ok (x, d)
          → x.is_idempotent ≡ false)
      → (finish T post others db q).0 ≡ ok r
      → r.is_idempotent ≡ true
      → (finish T post others db q).1 ≡ db
  unfolding finish
  finish-duplicate post others db (err e) r new h f = refl
  finish-duplicate post others db (ok (duplicate id)) r new h f = refl
  finish-duplicate post others db (ok (planned p)) r new h f =
      elim (Result-cases (post p (others db))) [
        | inr (e, x) ↦ absurd (ground arith)
        | inl ((y, d), x) ↦ absurd (ground (arith, new p y d x))
      ]

  pub post_transfer_new :
      (req : TransferRequest) (p : TransferPlan) (db : Db T) (r : Receipt) (db' : Db T)
      → post_transfer T req p db ≡ ok (r, db')
      → r.is_idempotent ≡ false
  unfolding post_transfer post_entries
  post_transfer_new req p db r db' h = ground arith

  post_cash_new :
      (req : CashRequest) (balance : ℕ) (t : Transaction) (y : EntryType) (p : CashPlan) (db : Db T)
      (r : Receipt) (db' : Db T)
      → post_cash T req balance t y p db ≡ ok (r, db')
      → r.is_idempotent ≡ false
  unfolding post_cash
  post_cash_new req balance t y p db r db' h = ground arith

  -- A cash posting that finds no transaction of its key is no duplicate.
  finish_cash_new :
      (post : CashPlan → Db T → Result LedgerError (Receipt × Db T)) (db db' : Db T) (r : Receipt)
      (rest : Result LedgerError CashPlan)
      → ((p : CashPlan) (x : Receipt) (d : Db T) → post p db ≡ ok (x, d) → x.is_idempotent ≡ false)
      → finish T post (λ d. d) db (unless_duplicate T none db rest) ≡ (ok r, db')
      → r.is_idempotent ≡ false
  unfolding finish unless_duplicate
  finish_cash_new post db db' r (err e) new h = absurd (ground arith)
  finish_cash_new post db db' r (ok p) new h = elim (Result-cases (post p db)) [
    | inr (e, x) ↦ absurd (ground arith)
    | inl ((y, d), x) ↦ ground (arith, new p y d x)
  ]

  pub withdrawal_is_new :
      (req : CashRequest) (db db' : Db T) (r : Receipt)
      → find_by_key T req.idempotency_key db ≡ none
      → execute_withdrawal T req (λ d. d) db ≡ (ok r, db')
      → r.is_idempotent ≡ false
  unfolding execute_withdrawal post_withdrawal
  withdrawal_is_new req db db' r free h =
      let step : execute_withdrawal T req (λ d. d) db
          ≡ finish T (post_withdrawal T req) (λ d. d) db
              (unless_duplicate T none db (plan_withdrawal T req db)) =
        ap
          (λ o.
            finish T (post_withdrawal T req) (λ d. d) db
              (unless_duplicate T o db (plan_withdrawal T req db)))
          free in
      finish_cash_new (post_withdrawal T req) db db' r (plan_withdrawal T req db)
        (λ p x d. post_cash_new req _ _ debit p db x d) (sym step ∙ h)

  -- A duplicate leaves the database as it was.
  pub transfer_duplicate :
      (req : TransferRequest) (others : Db T → Db T) (db : Db T) (r : Receipt)
      → (execute_double_entry_transfer T req others db).0 ≡ ok r
      → r.is_idempotent ≡ true
      → (execute_double_entry_transfer T req others db).1 ≡ db
  unfolding execute_double_entry_transfer
  transfer_duplicate req others db r =
      finish-duplicate (post_transfer T req) others db _ r
        (λ p x d. post_transfer_new req p (others db) x d)

  pub deposit_duplicate :
      (req : CashRequest) (others : Db T → Db T) (db : Db T) (r : Receipt)
      → (execute_deposit T req others db).0 ≡ ok r
      → r.is_idempotent ≡ true
      → (execute_deposit T req others db).1 ≡ db
  unfolding execute_deposit post_deposit
  deposit_duplicate req others db r =
      finish-duplicate (post_deposit T req) others db _ r
        (λ p x d. post_cash_new req _ _ credit p (others db) x d)

  pub withdrawal_duplicate :
      (req : CashRequest) (others : Db T → Db T) (db : Db T) (r : Receipt)
      → (execute_withdrawal T req others db).0 ≡ ok r
      → r.is_idempotent ≡ true
      → (execute_withdrawal T req others db).1 ≡ db
  unfolding execute_withdrawal post_withdrawal
  withdrawal_duplicate req others db r =
      finish-duplicate (post_withdrawal T req) others db _ r
        (λ p x d. post_cash_new req _ _ debit p (others db) x d)
