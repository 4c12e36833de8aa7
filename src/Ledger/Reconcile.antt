-- ===== src/Ledger/Reconcile.antt =====
-- The books: an account's balance against its opening and its entries.
use vault_core.Ledger.Versions.{KeepsVersions}
use vault_core.Prelude.{
  ◌==◌, if◌then◌else◌, Bool-cases, ℕ, ◌+◌, ◌≡◌, refl, ap, inl, inr, Bool, true, false, not, ◌&&◌,
  some, arith,
}
use vault_core.Table.Rows.{lookup, sum_by}
use vault_core.Result.{Result, ok, err}
use vault_core.Ledger.Model.{
  Account, EntryType, debit, credit, LedgerEntry, LedgerError, Tables, Db,
}
use vault_core.Ledger.Posting.{
  TransferRequest, CashRequest, Receipt, execute_double_entry_transfer, execute_deposit,
  execute_withdrawal,
}
use vault_core.Ledger.Updates.{account_rows, entry_rows}
use vault_core.Ledger.Cash.{CashDone, deposit-CashDone, withdrawal-CashDone}
use vault_core.Ledger.Rollback.{
  Untouched, RollsBack, transfer-RollsBack, deposit-RollsBack, withdrawal-RollsBack,
  transfer_duplicate, deposit_duplicate, withdrawal_duplicate,
}
use vault_core.Ledger.Atomic.{TransferDone, transfer-TransferDone}

abbrev pub is_credit : EntryType → Bool
is_credit credit = true
is_credit debit = false

-- The amount of an entry, if it is a CREDIT, or a DEBIT, of the account `id`.
abbrev pub credit_of : ℕ → LedgerEntry → ℕ
credit_of id e = if e.account_id == id && is_credit e.entry_type then e.amount else 0

abbrev pub debit_of : ℕ → LedgerEntry → ℕ
debit_of id e = if e.account_id == id && not (is_credit e.entry_type) then e.amount else 0

module _ (T : Tables) (opening : ℕ → ℕ) where
  pub record IsReconciled (db : Db T) : Type 0 where
    pub books :
        (id : ℕ) (a : Account)
        → lookup id (account_rows T db) ≡ some a
        → a.balance + sum_by (debit_of id) (entry_rows T db)
          ≡ opening id + sum_by (credit_of id) (entry_rows T db)

  transfer-IsReconciled :
      (req : TransferRequest) (r : Receipt) (db before db' : Db T)
      → TransferDone T req r db before db'
      → IsReconciled before
      → IsReconciled db'
  unfolding sum_by
  transfer-IsReconciled req r db before db' done h = record {
    books = λ id a e. rw done.entries (
        ground (
          arith,
          done.covered,
          done.distinct,
          done.accounts id,
          done.source_before,
          done.target_before,
          h.books id done.source_row,
          h.books id done.target_row,
          h.books id a,
        ));
  }

  deposit-IsReconciled :
      (req : CashRequest) (r : Receipt) (db before db' : Db T)
      (done : CashDone T req credit r db before db')
      → done.new_balance ≡ done.account_row.balance + req.amount
      → IsReconciled before
      → IsReconciled db'
  unfolding sum_by
  deposit-IsReconciled req r db before db' done b h = record {
    books = λ id a e. rw done.entries (
        ground (
          arith,
          b,
          done.accounts id,
          done.account_before,
          h.books id done.account_row,
          h.books id a,
        ));
  }

  withdrawal-IsReconciled :
      (req : CashRequest) (r : Receipt) (db before db' : Db T)
      (done : CashDone T req debit r db before db')
      → done.new_balance + req.amount ≡ done.account_row.balance
      → IsReconciled before
      → IsReconciled db'
  unfolding sum_by
  withdrawal-IsReconciled req r db before db' done b h = record {
    books = λ id a e. rw done.entries (
        ground (
          arith,
          b,
          done.accounts id,
          done.account_before,
          h.books id done.account_row,
          h.books id a,
        ));
  }

  Untouched-IsReconciled :
      (db before db' : Db T)
      → Untouched T db before db'
      → IsReconciled db
      → IsReconciled before
      → IsReconciled db'
  Untouched-IsReconciled db before db' (inl e) h k = rw e h
  Untouched-IsReconciled db before db' (inr e) h k = rw e k

  pair : {E A B : Type 0} {x : Result E A × B} {r : A} → x.0 ≡ ok r → x ≡ (ok r, x.1)
  pair {x = (u, v)} e = ap (λ w. (w, v)) e

  -- By how a posting ended: thrown, a duplicate, or done.
  ended-IsReconciled :
      (db before : Db T) (x : Result LedgerError Receipt × Db T)
      → RollsBack T db before x
      → IsReconciled db
      → IsReconciled before
      → ((r : Receipt) → x.0 ≡ ok r → r.is_idempotent ≡ true → x.1 ≡ db)
      → ((r : Receipt) → x.0 ≡ ok r → r.is_idempotent ≡ false → IsReconciled x.1)
      → IsReconciled x.1
  ended-IsReconciled db before (err e, db') back h k dup done =
      Untouched-IsReconciled db before db' back h k
  ended-IsReconciled db before (ok r, db') back h k dup done = elim (Bool-cases r.is_idempotent) [
    | inl again ↦ rw (dup r refl again) h
    | inr new ↦ done r refl new
  ]

  -- Where the books are right before a posting and after what others commit meanwhile (if none of
  -- them changed a balance and kept the version), they are right after a transfer, a deposit or a
  -- withdrawal, however it ends: balance plus DEBIT entries is the opening plus CREDIT entries.
  pub postings-IsReconciled :
      (req : TransferRequest) (cash : CashRequest) (others : Db T → Db T) (db : Db T)
      → KeepsVersions T db (others db)
      → IsReconciled db
      → IsReconciled (others db)
      → IsReconciled (execute_double_entry_transfer T req others db).1
        × IsReconciled (execute_deposit T cash others db).1
        × IsReconciled (execute_withdrawal T cash others db).1
  postings-IsReconciled req cash others db kept h k = (
    ended-IsReconciled db (others db) _ (transfer-RollsBack T req others db) h k
        (transfer_duplicate T req others db)
        (λ r e n.
          transfer-IsReconciled req r db (others db) _
            (transfer-TransferDone T req others db _ r kept (pair e) n) k),
    ended-IsReconciled db (others db) _ (deposit-RollsBack T cash others db) h k
        (deposit_duplicate T cash others db)
        (λ r e n.
          let d = deposit-CashDone T cash others db _ r kept (pair e) n in
          deposit-IsReconciled cash r db (others db) _ d.0 d.1 k),
    ended-IsReconciled db (others db) _ (withdrawal-RollsBack T cash others db) h k
        (withdrawal_duplicate T cash others db)
        (λ r e n.
          let d = withdrawal-CashDone T cash others db _ r kept (pair e) n in
          withdrawal-IsReconciled cash r db (others db) _ d.0 d.1 k),
  )
