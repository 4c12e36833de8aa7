-- ===== src/Account/Changes.antt =====
-- What a posting of the ledger changes in the accounts, by their numbers, and what the cache has to
-- forget for it.
use vault_core.Prelude.{
  ◌==◌, Bool-cases, ℕ, ◌≡◌, refl, ap, inl, inr, Bool, true, false, ◌||◌, some, List, [], ◌∷◌, arith,
}
use vault_core.Result.{Result, ok, err}
use vault_core.Table.Rows.{lookup}
use vault_core.Ledger.Model.{Account, EntryType, LedgerError, Tables, Db}
use vault_core.Ledger.Posting.{
  TransferRequest, CashRequest, Receipt, execute_double_entry_transfer, execute_deposit,
  execute_withdrawal,
}
use vault_core.Ledger.Updates.{account_rows}
use vault_core.Ledger.Versions.{KeepsVersions}
use vault_core.Ledger.Rollback.{
  RollsBack, transfer-RollsBack, deposit-RollsBack, withdrawal-RollsBack, transfer_duplicate,
  deposit_duplicate, withdrawal_duplicate,
}
use vault_core.Ledger.Atomic.{TransferDone, transfer-TransferDone}
use vault_core.Ledger.Cash.{CashDone, deposit-CashDone, withdrawal-CashDone}
use vault_core.Account.Coherent.{IsUnique}

abbrev pub has_number : ℕ → List ℕ → Bool
has_number n [] = false
has_number n (m ∷ r) = n == m || has_number n r

module _ (T : Tables) where
  -- Only the accounts with these numbers have changed, and no account changed its number.
  pub record ChangesOnly (ns : List ℕ) (db db' : Db T) : Type 0 where
    pub kept :
        (id : ℕ) (a : Account)
        → lookup id (account_rows T db) ≡ some a
        → has_number a.account_number ns ≡ false
        → lookup id (account_rows T db') ≡ some a
    pub origin :
        (id : ℕ) (b : Account)
        → lookup id (account_rows T db') ≡ some b
        → (a : Account) × (lookup id (account_rows T db) ≡ some a)
          × (a.account_number ≡ b.account_number)

  same-ChangesOnly : (ns : List ℕ) (db db' : Db T) → db' ≡ db → ChangesOnly ns db db'
  same-ChangesOnly ns db db' e =
      rw e (record { kept = λ id a h n. h; origin = λ id b h. (b, h, refl) })

  pub ChangesOnly-IsUnique :
      (ns : List ℕ) (db db' : Db T) → ChangesOnly ns db db' → IsUnique T db → IsUnique T db'
  ChangesOnly-IsUnique ns db db' ch u = record {
    same_id = λ i j a b p q n.
        let (a₀, p₀, m) = ch.origin i a p in
        let (b₀, q₀, k) = ch.origin j b q in u.same_id i j a₀ b₀ p₀ q₀ (cc (m, k, n));
  }

  keeps_all : (db : Db T) → KeepsVersions T db db
  keeps_all db = record { guarded = λ id a b p q v. cc (p, q) }

  done-ChangesOnly :
      (req : TransferRequest) (r : Receipt) (db db' : Db T)
      → TransferDone T req r db db db'
      → ChangesOnly (req.source_account_number ∷ req.target_account_number ∷ []) db db'
  done-ChangesOnly req r db db' done =
      let from = done.source_active in
      let to = done.target_active in
      record {
        kept = λ id a h n.
            ground (arith, done.accounts id, from.found, from.numbered, to.found, to.numbered);
        origin = λ id b h. elim (Bool-cases (done.source_id == id)) [
          | inl x ↦ (done.source_row, ground arith, ground (arith, done.accounts id))
          | inr x ↦ elim (Bool-cases (done.target_id == id)) [
            | inl y ↦ (done.target_row, ground arith, ground (arith, done.accounts id))
            | inr y ↦ (b, ground (arith, done.accounts id), refl)
          ]
        ];
      }

  cash-ChangesOnly :
      (req : CashRequest) (side : EntryType) (r : Receipt) (db db' : Db T)
      → CashDone T req side r db db db'
      → ChangesOnly (req.account_number ∷ []) db db'
  cash-ChangesOnly req side r db db' done =
      let at = done.account_active in
      record {
        kept = λ id a h n. ground (arith, done.accounts id, at.found, at.numbered);
        origin = λ id b h. elim (Bool-cases (done.account_id == id)) [
          | inl x ↦ (done.account_row, ground arith, ground (arith, done.accounts id))
          | inr x ↦ (b, ground (arith, done.accounts id), refl)
        ];
      }

  -- A posting by its result: an error and a duplicate change nothing.
  posting-ChangesOnly :
      (ns : List ℕ) (db db' : Db T) (q : Result LedgerError Receipt)
      → RollsBack T db db (q, db')
      → ((r : Receipt) → q ≡ ok r → r.is_idempotent ≡ true → db' ≡ db)
      → ((r : Receipt) → q ≡ ok r → r.is_idempotent ≡ false → ChangesOnly ns db db')
      → ChangesOnly ns db db'
  posting-ChangesOnly ns db db' (err e) back again new =
      same-ChangesOnly ns db db' (elim back [ inl x ↦ x | inr x ↦ x ])
  posting-ChangesOnly ns db db' (ok r) back again new = elim (Bool-cases r.is_idempotent) [
    | inl x ↦ same-ChangesOnly ns db db' (again r refl x)
    | inr x ↦ new r refl x
  ]

  pub transfer-ChangesOnly :
      (req : TransferRequest) (db : Db T)
      → ChangesOnly
          (req.source_account_number ∷ req.target_account_number ∷ [])
          db
          (execute_double_entry_transfer T req (λ d. d) db).1
  transfer-ChangesOnly req db =
      let db' = (execute_double_entry_transfer T req (λ d. d) db).1 in
      posting-ChangesOnly _ db db' (execute_double_entry_transfer T req (λ d. d) db).0
        (transfer-RollsBack T req (λ d. d) db) (λ r h x. transfer_duplicate T req (λ d. d) db r h x)
        (λ r h x.
          done-ChangesOnly req r db _
            (transfer-TransferDone T req (λ d. d) db _ r (keeps_all db) (ap (λ q. (q, db')) h) x))

  pub deposit-ChangesOnly :
      (req : CashRequest) (db : Db T)
      → ChangesOnly (req.account_number ∷ []) db (execute_deposit T req (λ d. d) db).1
  deposit-ChangesOnly req db =
      let db' = (execute_deposit T req (λ d. d) db).1 in
      posting-ChangesOnly _ db db' (execute_deposit T req (λ d. d) db).0
        (deposit-RollsBack T req (λ d. d) db) (λ r h x. deposit_duplicate T req (λ d. d) db r h x)
        (λ r h x.
          cash-ChangesOnly req _ r db _
            (deposit-CashDone T req (λ d. d) db _ r (keeps_all db) (ap (λ q. (q, db')) h) x).0)

  pub withdrawal-ChangesOnly :
      (req : CashRequest) (db : Db T)
      → ChangesOnly (req.account_number ∷ []) db (execute_withdrawal T req (λ d. d) db).1
  withdrawal-ChangesOnly req db =
      let db' = (execute_withdrawal T req (λ d. d) db).1 in
      posting-ChangesOnly _ db db' (execute_withdrawal T req (λ d. d) db).0
        (withdrawal-RollsBack T req (λ d. d) db)
        (λ r h x. withdrawal_duplicate T req (λ d. d) db r h x)
        (λ r h x.
          cash-ChangesOnly req _ r db _
            (withdrawal-CashDone T req (λ d. d) db _ r (keeps_all db) (ap (λ q. (q, db')) h) x).0)
