-- ===== src/Account/Create.antt =====
-- How `createAccount` ends.
use vault_core.Prelude.{
  ◌==◌, if◌then◌else◌, Bool-cases, Option-cases, ℕ, zero, suc, ◌+◌, String, ◌≡◌, refl, ◌⊎◌, inl,
  inr, false, Option, none, some, ◌∷◌, arith,
}
use vault_core.Result.{Result, ok, err}
use vault_core.Table.{Table}
use vault_core.Table.Rows.{lookup}
use vault_core.Ledger.Model.{Account, Tables, Db}
use vault_core.Ledger.Updates.{account_rows}
use vault_core.Account.Users.{User, find_by_id}
use vault_core.Account.Redis.{AccountRedis}
use vault_core.Account.Service.{
  AccountError, customer_not_found, account_not_found, not_owner, number_taken, database_error,
  NewAccount, CreateEnv, new_row, is_taken, insert_account, after_insert, create_attempts,
  create_account,
}

module _ (R : AccountRedis) (T : Tables) (U : Table User) where
  -- The first number that is not taken, of those of the attempts.
  unfoldable pub first_free : (ℕ → ℕ) → ℕ → ℕ → Db T → Option ℕ
  first_free numbers zero attempt db =
      if is_taken R T U (numbers attempt) db then none else some (numbers attempt)
  first_free numbers (suc left) attempt db =
      let rest = first_free numbers left (attempt + 1) db in
      if is_taken R T U (numbers attempt) db then rest else some (numbers attempt)

  -- The account with a number, if there is one left.
  abbrev pub opened : ℕ → NewAccount → Option ℕ → Db T → Result AccountError (ℕ × Account) × Db T
  opened user new none db = (err number_taken, db)
  opened user new (some n) db =
      let a = new_row R T U n user new in
      let (id, s) = T.accounts.create db.accounts a in (ok (id, a), record db { accounts = s })

  create_attempts_lem :
      (env : CreateEnv) (user : ℕ) (new : NewAccount) (left attempt : ℕ) (db : Db T)
      → ((k : ℕ) → env.create_error k ≡ none)
      → create_attempts R T U env user new left attempt db
        ≡ opened user new (first_free env.numbers left attempt db) db
  unfolding create_attempts insert_account first_free
  create_attempts_lem env user new zero attempt db works =
      elim (Bool-cases (is_taken R T U (env.numbers attempt) db)) [
        | inl x ↦ rw (works attempt, x) refl
        | inr x ↦ rw (works attempt, x) refl
      ]
  create_attempts_lem env user new (suc left) attempt db works =
      elim (Bool-cases (is_taken R T U (env.numbers attempt) db)) [
        | inl x ↦
            rw (works attempt, x) (create_attempts_lem env user new left (attempt + 1) db works)
        | inr x ↦ rw (works attempt, x) refl
      ]

  -- Where the customer exists and the database meets no other error, `createAccount` opens an account
  -- with the first of its five generated numbers that no account has, and throws P2002 and changes
  -- nothing if all five are taken; it never ends its loop without a result.
  pub create_account_lem :
      (env : CreateEnv) (user : ℕ) (new : NewAccount) (users : U.State) (db : Db T) (u : User)
      → find_by_id U user users ≡ some u
      → ((k : ℕ) → env.create_error k ≡ none)
      → create_account R T U env user new users db
        ≡ opened user new (first_free env.numbers 4 1 db) db
  unfolding create_account
  create_account_lem env user new users db u h works =
      rw (h, create_account) (create_attempts_lem env user new 4 1 db works)

  -- Nothing has changed, or there is one row more, with a number that was free.
  pub record Inserted (db db' : Db T) : Type 0 where
    pub id : ℕ
    pub row : Account
    pub fresh : lookup id (account_rows T db) ≡ none
    pub free :
        (j : ℕ) (b : Account)
        → lookup j (account_rows T db) ≡ some b
        → (b.account_number == row.account_number) ≡ false
    pub rows : account_rows T db' ≡ (id, row) ∷ account_rows T db

  insert_account-Inserted :
      (error : Option String) (a : Account) (db : Db T) (d : ℕ × Account) (db' : Db T)
      → insert_account R T U error a db ≡ ok (d, db')
      → Inserted db db'
  unfolding insert_account is_taken
  insert_account-Inserted (some message) a db d db' h = absurd (ground arith)
  insert_account-Inserted none a db d db' h =
      elim (Option-cases
        (T.accounts.find_first db.accounts (λ b. b.account_number == a.account_number))) [
          | inr (f, x) ↦ absurd (ground arith)
          | inl x ↦ record {
            id = (T.accounts.create db.accounts a).0;
            row = a;
            fresh = T.accounts.create_fresh db.accounts a;
            free = λ j b e. T.accounts.find_first_complete db.accounts _ j b x e;
            rows = ground (arith, T.accounts.rows-create db.accounts a);
          }
        ]

  after_insert-Inserted :
      (q : Result AccountError ((ℕ × Account) × Db T)) (db : Db T)
      (again : Option (Result AccountError (ℕ × Account) × Db T))
      → ((d : ℕ × Account) (db' : Db T) → q ≡ ok (d, db') → Inserted db db')
      → ((next : Result AccountError (ℕ × Account) × Db T)
          → again ≡ some next
          → (next.1 ≡ db) ⊎ Inserted db next.1)
      → ((after_insert R T U q db again).1 ≡ db) ⊎ Inserted db (after_insert R T U q db again).1
  after_insert-Inserted (ok (d, db')) db again one more = inr (one d db' refl)
  after_insert-Inserted (err number_taken) db none one more = inl refl
  after_insert-Inserted (err number_taken) db (some next) one more = more next refl
  after_insert-Inserted (err (customer_not_found n)) db again one more = inl refl
  after_insert-Inserted (err (account_not_found n)) db again one more = inl refl
  after_insert-Inserted (err not_owner) db again one more = inl refl
  after_insert-Inserted (err (database_error m)) db again one more = inl refl

  create_attempts-Inserted :
      (env : CreateEnv) (user : ℕ) (new : NewAccount) (left attempt : ℕ) (db : Db T)
      → let db' = (create_attempts R T U env user new left attempt db).1 in
        (db' ≡ db) ⊎ Inserted db db'
  unfolding create_attempts
  create_attempts-Inserted env user new zero attempt db =
      after_insert-Inserted _ db none (insert_account-Inserted _ _ db)
        (λ next h. absurd (ground arith))
  create_attempts-Inserted env user new (suc left) attempt db =
      after_insert-Inserted _ db _ (insert_account-Inserted _ _ db) (λ next h.
        let e : create_attempts R T U env user new left (attempt + 1) db ≡ next = ground arith in
        rw (← e) (create_attempts-Inserted env user new left (attempt + 1) db))

  pub create_account-Inserted :
      (env : CreateEnv) (user : ℕ) (new : NewAccount) (users : U.State) (db : Db T)
      → let db' = (create_account R T U env user new users db).1 in (db' ≡ db) ⊎ Inserted db db'
  unfolding create_account
  create_account-Inserted env user new users db = elim (Option-cases (find_by_id U user users)) [
    | inl x ↦ rw (x, create_account) (inl refl)
    | inr (u, x) ↦ rw (x, create_account) (create_attempts-Inserted env user new 4 1 db)
  ]
