-- ===== src/Account/Service.antt =====
-- services/account-service/src/services/accountService.js: `createAccount`, `getAccountDetails`,
-- `getAccountBalance` and `getUserAccounts`, with the queries of repositories/accountRepository.js.
-- The type of an account, which nothing computes with, is left out.
use vault_core.Prelude.{
  ◌==◌, if◌then◌else◌, or_default, is_some, ℕ, zero, suc, ◌+◌, String, Bool, false, not, ◌&&◌,
  Option, none, some,
}
use vault_core.Result.{Result, ok, err}
use vault_core.Table.{Table}
use vault_core.Ledger.Model.{Account, AccountStatus, active, Tables, Db}
use vault_core.Ledger.Reads.{find_account}
use vault_core.Ledger.Service.{UserRole, is_staff}
use vault_core.Account.Users.{User, find_by_id}
use vault_core.Account.Redis.{BalanceData, Details, AccountRedis}
use vault_core.Account.Cache.{AccountCache, get_balance, get_details, set_balance, set_details}

pub data AccountError : Type 0 where
  customer_not_found : ℕ → AccountError
  account_not_found : ℕ → AccountError
  not_owner : AccountError
  -- Prisma's P2002, and any other error of the database.
  number_taken : AccountError
  database_error : String → AccountError

pub record NewAccount : Type 0 where
  pub currency : Option String
  pub initial_deposit : Option ℕ

-- What `getAccountBalance` returns.
pub record BalanceReply : Type 0 where
  pub account_number : ℕ
  pub balance : ℕ
  pub currency : String
  pub status : AccountStatus

-- A call's surroundings: the number that each attempt generates, and the errors of the database.
pub record CreateEnv : Type 0 where
  pub numbers : ℕ → ℕ
  pub create_error : ℕ → Option String

abbrev or_usd : Option String → String
or_usd none = "USD"
or_usd (some c) = c

-- The payload for the cache, and the reply without the owner.
abbrev pub balance_payload : Account → BalanceData
balance_payload a = record {
  account_number = a.account_number;
  user_id = a.user_id;
  balance = a.balance;
  currency = a.currency;
  status = a.status;
}

abbrev pub balance_reply : BalanceData → BalanceReply
balance_reply b = record {
  account_number = b.account_number;
  balance = b.balance;
  currency = b.currency;
  status = b.status;
}

-- `CACHE_TTL`
abbrev pub details_ttl : ℕ
details_ttl = 300

abbrev pub balance_ttl : ℕ
balance_ttl = 30

module _ (R : AccountRedis) (T : Tables) (U : Table User) where
  abbrev pub new_row : ℕ → ℕ → NewAccount → Account
  new_row n user new = record {
    account_number = n;
    user_id = user;
    status = active;
    balance = or_default new.initial_deposit 0;
    currency = or_usd new.currency;
    version = 0;
    is_deleted = false;
  }

  -- Is the `@unique` number taken, be it by a deleted account?
  unfoldable pub is_taken : ℕ → Db T → Bool
  is_taken n db = is_some (T.accounts.find_first db.accounts (λ a. a.account_number == n))

  -- `prisma.account.create`
  unfoldable pub insert_account :
      Option String → Account → Db T → Result AccountError ((ℕ × Account) × Db T)
  insert_account (some message) a db = err (database_error message)
  insert_account none a db =
      if is_taken a.account_number db
      then err number_taken
      else let (id, s) = T.accounts.create db.accounts a in ok ((id, a), record db { accounts = s })

  -- The loop, with the attempts left after this one; `none` stands for leaving it.
  abbrev pub after_insert :
      Result AccountError ((ℕ × Account) × Db T)
      → Db T
      → Option (Result AccountError (ℕ × Account) × Db T)
      → Result AccountError (ℕ × Account) × Db T
  after_insert (ok (a, db')) db again = (ok a, db')
  after_insert (err number_taken) db (some next) = next
  after_insert (err e) db again = (err e, db)

  -- The attempts `attempt`, …, of which `suc left` are left.
  unfoldable pub create_attempts :
      CreateEnv → ℕ → NewAccount → ℕ → ℕ → Db T → Result AccountError (ℕ × Account) × Db T
  unfolding insert_account
  create_attempts env user new zero attempt db =
      after_insert
        (insert_account (env.create_error attempt) (new_row (env.numbers attempt) user new) db) db
        none
  create_attempts env user new (suc left) attempt db =
      after_insert
        (insert_account (env.create_error attempt) (new_row (env.numbers attempt) user new) db) db
        (some (create_attempts env user new left (attempt + 1) db))

  -- `maxAttempts = 5`
  unfoldable pub create_account :
      CreateEnv → ℕ → NewAccount → U.State → Db T → Result AccountError (ℕ × Account) × Db T
  unfolding find_by_id create_attempts
  create_account env user new users db = elim (find_by_id U user users) [
    | none ↦ (err (customer_not_found user), db)
    | some u ↦ create_attempts env user new 4 1 db
  ]

  -- May this user not see an account of that owner?
  abbrev pub is_denied : ℕ → UserRole → ℕ → Bool
  is_denied user role owner = not (is_staff role) && not (owner == user)

  -- A cache miss.
  unfoldable pub load_details :
      ℕ → ℕ → ℕ → UserRole → Db T → AccountCache R → Result AccountError Details × AccountCache R
  load_details ms n user role db c = elim (find_account T n db) [
    | none ↦ (err (account_not_found n), c)
    | some a ↦
        if is_denied user role a.1.user_id
        then (err not_owner, c)
        else (ok a, set_details R ms n a details_ttl c)
  ]

  unfoldable pub get_account_details :
      ℕ → ℕ → ℕ → UserRole → Db T → AccountCache R → Result AccountError Details × AccountCache R
  unfolding load_details
  get_account_details ms n user role db c =
      let (cached, c') = get_details R n c in
      elim cached [
        | some a ↦ if is_denied user role a.1.user_id then (err not_owner, c') else (ok a, c')
        | none ↦ load_details ms n user role db c'
      ]

  -- After a miss of the balance.
  abbrev pub store_balance :
      ℕ
      → ℕ
      → Result AccountError Details × AccountCache R
      → Result AccountError BalanceReply × AccountCache R
  store_balance ms n (err e, c) = (err e, c)
  store_balance ms n (ok a, c) = (
    ok (balance_reply (balance_payload a.1)),
    set_balance R ms n (balance_payload a.1) balance_ttl c,
  )

  unfoldable pub get_account_balance :
      ℕ
      → ℕ
      → ℕ
      → UserRole
      → Db T
      → AccountCache R
      → Result AccountError BalanceReply × AccountCache R
  unfolding get_account_details
  get_account_balance ms n user role db c =
      let (cached, c') = get_balance R n c in
      elim cached [
        | some b ↦
            if is_denied user role b.user_id
            then (err not_owner, c')
            else (ok (balance_reply b), c')
        | none ↦ store_balance ms n (get_account_details ms n user role db c')
      ]
