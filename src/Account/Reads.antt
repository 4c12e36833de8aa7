-- ===== src/Account/Reads.antt =====
-- The reads of the service over a coherent cache, against the database alone.
use vault_core.Prelude.{Bool-cases, Option-cases, ℕ, ◌≡◌, refl, sym, inl, inr, some, arith}
use vault_core.Result.{Result, ok, err, ◌>>=◌, ◌>>◌, or_throw, throw_if}
use vault_core.Table.{Table}
use vault_core.Ledger.Model.{Tables, Db}
use vault_core.Ledger.Reads.{find_account}
use vault_core.Ledger.Service.{UserRole}
use vault_core.Account.Users.{User}
use vault_core.Account.Redis.{BalanceData, Details, AccountRedis}
use vault_core.Account.Cache.{AccountCache, get_balance, get_details}
use vault_core.Account.Service.{
  AccountError, account_not_found, not_owner, BalanceReply, balance_payload, balance_reply,
  details_ttl, balance_ttl, is_denied, load_details, get_account_details, store_balance,
  get_account_balance,
}
use vault_core.Account.Coherent.{
  IsUnique, find_account-Current, find_account_lem, IsCoherent, attempt-IsCoherent,
  set_details-IsCoherent, set_balance-IsCoherent,
}

module _ (R : AccountRedis) (T : Tables) (U : Table User) where
  -- The two reads as if there were no cache.
  abbrev pub direct_details : ℕ → ℕ → UserRole → Db T → Result AccountError Details
  direct_details n user role db = do
    found ← or_throw (find_account T n db) (account_not_found n)
    throw_if (is_denied R T U user role found.1.user_id) not_owner
    ok found

  abbrev pub direct_balance : ℕ → ℕ → UserRole → Db T → Result AccountError BalanceReply
  direct_balance n user role db = do
    found ← direct_details n user role db
    ok (balance_reply (balance_payload found.1))

  -- The reply of the database alone, and a cache that agrees with the database.
  abbrev pub ReadsThrough :
      {X : Type 0} → Db T → Result AccountError X → Result AccountError X × AccountCache R → Type 0
  ReadsThrough db direct (r, c) = (r ≡ direct) × IsCoherent R T db c.store

  -- A read of Redis: the value is that of the store, if any.
  get_details-found :
      (n : ℕ) (c : AccountCache R) (d : Details)
      → (get_details R n c).0 ≡ some d
      → R.details c.store n ≡ some d
  unfolding get_details
  get_details-found n c d h = ground (arith, R.details-attempt c.store n)

  get_balance-found :
      (n : ℕ) (c : AccountCache R) (b : BalanceData)
      → (get_balance R n c).0 ≡ some b
      → R.balance c.store n ≡ some b
  unfolding get_balance
  get_balance-found n c b h = ground (arith, R.balance-attempt c.store n)

  get_details-store :
      (n : ℕ) (c : AccountCache R) → (get_details R n c).1.store ≡ (R.attempt c.store).1
  unfolding get_details
  get_details-store n c = ground arith

  get_balance-store :
      (n : ℕ) (c : AccountCache R) → (get_balance R n c).1.store ≡ (R.attempt c.store).1
  unfolding get_balance
  get_balance-store n c = ground arith

  load_details-ReadsThrough :
      (ms n user : ℕ) (role : UserRole) (db : Db T) (c : AccountCache R)
      → IsCoherent R T db c.store
      → ReadsThrough db (direct_details n user role db) (load_details R T U ms n user role db c)
  unfolding load_details
  load_details-ReadsThrough ms n user role db c h = elim (Option-cases (find_account T n db)) [
    | inl gone ↦ rw (gone, load_details) (refl, h)
    | inr (d, e) ↦ elim (Bool-cases (is_denied R T U user role d.1.user_id)) [
      | inl x ↦ rw (e, x, load_details) (refl, h)
      | inr x ↦
          rw (e, x, load_details)
            (
              refl,
              set_details-IsCoherent R T ms n details_ttl d db c
                  (find_account-Current T n d.0 d.1 db e) h,
            )
    ]
  ]

  -- Over a cache that agrees with the database, `getAccountDetails` returns and throws what a read of
  -- the database alone would, whether Redis has the account, has it not, or fails; and the cache agrees
  -- with the database afterwards.
  pub get_account_details-ReadsThrough :
      (ms n user : ℕ) (role : UserRole) (db : Db T) (c : AccountCache R)
      → IsUnique T db
      → IsCoherent R T db c.store
      → ReadsThrough db
          (direct_details n user role db)
          (get_account_details R T U ms n user role db c)
  unfolding get_account_details
  get_account_details-ReadsThrough ms n user role db c u h =
      let c' = (get_details R n c).1 in
      let h' : IsCoherent R T db c'.store =
        rw (get_details-store n c) (attempt-IsCoherent R T db c.store h) in
      elim (Option-cases (get_details R n c).0) [
        | inl miss ↦
            rw (miss, get_account_details) (load_details-ReadsThrough ms n user role db c' h')
        | inr (d, hit) ↦
            let cur = h.details_row n d (get_details-found n c d hit) in
            let e = find_account_lem T n d.0 d.1 db u cur in
            elim (Bool-cases (is_denied R T U user role d.1.user_id)) [
              | inl x ↦ rw (hit, e, x, get_account_details) (refl, h')
              | inr x ↦ rw (hit, e, x, get_account_details) (refl, h')
            ]
      ]

  direct_details-Current :
      (n user : ℕ) (role : UserRole) (db : Db T) (d : Details)
      → direct_details n user role db ≡ ok d
      → find_account T n db ≡ some d
  direct_details-Current n user role db d h = ground arith

  store_balance-ReadsThrough :
      (ms n user : ℕ) (role : UserRole) (db : Db T)
      (q : Result AccountError Details × AccountCache R)
      → ReadsThrough db (direct_details n user role db) q
      → ReadsThrough db (direct_balance n user role db) (store_balance R T U ms n q)
  store_balance-ReadsThrough ms n user role db (err e, c) (same, h) = (rw (← same) refl, h)
  store_balance-ReadsThrough ms n user role db (ok d, c) (same, h) = (
    rw (← same) refl,
    set_balance-IsCoherent R T ms n balance_ttl d db c
        (find_account-Current T n d.0 d.1 db (direct_details-Current n user role db d (sym same)))
        h,
  )

  -- The same for `getAccountBalance`, which looks for the balance, then for the details, and then reads
  -- the database.
  pub get_account_balance-ReadsThrough :
      (ms n user : ℕ) (role : UserRole) (db : Db T) (c : AccountCache R)
      → IsUnique T db
      → IsCoherent R T db c.store
      → ReadsThrough db
          (direct_balance n user role db)
          (get_account_balance R T U ms n user role db c)
  unfolding get_account_balance
  get_account_balance-ReadsThrough ms n user role db c u h =
      let c' = (get_balance R n c).1 in
      let h' : IsCoherent R T db c'.store =
        rw (get_balance-store n c) (attempt-IsCoherent R T db c.store h) in
      elim (Option-cases (get_balance R n c).0) [
        | inl miss ↦
            rw (miss, get_account_balance)
              (store_balance-ReadsThrough ms n user role db _
                (get_account_details-ReadsThrough ms n user role db c' u h'))
        | inr (b, hit) ↦
            let (d, cur, same) = h.balance_row n b (get_balance-found n c b hit) in
            let e = find_account_lem T n d.0 d.1 db u cur in
            elim (Bool-cases (is_denied R T U user role d.1.user_id)) [
              | inl x ↦ rw (hit, same, e, x, get_account_balance) (refl, h')
              | inr x ↦ rw (hit, same, e, x, get_account_balance) (refl, h')
            ]
      ]
