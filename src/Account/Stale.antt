-- ===== src/Account/Stale.antt =====
-- Where the cache gives a value that the database no longer has, while Redis works.
use vault_core.Prelude.{
  ◌==◌, Bool-cases, Option-cases, ℕ, ◌≡◌, refl, ◌∙◌, inl, inr, true, false, none, some, List, [],
  ◌∷◌, arith,
}
use vault_core.Result.{Result, ok, err}
use vault_core.Table.{Table}
use vault_core.Ledger.Model.{Tables, Db}
use vault_core.Ledger.Reads.{find_account}
use vault_core.Ledger.Service.{UserRole}
use vault_core.Account.Users.{User}
use vault_core.Account.Redis.{details_key, has_key, Details, AccountRedis}
use vault_core.Account.Cache.{
  AccountCache, keys_of, get_balance, get_details, set_balance, set_details, invalidate_accounts,
}
use vault_core.Account.Service.{
  AccountError, balance_payload, balance_reply, details_ttl, balance_ttl, is_denied, load_details,
  get_account_details, store_balance, get_account_balance,
}

-- Every command reaches the server.
abbrev pub Answers : AccountRedis → Type 0
Answers R = (st : R.State) → (R.attempt st).0 ≡ true

module _ (R : AccountRedis) (T : Tables) (U : Table User) where
  hit_details :
      (n : ℕ) (d : Details) (c : AccountCache R)
      → Answers R
      → R.details c.store n ≡ some d
      → (get_details R n c).0 ≡ some d
  unfolding get_details
  hit_details n d c up h = rw (up c.store, R.details-attempt c.store n, h) refl

  miss_balance :
      (n : ℕ) (c : AccountCache R) → R.balance c.store n ≡ none → (get_balance R n c).0 ≡ none
  unfolding get_balance
  miss_balance n c h = ground (arith, R.balance-attempt c.store n)

  store-get_balance :
      (n m : ℕ) (c : AccountCache R) → R.details (get_balance R n c).1.store m ≡ R.details c.store m
  unfolding get_balance
  store-get_balance n m c = ground (arith, R.details-attempt c.store m)

  pub get_account_details_hit :
      (ms n user : ℕ) (role : UserRole) (d : Details) (db : Db T) (c : AccountCache R)
      → Answers R
      → R.details c.store n ≡ some d
      → is_denied R T U user role d.1.user_id ≡ false
      → (get_account_details R T U ms n user role db c).0 ≡ ok d
  unfolding get_account_details
  get_account_details_hit ms n user role d db c up h may =
      rw (hit_details n d c up h, may, get_account_details) refl

  stored_balance :
      (ms n : ℕ) (q : Result AccountError Details × AccountCache R) (d : Details)
      → Answers R
      → q.0 ≡ ok d
      → ((store_balance R T U ms n q).0 ≡ ok (balance_reply (balance_payload d.1)))
        × (R.balance (store_balance R T U ms n q).1.store n ≡ some (balance_payload d.1))
  unfolding set_balance
  stored_balance ms n (err e, c) d up h = absurd (ground arith)
  stored_balance ms n (ok x, c) d up h =
      let xd : x ≡ d = ground arith in
      rw (xd, up c.store)
        (
          refl,
          ground (
            arith,
            R.balance-set_balance (R.attempt c.store).1 n (balance_payload d.1) balance_ttl n,
          ),
        )

  -- Where Redis answers every command, the balance of an account has expired and its details are still
  -- cached, `getAccountBalance` gives the balance of the cached details to whoever may see it, whatever
  -- the database holds by now, and caches it as the balance again.
  pub balance_from_details :
      (ms n user : ℕ) (role : UserRole) (d : Details) (db : Db T) (c : AccountCache R)
      → Answers R
      → R.balance c.store n ≡ none
      → R.details c.store n ≡ some d
      → is_denied R T U user role d.1.user_id ≡ false
      → ((get_account_balance R T U ms n user role db c).0
          ≡ ok (balance_reply (balance_payload d.1)))
        × (R.balance (get_account_balance R T U ms n user role db c).1.store n
            ≡ some (balance_payload d.1))
  unfolding get_account_balance
  balance_from_details ms n user role d db c up none_left cached may =
      rw (miss_balance n c none_left, get_account_balance)
        (stored_balance ms n _ d up
          (get_account_details_hit ms n user role d db _ up (store-get_balance n n c ∙ cached) may))

  -- What may follow: reads by anyone of any account, whatever the database holds at each, and
  -- invalidations of other accounts than `n`.
  pub data Since (n : ℕ) (c : AccountCache R) : AccountCache R → Type 0 where
    nothing : Since n c c
    read_details :
        {b : AccountCache R} (ms m user : ℕ) (role : UserRole) (db : Db T)
        → Since n c b
        → Since n c (get_account_details R T U ms m user role db b).1
    read_balance :
        {b : AccountCache R} (ms m user : ℕ) (role : UserRole) (db : Db T)
        → Since n c b
        → Since n c (get_account_balance R T U ms m user role db b).1
    invalidate_others :
        {b : AccountCache R} (ns : List ℕ)
        → has_key (details_key n) (keys_of R ns) ≡ false
        → Since n c b
        → Since n c (invalidate_accounts R ns b)

  store-get_details :
      (m n : ℕ) (c : AccountCache R) → R.details (get_details R m c).1.store n ≡ R.details c.store n
  unfolding get_details
  store-get_details m n c = ground (arith, R.details-attempt c.store n)

  set_details-other :
      (ms m n : ℕ) (a : Details) (c : AccountCache R)
      → (m == n) ≡ false
      → R.details (set_details R ms m a details_ttl c).store n ≡ R.details c.store n
  unfolding set_details
  set_details-other ms m n a c ne = ground (
    arith,
    ne,
    R.details-attempt c.store n,
    R.details-set_details (R.attempt c.store).1 m a details_ttl n,
  )

  load_details-other :
      (ms m n user : ℕ) (role : UserRole) (db : Db T) (c : AccountCache R)
      → (m == n) ≡ false
      → R.details (load_details R T U ms m user role db c).1.store n ≡ R.details c.store n
  unfolding load_details
  load_details-other ms m n user role db c ne = elim (Option-cases (find_account T m db)) [
    | inl x ↦ rw (x, load_details) refl
    | inr (a, x) ↦ elim (Bool-cases (is_denied R T U user role a.1.user_id)) [
      | inl y ↦ rw (x, y, load_details) refl
      | inr y ↦ rw (x, y, load_details) (set_details-other ms m n a c ne)
    ]
  ]

  details-get_account_details :
      (ms m n user : ℕ) (role : UserRole) (d : Details) (db : Db T) (c : AccountCache R)
      → Answers R
      → R.details c.store n ≡ some d
      → R.details (get_account_details R T U ms m user role db c).1.store n ≡ some d
  unfolding get_account_details
  details-get_account_details ms m n user role d db c up kept =
      let same_store = store-get_details m n c ∙ kept in
      elim (Option-cases (get_details R m c).0) [
        | inr (a, x) ↦ elim (Bool-cases (is_denied R T U user role a.1.user_id)) [
          | inl y ↦ rw (x, y, get_account_details) same_store
          | inr y ↦ rw (x, y, get_account_details) same_store
        ]
        | inl x ↦ elim (Bool-cases (m == n)) [
          | inl y ↦
              let eq : m ≡ n = ground arith in
              absurd (ground (arith, x, hit_details m d c up (rw eq kept)))
          | inr y ↦
              rw (x, get_account_details)
                (load_details-other ms m n user role db (get_details R m c).1 y ∙ same_store)
        ]
      ]

  details-store_balance :
      (ms m n : ℕ) (q : Result AccountError Details × AccountCache R)
      → R.details (store_balance R T U ms m q).1.store n ≡ R.details q.1.store n
  unfolding set_balance
  details-store_balance ms m n (err e, c) = refl
  details-store_balance ms m n (ok a, c) = ground (
    arith,
    R.details-attempt c.store n,
    R.details-set_balance (R.attempt c.store).1 m (balance_payload a.1) balance_ttl n,
  )

  details-get_account_balance :
      (ms m n user : ℕ) (role : UserRole) (d : Details) (db : Db T) (c : AccountCache R)
      → Answers R
      → R.details c.store n ≡ some d
      → R.details (get_account_balance R T U ms m user role db c).1.store n ≡ some d
  unfolding get_account_balance
  details-get_account_balance ms m n user role d db c up kept =
      let same_store = store-get_balance m n c ∙ kept in
      elim (Option-cases (get_balance R m c).0) [
        | inr (b, x) ↦ elim (Bool-cases (is_denied R T U user role b.user_id)) [
          | inl y ↦ rw (x, y, get_account_balance) same_store
          | inr y ↦ rw (x, y, get_account_balance) same_store
        ]
        | inl x ↦
            rw (x, get_account_balance)
              (details-store_balance ms m n
                  (get_account_details R T U ms m user role db (get_balance R m c).1)
                ∙ details-get_account_details ms m n user role d db (get_balance R m c).1 up
                    same_store)
      ]

  details-invalidate_accounts :
      (ns : List ℕ) (n : ℕ) (d : Details) (c : AccountCache R)
      → has_key (details_key n) (keys_of R ns) ≡ false
      → R.details c.store n ≡ some d
      → R.details (invalidate_accounts R ns c).store n ≡ some d
  unfolding invalidate_accounts
  details-invalidate_accounts [] n d c apart kept = kept
  details-invalidate_accounts (m ∷ ns) n d c apart kept = ground (
    arith,
    apart,
    kept,
    R.details-attempt c.store n,
    R.details-del (R.attempt c.store).1 (keys_of R (m ∷ ns)) n,
  )

  Since-details :
      (n : ℕ) (d : Details) (c : AccountCache R) {c' : AccountCache R}
      → Answers R
      → R.details c.store n ≡ some d
      → Since n c c'
      → R.details c'.store n ≡ some d
  Since-details n d c up kept nothing = kept
  Since-details n d c up kept (read_details {b} ms m user role db r) =
      details-get_account_details ms m n user role d db b up (Since-details n d c up kept r)
  Since-details n d c up kept (read_balance {b} ms m user role db r) =
      details-get_account_balance ms m n user role d db b up (Since-details n d c up kept r)
  Since-details n d c up kept (invalidate_others {b} ns apart r) =
      details-invalidate_accounts ns n d b apart (Since-details n d c up kept r)

  -- Where Redis answers every command, a read that has found an account in the database before a
  -- posting, and stores it after the posting's invalidation, leaves the old row in the cache. From then
  -- on, through any number of reads of any accounts and of invalidations of other accounts, as long as
  -- the entry does not expire, every caller who may see the account gets that row, whatever the
  -- database holds.
  pub late_store_is_stale :
      (ms n user other : ℕ) (role role' : UserRole) (d : Details) (db db' : Db T) (ns : List ℕ)
      (c c' : AccountCache R)
      → Answers R
      → find_account T n db ≡ some d
      → is_denied R T U user role d.1.user_id ≡ false
      → is_denied R T U other role' d.1.user_id ≡ false
      → Since n (load_details R T U ms n user role db (invalidate_accounts R ns c)).1 c'
      → (get_account_details R T U ms n other role' db' c').0 ≡ ok d
  unfolding load_details set_details
  late_store_is_stale ms n user other role role' d db db' ns c c' up found may may' since =
      let st = (R.attempt (invalidate_accounts R ns c).store).1 in
      let old = (load_details R T U ms n user role db (invalidate_accounts R ns c)).1 in
      let stored : R.details old.store n ≡ some d =
        rw (found, may, up (invalidate_accounts R ns c).store, load_details)
          (ground (arith, R.details-set_details st n d details_ttl n)) in
      get_account_details_hit ms n other role' d db' c' up (Since-details n d _ up stored since)
        may'
