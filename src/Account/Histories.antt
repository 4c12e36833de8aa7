-- ===== src/Account/Histories.antt =====
-- What may happen to the accounts and their cache, one thing after another: reads of the account
-- service, new accounts, keys that expire, and the postings of the ledger with the invalidation that
-- the payment service sends after each. A posting counts with its invalidation, which Redis carries
-- out, as one step.
use vault_core.Prelude.{ℕ, ◌≡◌, inl, inr, true, some, List, [], ◌∷◌, arith}
use vault_core.Table.{Table}
use vault_core.Table.Rows.{lookup, lookup-cons}
use vault_core.Ledger.Model.{Tables, Db}
use vault_core.Ledger.Posting.{
  TransferRequest, CashRequest, execute_double_entry_transfer, execute_deposit, execute_withdrawal,
}
use vault_core.Ledger.Updates.{account_rows}
use vault_core.Ledger.Service.{UserRole}
use vault_core.Account.Users.{User}
use vault_core.Account.Redis.{Details, AccountRedis}
use vault_core.Account.Cache.{AccountCache, invalidate_accounts}
use vault_core.Account.Service.{
  NewAccount, CreateEnv, create_account, get_account_details, get_account_balance,
}
use vault_core.Account.Coherent.{Current, IsUnique, IsCoherent, Forgets, Forgets-IsCoherent}
use vault_core.Account.Reads.{
  direct_details, direct_balance, get_account_details-ReadsThrough,
  get_account_balance-ReadsThrough,
}
use vault_core.Account.Changes.{
  ChangesOnly, ChangesOnly-IsUnique, transfer-ChangesOnly, deposit-ChangesOnly,
  withdrawal-ChangesOnly,
}
use vault_core.Account.Invalidate.{invalidate_accounts-IsCoherent}
use vault_core.Account.Create.{Inserted, create_account-Inserted}

module _ (R : AccountRedis) (T : Tables) (U : Table User) where
  pub record World : Type 0 where
    pub db : Db T
    pub cache : AccountCache R

  abbrev RedisAnswers : World → Type 0
  RedisAnswers w = (R.attempt w.cache.store).0 ≡ true

  pub data Step (w w' : World) : Type 0 where
    read_details :
        (ms n user : ℕ) (role : UserRole)
        → w' ≡ record w { cache = (get_account_details R T U ms n user role w.db w.cache).1 }
        → Step w w'
    read_balance :
        (ms n user : ℕ) (role : UserRole)
        → w' ≡ record w { cache = (get_account_balance R T U ms n user role w.db w.cache).1 }
        → Step w w'
    open_account :
        (env : CreateEnv) (user : ℕ) (new : NewAccount) (users : U.State)
        → w' ≡ record w { db = (create_account R T U env user new users w.db).1 }
        → Step w w'
    expire :
        (st : R.State)
        → Forgets R T w.cache.store st
        → w' ≡ record w { cache = record w.cache { store = st } }
        → Step w w'
    post_transfer :
        (req : TransferRequest)
        → RedisAnswers w
        → w' ≡ record {
          db = (execute_double_entry_transfer T req (λ d. d) w.db).1;
          cache =
              invalidate_accounts R
                (req.source_account_number ∷ req.target_account_number ∷ [])
                w.cache;
        }
        → Step w w'
    post_deposit :
        (req : CashRequest)
        → RedisAnswers w
        → w' ≡ record {
          db = (execute_deposit T req (λ d. d) w.db).1;
          cache = invalidate_accounts R (req.account_number ∷ []) w.cache;
        }
        → Step w w'
    post_withdrawal :
        (req : CashRequest)
        → RedisAnswers w
        → w' ≡ record {
          db = (execute_withdrawal T req (λ d. d) w.db).1;
          cache = invalidate_accounts R (req.account_number ∷ []) w.cache;
        }
        → Step w w'

  pub data Reach (w : World) : World → Type 0 where
    here : Reach w w
    next : {u v : World} → Reach w u → Step u v → Reach w v

  pub record IsCurrent (w : World) : Type 0 where
    pub numbers : IsUnique T w.db
    pub coherent : IsCoherent R T w.db w.cache.store

  Inserted-IsUnique : (db db' : Db T) → Inserted R T U db db' → IsUnique T db → IsUnique T db'
  Inserted-IsUnique db db' ins u = record {
    same_id = λ i j a b p q n.
        let at_i = lookup-cons ins.id i ins.row (account_rows T db) in
        let at_j = lookup-cons ins.id j ins.row (account_rows T db) in
        let p' : lookup i ((ins.id, ins.row) ∷ account_rows T db) ≡ some a = rw (← ins.rows) p in
        let q' : lookup j ((ins.id, ins.row) ∷ account_rows T db) ≡ some b = rw (← ins.rows) q in
        ground (arith, p', q', at_i, at_j, ins.free i a, ins.free j b, u.same_id i j a b);
  }

  Inserted-Current :
      (db db' : Db T)
      → Inserted R T U db db'
      → (n : ℕ) (d : Details) → Current T db n d.0 d.1
      → Current T db' n d.0 d.1
  Inserted-Current db db' ins n d cur = record {
    found =
        rw ins.rows (
          ground (arith, lookup-cons ins.id d.0 ins.row (account_rows T db), ins.fresh, cur.found));
    numbered = cur.numbered;
    live = cur.live;
  }

  Inserted-IsCoherent :
      (db db' : Db T) (st : R.State)
      → Inserted R T U db db'
      → IsCoherent R T db st
      → IsCoherent R T db' st
  Inserted-IsCoherent db db' st ins h = record {
    details_row = λ n d x. Inserted-Current db db' ins n d (h.details_row n d x);
    balance_row = λ n b x.
        let (d, cur, same) = h.balance_row n b x in (d, Inserted-Current db db' ins n d cur, same);
  }

  changed-IsCurrent :
      (ns : List ℕ) (w : World) (db' : Db T)
      → ChangesOnly T ns w.db db'
      → RedisAnswers w
      → IsCurrent w
      → IsCurrent (record { db = db'; cache = invalidate_accounts R ns w.cache })
  changed-IsCurrent ns w db' ch up h = record {
    numbers = ChangesOnly-IsUnique T ns w.db db' ch h.numbers;
    coherent = invalidate_accounts-IsCoherent R T ns w.db db' w.cache ch up h.coherent;
  }

  Step-IsCurrent : (w w' : World) → Step w w' → IsCurrent w → IsCurrent w'
  Step-IsCurrent w w' (read_details ms n user role e) h = rw e (record {
    numbers = h.numbers;
    coherent =
        (get_account_details-ReadsThrough R T U ms n user role w.db w.cache h.numbers h.coherent).1;
  })
  Step-IsCurrent w w' (read_balance ms n user role e) h = rw e (record {
    numbers = h.numbers;
    coherent =
        (get_account_balance-ReadsThrough R T U ms n user role w.db w.cache h.numbers h.coherent).1;
  })
  Step-IsCurrent w w' (open_account env user new users e) h =
      elim (create_account-Inserted R T U env user new users w.db) [
        | inl same ↦ rw (e, same) h
        | inr ins ↦ rw e (record {
          numbers = Inserted-IsUnique w.db _ ins h.numbers;
          coherent = Inserted-IsCoherent w.db _ w.cache.store ins h.coherent;
        })
      ]
  Step-IsCurrent w w' (expire st f e) h = rw e (record {
    numbers = h.numbers;
    coherent = Forgets-IsCoherent R T w.db w.cache.store st f h.coherent;
  })
  Step-IsCurrent w w' (post_transfer req up e) h =
      rw e (changed-IsCurrent _ w _ (transfer-ChangesOnly T req w.db) up h)
  Step-IsCurrent w w' (post_deposit req up e) h =
      rw e (changed-IsCurrent _ w _ (deposit-ChangesOnly T req w.db) up h)
  Step-IsCurrent w w' (post_withdrawal req up e) h =
      rw e (changed-IsCurrent _ w _ (withdrawal-ChangesOnly T req w.db) up h)

  Reach-IsCurrent : (w w' : World) → Reach w w' → IsCurrent w → IsCurrent w'
  Reach-IsCurrent w w' here h = h
  Reach-IsCurrent w w' (next r s) h = Step-IsCurrent _ w' s (Reach-IsCurrent w _ r h)

  -- From a state where the account numbers are unique and the cache agrees with the database, after
  -- any sequence of reads, new accounts, expiring keys, transfers, deposits and withdrawals, where
  -- each posting is followed by its invalidation at once and Redis carries it out, `getAccountDetails`
  -- and `getAccountBalance` give every caller what the database alone would give.
  pub Reach-reads :
      (w w' : World) (ms n user : ℕ) (role : UserRole)
      → Reach w w'
      → IsCurrent w
      → ((get_account_details R T U ms n user role w'.db w'.cache).0
          ≡ direct_details R T U n user role w'.db)
        × ((get_account_balance R T U ms n user role w'.db w'.cache).0
            ≡ direct_balance R T U n user role w'.db)
  Reach-reads w w' ms n user role r h =
      let k = Reach-IsCurrent w w' r h in
      (
        (get_account_details-ReadsThrough R T U ms n user role w'.db w'.cache k.numbers
            k.coherent).0,
        (get_account_balance-ReadsThrough R T U ms n user role w'.db w'.cache k.numbers
            k.coherent).0,
      )
