-- ===== src/Account/Invalidate.antt =====
-- Invalidation after a change of the accounts.
use vault_core.Prelude.{
  ◌==◌, Bool-cases, ℕ, ◌≡◌, refl, ap, inl, inr, true, false, ◌||◌, List, [], ◌∷◌, arith,
}
use vault_core.Ledger.Model.{Account, Tables, Db}
use vault_core.Account.Redis.{balance_key, details_key, has_key, AccountRedis}
use vault_core.Account.Cache.{AccountCache, keys_of, invalidate_accounts}
use vault_core.Account.Coherent.{Current, IsCoherent, attempt-IsCoherent}
use vault_core.Account.Changes.{has_number, ChangesOnly}

module _ (R : AccountRedis) (T : Tables) where
  has_details_key : (n : ℕ) (ns : List ℕ) → has_key (details_key n) (keys_of R ns) ≡ has_number n ns
  has_details_key n [] = refl
  has_details_key n (m ∷ r) = ap (λ b. (n == m) || b) (has_details_key n r)

  has_balance_key : (n : ℕ) (ns : List ℕ) → has_key (balance_key n) (keys_of R ns) ≡ has_number n ns
  has_balance_key n [] = refl
  has_balance_key n (m ∷ r) = ap (λ b. (n == m) || b) (has_balance_key n r)

  Current-kept :
      (ns : List ℕ) (n id : ℕ) (a : Account) (db db' : Db T)
      → ChangesOnly T ns db db'
      → has_number n ns ≡ false
      → Current T db n id a
      → Current T db' n id a
  Current-kept ns n id a db db' ch h cur = record {
    found = ch.kept id a cur.found (rw cur.numbered h);
    numbered = cur.numbered;
    live = cur.live;
  }

  deleted-IsCoherent :
      (ns : List ℕ) (db db' : Db T) (st : R.State)
      → ChangesOnly T ns db db'
      → IsCoherent R T db st
      → IsCoherent R T db' (R.del st (keys_of R ns)).1
  deleted-IsCoherent ns db db' st ch h = record {
    details_row = λ n d x. elim (Bool-cases (has_number n ns)) [
      | inl y ↦ absurd (ground (arith, R.details-del st (keys_of R ns) n, has_details_key n ns))
      | inr y ↦ Current-kept ns n d.0 d.1 db db' ch y (
          h.details_row n d
            (ground (arith, R.details-del st (keys_of R ns) n, has_details_key n ns)))
    ];
    balance_row = λ n b x. elim (Bool-cases (has_number n ns)) [
      | inl y ↦ absurd (ground (arith, R.balance-del st (keys_of R ns) n, has_balance_key n ns))
      | inr y ↦
          let (d, cur, same) =
            h.balance_row n b
              (ground (arith, R.balance-del st (keys_of R ns) n, has_balance_key n ns)) in
          (d, Current-kept ns n d.0 d.1 db db' ch y cur, same)
    ];
  }

  -- A cache that agreed with the database before a change agrees with it after the change, once the
  -- accounts that changed are invalidated and Redis carried that out.
  pub invalidate_accounts-IsCoherent :
      (ns : List ℕ) (db db' : Db T) (c : AccountCache R)
      → ChangesOnly T ns db db'
      → (R.attempt c.store).0 ≡ true
      → IsCoherent R T db c.store
      → IsCoherent R T db' (invalidate_accounts R ns c).store
  unfolding invalidate_accounts
  invalidate_accounts-IsCoherent [] db db' c ch up h = record {
    details_row = λ n d x. Current-kept [] n d.0 d.1 db db' ch refl (h.details_row n d x);
    balance_row = λ n b x.
        let (d, cur, same) = h.balance_row n b x in
        (d, Current-kept [] n d.0 d.1 db db' ch refl cur, same);
  }
  invalidate_accounts-IsCoherent (n ∷ r) db db' c ch up h = rw up (
      deleted-IsCoherent (n ∷ r) db db' (R.attempt c.store).1 ch
        (attempt-IsCoherent R T db c.store h))
