-- ===== src/Account/Coherent.antt =====
-- The cache against the database: what an entry promises, and what the commands of the cache do to it.
use vault_core.Prelude.{
  ◌==◌, Bool-cases, Option-cases, ℕ, ◌≡◌, refl, sym, ◌∙◌, ◌⊎◌, inl, inr, false, none, some, arith,
}
use vault_core.Table.Rows.{lookup}
use vault_core.Ledger.Model.{Account, Tables, Db}
use vault_core.Ledger.Reads.{find_account}
use vault_core.Ledger.Updates.{account_rows, find_account-found}
use vault_core.Account.Redis.{BalanceData, Details, AccountRedis}
use vault_core.Account.Cache.{AccountCache, set_balance, set_details}
use vault_core.Account.Service.{balance_payload}

module _ (T : Tables) where
  -- The row that the account number `n` stands for.
  pub record Current (db : Db T) (n id : ℕ) (a : Account) : Type 0 where
    pub found : lookup id (account_rows T db) ≡ some a
    pub numbered : a.account_number ≡ n
    pub live : a.is_deleted ≡ false

  -- `accountNumber` is `@unique`.
  pub record IsUnique (db : Db T) : Type 0 where
    pub same_id :
        (i j : ℕ) (a b : Account)
        → lookup i (account_rows T db) ≡ some a
        → lookup j (account_rows T db) ≡ some b
        → a.account_number ≡ b.account_number
        → i ≡ j

  pub find_account-Current :
      (n id : ℕ) (a : Account) (db : Db T) → find_account T n db ≡ some (id, a) → Current db n id a
  find_account-Current n id a db h =
      let (e, f, g) = find_account-found T n id a db h in
      record { found = e; numbered = f; live = g }

  pub find_account_lem :
      (n id : ℕ) (a : Account) (db : Db T)
      → IsUnique db
      → Current db n id a
      → find_account T n db ≡ some (id, a)
  unfolding find_account
  find_account_lem n id a db u cur = elim (Option-cases (find_account T n db)) [
    | inl gone ↦ absurd (
        ground (
          arith,
          cur.numbered,
          cur.live,
          T.accounts.find_first_complete db.accounts _ id a gone cur.found,
        ))
    | inr ((j, b), e) ↦
        let (f, g, l) = find_account-found T n j b db e in
        let ij = u.same_id id j a b cur.found f (cc (cur.numbered, g)) in
        let ab : some a ≡ some b = sym cur.found ∙ rw ij f in e ∙ cc (ij, ab)
  ]

module _ (R : AccountRedis) (T : Tables) where
  pub record IsCoherent (db : Db T) (st : R.State) : Type 0 where
    pub details_row : (n : ℕ) (d : Details) → R.details st n ≡ some d → Current T db n d.0 d.1
    pub balance_row :
        (n : ℕ) (b : BalanceData)
        → R.balance st n ≡ some b
        → (d : Details) × Current T db n d.0 d.1 × (b ≡ balance_payload d.1)

  -- Each key has its value of before, or none.
  pub record Forgets (st st' : R.State) : Type 0 where
    pub details_less : (n : ℕ) → (R.details st' n ≡ none) ⊎ (R.details st' n ≡ R.details st n)
    pub balance_less : (n : ℕ) → (R.balance st' n ≡ none) ⊎ (R.balance st' n ≡ R.balance st n)

  pub Forgets-IsCoherent :
      (db : Db T) (st st' : R.State) → Forgets st st' → IsCoherent db st → IsCoherent db st'
  Forgets-IsCoherent db st st' f h = record {
    details_row = λ n d e. elim (f.details_less n) [
      | inl gone ↦ absurd (ground arith)
      | inr same ↦ h.details_row n d (sym same ∙ e)
    ];
    balance_row = λ n b e. elim (f.balance_less n) [
      | inl gone ↦ absurd (ground arith)
      | inr same ↦ h.balance_row n b (sym same ∙ e)
    ];
  }

  pub attempt-IsCoherent :
      (db : Db T) (st : R.State) → IsCoherent db st → IsCoherent db (R.attempt st).1
  attempt-IsCoherent db st h =
      Forgets-IsCoherent db st _
        (record {
          details_less = λ n. inr (R.details-attempt st n);
          balance_less = λ n. inr (R.balance-attempt st n);
        })
        h

  pub set_details-IsCoherent :
      (ms n ttl : ℕ) (d : Details) (db : Db T) (c : AccountCache R)
      → Current T db n d.0 d.1
      → IsCoherent db c.store
      → IsCoherent db (set_details R ms n d ttl c).store
  unfolding set_details
  set_details-IsCoherent ms n ttl d db c cur h =
      let st = (R.attempt c.store).1 in
      let h' = attempt-IsCoherent db c.store h in
      elim (Bool-cases (R.attempt c.store).0) [
        | inr down ↦ rw down h'
        | inl up ↦ rw up (record {
          details_row = λ m e x. elim (Bool-cases (n == m)) [
            | inl y ↦
                let same : n ≡ m = ground arith in
                let value : some d ≡ some e =
                  sym (R.details-set_details st n d ttl m ∙ rw y refl) ∙ x in
                let de : d ≡ e = cc value in rw (← same, ← de) cur
            | inr y ↦ h'.details_row m e (sym (R.details-set_details st n d ttl m ∙ rw y refl) ∙ x)
          ];
          balance_row = λ m b x. h'.balance_row m b (sym (R.balance-set_details st n d ttl m) ∙ x);
        })
      ]

  pub set_balance-IsCoherent :
      (ms n ttl : ℕ) (d : Details) (db : Db T) (c : AccountCache R)
      → Current T db n d.0 d.1
      → IsCoherent db c.store
      → IsCoherent db (set_balance R ms n (balance_payload d.1) ttl c).store
  unfolding set_balance
  set_balance-IsCoherent ms n ttl d db c cur h =
      let st = (R.attempt c.store).1 in
      let h' = attempt-IsCoherent db c.store h in
      let b₀ = balance_payload d.1 in
      elim (Bool-cases (R.attempt c.store).0) [
        | inr down ↦ rw down h'
        | inl up ↦ rw up (record {
          balance_row = λ m b x. elim (Bool-cases (n == m)) [
            | inl y ↦
                let same : n ≡ m = ground arith in
                let value : some b₀ ≡ some b =
                  sym (R.balance-set_balance st n b₀ ttl m ∙ rw y refl) ∙ x in
                (d, rw (← same) cur, cc value)
            | inr y ↦ h'.balance_row m b (sym (R.balance-set_balance st n b₀ ttl m ∙ rw y refl) ∙ x)
          ];
          details_row = λ m e x. h'.details_row m e (sym (R.details-set_balance st n b₀ ttl m) ∙ x);
        })
      ]
