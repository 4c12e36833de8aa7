-- ===== src/Account/Redis.antt =====
-- Redis DB1 is not code of the repository: it is a parameter, a state with the commands that the
-- account cache sends. The two prefixes are two views of it. A value is what `JSON.parse` gives back
-- of it.
use vault_core.Prelude.{
  ◌==◌, if◌then◌else◌, ℕ, String, ◌≡◌, Bool, false, ◌||◌, Option, none, some, List, [], ◌∷◌,
}
use vault_core.Ledger.Model.{Account, AccountStatus}

-- `balancePayload`
pub record BalanceData : Type 0 where
  pub account_number : ℕ
  pub user_id : ℕ
  pub balance : ℕ
  pub currency : String
  pub status : AccountStatus

-- A row with its id; the owner's name, which nothing computes with, is left out.
abbrev pub Details : Type 0
Details = ℕ × Account

-- `account:balance:…` and `account:details:…`
pub data CacheKey : Type 0 where
  balance_key details_key : ℕ → CacheKey

abbrev pub same_key : CacheKey → CacheKey → Bool
same_key (balance_key n) (balance_key m) = n == m
same_key (details_key n) (details_key m) = n == m
same_key _ _ = false

abbrev pub has_key : CacheKey → List CacheKey → Bool
has_key k [] = false
has_key k (j ∷ r) = same_key k j || has_key k r

pub record AccountRedis : Type 1 where
  pub State : Type 0
  -- `GET`
  pub balance : State → ℕ → Option BalanceData
  pub details : State → ℕ → Option Details
  -- Does the next command reach the server? If not, the client throws.
  pub attempt : State → Bool × State
  -- `SET key value EX ttl`
  pub set_balance : State → ℕ → BalanceData → ℕ → State
  pub set_details : State → ℕ → Details → ℕ → State
  -- `DEL keys`, with the number of keys that were there.
  pub del : State → List CacheKey → ℕ × State
  pub balance-attempt : (s : State) (n : ℕ) → balance (attempt s).1 n ≡ balance s n
  pub details-attempt : (s : State) (n : ℕ) → details (attempt s).1 n ≡ details s n
  pub balance-set_balance :
      (s : State) (n : ℕ) (b : BalanceData) (ttl m : ℕ)
      → balance (set_balance s n b ttl) m ≡ (if n == m then some b else balance s m)
  pub details-set_balance :
      (s : State) (n : ℕ) (b : BalanceData) (ttl m : ℕ)
      → details (set_balance s n b ttl) m ≡ details s m
  pub details-set_details :
      (s : State) (n : ℕ) (d : Details) (ttl m : ℕ)
      → details (set_details s n d ttl) m ≡ (if n == m then some d else details s m)
  pub balance-set_details :
      (s : State) (n : ℕ) (d : Details) (ttl m : ℕ)
      → balance (set_details s n d ttl) m ≡ balance s m
  pub balance-del :
      (s : State) (ks : List CacheKey) (n : ℕ)
      → balance (del s ks).1 n ≡ (if has_key (balance_key n) ks then none else balance s n)
  pub details-del :
      (s : State) (ks : List CacheKey) (n : ℕ)
      → details (del s ks).1 n ≡ (if has_key (details_key n) ks then none else details s n)
