-- ===== src/Account/Cache.antt =====
-- `AccountCacheService`: every operation swallows the errors of Redis. Log lines, the connection and
-- `getMetrics`, which divides and rounds, are left out; `ms` is the time that a write took.
use vault_core.Prelude.{if◌then◌else◌, ℕ, ◌+◌, Bool, true, false, Option, none, some, List, [], ◌∷◌}
use vault_core.Account.Redis.{
  BalanceData, Details, CacheKey, balance_key, details_key, AccountRedis,
}

pub record CacheMetrics : Type 0 where
  pub hits : ℕ
  pub misses : ℕ
  pub invalidations : ℕ
  pub sets : ℕ
  pub write_latency_total_ms : ℕ

module _ (R : AccountRedis) where
  pub record AccountCache : Type 0 where
    pub store : R.State
    pub metrics : CacheMetrics

  abbrev pub count_hit : AccountCache → AccountCache
  count_hit c = record c { metrics = record c.metrics { hits = c.metrics.hits + 1 } }

  abbrev pub count_miss : AccountCache → AccountCache
  count_miss c = record c { metrics = record c.metrics { misses = c.metrics.misses + 1 } }

  abbrev pub count_set : ℕ → AccountCache → AccountCache
  count_set ms c = record c {
    metrics = record c.metrics {
      sets = c.metrics.sets + 1;
      write_latency_total_ms = c.metrics.write_latency_total_ms + ms;
    };
  }

  abbrev pub count_invalidations : ℕ → AccountCache → AccountCache
  count_invalidations n c = record c {
    metrics = record c.metrics { invalidations = c.metrics.invalidations + n };
  }

  -- A hit, a miss, or nothing counted where Redis throws.
  abbrev pub count_read : {X : Type 0} → Bool → Option X → AccountCache → Option X × AccountCache
  count_read false found c = (none, c)
  count_read true none c = (none, count_miss c)
  count_read true (some x) c = (some x, count_hit c)

  unfoldable pub get_balance : ℕ → AccountCache → Option BalanceData × AccountCache
  get_balance n c =
      let (up, st) = R.attempt c.store in count_read up (R.balance st n) (record c { store = st })

  unfoldable pub get_details : ℕ → AccountCache → Option Details × AccountCache
  get_details n c =
      let (up, st) = R.attempt c.store in count_read up (R.details st n) (record c { store = st })

  unfoldable pub set_balance : ℕ → ℕ → BalanceData → ℕ → AccountCache → AccountCache
  set_balance ms n b ttl c =
      let (up, st) = R.attempt c.store in
      if up
      then count_set ms (record c { store = R.set_balance st n b ttl })
      else record c { store = st }

  unfoldable pub set_details : ℕ → ℕ → Details → ℕ → AccountCache → AccountCache
  set_details ms n d ttl c =
      let (up, st) = R.attempt c.store in
      if up
      then count_set ms (record c { store = R.set_details st n d ttl })
      else record c { store = st }

  -- `await redis.del(...keys)` in a `try`.
  abbrev pub delete_keys : List CacheKey → AccountCache → AccountCache
  delete_keys ks c =
      let (up, st) = R.attempt c.store in
      let (count, st') = R.del st ks in
      if up then count_invalidations count (record c { store = st' }) else record c { store = st }

  unfoldable pub invalidate_account : ℕ → AccountCache → AccountCache
  invalidate_account n c = delete_keys (balance_key n ∷ details_key n ∷ []) c

  -- `accountNumbers.flatMap`
  abbrev pub keys_of : List ℕ → List CacheKey
  keys_of [] = []
  keys_of (n ∷ r) = balance_key n ∷ details_key n ∷ keys_of r

  unfoldable pub invalidate_accounts : List ℕ → AccountCache → AccountCache
  invalidate_accounts [] c = c
  invalidate_accounts (n ∷ r) c = delete_keys (keys_of (n ∷ r)) c
