-- ===== src/Lock/Service.antt =====
-- `LockService`: one lock, its release, and the idempotency records. Log lines are left out; the key
-- `lock:account:…` stands for the account number in it.
use vault_core.Prelude.{
  ◌==◌, if◌then◌else◌, Option-cases, is_some, ℕ, ◌+◌, ◌≡◌, inl, inr, Bool, true, false, ◌&&◌,
  Option, none, some, arith,
}
use vault_core.Lock.Redis.{Redis}

pub data LockError : Type 0 where
  -- `ConflictError('Account is currently processing another transaction.')`
  account_busy : LockError

pub record Lock : Type 0 where
  pub lock_id : ℕ
  pub account_number : ℕ
  pub ttl_ms : ℕ

-- `randomUUID()` and the time a command takes: those of the n-th call of `acquireLock`.
pub record Env : Type 0 where
  pub uuid : ℕ → ℕ
  pub duration_ms : ℕ → ℕ

pub record Metrics : Type 0 where
  pub locks_acquired : ℕ
  pub lock_conflicts : ℕ
  pub locks_released : ℕ
  pub idempotency_hits_redis : ℕ
  pub idempotency_hits_postgres : ℕ
  pub lock_wait_time_total_ms : ℕ

abbrev pub no_metrics : Metrics
no_metrics = record {
  locks_acquired = 0;
  lock_conflicts = 0;
  locks_released = 0;
  idempotency_hits_redis = 0;
  idempotency_hits_postgres = 0;
  lock_wait_time_total_ms = 0;
}

module _ {V : Type 0} (R : Redis V) where
  pub record Service : Type 0 where
    pub store : R.State
    -- How many lock ids were drawn.
    pub drawn : ℕ
    pub metrics : Metrics

  -- The lock's owner as Redis has it.
  abbrev pub owner : Service → ℕ → Option ℕ
  owner s a = R.holder s.store a

  -- Redis answers every command.
  abbrev pub IsUp : Type 0
  IsUp = (st : R.State) → (R.attempt st).0 ≡ true

  abbrev count_acquired : ℕ → Service → Service
  count_acquired ms s = record s {
    metrics = record s.metrics {
      locks_acquired = s.metrics.locks_acquired + 1;
      lock_wait_time_total_ms = s.metrics.lock_wait_time_total_ms + ms;
    };
  }

  abbrev count_released : Service → Service
  count_released s = record s {
    metrics = record s.metrics { locks_released = s.metrics.locks_released + 1 };
  }

  abbrev pub count_conflict : Service → Service
  count_conflict s = record s {
    metrics = record s.metrics { lock_conflicts = s.metrics.lock_conflicts + 1 };
  }

  -- `none` is `null`: the key is held, or Redis failed.
  unfoldable pub acquire_lock : Env → ℕ → ℕ → Service → Option Lock × Service
  acquire_lock env account ttl s =
      let id = env.uuid s.drawn in
      let sent = R.attempt s.store in
      let set = R.set_nx sent.1 account id ttl in
      if sent.0
      then (if set.0
          then (
            some (record { lock_id = id; account_number = account; ttl_ms = ttl }),
            count_acquired (env.duration_ms s.drawn)
                (record s { store = set.1; drawn = s.drawn + 1 }),
          )
          else (none, record s { store = set.1; drawn = s.drawn + 1 }))
      else (none, record s { store = sent.1; drawn = s.drawn + 1 })

  -- The test in Lua: `redis.call("get", KEYS[1]) == ARGV[1]`.
  abbrev pub is_owned_by : ℕ → Option ℕ → Bool
  is_owned_by id none = false
  is_owned_by id (some other) = other == id

  unfoldable pub release_lock : Option Lock → Service → Bool × Service
  release_lock none s = (false, s)
  release_lock (some l) s =
      let sent = R.attempt s.store in
      if sent.0 && is_owned_by l.lock_id (R.holder sent.1 l.account_number)
      then (true, count_released (record s { store = R.del sent.1 l.account_number }))
      else (false, record s { store = sent.1 })

  -- `JSON.parse` of the text that `JSON.stringify` gave is the value.
  unfoldable pub get_idempotency_record : ℕ → Service → Option V × Service
  get_idempotency_record key s =
      let sent = R.attempt s.store in
      let found = R.cached sent.1 key in
      if sent.0
      then (if is_some found
          then (
            found,
            record s {
              store = sent.1;
              metrics = record s.metrics {
                idempotency_hits_redis = s.metrics.idempotency_hits_redis + 1;
              };
            },
          )
          else (none, record s { store = sent.1 }))
      else (none, record s { store = sent.1 })

  unfoldable pub set_idempotency_record : ℕ → V → ℕ → Service → Service
  set_idempotency_record key value ttl_seconds s =
      let sent = R.attempt s.store in
      if sent.0
      then record s { store = R.set_ex sent.1 key value ttl_seconds }
      else record s { store = sent.1 }

  -- `releaseLock` deletes a lock only where Redis has the caller's own lock id, and no other key
  -- changes: a lock that expired and went to another owner stays.
  pub release_lock_safe :
      (l : Lock) (s : Service)
      → ((release_lock (some l) s).0 ≡ true → owner s l.account_number ≡ some l.lock_id)
        × ((a : ℕ)
            → owner (release_lock (some l) s).1 a
              ≡ (if (release_lock (some l) s).0 && l.account_number == a then none else owner s a))
  unfolding release_lock
  release_lock_safe l s =
      let sent = (R.attempt s.store).1 in
      let same = R.holder-attempt s.store in
      (
        λ h. elim (Option-cases (R.holder sent l.account_number)) [
          | inl x ↦ ground (arith, same l.account_number)
          | inr (other, x) ↦ ground (arith, same l.account_number)
        ],
        λ a. ground (arith, same a, R.holder-del sent l.account_number a),
      )

  -- What was stored under an idempotency key is found under it and under no other, and the locks
  -- stay as they are, while Redis answers.
  pub get-set_idempotency_record :
      (k j : ℕ) (v : V) (ttl : ℕ) (s : Service)
      → IsUp
      → ((get_idempotency_record j (set_idempotency_record k v ttl s)).0
          ≡ (if k == j then some v else (get_idempotency_record j s).0))
        × ((a : ℕ) → owner (set_idempotency_record k v ttl s) a ≡ owner s a)
  unfolding get_idempotency_record set_idempotency_record
  get-set_idempotency_record k j v ttl s up =
      let sent = (R.attempt s.store).1 in
      let stored = R.set_ex sent k v ttl in
      (
        ground (
          arith,
          up s.store,
          up stored,
          R.cached-attempt s.store j,
          R.cached-attempt stored j,
          R.cached-set_ex sent k v ttl j,
        ),
        λ a. ground (arith, up s.store, R.holder-attempt s.store a, R.holder-set_ex sent k v ttl a),
      )
