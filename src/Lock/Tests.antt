-- ===== src/Lock/Tests.antt =====
-- The locks at concrete inputs: a Redis whose state is the two views as functions.
use vault_core.Prelude.{
  ◌==◌, if◌then◌else◌, is_some, ℕ, ◌+◌, String, ◌≡◌, refl, true, not, ◌&&◌, Option, none, some,
  List, [], ◌∷◌, arith,
}
use vault_core.Result.{Result, ok, err}
use vault_core.Lock.Redis.{Redis}
use vault_core.Lock.Order.{filter_truthy, dedupe, insert_sorted, sort, lock_order, asked}
use vault_core.Lock.Service.{
  account_busy, Lock, Env, no_metrics, Service, owner, acquire_lock, release_lock,
  set_idempotency_record, release_lock_safe, get-set_idempotency_record,
}
use vault_core.Lock.Acquire.{release_account_locks, acquire_each, acquire_account_locks}
use vault_core.Lock.Hold.{AllOrNone, acquire-AllOrNone, free_accounts_acquired}

abbrev put : {V : Type 0} → ℕ → Option V → (ℕ → Option V) → ℕ → Option V
put k v f j = if k == j then v else f j

holder-put :
    (s : (ℕ → Option ℕ) × (ℕ → Option String)) (k v ttl j : ℕ)
    → (if is_some (s.0 k) then s.0 else put k (some v) s.0) j
      ≡ (if not (is_some (s.0 k)) && k == j then some v else s.0 j)
holder-put s k v ttl j = ground arith

abbrev memory_redis : Redis String
memory_redis = record {
  State = (ℕ → Option ℕ) × (ℕ → Option String);
  holder = λ s. s.0;
  cached = λ s. s.1;
  attempt = λ s. (true, s);
  set_nx = λ s k v ttl.
      (not (is_some (s.0 k)), (if is_some (s.0 k) then s.0 else put k (some v) s.0, s.1));
  del = λ s k. (put k none s.0, s.1);
  set_ex = λ s k v ttl. (s.0, put k (some v) s.1);
  holder-attempt = λ s k. refl;
  cached-attempt = λ s k. refl;
  set_nx_iff = λ s k v ttl. refl;
  holder-set_nx = holder-put;
  cached-set_nx = λ s k v ttl j. refl;
  holder-del = λ s k j. refl;
  cached-del = λ s k j. refl;
  holder-set_ex = λ s k v ttl j. refl;
  cached-set_ex = λ s k v ttl j. refl;
}

-- Account 7 is locked by another process.
abbrev seven_busy : Service memory_redis
seven_busy = record {
  store = ((λ k. if k == 7 then some 900 else none), (λ k. none));
  drawn = 0;
  metrics = no_metrics;
}

abbrev env : Env
env = record { uuid = λ n. 100 + n; duration_ms = λ n. n }

abbrev foreign_lock : Lock
foreign_lock = record { lock_id = 5; account_number = 7; ttl_ms = 10000 }

acquire_test :
    (acquire_account_locks memory_redis env 10000
      (some 4 ∷ none ∷ some 2 ∷ some 4 ∷ [])
      seven_busy).0
    ≡ ok (
        record { lock_id = 100; account_number = 2; ttl_ms = 10000 }
        ∷ record { lock_id = 101; account_number = 4; ttl_ms = 10000 }
        ∷ [])
unfolding acquire_account_locks acquire_each acquire_lock lock_order filter_truthy dedupe sort
    insert_sorted
acquire_test = refl

conflict_test :
    (acquire_account_locks memory_redis env 10000 (some 7 ∷ some 2 ∷ []) seven_busy).0
    ≡ err account_busy
unfolding acquire_account_locks acquire_each acquire_lock lock_order filter_truthy dedupe sort
    insert_sorted release_account_locks release_lock
conflict_test = refl

release_lock_safe_example :
    ((release_lock memory_redis (some foreign_lock) seven_busy).0 ≡ true
      → owner memory_redis seven_busy 7 ≡ some 5)
    × ((a : ℕ)
        → owner memory_redis (release_lock memory_redis (some foreign_lock) seven_busy).1 a ≡ (
            if (release_lock memory_redis (some foreign_lock) seven_busy).0 && 7 == a
            then none
            else owner memory_redis seven_busy a))
release_lock_safe_example = release_lock_safe memory_redis foreign_lock seven_busy

acquire-AllOrNone_example :
    AllOrNone memory_redis
      (owner memory_redis seven_busy)
      (lock_order (some 7 ∷ some 2 ∷ []))
      (acquire_account_locks memory_redis env 10000 (some 7 ∷ some 2 ∷ []) seven_busy)
acquire-AllOrNone_example =
    acquire-AllOrNone memory_redis (λ st. refl) env 10000 (some 7 ∷ some 2 ∷ []) seven_busy

asked_free :
    (a : ℕ) → asked a (some 4 ∷ some 2 ∷ []) ≡ true → owner memory_redis seven_busy a ≡ none
asked_free a h = ground arith

free_accounts_acquired_example :
    (ls : List Lock) × ((acquire_account_locks memory_redis env 10000
        (some 4 ∷ some 2 ∷ [])
        seven_busy).0
      ≡ ok ls)
free_accounts_acquired_example =
    free_accounts_acquired memory_redis (λ st. refl) env 10000 (some 4 ∷ some 2 ∷ []) seven_busy
      asked_free

-- A callback that stores its result under an idempotency key, then throws.
abbrev failing_callback : Service memory_redis → Result String ℕ × Service memory_redis
failing_callback s = (err "boom", set_idempotency_record memory_redis 1 "half" 60 s)

failing_callback_quiet :
    (t : Service memory_redis) (a : ℕ)
    → owner memory_redis (failing_callback t).1 a ≡ owner memory_redis t a
failing_callback_quiet t a =
    (get-set_idempotency_record memory_redis 1 1 "half" 60 t (λ st. refl)).1 a
