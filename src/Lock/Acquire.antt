-- ===== src/Lock/Acquire.antt =====
-- `acquireAccountLocks`, `releaseAccountLocks` and `withAccountLocks`.
use vault_core.Prelude.{ℕ, Option, none, some, List, [], ◌∷◌, ◌++◌}
use vault_core.Result.{Result, ok, err}
use vault_core.Lock.Redis.{Redis}
use vault_core.Lock.Order.{lock_order}
use vault_core.Lock.Service.{
  LockError, account_busy, Lock, Env, Service, count_conflict, acquire_lock, release_lock,
}

-- What `withAccountLocks` throws: the conflict, or the callback's own error.
pub data CallError (E : Type 0) : Type 0 where
  conflict : LockError → CallError E
  callback_threw : E → CallError E

module _ {V : Type 0} (R : Redis V) where
  unfoldable pub release_account_locks : List Lock → Service R → Service R
  release_account_locks [] s = s
  release_account_locks (l ∷ ls) s = release_account_locks ls (release_lock R (some l) s).1

  -- The loop, with the locks acquired so far.
  unfoldable pub acquire_each :
      Env → ℕ → List ℕ → List Lock → Service R → Result LockError (List Lock) × Service R
  unfolding release_account_locks
  acquire_each env ttl [] acquired s = (ok acquired, s)
  acquire_each env ttl (account ∷ rest) acquired s =
      let (lock, s') = acquire_lock R env account ttl s in
      elim lock [
        | none ↦ (err account_busy, release_account_locks acquired (count_conflict R s'))
        | some l ↦ acquire_each env ttl rest (acquired ++ (l ∷ [])) s'
      ]

  unfoldable pub acquire_account_locks :
      Env → ℕ → List (Option ℕ) → Service R → Result LockError (List Lock) × Service R
  unfolding acquire_each
  acquire_account_locks env ttl accounts s = acquire_each env ttl (lock_order accounts) [] s

  -- `finally`: the locks are released whether the callback returned or threw.
  abbrev finally_release :
      {E A : Type 0} → List Lock → Result E A × Service R → Result (CallError E) A × Service R
  finally_release locks (ok a, s) = (ok a, release_account_locks locks s)
  finally_release locks (err e, s) = (err (callback_threw e), release_account_locks locks s)

  abbrev pub run_locked :
      {E A : Type 0}
      → (Service R → Result E A × Service R)
      → Result LockError (List Lock) × Service R
      → Result (CallError E) A × Service R
  run_locked callback (err e, s) = (err (conflict e), s)
  run_locked callback (ok locks, s) = finally_release locks (callback s)

  unfoldable pub with_account_locks :
      {E A : Type 0}
      → Env
      → ℕ
      → List (Option ℕ)
      → (Service R → Result E A × Service R)
      → Service R
      → Result (CallError E) A × Service R
  unfolding acquire_account_locks
  with_account_locks env ttl accounts callback s =
      run_locked callback (acquire_account_locks env ttl accounts s)
