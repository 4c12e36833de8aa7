-- ===== src/Lock/Hold.antt =====
-- Lemmas on `acquireAccountLocks` and `withAccountLocks` as a caller sees them.
use mathlib.Core.Path.{subst}
use vault_core.Prelude.{
  ◌==◌, if◌then◌else◌, Option-cases, All, ℕ, ◌<◌, ◌≡◌, refl, sym, ap, ◌∙◌, ◌≢◌, inl, inr, true,
  Option, none, some, List, [], ◌∷◌, ◌++◌, map, arith,
}
use vault_core.Result.{Result, ok, err, Result-cases}
use vault_core.Lock.Redis.{Redis}
use vault_core.Lock.Order.{contains, lock_order, IsAscending, asked, lock_order-IsAscending}
use vault_core.Lock.Service.{
  LockError, account_busy, Lock, Env, Service, owner, IsUp, count_conflict, acquire_lock,
}
use vault_core.Lock.Acquire.{
  release_account_locks, acquire_each, acquire_account_locks, run_locked, with_account_locks,
}
use vault_core.Lock.Release.{
  with_locks, AreFresh, with_locks-append, append-AreFresh, owner-release_account_locks,
}

module _ {V : Type 0} (R : Redis V) where
  -- One lock: it is set where the account was free, and nothing else changes.
  acquire_lock-some :
      (env : Env) (account ttl : ℕ) (s : Service R) (l : Lock)
      → (acquire_lock R env account ttl s).0 ≡ some l
      → (l.account_number ≡ account)
        × (owner R s account ≡ none)
        × ((a : ℕ)
            → owner R (acquire_lock R env account ttl s).1 a
              ≡ (if l.account_number == a then some l.lock_id else owner R s a))
  unfolding acquire_lock
  acquire_lock-some env account ttl s l h =
      let sent = (R.attempt s.store).1 in
      let id = env.uuid s.drawn in
      let here = R.holder-attempt s.store account in
      let found = R.set_nx_iff sent account id ttl in
      (
        ground arith,
        elim (Option-cases (R.holder sent account)) [
          | inl x ↦ cc (here, x)
          | inr (other, x) ↦ absurd (ground (arith, found))
        ],
        λ a. ground (arith, R.holder-attempt s.store a, R.holder-set_nx sent account id ttl a),
      )

  acquire_lock-none :
      (env : Env) (account ttl : ℕ) (s : Service R) (a : ℕ)
      → (acquire_lock R env account ttl s).0 ≡ none
      → owner R (acquire_lock R env account ttl s).1 a ≡ owner R s a
  unfolding acquire_lock
  acquire_lock-none env account ttl s a h =
      let sent = (R.attempt s.store).1 in
      let id = env.uuid s.drawn in
      ground (arith, R.holder-attempt s.store a, R.holder-set_nx sent account id ttl a)

  abbrev pub accounts_of : List Lock → List ℕ
  accounts_of ls = map (λ l. l.account_number) ls

  accounts_of-append :
      (ls : List Lock) (l : Lock) (rest : List ℕ)
      → accounts_of (ls ++ (l ∷ [])) ++ rest ≡ accounts_of ls ++ (l.account_number ∷ rest)
  accounts_of-append [] l rest = refl
  accounts_of-append (x ∷ xs) l rest = rw (accounts_of-append xs l rest)

  -- The locks are all there, on accounts that were free; or the owners are those from before.
  abbrev pub AllOrNone : (ℕ → Option ℕ) → List ℕ → Result LockError (List Lock) × Service R → Type 0
  AllOrNone owners wanted (ok ls, s) =
      AreFresh ls owners
      × (accounts_of ls ≡ wanted)
      × ((a : ℕ) → owner R s a ≡ with_locks ls owners a)
  AllOrNone owners wanted (err e, s) = (a : ℕ) → owner R s a ≡ owners a

  acquire_each-none :
      (env : Env) (ttl account : ℕ) (rest : List ℕ) (acquired : List Lock) (s : Service R)
      → (acquire_lock R env account ttl s).0 ≡ none
      → acquire_each R env ttl (account ∷ rest) acquired s ≡ (
        err account_busy,
        release_account_locks R acquired (count_conflict R (acquire_lock R env account ttl s).1),
      )
  unfolding acquire_each
  acquire_each-none env ttl account rest acquired s x = rw (x, acquire_each) refl

  acquire_each-some :
      (env : Env) (ttl account : ℕ) (rest : List ℕ) (acquired : List Lock) (s : Service R)
      {l : Lock}
      → (acquire_lock R env account ttl s).0 ≡ some l
      → acquire_each R env ttl (account ∷ rest) acquired s
        ≡ acquire_each R env ttl rest (acquired ++ (l ∷ [])) (acquire_lock R env account ttl s).1
  unfolding acquire_each
  acquire_each-some env ttl account rest acquired s x = rw (x, acquire_each) refl

  accounts_of-append_nil : (ls : List Lock) → accounts_of ls ≡ accounts_of ls ++ []
  accounts_of-append_nil [] = refl
  accounts_of-append_nil (l ∷ ls) = ap (◌∷◌ l.account_number) (accounts_of-append_nil ls)

  acquire_each-AllOrNone :
      (up : IsUp R) (env : Env) (ttl : ℕ) (accounts : List ℕ) (acquired : List Lock) (s : Service R)
      (owners : ℕ → Option ℕ)
      → AreFresh acquired owners
      → ((a : ℕ) → owner R s a ≡ with_locks acquired owners a)
      → AllOrNone owners
          (accounts_of acquired ++ accounts)
          (acquire_each R env ttl accounts acquired s)
  unfolding acquire_each
  acquire_each-AllOrNone up env ttl [] acquired s owners fresh held =
      (fresh, accounts_of-append_nil acquired, held)
  acquire_each-AllOrNone up env ttl (account ∷ rest) acquired s owners fresh held =
      let s' = (acquire_lock R env account ttl s).1 in
      elim (Option-cases (acquire_lock R env account ttl s).0) [
        | inl x ↦
            subst (AllOrNone owners _) (sym (acquire_each-none env ttl account rest acquired s x)) (
              owner-release_account_locks R up acquired owners (count_conflict R s') fresh
                (λ a. acquire_lock-none env account ttl s a x ∙ held a))
        | inr (l, x) ↦
            let (here, free, now) = acquire_lock-some env account ttl s l x in
            let new : with_locks acquired owners l.account_number ≡ none =
              sym (held l.account_number) ∙ rw here free in
            let next =
              acquire_each-AllOrNone up env ttl rest (acquired ++ (l ∷ [])) s' owners
                (append-AreFresh acquired l owners new fresh)
                (λ a. now a ∙ ground (arith, held a, with_locks-append acquired l owners a new)) in
            subst (AllOrNone owners _) (sym (acquire_each-some env ttl account rest acquired s x)) (
              subst
                (λ w. AllOrNone owners w (acquire_each R env ttl rest (acquired ++ (l ∷ [])) s'))
                (accounts_of-append acquired l rest ∙ rw here refl) next)
      ]

  -- While Redis answers, acquiring the locks of several accounts is all or nothing: either the caller
  -- holds one lock on each of them in the order of locking, every one of which was free, and no other
  -- lock changed; or the call is a conflict and every lock has the owner that it had before.
  pub acquire-AllOrNone :
      (up : IsUp R) (env : Env) (ttl : ℕ) (accounts : List (Option ℕ)) (s : Service R)
      → AllOrNone (owner R s) (lock_order accounts) (acquire_account_locks R env ttl accounts s)
  unfolding acquire_account_locks
  acquire-AllOrNone up env ttl accounts s =
      acquire_each-AllOrNone up env ttl (lock_order accounts) [] s (owner R s) tt (λ a. refl)

  acquire_lock_free :
      (up : IsUp R) (env : Env) (account ttl : ℕ) (s : Service R)
      → owner R s account ≡ none
      → (acquire_lock R env account ttl s).0 ≢ none
  unfolding acquire_lock
  acquire_lock_free up env account ttl s free h =
      let sent = (R.attempt s.store).1 in
      let id = env.uuid s.drawn in
      let here = R.holder-attempt s.store account in
      ground (arith, up s.store, here, R.set_nx_iff sent account id ttl)

  later_free :
      (s s' : Service R) (l : Lock) (account : ℕ) (rest : List ℕ)
      → l.account_number ≡ account
      → All (λ a. account < a) rest
      → All (λ a. owner R s a ≡ none) rest
      → ((a : ℕ) → owner R s' a ≡ (if l.account_number == a then some l.lock_id else owner R s a))
      → All (λ a. owner R s' a ≡ none) rest
  later_free s s' l account [] here less free now = tt
  later_free s s' l account (a ∷ rest) here less free now = (
    now a ∙ ground (arith, here, less.0, free.0),
    later_free s s' l account rest here less.1 free.1 now,
  )

  All-contains : {P : ℕ → Type 0} (xs : List ℕ) → ((a : ℕ) → contains a xs ≡ true → P a) → All P xs
  All-contains [] f = tt
  All-contains (x ∷ xs) f = (f x (ground arith), All-contains xs (λ a h. f a (ground (arith, h))))

  acquire_each_free :
      (up : IsUp R) (env : Env) (ttl : ℕ) (accounts : List ℕ) (acquired : List Lock) (s : Service R)
      → IsAscending accounts
      → All (λ a. owner R s a ≡ none) accounts
      → (acquire_each R env ttl accounts acquired s).0 ≢ err account_busy
  unfolding acquire_each
  acquire_each_free up env ttl [] acquired s ascending free h = absurd (ground arith)
  acquire_each_free up env ttl (account ∷ rest) acquired s ascending free h =
      elim (Option-cases (acquire_lock R env account ttl s).0) [
        | inl x ↦ acquire_lock_free up env account ttl s free.0 x
        | inr (l, x) ↦
            let (here, gone, now) = acquire_lock-some env account ttl s l x in
            let s' = (acquire_lock R env account ttl s).1 in
            acquire_each_free up env ttl rest (acquired ++ (l ∷ [])) s' ascending.1
              (later_free s s' l account rest here ascending.0 free.1 now)
              (sym (ap (λ p. p.0) (acquire_each-some env ttl account rest acquired s x)) ∙ h)
      ]

  -- While Redis answers and the accounts that were asked for are free, the caller gets the locks.
  pub free_accounts_acquired :
      (up : IsUp R) (env : Env) (ttl : ℕ) (accounts : List (Option ℕ)) (s : Service R)
      → ((a : ℕ) → asked a accounts ≡ true → owner R s a ≡ none)
      → (ls : List Lock) × ((acquire_account_locks R env ttl accounts s).0 ≡ ok ls)
  unfolding acquire_account_locks
  free_accounts_acquired up env ttl accounts s free =
      let (ascending, same) = lock_order-IsAscending accounts in
      elim (Result-cases (acquire_each R env ttl (lock_order accounts) [] s).0) [
        | inl x ↦ x
        | inr (account_busy, x) ↦ absurd (
            acquire_each_free up env ttl (lock_order accounts) [] s ascending
              (All-contains _ (λ a h. free a (sym (same a) ∙ h))) x)
      ]

  releases_after :
      {E A : Type 0} (up : IsUp R) (owners : ℕ → Option ℕ) (wanted : List ℕ)
      (callback : Service R → Result E A × Service R)
      → ((t : Service R) (a : ℕ) → owner R (callback t).1 a ≡ owner R t a)
      → (a : ℕ) (q : Result LockError (List Lock) × Service R) → AllOrNone owners wanted q
      → owner R (run_locked R callback q).1 a ≡ owners a
  releases_after up owners wanted callback quiet a (err e, s) same = same a
  releases_after up owners wanted callback quiet a (ok ls, s) (fresh, names, held) =
      elim (Result-cases (callback s).0) [
        | inl (x, h) ↦ rw h (
            owner-release_account_locks R up ls owners (callback s).1 fresh
              (λ b. quiet s b ∙ held b) a)
        | inr (e, h) ↦ rw h (
            owner-release_account_locks R up ls owners (callback s).1 fresh
              (λ b. quiet s b ∙ held b) a)
      ]

  -- While Redis answers, a call under locks whose callback leaves the locks alone leaves every lock
  -- with its owner, whether the locks are a conflict, the callback returns or it throws.
  pub with_account_locks_releases :
      {E A : Type 0} (up : IsUp R) (env : Env) (ttl : ℕ) (accounts : List (Option ℕ))
      (callback : Service R → Result E A × Service R) (s : Service R)
      → ((t : Service R) (a : ℕ) → owner R (callback t).1 a ≡ owner R t a)
      → (a : ℕ) → owner R (with_account_locks R env ttl accounts callback s).1 a ≡ owner R s a
  unfolding with_account_locks
  with_account_locks_releases up env ttl accounts callback s quiet a =
      releases_after up (owner R s) (lock_order accounts) callback quiet a
        (acquire_account_locks R env ttl accounts s) (acquire-AllOrNone up env ttl accounts s)
