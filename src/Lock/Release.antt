-- ===== src/Lock/Release.antt =====
-- Locks as an overlay on the owners that Redis had before: what acquiring adds and releasing takes
-- away.
use vault_core.Prelude.{
  ◌==◌, if◌then◌else◌, ℕ, ◌≡◌, refl, ◌∙◌, true, false, Option, none, some, List, [], ◌∷◌, ◌++◌,
  arith,
}
use vault_core.Lock.Redis.{Redis}
use vault_core.Lock.Service.{Lock, Service, owner, IsUp, release_lock, release_lock_safe}
use vault_core.Lock.Acquire.{release_account_locks}

-- The owners once these locks are held.
abbrev pub with_locks : List Lock → (ℕ → Option ℕ) → ℕ → Option ℕ
with_locks [] owners a = owners a
with_locks (l ∷ ls) owners a =
    if l.account_number == a then some l.lock_id else with_locks ls owners a

-- Each lock is on an account that was free, and no account is locked twice.
abbrev pub AreFresh : List Lock → (ℕ → Option ℕ) → Type 0
AreFresh [] owners = Unit
AreFresh (l ∷ ls) owners = (with_locks ls owners l.account_number ≡ none) × AreFresh ls owners

pub with_locks-append :
    (ls : List Lock) (l : Lock) (owners : ℕ → Option ℕ) (a : ℕ)
    → with_locks ls owners l.account_number ≡ none
    → with_locks (ls ++ (l ∷ [])) owners a
      ≡ (if l.account_number == a then some l.lock_id else with_locks ls owners a)
with_locks-append [] l owners a free = refl
with_locks-append (x ∷ xs) l owners a free = ground (arith, with_locks-append xs l owners a)

pub append-AreFresh :
    (ls : List Lock) (l : Lock) (owners : ℕ → Option ℕ)
    → with_locks ls owners l.account_number ≡ none
    → AreFresh ls owners
    → AreFresh (ls ++ (l ∷ [])) owners
append-AreFresh [] l owners free fresh = (free, tt)
append-AreFresh (x ∷ xs) l owners free fresh =
    let rest_free : with_locks xs owners l.account_number ≡ none = ground arith in
    let other : (l.account_number == x.account_number) ≡ false = ground arith in
    (
      with_locks-append xs l owners x.account_number rest_free ∙ ground (arith, other, fresh.0),
      append-AreFresh xs l owners rest_free fresh.1,
    )

module _ {V : Type 0} (R : Redis V) (up : IsUp R) where
  release_own :
      (l : Lock) (s : Service R)
      → owner R s l.account_number ≡ some l.lock_id
      → (release_lock R (some l) s).0 ≡ true
  unfolding release_lock
  release_own l s own =
      let same = R.holder-attempt s.store l.account_number in ground (arith, up s.store, same)

  -- Releasing fresh locks gives back the owners from before.
  pub owner-release_account_locks :
      (ls : List Lock) (owners : ℕ → Option ℕ) (s : Service R)
      → AreFresh ls owners
      → ((a : ℕ) → owner R s a ≡ with_locks ls owners a)
      → (a : ℕ) → owner R (release_account_locks R ls s) a ≡ owners a
  unfolding release_account_locks
  owner-release_account_locks [] owners s fresh held a = held a
  owner-release_account_locks (l ∷ ls) owners s fresh held a =
      let own : owner R s l.account_number ≡ some l.lock_id =
        ground (arith, held l.account_number) in
      owner-release_account_locks ls owners (release_lock R (some l) s).1 fresh.1
        (λ b. (release_lock_safe R l s).1 b ∙ ground (arith, release_own l s own, held b, fresh.0))
        a
