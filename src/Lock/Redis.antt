-- ===== src/Lock/Redis.antt =====
-- Redis is not code of the repository: it is a parameter, a state with the commands that the service
-- sends. The account locks (`lock:account:…`) and the idempotency records (`idempotency:…`) have
-- different prefixes and are two views of it. No key expires within one call of the service, whose
-- locks live for ten seconds; what happens between calls is up to the callers' states.
use vault_core.Prelude.{◌==◌, if◌then◌else◌, is_some, ℕ, ◌≡◌, Bool, not, ◌&&◌, Option, none, some}

pub record Redis (V : Type 0) : Type 1 where
  pub State : Type 0
  -- `GET` of a lock, and of an idempotency record.
  pub holder : State → ℕ → Option ℕ
  pub cached : State → ℕ → Option V
  -- Does the next command reach the server? If not, the client throws.
  pub attempt : State → Bool × State
  -- `SET key value NX PX ttl`: did it set the key?
  pub set_nx : State → ℕ → ℕ → ℕ → Bool × State
  pub del : State → ℕ → State
  -- `SET key value EX ttl` of an idempotency record.
  pub set_ex : State → ℕ → V → ℕ → State
  pub holder-attempt : (s : State) (k : ℕ) → holder (attempt s).1 k ≡ holder s k
  pub cached-attempt : (s : State) (k : ℕ) → cached (attempt s).1 k ≡ cached s k
  pub set_nx_iff : (s : State) (k v ttl : ℕ) → (set_nx s k v ttl).0 ≡ not (is_some (holder s k))
  pub holder-set_nx :
      (s : State) (k v ttl j : ℕ)
      → holder (set_nx s k v ttl).1 j
        ≡ (if (set_nx s k v ttl).0 && k == j then some v else holder s j)
  pub cached-set_nx : (s : State) (k v ttl j : ℕ) → cached (set_nx s k v ttl).1 j ≡ cached s j
  pub holder-del :
      (s : State) (k j : ℕ) → holder (del s k) j ≡ (if k == j then none else holder s j)
  pub cached-del : (s : State) (k j : ℕ) → cached (del s k) j ≡ cached s j
  pub holder-set_ex :
      (s : State) (k : ℕ) (v : V) (ttl j : ℕ) → holder (set_ex s k v ttl) j ≡ holder s j
  pub cached-set_ex :
      (s : State) (k : ℕ) (v : V) (ttl j : ℕ)
      → cached (set_ex s k v ttl) j ≡ (if k == j then some v else cached s j)
