-- ===== src/Table.antt =====
-- A table of PostgreSQL as the services reach it through Prisma. The database is not code of the
-- repository: it is a parameter, an abstract state with the queries that the source uses and their
-- documented effect on the rows, which are keyed by the primary key `id`.
pub mod Rows
pub mod Lists
use vault_core.Prelude.{
  ltb, leb, ◌==◌, if◌then◌else◌, ltb→lt, lt→ltb, leb→le, ==_iff, tests, Bool-cases, Option-cases,
  or_default, is_some, length, length-append, All, All-append, ℕ, zero, suc, ◌+◌, ◌-◌, ◌*◌, ◌/◌,
  ◌%◌, ◌^◌, ◌≤◌, ◌<◌, min, max, String, ◌≡◌, refl, sym, ap, ◌∙◌, ◌≢◌, ◌↔◌, ◌⊎◌, inl, inr, Bool,
  true, false, not, ◌&&◌, ◌||◌, Option, none, some, List, [], ◌∷◌, ◌++◌, map, arith, ℕ_discrete,
}
use Rows.*

pub record Table (V : Type 0) : Type 1 where
  pub State : Type 0
  -- The rows with their ids, in no order that matters.
  pub rows : State → List (ℕ × V)
  pub find_unique : State → ℕ → Option V
  pub find_first : State → (V → Bool) → Option (ℕ × V)
  pub update : State → ℕ → V → State
  -- A new row gets an id of its own.
  pub create : State → V → ℕ × State
  pub find_unique_lem : (s : State) (k : ℕ) → find_unique s k ≡ lookup k (rows s)
  pub find_first_sound :
      (s : State) (p : V → Bool) (k : ℕ) (v : V)
      → find_first s p ≡ some (k, v)
      → (lookup k (rows s) ≡ some v) × (p v ≡ true)
  pub find_first_complete :
      (s : State) (p : V → Bool) (k : ℕ) (v : V)
      → find_first s p ≡ none
      → lookup k (rows s) ≡ some v
      → p v ≡ false
  pub rows-update : (s : State) (k : ℕ) (v : V) → rows (update s k v) ≡ replace k v (rows s)
  pub create_fresh : (s : State) (v : V) → lookup (create s v).0 (rows s) ≡ none
  pub rows-create : (s : State) (v : V) → rows (create s v).1 ≡ ((create s v).0, v) ∷ rows s
