-- ===== src/Table/Rows.antt =====
-- Rows keyed by id, as lists: the words in which a table's laws are stated.
use vault_core.Prelude.{
  ◌==◌, if◌then◌else◌, ℕ, ◌+◌, ◌≡◌, refl, Option, none, some, List, [], ◌∷◌, arith,
}

module _ {V : Type 0} where
  unfoldable pub lookup : ℕ → List (ℕ × V) → Option V
  lookup k [] = none
  lookup k ((j, v) ∷ r) = if k == j then some v else lookup k r

  -- A new value for the row `k`, where there is one.
  unfoldable pub replace : ℕ → V → List (ℕ × V) → List (ℕ × V)
  replace k v [] = []
  replace k v ((j, w) ∷ r) = if k == j then (j, v) ∷ r else (j, w) ∷ replace k v r

  unfoldable pub sum_by : (V → ℕ) → List (ℕ × V) → ℕ
  sum_by f [] = 0
  sum_by f ((j, v) ∷ r) = f v + sum_by f r

  pub lookup-replace :
      (k j : ℕ) (v u : V) (r : List (ℕ × V))
      → lookup k r ≡ some u
      → lookup j (replace k v r) ≡ (if k == j then some v else lookup j r)
  unfolding lookup replace
  lookup-replace k j v u [] h = cc
  lookup-replace k j v u ((i, w) ∷ r) h = ground (arith, lookup-replace k j v u r)

  pub lookup-cons :
      (k j : ℕ) (v : V) (r : List (ℕ × V))
      → lookup j ((k, v) ∷ r) ≡ (if k == j then some v else lookup j r)
  unfolding lookup
  lookup-cons k j v r = ground arith

  pub sum_by-replace :
      (f : V → ℕ) (k : ℕ) (v u : V) (r : List (ℕ × V))
      → lookup k r ≡ some u
      → sum_by f (replace k v r) + f u ≡ sum_by f r + f v
  unfolding lookup replace sum_by
  sum_by-replace f k v u [] h = cc
  sum_by-replace f k v u ((i, w) ∷ r) h = ground (arith, sum_by-replace f k v u r)

  pub sum_by-cons :
      (f : V → ℕ) (k : ℕ) (v : V) (r : List (ℕ × V)) → sum_by f ((k, v) ∷ r) ≡ f v + sum_by f r
  unfolding sum_by
  sum_by-cons f k v r = refl

-- No id stands twice.
abbrev pub Distinct : {V : Type 0} → List (ℕ × V) → Type 0
Distinct [] = Unit
Distinct ((k, v) ∷ r) = (lookup k r ≡ none) × Distinct r
