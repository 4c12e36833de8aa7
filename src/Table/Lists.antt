-- ===== src/Table/Lists.antt =====
-- A table that meets the laws: a list of rows, with one more than the largest id as the next.
use vault_core.Prelude.{
  ◌==◌, if◌then◌else◌, Bool-cases, ℕ, ◌+◌, ◌≤◌, max, ◌≡◌, refl, inl, inr, Bool, true, false, Option,
  none, some, List, [], ◌∷◌, arith,
}
use vault_core.Table.{Table}
use vault_core.Table.Rows.{lookup, replace, Distinct}

module _ {V : Type 0} where
  unfoldable pub first_row : (V → Bool) → List (ℕ × V) → Option (ℕ × V)
  first_row p [] = none
  first_row p ((k, v) ∷ r) = if p v then some (k, v) else first_row p r

  pub first_row_sound :
      (p : V → Bool) (r : List (ℕ × V)) (k : ℕ) (v : V)
      → Distinct r
      → first_row p r ≡ some (k, v)
      → (lookup k r ≡ some v) × (p v ≡ true)
  unfolding first_row lookup
  first_row_sound p [] k v d h = cc
  first_row_sound p ((j, w) ∷ r) k v d h = elim (Bool-cases (p w)) [
    | inl hit ↦ ground arith
    | inr miss ↦ ground (arith, first_row_sound p r k v d.1)
  ]

  pub first_row_complete :
      (p : V → Bool) (r : List (ℕ × V)) (k : ℕ) (v : V)
      → first_row p r ≡ none
      → lookup k r ≡ some v
      → p v ≡ false
  unfolding first_row lookup
  first_row_complete p [] k v h e = cc
  first_row_complete p ((j, w) ∷ r) k v h e = ground (arith, first_row_complete p r k v)

  lookup-replace-none :
      (k j : ℕ) (v : V) (r : List (ℕ × V)) → lookup j r ≡ none → lookup j (replace k v r) ≡ none
  unfolding lookup replace
  lookup-replace-none k j v [] h = refl
  lookup-replace-none k j v ((i, w) ∷ r) h = ground (arith, lookup-replace-none k j v r)

  pub replace-Distinct : (k : ℕ) (v : V) (r : List (ℕ × V)) → Distinct r → Distinct (replace k v r)
  unfolding replace
  replace-Distinct k v [] d = tt
  replace-Distinct k v ((i, w) ∷ r) d = elim (Bool-cases (k == i)) [
    | inl hit ↦ rw hit d
    | inr miss ↦ rw miss (lookup-replace-none k i v r d.0, replace-Distinct k v r d.1)
  ]

  -- An id above all others.
  unfoldable pub next_id : List (ℕ × V) → ℕ
  next_id [] = 1
  next_id ((k, v) ∷ r) = max (k + 1) (next_id r)

  pub lookup-above : (k : ℕ) (r : List (ℕ × V)) → next_id r ≤ k → lookup k r ≡ none
  unfolding next_id lookup
  lookup-above k [] h = refl
  lookup-above k ((i, w) ∷ r) h =
      let ne : (k == i) ≡ false = ground arith in rw ne (lookup-above k r (omega arith))

abbrev pub Rows : Type 0 → Type 0
Rows V = (r : List (ℕ × V)) × Distinct r

abbrev pub list_table : {V : Type 0} → Table V
list_table {V} = record {
  State = Rows V;
  rows = λ s. s.0;
  find_unique = λ s k. lookup k s.0;
  find_first = λ s p. first_row p s.0;
  update = λ s k v. (replace k v s.0, replace-Distinct k v s.0 s.1);
  create = λ s v.
      (next_id s.0, ((next_id s.0, v) ∷ s.0, (lookup-above (next_id s.0) s.0 (omega arith), s.1)));
  find_unique_lem = λ s k. refl;
  find_first_sound = λ s p k v h. first_row_sound p s.0 k v s.1 h;
  find_first_complete = λ s p k v h e. first_row_complete p s.0 k v h e;
  rows-update = λ s k v. refl;
  create_fresh = λ s v. lookup-above (next_id s.0) s.0 (omega arith);
  rows-create = λ s v. refl;
}
