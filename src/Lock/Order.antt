-- ===== src/Lock/Order.antt =====
-- The order of locking: `[...new Set(accountNumbers.filter(Boolean))].sort()`. Account numbers have
-- twelve digits each, so their order as texts is their order as numbers; a falsy one is `none`.
use vault_core.Prelude.{
  leb, ◌==◌, if◌then◌else◌, Bool-cases, All, ℕ, ◌<◌, ◌≡◌, refl, ◌∙◌, inl, inr, Bool, false, ◌||◌,
  Option, none, some, List, [], ◌∷◌, arith,
}

abbrev pub contains : ℕ → List ℕ → Bool
contains a [] = false
contains a (x ∷ xs) = a == x || contains a xs

unfoldable pub filter_truthy : List (Option ℕ) → List ℕ
filter_truthy [] = []
filter_truthy (none ∷ xs) = filter_truthy xs
filter_truthy (some a ∷ xs) = a ∷ filter_truthy xs

-- `new Set`: each number once.
unfoldable pub dedupe : List ℕ → List ℕ
dedupe [] = []
dedupe (x ∷ xs) = let rest = dedupe xs in if contains x rest then rest else x ∷ rest

unfoldable pub insert_sorted : ℕ → List ℕ → List ℕ
insert_sorted a [] = a ∷ []
insert_sorted a (x ∷ xs) = if leb a x then a ∷ x ∷ xs else x ∷ insert_sorted a xs

unfoldable pub sort : List ℕ → List ℕ
unfolding insert_sorted
sort [] = []
sort (x ∷ xs) = insert_sorted x (sort xs)

unfoldable pub lock_order : List (Option ℕ) → List ℕ
unfolding filter_truthy dedupe sort
lock_order accounts = sort (dedupe (filter_truthy accounts))

-- Strictly ascending.
abbrev pub IsAscending : List ℕ → Type 0
IsAscending [] = Unit
IsAscending (x ∷ xs) = All (λ y. x < y) xs × IsAscending xs

abbrev pub asked : ℕ → List (Option ℕ) → Bool
asked a [] = false
asked a (none ∷ xs) = asked a xs
asked a (some x ∷ xs) = a == x || asked a xs

contains-filter_truthy : (a : ℕ) (xs : List (Option ℕ)) → contains a (filter_truthy xs) ≡ asked a xs
unfolding filter_truthy
contains-filter_truthy a [] = refl
contains-filter_truthy a (none ∷ xs) = contains-filter_truthy a xs
contains-filter_truthy a (some x ∷ xs) = rw (contains-filter_truthy a xs)

contains-dedupe : (a : ℕ) (xs : List ℕ) → contains a (dedupe xs) ≡ contains a xs
unfolding dedupe
contains-dedupe a [] = refl
contains-dedupe a (x ∷ xs) = ground (arith, contains-dedupe a xs, contains-dedupe x xs)

contains-insert_sorted :
    (a b : ℕ) (xs : List ℕ) → contains a (insert_sorted b xs) ≡ (a == b || contains a xs)
unfolding insert_sorted
contains-insert_sorted a b [] = refl
contains-insert_sorted a b (x ∷ xs) = ground (arith, contains-insert_sorted a b xs)

contains-sort : (a : ℕ) (xs : List ℕ) → contains a (sort xs) ≡ contains a xs
unfolding sort
contains-sort a [] = refl
contains-sort a (x ∷ xs) = rw (contains-insert_sorted a x (sort xs), contains-sort a xs)

abbrev NoRepeats : List ℕ → Type 0
NoRepeats [] = Unit
NoRepeats (x ∷ xs) = (contains x xs ≡ false) × NoRepeats xs

dedupe-NoRepeats : (xs : List ℕ) → NoRepeats (dedupe xs)
unfolding dedupe
dedupe-NoRepeats [] = tt
dedupe-NoRepeats (x ∷ xs) = elim (Bool-cases (contains x (dedupe xs))) [
  | inl old ↦ rw old (dedupe-NoRepeats xs)
  | inr new ↦ rw new (new, dedupe-NoRepeats xs)
]

All-lt-insert_sorted :
    (y a : ℕ) (xs : List ℕ) → y < a → All (λ z. y < z) xs → All (λ z. y < z) (insert_sorted a xs)
unfolding insert_sorted
All-lt-insert_sorted y a [] h k = (h, tt)
All-lt-insert_sorted y a (x ∷ xs) h k = elim (Bool-cases (leb a x)) [
  | inl le ↦ rw le (h, k)
  | inr gt ↦ rw gt (k.0, All-lt-insert_sorted y a xs h k.1)
]

All-lt_trans : (a x : ℕ) (xs : List ℕ) → a < x → All (λ z. x < z) xs → All (λ z. a < z) xs
All-lt_trans a x [] h k = tt
All-lt_trans a x (y ∷ ys) h k = (omega arith, All-lt_trans a x ys h k.1)

insert_sorted-IsAscending :
    (a : ℕ) (xs : List ℕ)
    → contains a xs ≡ false
    → IsAscending xs
    → IsAscending (insert_sorted a xs)
unfolding insert_sorted
insert_sorted-IsAscending a [] n h = (tt, tt)
insert_sorted-IsAscending a (x ∷ xs) n h = elim (Bool-cases (leb a x)) [
  | inl le ↦ let lt : a < x = ground arith in rw le ((lt, All-lt_trans a x xs lt h.0), h)
  | inr gt ↦
      let lt : x < a = ground arith in
      rw gt (All-lt-insert_sorted x a xs lt h.0, insert_sorted-IsAscending a xs (ground arith) h.1)
]

sort-IsAscending : (xs : List ℕ) → NoRepeats xs → IsAscending (sort xs)
unfolding sort
sort-IsAscending [] n = tt
sort-IsAscending (x ∷ xs) n =
    insert_sorted-IsAscending x (sort xs) (rw (contains-sort x xs) n.0) (sort-IsAscending xs n.1)

-- The order of locking is strictly ascending, so no account is locked twice and all callers lock in
-- one order, and it names exactly the accounts that were asked for.
pub lock_order-IsAscending :
    (accounts : List (Option ℕ))
    → IsAscending (lock_order accounts)
      × ((a : ℕ) → contains a (lock_order accounts) ≡ asked a accounts)
unfolding lock_order
lock_order-IsAscending accounts = (
  sort-IsAscending _ (dedupe-NoRepeats (filter_truthy accounts)),
  λ a.
      contains-sort a (dedupe (filter_truthy accounts))
      ∙ contains-dedupe a (filter_truthy accounts)
      ∙ contains-filter_truthy a accounts,
)
