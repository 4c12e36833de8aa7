-- ===== src/Paging.antt =====
-- Cursor pagination, as `getAccountLedgerEntries` (services/ledger-service/src/repositories/
-- ledgerRepository.js), `getPaginatedTransactions` (services/payment-service/src/repositories/
-- paymentRepository.js) and `getPaginatedHistory` (services/notification-service/src/repositories/
-- notificationRepository.js) share it: fetch one row more than the page holds.
pub mod Pages
mod Tests
use vault_core.Prelude.{
  ltb, leb, ◌==◌, if◌then◌else◌, ltb→lt, lt→ltb, leb→le, ==_iff, tests, Bool-cases, Option-cases,
  or_default, is_some, length, length-append, All, All-append, ℕ, zero, suc, ◌+◌, ◌-◌, ◌*◌, ◌/◌,
  ◌%◌, ◌^◌, ◌≤◌, ◌<◌, min, max, String, ◌≡◌, refl, sym, ap, ◌∙◌, ◌≢◌, ◌↔◌, ◌⊎◌, inl, inr, Bool,
  true, false, not, ◌&&◌, ◌||◌, Option, none, some, List, [], ◌∷◌, ◌++◌, map, arith, ℕ_discrete,
}

module _ {A : Type 0} where
  abbrev pub take : ℕ → List A → List A
  take zero xs = []
  take (suc n) [] = []
  take (suc n) (x ∷ xs) = x ∷ take n xs

-- The rows behind the one with the id `c`.
unfoldable pub behind : {A : Type 0} → ℕ → List (ℕ × A) → List (ℕ × A)
behind c [] = []
behind c ((k, x) ∷ r) = if c == k then r else behind c r

-- `findMany` is Prisma's: of the rows that pass the filter, in their order, it returns `take` many,
-- from the first on or (`cursor` with `skip: 1`) from behind the row of the cursor.
pub record Query (A : Type 0) : Type 0 where
  pub matching : List (ℕ × A)
  pub find_many : Option ℕ → ℕ → List (ℕ × A)
  pub find_many_first : (n : ℕ) → find_many none n ≡ take n matching
  pub find_many_behind : (c n : ℕ) → find_many (some c) n ≡ take n (behind c matching)

pub record Page (A : Type 0) : Type 0 where
  pub items : List (ℕ × A)
  pub has_more : Bool
  pub next_cursor : Option ℕ

-- `items.pop()`: what is left, and the last item.
unfoldable pub pop : {A : Type 0} → List A → List A × Option A
pop [] = ([], none)
pop (x ∷ []) = ([], some x)
pop (x ∷ y ∷ ys) = let (front, last) = pop (y ∷ ys) in (x ∷ front, last)

abbrev id_of : {A : Type 0} → Option (ℕ × A) → Option ℕ
id_of none = none
id_of (some x) = some x.0

unfoldable pub page_of : {A : Type 0} → ℕ → List (ℕ × A) → Page A
page_of limit rows =
    let (front, last) = pop rows in
    if ltb limit (length rows)
    then record { items = front; has_more = true; next_cursor = id_of last }
    else record { items = rows; has_more = false; next_cursor = none }

unfoldable pub get_page : {A : Type 0} → Query A → Option ℕ → ℕ → Page A
get_page q cursor limit = page_of limit (q.find_many cursor (limit + 1))
