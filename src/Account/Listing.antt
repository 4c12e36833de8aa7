-- ===== src/Account/Listing.antt =====
-- `AccountService.getUserAccounts`, with `findByUserId` and `findAllAccounts` of
-- services/account-service/src/repositories/accountRepository.js. A query's rows, newest first, are
-- arguments: those of all accounts that match the search, and those of one user. The totals of all
-- accounts, which the staff gets too, are left out. The validators allow pages and limits from 1 on.
use vault_core.Prelude.{
  ◌==◌, if◌then◌else◌, Bool-cases, length, ℕ, zero, suc, ◌+◌, ◌-◌, ◌*◌, ◌/◌, ◌≤◌, ◌<◌, ◌≡◌, refl,
  sym, ap, ◌∙◌, inl, inr, List, [], ◌∷◌, ◌++◌, arith,
}
use vault_core.Paging.{take}
use vault_core.Ledger.Model.{Account}
use vault_core.Ledger.Service.{UserRole, is_staff}

-- `skip`
abbrev pub skip_rows : {X : Type 0} → ℕ → List X → List X
skip_rows zero xs = xs
skip_rows (suc n) [] = []
skip_rows (suc n) (x ∷ xs) = skip_rows n xs

-- `findMany({ skip, take })` and `count`
abbrev pub find_page : ℕ → ℕ → List Account → List Account × ℕ
find_page skip limit rows = (take limit (skip_rows skip rows), length rows)

-- `Math.ceil(total / limit) || 1`
unfoldable pub total_pages : ℕ → ℕ → ℕ
total_pages total limit =
    let pages = (total + (limit - 1)) / limit in if pages == 0 then 1 else pages

pub record AccountPage : Type 0 where
  pub accounts : List Account
  pub page : ℕ
  pub limit : ℕ
  pub total_count : ℕ
  pub total_pages : ℕ

-- `matching` are the accounts that pass the search, `of_user` those of the caller.
unfoldable pub get_user_accounts : UserRole → ℕ → ℕ → List Account → List Account → AccountPage
unfolding total_pages
get_user_accounts role page limit matching of_user =
    let (accounts, total) =
      find_page ((page - 1) * limit) limit (if is_staff role then matching else of_user) in
    record {
      accounts = accounts;
      page = page;
      limit = limit;
      total_count = total;
      total_pages = total_pages total limit;
    }

-- The first pages, one after another.
abbrev pub pages_until : ℕ → UserRole → ℕ → List Account → List Account → List Account
pages_until zero role limit matching of_user = []
pages_until (suc k) role limit matching of_user =
    pages_until k role limit matching of_user
    ++ (get_user_accounts role (suc k) limit matching of_user).accounts

take_nil : {X : Type 0} (n : ℕ) → take {A = X} n [] ≡ []
take_nil zero = refl
take_nil (suc n) = refl

take_add :
    {X : Type 0} (m n : ℕ) (xs : List X) → take m xs ++ take n (skip_rows m xs) ≡ take (m + n) xs
take_add zero n xs = let e : n ≡ 0 + n = omega arith in ap (λ o. take o xs) e
take_add (suc m) n [] = take_nil n ∙ sym (take_nil (suc m + n))
take_add (suc m) n (x ∷ xs) =
    let e : suc (m + n) ≡ suc m + n = omega arith in
    ap (λ r. x ∷ r) (take_add m n xs) ∙ ap (λ o. take o (x ∷ xs)) e

take_every : {X : Type 0} (n : ℕ) (xs : List X) → length xs ≤ n → take n xs ≡ xs
take_every zero [] h = refl
take_every zero (x ∷ xs) h = absurd (omega arith)
take_every (suc n) [] h = refl
take_every (suc n) (x ∷ xs) h = ap (λ r. x ∷ r) (take_every n xs (omega arith))

-- The accounts that the caller's role lists.
abbrev pub listed : UserRole → List Account → List Account → List Account
listed role matching of_user = if is_staff role then matching else of_user

pages_until_lem :
    (k : ℕ) (role : UserRole) (limit : ℕ) (matching of_user : List Account)
    → pages_until k role limit matching of_user ≡ take (k * limit) (listed role matching of_user)
unfolding get_user_accounts
pages_until_lem zero role limit matching of_user =
    let e : 0 ≡ 0 * limit = omega arith in ap (λ o. take o (listed role matching of_user)) e
pages_until_lem (suc k) role limit matching of_user =
    let rows = listed role matching of_user in
    let before : suc k - 1 ≡ k = omega arith in
    let offset = ap (λ o. o * limit) before in
    let next : k * limit + limit ≡ suc k * limit = omega arith in
    ap (λ r. r ++ take limit (skip_rows ((suc k - 1) * limit) rows))
      (pages_until_lem k role limit matching of_user)
    ∙ ap (λ o. take (k * limit) rows ++ take limit (skip_rows o rows)) offset
    ∙ take_add (k * limit) limit rows
    ∙ ap (λ o. take o rows) next

enough_pages : (total limit : ℕ) → 0 < limit → total ≤ total_pages total limit * limit
unfolding total_pages
enough_pages total limit h =
    let pages = (total + (limit - 1)) / limit in
    let covers : total ≤ pages * limit = omega arith in
    elim (Bool-cases ((total + (limit - 1)) / limit == 0)) [
      | inl x ↦
          let none_full : (total + (limit - 1)) / limit ≡ 0 = ground arith in
          rw x (omega (arith, covers, ap (λ q. q * limit) none_full))
      | inr x ↦ rw x (omega arith)
    ]

-- The pages from 1 to the last that the reply names hold every account of the list, once and in its
-- order: for the staff all that match, for a customer his own.
pub pages_are_complete :
    (role : UserRole) (page limit : ℕ) (matching of_user : List Account)
    → 0 < limit
    → pages_until
        (get_user_accounts role page limit matching of_user).total_pages
        role
        limit
        matching
        of_user
      ≡ (if is_staff role then matching else of_user)
unfolding get_user_accounts
pages_are_complete role page limit matching of_user h =
    let rows = listed role matching of_user in
    pages_until_lem (total_pages (length rows) limit) role limit matching of_user
    ∙ take_every (total_pages (length rows) limit * limit) rows (enough_pages (length rows) limit h)
