-- ===== src/Ledger/Service.antt =====
-- services/ledger-service/src/services/ledgerService.js: `getAccountLedgerHistory`, with its check of
-- the owner. (`recordDoubleEntryTransfer`, `recordDeposit` and `recordWithdrawal` only log around the
-- postings.)
use vault_core.Prelude.{
  ◌==◌, Option-cases, or_default, ℕ, String, ◌≡◌, ◌≢◌, ◌⊎◌, inl, inr, Bool, true, false, not, ◌&&◌,
  Option, none, some, arith,
}
use vault_core.Result.{Result, ok, ◌>>=◌, ◌>>◌, or_throw, throw_if}
use vault_core.Paging.{Query, Page, get_page}
use vault_core.Ledger.Model.{Account, LedgerEntry, Tables, Db}
use vault_core.Ledger.Reads.{find_account}

-- `USER_ROLES`
pub data UserRole : Type 0 where
  customer teller admin : UserRole

abbrev pub is_staff : UserRole → Bool
is_staff customer = false
is_staff _ = true

pub data HistoryError : Type 0 where
  not_found : ℕ → HistoryError
  forbidden : HistoryError

pub record History : Type 0 where
  pub account_number : ℕ
  pub currency : String
  pub page : Page LedgerEntry
  pub limit : ℕ

-- `filters.limit`, 20 in the default of the repository; a limit of 0 does not pass the validators.
abbrev limit_or_20 : Option ℕ → ℕ
limit_or_20 none = 20
limit_or_20 (some n) = n

-- The query is that of the account's id, with the filters that the caller gave.
unfoldable pub get_account_ledger_history :
    (T : Tables)
    → (ℕ → Query LedgerEntry)
    → ℕ
    → ℕ
    → UserRole
    → Option ℕ
    → Option ℕ
    → Db T
    → Result HistoryError History
get_account_ledger_history T query n user role cursor limit db = do
  found ← or_throw (find_account T n db) (not_found n)
  throw_if (not (found.1.user_id == user) && not (is_staff role)) forbidden
  ok (record {
    account_number = found.1.account_number;
    currency = found.1.currency;
    page = get_page (query found.0) cursor (limit_or_20 limit);
    limit = or_default limit 20;
  })

-- The page of a history is given for an account that the caller may see: staff any, a customer only
-- one of his own; and it is the page of the account with that number and no other.
pub history-owner :
    (T : Tables) (query : ℕ → Query LedgerEntry) (n user : ℕ) (role : UserRole)
    (cursor limit : Option ℕ) (db : Db T) (h : History)
    → get_account_ledger_history T query n user role cursor limit db ≡ ok h
    → (id : ℕ) × (a : Account) × (find_account T n db ≡ some (id, a))
      × ((a.user_id ≡ user) ⊎ (role ≢ customer))
      × (h.page ≡ get_page (query id) cursor (limit_or_20 limit))
unfolding get_account_ledger_history
history-owner T query n user role cursor limit db h e = elim (Option-cases (find_account T n db)) [
  | inl gone ↦ absurd (ground arith)
  | inr ((id, a), f) ↦ (id, a, f, ground arith, ground arith)
]
