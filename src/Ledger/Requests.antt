-- ===== src/Ledger/Requests.antt =====
-- What the postings of `LedgerRepository` take and return, and what their checks find.
use vault_core.Prelude.{ℕ, String, Bool, Option, none, some, List}
use vault_core.Ledger.Model.{Account, Transaction}

pub record TransferRequest : Type 0 where
  pub idempotency_key : ℕ
  pub reference_id : Option ℕ
  pub source_account_number : ℕ
  pub target_account_number : ℕ
  pub amount : ℕ
  pub currency : Option String
  pub description : Option String

pub record CashRequest : Type 0 where
  pub idempotency_key : ℕ
  pub reference_id : Option ℕ
  pub account_number : ℕ
  pub amount : ℕ
  pub currency : Option String
  pub description : Option String

-- `currency = 'USD'`
abbrev pub currency_or_usd : Option String → String
currency_or_usd none = "USD"
currency_or_usd (some c) = c

-- `description = 'Cash Deposit'`, `description = 'Cash Withdrawal'`
abbrev pub description_or : String → Option String → String
description_or d none = d
description_or d (some text) = text

-- What a posting returns: its transaction, its new entries, and whether it was a duplicate.
pub record Receipt : Type 0 where
  pub transaction_id : ℕ
  pub entry_ids : List ℕ
  pub is_idempotent : Bool

-- What the checks found.
pub record TransferPlan : Type 0 where
  pub source_id : ℕ
  pub source_row : Account
  pub target_id : ℕ
  pub target_row : Account
  pub existing : Option (ℕ × Transaction)

pub record CashPlan : Type 0 where
  pub account_id : ℕ
  pub row : Account
  pub existing : Option (ℕ × Transaction)

pub data Prepared (P : Type 0) : Type 0 where
  duplicate : ℕ → Prepared P
  planned : P → Prepared P
