-- ===== src/Ledger/Model.antt =====
-- The rows of prisma/schema.prisma that the ledger reads and writes, the errors it throws, and the
-- database as a record of tables.
use vault_core.Prelude.{ℕ, String, Bool, Option, none, some}
use vault_core.Table.{Table}

pub data AccountStatus : Type 0 where
  active frozen closed : AccountStatus

pub record Account : Type 0 where
  pub account_number : ℕ
  pub user_id : ℕ
  pub status : AccountStatus
  pub balance : ℕ
  pub currency : String
  pub version : ℕ
  pub is_deleted : Bool

pub data TransactionStatus : Type 0 where
  pending processing completed failed reversed : TransactionStatus

pub data Category : Type 0 where
  deposit withdrawal transfer : Category

pub record Transaction : Type 0 where
  pub idempotency_key : ℕ
  pub reference_id : Option ℕ
  pub source_account_id : Option ℕ
  pub target_account_id : Option ℕ
  pub amount : ℕ
  pub currency : String
  pub category : Category
  pub status : TransactionStatus
  pub description : Option String
  pub failure_reason : Option String

pub data EntryType : Type 0 where
  debit credit : EntryType

pub record LedgerEntry : Type 0 where
  pub transaction_id : ℕ
  pub account_id : ℕ
  pub entry_type : EntryType
  pub amount : ℕ
  pub balance_after : ℕ

-- Which account a message is about.
pub data Role : Type 0 where
  source target sole : Role

-- The errors, by the template of their message; a broken `@unique` is thrown by Prisma (P2002).
pub data LedgerError : Type 0 where
  account_not_found : Role → ℕ → LedgerError
  account_is : Role → ℕ → AccountStatus → LedgerError
  insufficient_funds : ℕ → ℕ → String → LedgerError
  version_conflict : Role → ℕ → LedgerError
  unique_violation : LedgerError

-- The status of `NotFoundError`, `BadRequestError` and `ConflictError`; the last has none.
unfoldable pub error_status : LedgerError → Option ℕ
error_status (account_not_found _ n) = some 404
error_status (account_is _ n status) = some 400
error_status (insufficient_funds n balance currency) = some 400
error_status (version_conflict _ n) = some 409
error_status unique_violation = none

-- The tables, and the state of each.
pub record Tables : Type 1 where
  pub accounts : Table Account
  pub transactions : Table Transaction
  pub entries : Table LedgerEntry

pub record Db (T : Tables) : Type 0 where
  pub accounts : T.accounts.State
  pub transactions : T.transactions.State
  pub entries : T.entries.State
