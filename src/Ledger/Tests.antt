-- ===== src/Ledger/Tests.antt =====
-- The ledger over tables that are lists, and its theorems at concrete rows.
use vault_core.Prelude.{
  ◌==◌, if◌then◌else◌, ℕ, zero, suc, ◌+◌, ◌≡◌, refl, true, false, none, some, List, [], ◌∷◌, arith,
}
use vault_core.Result.{ok}
use vault_core.Table.Rows.{lookup, replace, sum_by, Distinct}
use vault_core.Table.Lists.{first_row, next_id, Rows, list_table}
use vault_core.Paging.{take, behind, Query, get_page}
use vault_core.Ledger.Model.{
  active, Account, TransactionStatus, pending, completed, transfer, Transaction, debit, LedgerEntry,
  Tables, Db,
}
use vault_core.Ledger.Reads.{
  find_account, find_by_key, has_entries, is_duplicate, require_active, require_funds,
}
use vault_core.Ledger.Posting.{
  TransferRequest, CashRequest, Receipt, unless_duplicate, plan_transfer, update_balance,
  reference_taken, create_transaction, reuse_or_create, post_entries, post_transfer,
  execute_double_entry_transfer, post_cash, plan_deposit, post_deposit, execute_deposit,
  plan_withdrawal, post_withdrawal, execute_withdrawal,
}
use vault_core.Ledger.Service.{customer, History, get_account_ledger_history}
use vault_core.Ledger.Versions.{KeepsVersions}
use vault_core.Ledger.Atomic.{TransferDone, transfer-TransferDone}
use vault_core.Ledger.Cash.{CashDone, withdrawal-CashDone}
use vault_core.Ledger.Reconcile.{IsReconciled, postings-IsReconciled}

abbrev pub lists : Tables
lists = record { accounts = list_table; transactions = list_table; entries = list_table }

abbrev pub account : ℕ → ℕ → ℕ → Account
account n user balance = record {
  account_number = n;
  user_id = user;
  status = active;
  balance = balance;
  currency = "USD";
  version = 0;
  is_deleted = false;
}

abbrev pub prepared : TransactionStatus → Transaction
prepared status = record {
  idempotency_key = 77;
  reference_id = some 5;
  source_account_id = some 1;
  target_account_id = some 2;
  amount = 300;
  currency = "USD";
  category = transfer;
  status = status;
  description = none;
  failure_reason = none;
}

abbrev two_rows : List (ℕ × Account)
two_rows = (1, account 1001 11 1000) ∷ (2, account 1002 12 50) ∷ []

pub two_rows-Distinct : Distinct two_rows
unfolding lookup
two_rows-Distinct = (refl, (refl, tt))

pub one_row-Distinct : {V : Type 0} (k : ℕ) (v : V) → Distinct ((k, v) ∷ [])
unfolding lookup
one_row-Distinct k v = (refl, tt)

abbrev with_transactions : Rows Transaction → Rows LedgerEntry → Db lists
with_transactions ts es = record {
  accounts = (two_rows, two_rows-Distinct);
  transactions = ts;
  entries = es;
}

abbrev pub empty_book : Db lists
empty_book = with_transactions ([], tt) ([], tt)

abbrev pub pending_book : Db lists
pending_book =
    with_transactions ((4, prepared pending) ∷ [], one_row-Distinct 4 (prepared pending)) ([], tt)

abbrev old_entry : LedgerEntry
old_entry = record {
  transaction_id = 4;
  account_id = 1;
  entry_type = debit;
  amount = 300;
  balance_after = 1000;
}

abbrev completed_book : Db lists
completed_book =
    with_transactions ((4, prepared completed) ∷ [], one_row-Distinct 4 (prepared completed))
      ((8, old_entry) ∷ [], one_row-Distinct 8 old_entry)

abbrev pub request : ℕ → TransferRequest
request to = record {
  idempotency_key = 77;
  reference_id = some 5;
  source_account_number = 1001;
  target_account_number = to;
  amount = 300;
  currency = none;
  description = none;
}

abbrev cash : CashRequest
cash = record {
  idempotency_key = 77;
  reference_id = some 5;
  account_number = 1001;
  amount = 300;
  currency = none;
  description = none;
}

abbrev alone : Db lists → Db lists
alone db = db

alone-KeepsVersions : (db : Db lists) → KeepsVersions lists db (alone db)
alone-KeepsVersions db = record { guarded = λ id a b p q v. cc }

abbrev pub moved : Db lists
moved = (execute_double_entry_transfer lists (request 1002) alone pending_book).1

abbrev pub first_receipt : Receipt
first_receipt = record { transaction_id = 4; entry_ids = 1 ∷ 2 ∷ []; is_idempotent = false }

abbrev pub second_receipt : Receipt
second_receipt = record { transaction_id = 4; entry_ids = 3 ∷ 4 ∷ []; is_idempotent = false }

pub first_transfer :
    execute_double_entry_transfer lists (request 1002) alone pending_book
    ≡ (ok first_receipt, moved)
unfolding execute_double_entry_transfer unless_duplicate is_duplicate find_by_key find_account
    has_entries plan_transfer require_active require_funds post_transfer update_balance
    reuse_or_create create_transaction reference_taken post_entries lookup replace first_row next_id
first_transfer = refl

transfer-TransferDone_example :
    TransferDone lists (request 1002) first_receipt pending_book pending_book moved
transfer-TransferDone_example =
    transfer-TransferDone lists (request 1002) alone pending_book moved first_receipt
      (alone-KeepsVersions pending_book) first_transfer refl

abbrev pub moved_again : Db lists
moved_again = (execute_double_entry_transfer lists (request 1002) alone moved).1

pub second_transfer :
    execute_double_entry_transfer lists (request 1002) alone moved
    ≡ (ok second_receipt, moved_again)
unfolding execute_double_entry_transfer unless_duplicate is_duplicate find_by_key find_account
    has_entries plan_transfer require_active require_funds post_transfer update_balance
    reuse_or_create create_transaction reference_taken post_entries lookup replace first_row next_id
second_transfer = refl

pub found_pending : find_by_key lists 77 pending_book ≡ some (4, prepared pending)
unfolding find_by_key first_row
found_pending = refl

abbrev cash_receipt : Receipt
cash_receipt = record { transaction_id = 1; entry_ids = 1 ∷ []; is_idempotent = false }

abbrev richer : Db lists
richer = (execute_deposit lists cash alone empty_book).1

abbrev poorer : Db lists
poorer = (execute_withdrawal lists cash alone empty_book).1

deposited : execute_deposit lists cash alone empty_book ≡ (ok cash_receipt, richer)
unfolding execute_deposit unless_duplicate find_by_key find_account plan_deposit require_active
    post_deposit post_cash update_balance reuse_or_create create_transaction reference_taken lookup
    replace first_row next_id
deposited = refl

withdrawn : execute_withdrawal lists cash alone empty_book ≡ (ok cash_receipt, poorer)
unfolding execute_withdrawal unless_duplicate find_by_key find_account plan_withdrawal
    require_active require_funds post_withdrawal post_cash update_balance reuse_or_create
    create_transaction reference_taken lookup replace first_row next_id
withdrawn = refl

withdrawal-CashDone_example :
    (done : CashDone lists cash debit cash_receipt empty_book empty_book poorer) × (done.new_balance
        + 300
      ≡ done.account_row.balance)
withdrawal-CashDone_example =
    withdrawal-CashDone lists cash alone empty_book poorer cash_receipt
      (alone-KeepsVersions empty_book) withdrawn refl

abbrev opening : ℕ → ℕ
opening id = if id == 1 then 1000 else 50

empty_book-IsReconciled : IsReconciled lists opening empty_book
unfolding lookup sum_by
empty_book-IsReconciled = record { books = λ id a e. ground arith }

postings-IsReconciled_example :
    IsReconciled lists opening
      (execute_double_entry_transfer lists (request 1002) alone empty_book).1
    × IsReconciled lists opening richer
    × IsReconciled lists opening poorer
postings-IsReconciled_example =
    postings-IsReconciled lists opening (request 1002) cash alone empty_book
      (alone-KeepsVersions empty_book) empty_book-IsReconciled empty_book-IsReconciled

found_completed : find_by_key lists 77 completed_book ≡ some (4, prepared completed)
unfolding find_by_key first_row
found_completed = refl

completed_has_entries : has_entries lists 4 completed_book ≡ true
unfolding has_entries first_row
completed_has_entries = refl

found_none : find_by_key lists 77 empty_book ≡ none
unfolding find_by_key first_row
found_none = refl

found_first : find_account lists 1001 empty_book ≡ some (1, account 1001 11 1000)
unfolding find_account first_row
found_first = refl

take_nil : (n : ℕ) → ◌≡◌ {A = List (ℕ × LedgerEntry)} [] (take n [])
take_nil zero = refl
take_nil (suc n) = refl

take_behind_nil : (c n : ℕ) → ◌≡◌ {A = List (ℕ × LedgerEntry)} [] (take n (behind c []))
unfolding behind
take_behind_nil c n = take_nil n

abbrev no_rows : Query LedgerEntry
no_rows = record {
  matching = [];
  find_many = λ c n. [];
  find_many_first = λ n. take_nil n;
  find_many_behind = λ c n. take_behind_nil c n;
}

abbrev history : History
history = record {
  account_number = 1001;
  currency = "USD";
  page = get_page no_rows none 20;
  limit = 20;
}

own_history :
    get_account_ledger_history lists (λ id. no_rows) 1001 11 customer none none empty_book
    ≡ ok history
unfolding get_account_ledger_history find_account first_row
own_history = refl
