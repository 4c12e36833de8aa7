-- ===== src/Payment/TransferTests.antt =====
-- Whole transfers at concrete inputs, on the book of Ledger.Tests.
use vault_core.Prelude.{
  ◌==◌, if◌then◌else◌, is_some, ℕ, ◌+◌, String, ◌≡◌, refl, true, false, not, ◌&&◌, Option, none,
  some, [], ◌∷◌, arith,
}
use vault_core.Result.{Result, ok, err}
use vault_core.Table.Rows.{lookup, replace}
use vault_core.Table.Lists.{first_row, next_id, list_table}
use vault_core.Lock.Redis.{Redis}
use vault_core.Lock.Order.{filter_truthy, dedupe, insert_sorted, sort, lock_order}
use vault_core.Lock.Service.{
  no_metrics, Service, owner, acquire_lock, release_lock, get_idempotency_record,
  set_idempotency_record,
}
use vault_core.Lock.Acquire.{
  release_account_locks, acquire_each, acquire_account_locks, with_account_locks,
}
use vault_core.Ledger.Model.{Account, failed, Transaction, Db}
use vault_core.Ledger.Reads.{
  find_account, find_by_key, has_entries, is_duplicate, require_active, require_funds,
}
use vault_core.Ledger.Posting.{
  TransferRequest, Receipt, unless_duplicate, plan_transfer, update_balance, reference_taken,
  create_transaction, reuse_or_create, post_entries, post_transfer, execute_double_entry_transfer,
}
use vault_core.Ledger.Service.{customer}
use vault_core.Ledger.Tests.{lists, account, empty_book, request}
use vault_core.Payment.Client.{
  replied, read_reply, attempt_post, post_attempts, record_double_entry,
}
use vault_core.Payment.Transfer.{
  UserContext, Response, database_failed, CallEnv, Books, check_transfer, update_transaction,
  pending_row, completed_response, finalize_successful_transaction, close_transfer, post_pending,
  transfer_locked, process_transfer,
}
use vault_core.Payment.Complete.{transaction_row, IsCarriedOut}
use vault_core.Payment.Settle.{process_transfer_releases}
use vault_core.Payment.Outcome.{process_transfer-IsCarriedOut, posted_but_failed}

abbrev put : {V : Type 0} → ℕ → Option V → (ℕ → Option V) → ℕ → Option V
put k v f j = if k == j then v else f j

pub holder-put :
    (s : (ℕ → Option ℕ) × (ℕ → Option Response)) (k v ttl j : ℕ)
    → (if is_some (s.0 k) then s.0 else put k (some v) s.0) j
      ≡ (if not (is_some (s.0 k)) && k == j then some v else s.0 j)
holder-put s k v ttl j = ground arith

abbrev pub replies : Redis Response
replies = record {
  State = (ℕ → Option ℕ) × (ℕ → Option Response);
  holder = λ s. s.0;
  cached = λ s. s.1;
  attempt = λ s. (true, s);
  set_nx = λ s k v ttl.
      (not (is_some (s.0 k)), (if is_some (s.0 k) then s.0 else put k (some v) s.0, s.1));
  del = λ s k. (put k none s.0, s.1);
  set_ex = λ s k v ttl. (s.0, put k (some v) s.1);
  holder-attempt = λ s k. refl;
  cached-attempt = λ s k. refl;
  set_nx_iff = λ s k v ttl. refl;
  holder-set_nx = holder-put;
  cached-set_nx = λ s k v ttl j. refl;
  holder-del = λ s k j. refl;
  cached-del = λ s k j. refl;
  holder-set_ex = λ s k v ttl j. refl;
  cached-set_ex = λ s k v ttl j. refl;
}

abbrev pub idle : Service replies
idle = record { store = ((λ k. none), (λ k. none)); drawn = 0; metrics = no_metrics }

abbrev pub books : Books lists list_table list_table
books = record { db = empty_book; outbox = ([], tt); audit_logs = ([], tt) }

abbrev pub owner_11 : UserContext
owner_11 = record { user_id = 11; role = customer }

-- A call whose closing writes meet this error.
abbrev call : Option String → CallEnv
call error = record {
  lock_env = record { uuid = λ n. 100 + n; duration_ms = λ n. n };
  reference_id = 6;
  network = λ n. replied;
  finalize_error = error;
  mark_failed_error = none;
  message_of = λ e. "failed";
}

process_transfer_releases_example :
    owner replies
      (process_transfer replies lists list_table list_table
        (call none)
        owner_11
        (request 1002)
        books
        idle).1
      1001
    ≡ owner replies idle 1001
process_transfer_releases_example =
    process_transfer_releases replies lists list_table list_table (λ st. refl) (call none) owner_11
      (request 1002) books idle 1001

abbrev pub books_or :
    {E : Type 0}
    → Books lists list_table list_table
    → Result E (Response × Books lists list_table list_table)
    → Books lists list_table list_table
books_or default (err e) = default
books_or default (ok (reply, b)) = b

abbrev after : Books lists list_table list_table
after =
    books_or books
      (process_transfer replies lists list_table list_table (call none) owner_11 (request 1002)
        books idle).0

transfer_test :
    (process_transfer replies lists list_table list_table
      (call none)
      owner_11
      (request 1002)
      books
      idle).0
    ≡ ok
        (completed_response replies lists list_table list_table (call none) (request 1002) 1, after)
unfolding process_transfer get_idempotency_record with_account_locks acquire_account_locks
    acquire_each acquire_lock lock_order filter_truthy dedupe sort insert_sorted
    release_account_locks release_lock transfer_locked check_transfer post_pending close_transfer
    finalize_successful_transaction update_transaction record_double_entry post_attempts
    attempt_post read_reply execute_double_entry_transfer unless_duplicate is_duplicate find_by_key
    find_account has_entries plan_transfer require_active require_funds post_transfer update_balance
    reuse_or_create create_transaction reference_taken post_entries lookup replace first_row next_id
    set_idempotency_record
transfer_test = refl

process_transfer-IsCarriedOut_example :
    IsCarriedOut replies lists list_table list_table
      (call none)
      owner_11
      (request 1002)
      books
      after
      (completed_response replies lists list_table list_table (call none) (request 1002) 1)
process_transfer-IsCarriedOut_example =
    process_transfer-IsCarriedOut replies lists list_table list_table (call none) owner_11
      (request 1002) books after
      (completed_response replies lists list_table list_table (call none) (request 1002) 1) idle
      transfer_test refl

abbrev refused_call : CallEnv
refused_call = call (some "connection lost")

abbrev both : (ℕ × Account) × (ℕ × Account)
both = ((1, account 1001 11 1000), (2, account 1002 12 50))

checked_test :
    check_transfer replies lists list_table list_table owner_11 (request 1002) empty_book ≡ ok both
unfolding check_transfer find_account first_row
checked_test = refl

abbrev db_or : {E : Type 0} → Db lists → Result E (ℕ × Db lists) → Db lists
db_or default (err e) = default
db_or default (ok (id, db)) = db

abbrev prepared_db : Db lists
prepared_db = db_or empty_book (
    create_transaction lists
      (pending_row replies lists list_table list_table refused_call (request 1002) 1 2) empty_book)

created_test :
    create_transaction lists
      (pending_row replies lists list_table list_table refused_call (request 1002) 1 2)
      empty_book
    ≡ ok (1, prepared_db)
unfolding create_transaction find_by_key reference_taken first_row next_id
created_test = refl

abbrev ledger_request : TransferRequest
ledger_request = record (request 1002) { reference_id = some 6 }

abbrev posted_db : Db lists
posted_db = (record_double_entry lists ledger_request (λ n. replied) prepared_db).1

abbrev ledger_receipt : Receipt
ledger_receipt = record { transaction_id = 1; entry_ids = 1 ∷ 2 ∷ []; is_idempotent = false }

posted_test :
    record_double_entry lists ledger_request (λ n. replied) prepared_db
    ≡ (ok ledger_receipt, posted_db)
unfolding record_double_entry post_attempts attempt_post read_reply execute_double_entry_transfer
    unless_duplicate is_duplicate find_by_key find_account has_entries plan_transfer require_active
    require_funds post_transfer update_balance reuse_or_create create_transaction reference_taken
    post_entries lookup replace first_row next_id
posted_test = refl

abbrev pending_transaction : Transaction
pending_transaction =
    pending_row replies lists list_table list_table refused_call (request 1002) 1 2

posted_row_test :
    transaction_row replies lists list_table list_table 1 posted_db ≡ some pending_transaction
unfolding record_double_entry post_attempts attempt_post read_reply execute_double_entry_transfer
    unless_duplicate is_duplicate find_by_key find_account has_entries plan_transfer require_active
    require_funds post_transfer update_balance reuse_or_create create_transaction reference_taken
    post_entries lookup replace first_row next_id
posted_row_test = refl

posted_but_failed_example :
    (b' : Books lists list_table list_table) × (post_pending replies lists list_table list_table
        refused_call owner_11
        (request 1002)
        books
        (check_transfer replies lists list_table list_table owner_11 (request 1002) empty_book)
      ≡ err (database_failed "connection lost", b'))
    × (b'.db.accounts ≡ posted_db.accounts)
    × (b'.db.entries ≡ posted_db.entries)
    × ((t' : Transaction) × (transaction_row replies lists list_table list_table 1 b'.db ≡ some t')
        × (t'.status ≡ failed))
posted_but_failed_example =
    posted_but_failed replies lists list_table list_table refused_call owner_11 (request 1002) books
      both 1 prepared_db posted_db ledger_receipt pending_transaction "connection lost" checked_test
      created_test posted_test posted_row_test refl refl
