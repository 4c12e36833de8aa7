-- ===== src/Payment/CashTests.antt =====
-- Deposits and withdrawals at concrete inputs, on the book of Ledger.Tests.
use vault_core.Prelude.{ℕ, ◌+◌, String, ◌≡◌, refl, false, Option, none, some, [], ◌∷◌}
use vault_core.Result.{ok, err}
use vault_core.Table.Rows.{lookup, replace}
use vault_core.Table.Lists.{first_row, next_id, list_table}
use vault_core.Lock.Order.{filter_truthy, dedupe, insert_sorted, sort, lock_order}
use vault_core.Lock.Service.{
  Lock, acquire_lock, release_lock, get_idempotency_record, set_idempotency_record,
}
use vault_core.Lock.Acquire.{
  callback_threw, release_account_locks, acquire_each, acquire_account_locks, with_account_locks,
}
use vault_core.Ledger.Model.{Account, completed, Transaction, Db}
use vault_core.Ledger.Reads.{find_account, find_by_key, require_active, require_funds}
use vault_core.Ledger.Posting.{
  CashRequest, Receipt, unless_duplicate, update_balance, reference_taken, create_transaction,
  reuse_or_create, post_cash, plan_deposit, post_deposit, execute_deposit, plan_withdrawal,
  post_withdrawal, execute_withdrawal,
}
use vault_core.Ledger.Tests.{lists, account, empty_book}
use vault_core.Payment.Client.{Delivery, replied, reply_lost}
use vault_core.Payment.CashClient.{cash_unreachable, post_once, record_withdrawal}
use vault_core.Payment.Transfer.{cash_failed, Books}
use vault_core.Payment.Cash.{
  CashEnv, check_deposit, check_withdrawal, record_operation_outbox, cash_response, cash_locked,
  process_withdrawal, process_deposit,
}
use vault_core.Payment.CashOutcome.{with_reference, IsPaidOut, process_withdrawal-IsPosted}
use vault_core.Payment.CashRetry.{SecondReply, lost_deposit_is_not_repeated}
use vault_core.Payment.TransferTests.{replies, idle, books, owner_11, books_or}

abbrev fresh_cash : CashRequest
fresh_cash = record {
  idempotency_key = 78;
  reference_id = none;
  account_number = 1001;
  amount = 300;
  currency = none;
  description = none;
}

abbrev visit : Delivery → Option String → CashEnv
visit d error = record {
  lock_env = record { uuid = λ n. 100 + n; duration_ms = λ n. n };
  reference_id = 6;
  delivery = d;
  outbox_error = error;
}

abbrev the_account : ℕ × Account
the_account = (1, account 1001 11 1000)

abbrev cash_receipt : Receipt
cash_receipt = record { transaction_id = 1; entry_ids = 1 ∷ []; is_idempotent = false }

abbrev paid_in : Db lists
paid_in =
    (execute_deposit lists
      (with_reference replies lists list_table list_table (visit replied none) fresh_cash) (λ x. x)
      empty_book).1

paid_in_test :
    execute_deposit lists
      (with_reference replies lists list_table list_table (visit replied none) fresh_cash)
      (λ x. x)
      empty_book
    ≡ (ok cash_receipt, paid_in)
unfolding execute_deposit unless_duplicate find_by_key find_account plan_deposit require_active
    post_deposit post_cash update_balance reuse_or_create create_transaction reference_taken lookup
    replace first_row next_id
paid_in_test = refl

key_is_free : find_by_key lists 78 empty_book ≡ none
unfolding find_by_key first_row
key_is_free = refl

deposit_may :
    check_deposit replies lists list_table list_table fresh_cash empty_book ≡ ok the_account
unfolding check_deposit find_account first_row
deposit_may = refl

abbrev visit_lost : CashEnv
visit_lost = visit (reply_lost "timeout") none

abbrev own_lock : Lock
own_lock = record { lock_id = 100; account_number = 1001; ttl_ms = 10000 }

key_is_unknown : (get_idempotency_record replies 78 idle).0 ≡ none
unfolding get_idempotency_record
key_is_unknown = refl

lock_is_free :
    (acquire_account_locks replies visit_lost.lock_env 10000
      (some 1001 ∷ [])
      (get_idempotency_record replies 78 idle).1).0
    ≡ ok (own_lock ∷ [])
unfolding get_idempotency_record acquire_account_locks acquire_each acquire_lock lock_order
    filter_truthy dedupe sort insert_sorted release_account_locks release_lock
lock_is_free = refl

lost_deposit_is_not_repeated_example :
    ((process_deposit replies lists list_table list_table visit_lost owner_11 fresh_cash books
        idle).0
      ≡ err (
          callback_threw (cash_failed (cash_unreachable "timeout"), record books { db = paid_in })))
    × ((t : Transaction) × (t.status ≡ completed)
        × SecondReply replies lists list_table list_table
            (visit replied none)
            fresh_cash
            (1, t)
            (record books { db = paid_in })
            idle
            (process_deposit replies lists list_table list_table
              (visit replied none)
              owner_11
              fresh_cash
              (record books { db = paid_in })
              idle).0)
lost_deposit_is_not_repeated_example =
    lost_deposit_is_not_repeated replies lists list_table list_table visit_lost (visit replied none)
      owner_11 owner_11 fresh_cash books idle idle (own_lock ∷ []) the_account cash_receipt paid_in
      "timeout" key_is_unknown lock_is_free key_is_free deposit_may refl paid_in_test refl

abbrev paid_out : Books lists list_table list_table
paid_out =
    books_or books
      (process_withdrawal replies lists list_table list_table (visit replied none) owner_11
        fresh_cash books idle).0

withdrawal_test :
    (process_withdrawal replies lists list_table list_table
      (visit replied none)
      owner_11
      fresh_cash
      books
      idle).0
    ≡ ok (
      cash_response replies lists list_table list_table (visit replied none) fresh_cash 1,
      paid_out,
    )
unfolding process_withdrawal get_idempotency_record with_account_locks acquire_account_locks
    acquire_each acquire_lock lock_order filter_truthy dedupe sort insert_sorted
    release_account_locks release_lock cash_locked check_withdrawal record_withdrawal post_once
    record_operation_outbox execute_withdrawal unless_duplicate find_by_key find_account
    plan_withdrawal require_active require_funds post_withdrawal post_cash update_balance
    reuse_or_create create_transaction reference_taken lookup replace first_row next_id
    set_idempotency_record
withdrawal_test = refl

process_withdrawal-IsPosted_example :
    IsPaidOut replies lists list_table list_table
      (visit replied none)
      owner_11
      fresh_cash
      books
      paid_out
      (cash_response replies lists list_table list_table (visit replied none) fresh_cash 1)
process_withdrawal-IsPosted_example =
    process_withdrawal-IsPosted replies lists list_table list_table (visit replied none) owner_11
      fresh_cash books paid_out
      (cash_response replies lists list_table list_table (visit replied none) fresh_cash 1) idle
      withdrawal_test refl
