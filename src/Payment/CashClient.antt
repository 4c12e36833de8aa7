-- ===== src/Payment/CashClient.antt =====
-- `LedgerClient.recordDeposit` and `LedgerClient.recordWithdrawal`, the actions inside the circuit
-- breaker: one request each, against the model of the ledger, with the network as an argument.
use vault_core.Prelude.{ℕ, String}
use vault_core.Result.{Result, ok, err}
use vault_core.Ledger.Model.{LedgerError, error_status, Tables, Db}
use vault_core.Ledger.Posting.{CashRequest, Receipt, execute_deposit, execute_withdrawal}
use vault_core.Payment.Client.{Delivery, replied, reply_lost, not_delivered, status_or_500}

-- The ledger's error with its status, or the error of `fetch`.
pub data CashFailure : Type 0 where
  cash_refused : ℕ → LedgerError → CashFailure
  cash_unreachable : String → CashFailure

-- `if (!response.ok) throw`
abbrev pub read_cash_reply : Result LedgerError Receipt → Result CashFailure Receipt
read_cash_reply (ok receipt) = ok receipt
read_cash_reply (err e) = err (cash_refused (status_or_500 (error_status e)) e)

module _ (T : Tables) where
  -- One request: what the ledger does with it, and whether its reply arrives.
  unfoldable pub post_once :
      (Db T → Result LedgerError Receipt × Db T)
      → Delivery
      → Db T
      → Result CashFailure Receipt × Db T
  post_once execute replied db = let (r, db') = execute db in (read_cash_reply r, db')
  post_once execute (reply_lost message) db = (err (cash_unreachable message), (execute db).1)
  post_once execute (not_delivered message) db = (err (cash_unreachable message), db)

  unfoldable pub record_deposit : CashRequest → Delivery → Db T → Result CashFailure Receipt × Db T
  unfolding post_once
  record_deposit req d db = post_once (execute_deposit T req (λ x. x)) d db

  unfoldable pub record_withdrawal :
      CashRequest → Delivery → Db T → Result CashFailure Receipt × Db T
  unfolding post_once
  record_withdrawal req d db = post_once (execute_withdrawal T req (λ x. x)) d db
