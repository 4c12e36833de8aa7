-- ===== src/Payment/Client.antt =====
-- `LedgerClient.recordDoubleEntry`, the action inside the circuit breaker: up to three attempts at
-- POST /entries. The ledger's side of an attempt is the model of Ledger.Posting, with the status that
-- the shared error handler sends; the network is an argument. Waiting between attempts, headers and
-- log lines are left out.
use vault_core.Prelude.{
  ltb, leb, if◌then◌else◌, ℕ, zero, suc, ◌+◌, String, Bool, ◌&&◌, Option, none, some,
}
use vault_core.Result.{Result, ok, err}
use vault_core.Ledger.Model.{LedgerError, error_status, Tables, Db}
use vault_core.Ledger.Posting.{TransferRequest, Receipt, execute_double_entry_transfer}

-- What happens to the request of one attempt: the reply arrives, or the request is carried out and
-- the reply does not arrive in time, or the request does not reach the ledger.
pub data Delivery : Type 0 where
  replied : Delivery
  reply_lost : String → Delivery
  not_delivered : String → Delivery

-- `lastError`
pub data LastError : Type 0 where
  no_error : LastError
  server_error : LedgerError → LastError
  network_error : String → LastError

-- What the client throws: the ledger's 4xx with its status, or `InternalServerError`.
pub data ClientError : Type 0 where
  client_error : ℕ → LedgerError → ClientError
  communication_failure : LastError → ClientError

-- How the client reads one attempt.
pub data Reply : Type 0 where
  success : Receipt → Reply
  refused : ℕ → LedgerError → Reply
  transient : LastError → Reply

-- An error without a status of its own is a 500.
abbrev pub status_or_500 : Option ℕ → ℕ
status_or_500 none = 500
status_or_500 (some status) = status

abbrev pub is_client_status : ℕ → Bool
is_client_status status = leb 400 status && ltb status 500

unfoldable pub read_reply : Result LedgerError Receipt → Reply
read_reply (ok receipt) = success receipt
read_reply (err e) =
    let status = status_or_500 (error_status e) in
    if is_client_status status then refused status e else transient (server_error e)

module _ (T : Tables) where
  unfoldable pub attempt_post : TransferRequest → Delivery → Db T → Reply × Db T
  unfolding read_reply
  attempt_post req replied db =
      let (r, db') = execute_double_entry_transfer T req (λ d. d) db in (read_reply r, db')
  attempt_post req (reply_lost message) db =
      (transient (network_error message), (execute_double_entry_transfer T req (λ d. d) db).1)
  attempt_post req (not_delivered message) db = (transient (network_error message), db)

  -- `return`, `throw`, or `continue` with the next attempt.
  abbrev pub after_attempt :
      (LastError → Db T → Result ClientError Receipt × Db T)
      → Reply × Db T
      → Result ClientError Receipt × Db T
  after_attempt next (success receipt, db) = (ok receipt, db)
  after_attempt next (refused status e, db) = (err (client_error status e), db)
  after_attempt next (transient e, db) = next e db

  -- The loop, with the attempts left, the number of this one, and `lastError`.
  unfoldable pub post_attempts :
      TransferRequest
      → (ℕ → Delivery)
      → ℕ
      → ℕ
      → LastError
      → Db T
      → Result ClientError Receipt × Db T
  unfolding attempt_post
  post_attempts req network zero attempt last db = (err (communication_failure last), db)
  post_attempts req network (suc left) attempt last db =
      after_attempt (λ e d. post_attempts req network left (attempt + 1) e d)
        (attempt_post req (network attempt) db)

  -- `maxRetries = 2`: the attempts 0, 1 and 2.
  unfoldable pub record_double_entry :
      TransferRequest → (ℕ → Delivery) → Db T → Result ClientError Receipt × Db T
  unfolding post_attempts
  record_double_entry req network db = post_attempts req network 3 0 no_error db
