-- ===== src/Payment/Network.antt =====
-- What the client's call amounts to, by what the network does.
use mathlib.Core.Path.{subst}
use vault_core.Prelude.{
  Bool-cases, ℕ, zero, suc, ◌+◌, String, ◌≡◌, refl, inl, inr, Bool, true, false, arith,
}
use vault_core.Result.{Result, ok, err}
use vault_core.Ledger.Model.{LedgerError, error_status, Tables, Db}
use vault_core.Ledger.Posting.{
  TransferRequest, Receipt, post_transfer, execute_double_entry_transfer,
}
use vault_core.Ledger.Rollback.{RollsBack, finish-RollsBack}
use vault_core.Payment.Client.{
  Delivery, replied, reply_lost, not_delivered, LastError, no_error, ClientError, Reply, success,
  refused, transient, status_or_500, is_client_status, read_reply, attempt_post, after_attempt,
  post_attempts, record_double_entry,
}

abbrev pub is_lost : Delivery → Bool
is_lost (reply_lost message) = true
is_lost _ = false

-- Is one attempt enough?
abbrev is_transient : Reply → Bool
is_transient (transient e) = true
is_transient _ = false

module _ (T : Tables) where
  abbrev post : TransferRequest → Db T → Result LedgerError Receipt × Db T
  post req db = execute_double_entry_transfer T req (λ d. d) db

  -- The call is one posting that succeeded, or nothing.
  abbrev pub OnceOrNever : TransferRequest → Db T → Result ClientError Receipt × Db T → Type 0
  OnceOrNever req db (ok receipt, db') = post req db ≡ (ok receipt, db')
  OnceOrNever req db (err e, db') = db' ≡ db

  -- The same for one attempt.
  abbrev AttemptOnce : TransferRequest → Db T → Reply × Db T → Type 0
  AttemptOnce req db (success receipt, db') = post req db ≡ (ok receipt, db')
  AttemptOnce req db (refused status e, db') = db' ≡ db
  AttemptOnce req db (transient e, db') = db' ≡ db

  posted-AttemptOnce :
      (req : TransferRequest) (db db' : Db T) (r : Result LedgerError Receipt)
      → post req db ≡ (r, db')
      → RollsBack T db db (r, db')
      → AttemptOnce req db (read_reply r, db')
  unfolding read_reply
  posted-AttemptOnce req db db' (ok receipt) h b = h
  posted-AttemptOnce req db db' (err e) h b =
      let same : db' ≡ db = elim b [ inl x ↦ x | inr x ↦ x ] in
      elim (Bool-cases (is_client_status (status_or_500 (error_status e)))) [
        | inl x ↦ rw x same
        | inr x ↦ rw x same
      ]

  post-RollsBack : (req : TransferRequest) (db : Db T) → RollsBack T db db (post req db)
  unfolding execute_double_entry_transfer
  post-RollsBack req db = finish-RollsBack T (post_transfer T req) (λ d. d) db _

  attempt_post-AttemptOnce :
      (req : TransferRequest) (d : Delivery) (db : Db T)
      → is_lost d ≡ false
      → AttemptOnce req db (attempt_post T req d db)
  unfolding attempt_post
  attempt_post-AttemptOnce req replied db n =
      posted-AttemptOnce req db (post req db).1 (post req db).0 refl (post-RollsBack req db)
  attempt_post-AttemptOnce req (reply_lost message) db n = absurd (ground arith)
  attempt_post-AttemptOnce req (not_delivered message) db n = refl

  after_attempt-OnceOrNever :
      (req : TransferRequest) (db : Db T)
      (next : LastError → Db T → Result ClientError Receipt × Db T) (q : Reply × Db T)
      → AttemptOnce req db q
      → ((e : LastError) (d : Db T) → OnceOrNever req d (next e d))
      → OnceOrNever req db (after_attempt T next q)
  after_attempt-OnceOrNever req db next (success receipt, db') h later = h
  after_attempt-OnceOrNever req db next (refused status e, db') h later = h
  after_attempt-OnceOrNever req db next (transient e, db') h later =
      subst (λ d. OnceOrNever req d (next e db')) h (later e db')

  post_attempts-OnceOrNever :
      (req : TransferRequest) (network : ℕ → Delivery) (left attempt : ℕ) (last : LastError)
      (db : Db T)
      → ((n : ℕ) → is_lost (network n) ≡ false)
      → OnceOrNever req db (post_attempts T req network left attempt last db)
  unfolding post_attempts
  post_attempts-OnceOrNever req network zero attempt last db safe = refl
  post_attempts-OnceOrNever req network (suc left) attempt last db safe =
      after_attempt-OnceOrNever req db _ _
        (attempt_post-AttemptOnce req (network attempt) db (safe attempt))
        (λ e d. post_attempts-OnceOrNever req network left (attempt + 1) e d safe)

  -- While no reply of the ledger is lost, the client's call with all its attempts is one posting or
  -- none: a receipt is that of a posting on the database from before, which also gives the database
  -- after; and a call that throws leaves the database as it was.
  pub record_double_entry-OnceOrNever :
      (req : TransferRequest) (network : ℕ → Delivery) (db : Db T)
      → ((n : ℕ) → is_lost (network n) ≡ false)
      → OnceOrNever req db (record_double_entry T req network db)
  unfolding record_double_entry
  record_double_entry-OnceOrNever req network db safe =
      post_attempts-OnceOrNever req network 3 0 no_error db safe

  replied-success :
      (req : TransferRequest) (db db' : Db T) (r : Receipt)
      → post req db ≡ (ok r, db')
      → attempt_post T req replied db ≡ (success r, db')
  unfolding attempt_post read_reply
  replied-success req db db' r h = rw h refl

  -- One posting is enough: where the ledger accepts the transfer, two requests may fail to arrive and
  -- the third attempt still returns the receipt.
  third_attempt_succeeds :
      (req : TransferRequest) (network : ℕ → Delivery) (db db' : Db T) (r : Receipt) (a b : String)
      → network 0 ≡ not_delivered a
      → network 1 ≡ not_delivered b
      → network 2 ≡ replied
      → post req db ≡ (ok r, db')
      → record_double_entry T req network db ≡ (ok r, db')
  unfolding record_double_entry post_attempts attempt_post read_reply
  third_attempt_succeeds req network db db' r a b p q s h = rw (p, q, s, h) refl
