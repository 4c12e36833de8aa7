-- ===== src/Payment/Settle.antt =====
-- How a transfer ends: its locks, and the books where its closing writes fail.
use vault_core.Prelude.{Option-cases, ℕ, ◌≡◌, refl, ◌∙◌, inl, inr, arith}
use vault_core.Result.{ok, err}
use vault_core.Table.{Table}
use vault_core.Lock.Redis.{Redis}
use vault_core.Lock.Service.{
  Service, owner, IsUp, get_idempotency_record, get-set_idempotency_record,
}
use vault_core.Lock.Hold.{with_account_locks_releases}
use vault_core.Ledger.Model.{Tables}
use vault_core.Ledger.Reads.{find_by_key}
use vault_core.Ledger.Posting.{TransferRequest}
use vault_core.Payment.Transfer.{
  UserContext, Response, PaymentEvent, AuditLog, CallEnv, Books, count_postgres_hit,
  existing_response, Settled, remember_reply, transfer_locked, process_transfer,
}

module _ (R : Redis Response) (T : Tables) (P : Table PaymentEvent) (A : Table AuditLog)
    (up : IsUp R) where
  remember_reply_quiet :
      (key : ℕ) (q : Settled R T P A) (s : Service R) (a : ℕ)
      → owner R (remember_reply R T P A key q s).1 a ≡ owner R s a
  remember_reply_quiet key (err e) s a = refl
  remember_reply_quiet key (ok reply) s a =
      (get-set_idempotency_record R key key reply.0 86400 s up).1 a

  transfer_locked_quiet :
      (env : CallEnv) (user : UserContext) (req : TransferRequest) (b : Books T P A) (s : Service R)
      (a : ℕ)
      → owner R (transfer_locked R T P A env user req b s).1 a ≡ owner R s a
  unfolding transfer_locked
  transfer_locked_quiet env user req b s a =
      elim (Option-cases (find_by_key T req.idempotency_key b.db)) [
        | inl x ↦ rw (x, transfer_locked) (remember_reply_quiet req.idempotency_key _ s a)
        | inr (found, x) ↦
            rw (x, transfer_locked)
              (remember_reply_quiet req.idempotency_key (ok (existing_response R T P A found, b))
                (count_postgres_hit R T P A s) a)
      ]

  owner-get_idempotency_record :
      (key : ℕ) (s : Service R) (a : ℕ) → owner R (get_idempotency_record R key s).1 a ≡ owner R s a
  unfolding get_idempotency_record
  owner-get_idempotency_record key s a = ground (arith, R.holder-attempt s.store a)

  -- While Redis answers, a transfer leaves every account lock with the owner that it had before,
  -- however it ends: a repeated key, a conflict, a failed check, a failure of the ledger or of the
  -- database, or success.
  pub process_transfer_releases :
      (env : CallEnv) (user : UserContext) (req : TransferRequest) (b : Books T P A) (s : Service R)
      (a : ℕ)
      → owner R (process_transfer R T P A env user req b s).1 a ≡ owner R s a
  unfolding process_transfer
  process_transfer_releases env user req b s a =
      let before = owner-get_idempotency_record req.idempotency_key s a in
      elim (Option-cases (get_idempotency_record R req.idempotency_key s).0) [
        | inl x ↦
            rw (x, process_transfer)
              (with_account_locks_releases R up env.lock_env 10000 _
                  (transfer_locked R T P A env user req b) _ (transfer_locked_quiet env user req b)
                  a
                ∙ before)
        | inr (reply, x) ↦ rw (x, process_transfer) before
      ]
