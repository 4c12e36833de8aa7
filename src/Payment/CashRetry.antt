-- ===== src/Payment/CashRetry.antt =====
-- A deposit whose reply, or whose outbox write, is lost.
use vault_core.Prelude.{
  ℕ, String, ◌≡◌, refl, ap, ◌∙◌, inl, inr, true, false, Option, none, some, List, [], ◌∷◌, arith,
}
use vault_core.Result.{Result, ok, err, Result-cases}
use vault_core.Table.{Table}
use vault_core.Lock.Redis.{Redis}
use vault_core.Lock.Service.{LockError, Lock, Service, get_idempotency_record}
use vault_core.Lock.Acquire.{
  CallError, conflict, callback_threw, acquire_account_locks, with_account_locks,
}
use vault_core.Ledger.Model.{Account, completed, Transaction, Tables, Db}
use vault_core.Ledger.Reads.{find_by_key}
use vault_core.Ledger.Posting.{CashRequest, Receipt, execute_deposit}
use vault_core.Ledger.Keys.{deposit-IsKeyed}
use vault_core.Payment.Client.{replied, reply_lost}
use vault_core.Payment.CashClient.{cash_unreachable, post_once, record_deposit}
use vault_core.Payment.Transfer.{
  UserContext, Response, PaymentEvent, AuditLog, PaymentError, cash_failed, Books,
  existing_response, Settled,
}
use vault_core.Payment.Cash.{
  CashEnv, check_deposit, record_operation_outbox, cash_response, post_checked, cash_locked,
  under_account_lock, process_deposit,
}
use vault_core.Payment.Outcome.{remember_reply-same}
use vault_core.Payment.CashOutcome.{Post, with_reference}

module _ (R : Redis Response) (T : Tables) (P : Table PaymentEvent) (A : Table AuditLog) where
  -- The body of `processDeposit` under the lock.
  abbrev pub deposit_locked :
      CashEnv → CashRequest → Books T P A → Service R → Settled R T P A × Service R
  deposit_locked env req b s =
      cash_locked R T P A (record_deposit T) (check_deposit R T P A req b.db) env req b s

  -- The body for a key that no transaction has, and for one that a transaction has.
  cash_locked-new :
      (post : Post R T P A) (checked : Result PaymentError (ℕ × Account)) (env : CashEnv)
      (req : CashRequest) (b : Books T P A) (s : Service R)
      → find_by_key T req.idempotency_key b.db ≡ none
      → (cash_locked R T P A post checked env req b s).0
        ≡ post_checked R T P A post env req b checked
  unfolding cash_locked
  cash_locked-new post checked env req b s h =
      rw (h, cash_locked)
        (remember_reply-same R T P A req.idempotency_key
          (post_checked R T P A post env req b checked) s)

  cash_locked-known :
      (post : Post R T P A) (checked : Result PaymentError (ℕ × Account)) (env : CashEnv)
      (req : CashRequest) (b : Books T P A) (s : Service R) (t : ℕ × Transaction)
      → find_by_key T req.idempotency_key b.db ≡ some t
      → (cash_locked R T P A post checked env req b s).0 ≡ ok (existing_response R T P A t, b)
  unfolding cash_locked
  cash_locked-known post checked env req b s t h =
      rw (h, cash_locked)
        (remember_reply-same R T P A req.idempotency_key (ok (existing_response R T P A t, b)) s)

  -- What a call of `processDeposit` or `processWithdrawal` gives.
  abbrev pub Outcome : Type 0
  Outcome = Result (CallError (PaymentError × Books T P A)) (Response × Books T P A)

  -- The call on a key that Redis does not know and an account whose lock is obtained, where the body
  -- throws.
  locked_throws :
      (env : CashEnv) (req : CashRequest) (b : Books T P A)
      (body : Service R → Settled R T P A × Service R) (e : PaymentError × Books T P A)
      (locks : List Lock) (q : Option Response × Service R)
      → ((s : Service R) → (body s).0 ≡ err e)
      → q.0 ≡ none
      → (acquire_account_locks R env.lock_env 10000 (some req.account_number ∷ []) q.1).0 ≡ ok locks
      → (under_account_lock R T P A env req b body q).0 ≡ err (callback_threw e)
  unfolding with_account_locks
  locked_throws env req b body e locks (some cached, s) throws unknown held = absurd (ground arith)
  locked_throws env req b body e locks (none, s) throws unknown held =
      let st = (acquire_account_locks R env.lock_env 10000 (some req.account_number ∷ []) s).1 in
      ground (arith, held, throws st)

  -- How a call ends that meets a transaction of its key: books and reply.
  pub data SecondReply (env : CashEnv) (req : CashRequest) (t : ℕ × Transaction) (b : Books T P A)
      (s : Service R) (result : Outcome) : Type 0 where
    from_redis :
        (cached : Response)
        → (get_idempotency_record R req.idempotency_key s).0 ≡ some cached
        → result ≡ ok (record cached { is_idempotent = true }, b)
        → SecondReply env req t b s result
    lock_conflict :
        (e : LockError)
        → (get_idempotency_record R req.idempotency_key s).0 ≡ none
        → (acquire_account_locks R env.lock_env 10000
            (some req.account_number ∷ [])
            (get_idempotency_record R req.idempotency_key s).1).0
          ≡ err e
        → result ≡ err (conflict e)
        → SecondReply env req t b s result
    from_ledger : result ≡ ok (existing_response R T P A t, b) → SecondReply env req t b s result

  locked_repeats :
      (env : CashEnv) (req : CashRequest) (t : ℕ × Transaction) (b : Books T P A)
      (body : Service R → Settled R T P A × Service R) (s : Service R)
      (q : Option Response × Service R)
      → get_idempotency_record R req.idempotency_key s ≡ q
      → ((st : Service R) → (body st).0 ≡ ok (existing_response R T P A t, b))
      → SecondReply env req t b s (under_account_lock R T P A env req b body q).0
  unfolding with_account_locks
  locked_repeats env req t b body s (some cached, st) known returns =
      from_redis cached (ap (λ (x : Option Response × Service R). x.0) known) refl
  locked_repeats env req t b body s (none, st) known returns =
      let locking = acquire_account_locks R env.lock_env 10000 (some req.account_number ∷ []) in
      elim (Result-cases (locking st).0) [
        | inr (e, x) ↦
            lock_conflict e (ap (λ (x : Option Response × Service R). x.0) known)
              (ap (λ (x : Option Response × Service R). (locking x.1).0) known ∙ x)
              (ground (arith, x))
        | inl (locks, x) ↦ from_ledger (ground (arith, x, returns (locking st).1))
      ]

  -- Where `processDeposit` meets a key that neither Redis nor a transaction has and an active account
  -- whose lock it obtains, and the ledger carries out the deposit and its reply is lost, the call throws
  -- with the money in the books. The same request sent again, under whatever surroundings, changes
  -- nothing in those books: it gives what Redis has cached of the key, as a repetition; or it throws
  -- the conflict of the lock; or it reports the COMPLETED transaction of the first as a repetition.
  pub lost_deposit_is_not_repeated :
      (env env' : CashEnv) (user user' : UserContext) (req : CashRequest) (b : Books T P A)
      (s s' : Service R) (locks : List Lock) (a : ℕ × Account) (r : Receipt) (db₁ : Db T)
      (message : String)
      → (get_idempotency_record R req.idempotency_key s).0 ≡ none
      → (acquire_account_locks R env.lock_env 10000
          (some req.account_number ∷ [])
          (get_idempotency_record R req.idempotency_key s).1).0
        ≡ ok locks
      → find_by_key T req.idempotency_key b.db ≡ none
      → check_deposit R T P A req b.db ≡ ok a
      → env.delivery ≡ reply_lost message
      → execute_deposit T (with_reference R T P A env req) (λ x. x) b.db ≡ (ok r, db₁)
      → r.is_idempotent ≡ false
      → ((process_deposit R T P A env user req b s).0
          ≡ err (callback_threw (cash_failed (cash_unreachable message), record b { db = db₁ })))
        × ((t : Transaction) × (t.status ≡ completed)
            × SecondReply env' req
                (r.transaction_id, t)
                (record b { db = db₁ })
                s'
                (process_deposit R T P A env' user' req (record b { db = db₁ }) s').0)
  unfolding process_deposit record_deposit post_once
  lost_deposit_is_not_repeated env env' user user' req b s s' locks a r db₁ message unknown held
        free may lost posted new =
      let (t, found, done) =
        deposit-IsKeyed T (with_reference R T P A env req) r b.db db₁ free posted new in
      let b₁ : Books T P A = record b { db = db₁ } in
      (
        locked_throws env req b (deposit_locked env req b)
            (cash_failed (cash_unreachable message), b₁) locks
            (get_idempotency_record R req.idempotency_key s)
            (λ st.
              cash_locked-new (record_deposit T) (check_deposit R T P A req b.db) env req b st free
              ∙ rw (may, lost, posted) refl)
            unknown held,
        (
          t,
          done,
          locked_repeats env' req (r.transaction_id, t) b₁ (deposit_locked env' req b₁) s' _ refl
              (λ st.
                cash_locked-known (record_deposit T) (check_deposit R T P A req db₁) env' req b₁ st
                  (r.transaction_id, t) found),
        ),
      )

  -- Where the write of the outbox event fails after the ledger has carried out a deposit, the deposit
  -- still reports success, and neither the event nor the audit log is written.
  deposit_without_event :
      (env : CashEnv) (req : CashRequest) (b : Books T P A) (s : Service R) (a : ℕ × Account)
      (r : Receipt) (db₁ : Db T) (message : String)
      → find_by_key T req.idempotency_key b.db ≡ none
      → check_deposit R T P A req b.db ≡ ok a
      → env.delivery ≡ replied
      → execute_deposit T (with_reference R T P A env req) (λ x. x) b.db ≡ (ok r, db₁)
      → env.outbox_error ≡ some message
      → (deposit_locked env req b s).0
        ≡ ok (cash_response R T P A env req r.transaction_id, record b { db = db₁ })
  unfolding record_deposit post_once record_operation_outbox
  deposit_without_event env req b s a r db₁ message free may arrives posted lost =
      cash_locked-new (record_deposit T) (check_deposit R T P A req b.db) env req b s free
      ∙ rw (may, arrives, posted, lost, record_operation_outbox) refl
