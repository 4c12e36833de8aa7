-- ===== src/Notify/Drain.antt =====
-- The queues run empty: each handling lowers a measure of what waits.
use native.Mathlib.Omega.{pow_step}
use vault_core.Prelude.{
  ltb, if◌then◌else◌, Bool-cases, ℕ, zero, suc, ◌+◌, ◌-◌, ◌*◌, ◌^◌, ◌≤◌, ◌<◌, String, ◌≡◌, refl, ap,
  inl, inr, Bool, true, false, Option, none, some, List, [], ◌∷◌, ◌++◌, arith,
}
use vault_core.Result.{Result, ok, err}
use vault_core.Table.{Table}
use vault_core.Notify.Message.{Message, event_id_of, current_retry}
use vault_core.Notify.Broker.{Queue, email_queue, sms_queue, is_bound, Broker}
use vault_core.Notify.Audit.{NotificationAudit}
use vault_core.Notify.Consumer.{
  Consumer, Handling, queue_of, count_consumed, ack, retry_of, retry_message, send_to_dlq, on_error,
  settle, handle,
}
use vault_core.Notify.Outcome.{left_in, Outcome, duplicate, went_out, retried, died, handle-Outcome}

-- A message stands for the handlings that it may still cause.
unfoldable pub weight : ℕ → Message → ℕ
weight max_retries m = 3 ^ (max_retries + 1 - current_retry m)

unfoldable pub weigh : ℕ → List Message → ℕ
weigh k [] = 0
weigh k (m ∷ rest) = weight k m + weigh k rest

weigh-append :
    (k : ℕ) (xs : List Message) (m : Message) → weigh k (xs ++ (m ∷ [])) ≡ weigh k xs + weight k m
unfolding weigh
weigh-append k [] m = omega arith
weigh-append k (x ∷ xs) m = omega (arith, weigh-append k xs m)

pow_pos : (n : ℕ) → 1 ≤ 3 ^ n
pow_pos zero = omega arith
pow_pos (suc n) = omega (arith, pow_pos n, pow_step 3 n)

weight_pos : (k : ℕ) (m : Message) → 1 ≤ weight k m
unfolding weight
weight_pos k m = pow_pos (k + 1 - current_retry m)

module _ (B : Broker) (A : Table NotificationAudit) where
  abbrev pub load : Consumer B A → ℕ
  load s =
      weigh s.max_retries (queue_of B A s email_queue)
      + weigh s.max_retries (queue_of B A s sms_queue)

  weight-retry_of :
      (k id : ℕ) (m : Message)
      → current_retry m < k
      → weight k m ≡ 3 * weight k (retry_of B A id (current_retry m + 1) m)
  unfolding weight
  weight-retry_of k id m lt =
      let e : k + 1 - current_retry m ≡ suc (k + 1 - (current_retry m + 1)) = omega arith in
      rw e (pow_step 3 (k + 1 - (current_retry m + 1)))

  max_retries-settle :
      (h : Handling B A) (q : Queue) (id : ℕ) (m : Message) (s : Consumer B A)
      (r : Result String (Option A.State))
      → (settle B A h q id m s r).max_retries ≡ s.max_retries
  unfolding ack on_error retry_message send_to_dlq
  max_retries-settle h q id m s (ok none) = refl
  max_retries-settle h q id m s (ok (some audits)) = refl
  max_retries-settle h q id m s (err message) =
      elim (Bool-cases (ltb s.max_retries (current_retry m + 1))) [
        | inl x ↦ rw x refl
        | inr x ↦ rw x refl
      ]

  pub max_retries-handle :
      (h : Handling B A) (q : Queue) (m : Message) (s : Consumer B A)
      → (handle B A h q m s).max_retries ≡ s.max_retries
  unfolding handle
  max_retries-handle h q m s = max_retries-settle h q _ m (count_consumed B A s) _

  load-left_in :
      (q : Queue) (m : Message) (rest : List Message) (s : Consumer B A)
      → queue_of B A s q ≡ m ∷ rest
      → weigh s.max_retries (left_in B A q rest s email_queue)
          + weigh s.max_retries (left_in B A q rest s sms_queue)
          + weight s.max_retries m
        ≡ load s
  unfolding weigh
  load-left_in email_queue m rest s w = rw w (omega arith)
  load-left_in sms_queue m rest s w = rw w (omega arith)

  weigh-again :
      (k : ℕ) (b : Bool) (xs : List Message) (again : Message)
      → weigh k (if b then xs ++ (again ∷ []) else xs) ≤ weigh k xs + weight k again
  weigh-again k true xs again = omega (arith, weigh-append k xs again)
  weigh-again k false xs again = omega arith

  -- Both queues together, where each has what the other argument says.
  abbrev weigh_both : ℕ → (Queue → List Message) → ℕ
  weigh_both k f = weigh k (f email_queue) + weigh k (f sms_queue)

  fewer-load :
      (q : Queue) (m : Message) (rest : List Message) (s s' : Consumer B A)
      → queue_of B A s q ≡ m ∷ rest
      → ((j : Queue) → queue_of B A s' j ≡ left_in B A q rest s j)
      → weigh_both s.max_retries (queue_of B A s') < load s
  fewer-load q m rest s s' w left = omega (
    arith,
    load-left_in q m rest s w,
    weight_pos s.max_retries m,
    ap (weigh s.max_retries) (left email_queue),
    ap (weigh s.max_retries) (left sms_queue),
  )

  Outcome-load :
      (h : Handling B A) (q : Queue) (m : Message) (rest : List Message) (s s' : Consumer B A)
      → queue_of B A s q ≡ m ∷ rest
      → Outcome B A h q m rest s s'
      → weigh_both s.max_retries (queue_of B A s') < load s
  Outcome-load h q m rest s s' w (duplicate _ _ left _) = fewer-load q m rest s s' w left
  Outcome-load h q m rest s s' w (went_out _ _ _ left _) = fewer-load q m rest s s' w left
  Outcome-load h q m rest s s' w (died _ _ _ _ left _) = fewer-load q m rest s s' w left
  Outcome-load h q m rest s s' w (retried _ _ lt _ left _) =
      let k = s.max_retries in
      let again = retry_of B A (event_id_of h.fresh m) (current_retry m + 1) m in
      omega (
        arith,
        load-left_in q m rest s w,
        weight-retry_of k (event_id_of h.fresh m) m lt,
        weight_pos k again,
        ap (weigh k) (left email_queue),
        ap (weigh k) (left sms_queue),
        weigh-again k (is_bound email_queue m.routing_key) (left_in B A q rest s email_queue) again,
        weigh-again k (is_bound sms_queue m.routing_key) (left_in B A q rest s sms_queue) again,
      )

  handle-load :
      (h : Handling B A) (q : Queue) (m : Message) (rest : List Message) (s : Consumer B A)
      → queue_of B A s q ≡ m ∷ rest
      → load (handle B A h q m s) < load s
  handle-load h q m rest s w =
      rw (max_retries-handle h q m s)
        (Outcome-load h q m rest s (handle B A h q m s) w (handle-Outcome B A h q m rest s w))

  -- Handlings one after the other, of the heads of the two queues in any order.
  pub data Run (s : Consumer B A) : ℕ → Consumer B A → Type 0 where
    here : Run s 0 s
    next :
        {n : ℕ} {t : Consumer B A} (h : Handling B A) (q : Queue) (m : Message)
        (rest : List Message)
        → Run s n t
        → queue_of B A t q ≡ m ∷ rest
        → Run s (suc n) (handle B A h q m t)

  -- While nothing new is published from outside, the queues run empty: whatever fails, and in whichever
  -- order the queues deliver, the number of handlings is at most the load of what waits at the start,
  -- which counts a message with r of k retries used as 3 to the power of k + 1 - r.
  pub Run-load : {s : Consumer B A} {n : ℕ} {s' : Consumer B A} → Run s n s' → n + load s' ≤ load s
  Run-load here = omega arith
  Run-load {s} (next {n} {t} h q m rest r w) = omega (arith, Run-load r, handle-load h q m rest t w)
