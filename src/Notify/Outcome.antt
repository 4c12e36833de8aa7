-- ===== src/Notify/Outcome.antt =====
-- What the handler does with the message at the head of a queue.
use vault_core.Prelude.{
  ltb, if◌then◌else◌, Bool-cases, Option-cases, is_some, ℕ, ◌+◌, ◌≤◌, ◌<◌, String, ◌≡◌, refl, ◌∙◌,
  ◌⊎◌, inl, inr, true, false, Option, none, some, List, [], ◌∷◌, ◌++◌, arith,
}
use vault_core.Result.{Result, ok, err}
use vault_core.Table.{Table}
use vault_core.Notify.Message.{Message, event_id_of, current_retry}
use vault_core.Notify.Broker.{
  Queue, email_queue, sms_queue, is_bound, same_queue, DeadLetter, Broker,
}
use vault_core.Notify.Audit.{NotificationAudit, find_by_event_id, create_audit}
use vault_core.Notify.Consumer.{
  Consumer, Handling, queue_of, count_consumed, count_failure, ack, retry_of, retry_message,
  send_to_dlq, audit_of, failed_audit, record_failure, deliver, dead_letter, on_error, settle,
  handle,
}

pub same_queue-eq : (q j : Queue) → same_queue q j ≡ true → q ≡ j
same_queue-eq email_queue email_queue h = refl
same_queue-eq email_queue sms_queue h = absurd (ground arith)
same_queue-eq sms_queue email_queue h = absurd (ground arith)
same_queue-eq sms_queue sms_queue h = refl

module _ (B : Broker) (A : Table NotificationAudit) where
  -- The queues without the message that was handled.
  abbrev pub left_in : Queue → List Message → Consumer B A → Queue → List Message
  left_in q rest s j = if same_queue q j then rest else queue_of B A s j

  abbrev pub dead_of : Consumer B A → List DeadLetter
  dead_of s = B.dead_letters s.broker

  -- What went wrong: the lookup of the record, the delivery, or the write of the record. The last two
  -- are only tried where the event has no record.
  pub data Failed (h : Handling B A) (q : Queue) (m : Message) (audits : A.State) (message : String)
      : Type 0 where
    lookup_failed : h.find_error ≡ some message → Failed h q m audits message
    delivery_failed :
        is_some (find_by_event_id A (event_id_of h.fresh m) audits) ≡ false
        → m.content.payload.simulate_failure ≡ true
        → Failed h q m audits message
    write_failed :
        is_some (find_by_event_id A (event_id_of h.fresh m) audits) ≡ false
        → h.create_error ≡ some message
        → Failed h q m audits message
    record_exists :
        is_some (find_by_event_id A (event_id_of h.fresh m) audits) ≡ false
        → is_some (find_by_event_id A (event_id_of h.fresh m) (h.others audits)) ≡ true
        → Failed h q m audits message

  -- The audits after the record of the failure, which another record or an error of the database may
  -- prevent.
  pub data FailureNoted (h : Handling B A) (q : Queue) (m : Message) (message : String)
      (audits audits' : A.State) : Type 0 where
    noted :
        audits'
          ≡ (A.create audits
              (failed_audit B A q (event_id_of h.fresh m) (current_retry m + 1) message m)).1
        → FailureNoted h q m message audits audits'
    not_noted :
        (is_some (find_by_event_id A (event_id_of h.fresh m) audits) ≡ true)
          ⊎ ((e : String) × (h.failed_create_error ≡ some e))
        → audits' ≡ audits
        → FailureNoted h q m message audits audits'

  pub data Outcome (h : Handling B A) (q : Queue) (m : Message) (rest : List Message)
      (s s' : Consumer B A) : Type 0 where
    duplicate :
        is_some (find_by_event_id A (event_id_of h.fresh m) s.audits) ≡ true
        → s'.audits ≡ s.audits
        → ((j : Queue) → queue_of B A s' j ≡ left_in q rest s j)
        → dead_of s' ≡ dead_of s
        → Outcome h q m rest s s'
    went_out :
        is_some (find_by_event_id A (event_id_of h.fresh m) s.audits) ≡ false
        → m.content.payload.simulate_failure ≡ false
        → create_audit A (audit_of B A q (event_id_of h.fresh m) m) (h.others s.audits)
          ≡ ok s'.audits
        → ((j : Queue) → queue_of B A s' j ≡ left_in q rest s j)
        → dead_of s' ≡ dead_of s
        → Outcome h q m rest s s'
    retried :
        (message : String)
        → Failed h q m s.audits message
        → current_retry m < s.max_retries
        → s'.audits ≡ h.others s.audits
        → ((j : Queue)
            → queue_of B A s' j ≡ (
                if is_bound j m.routing_key
                then left_in q rest s j
                  ++ (retry_of B A (event_id_of h.fresh m) (current_retry m + 1) m ∷ [])
                else left_in q rest s j))
        → dead_of s' ≡ dead_of s
        → Outcome h q m rest s s'
    died :
        (message : String)
        → Failed h q m s.audits message
        → s.max_retries ≤ current_retry m
        → FailureNoted h q m message (h.others s.audits) s'.audits
        → ((j : Queue) → queue_of B A s' j ≡ left_in q rest s j)
        → dead_of s'
          ≡ dead_of s
            ++ (record {
              original = m;
              error = message;
              event_id = event_id_of h.fresh m;
              original_queue = q;
              retry_attempt = current_retry m + 1;
            }
                ∷ [])
        → Outcome h q m rest s s'

  queue_of-ack :
      (q : Queue) (m : Message) (rest : List Message) (s : Consumer B A)
      → queue_of B A s q ≡ m ∷ rest
      → (j : Queue) → queue_of B A (ack B A q s) j ≡ left_in q rest s j
  unfolding ack
  queue_of-ack q m rest s h j = B.ready-ack s.broker q m rest h j

  deliver-duplicate :
      (h : Handling B A) (q : Queue) (id : ℕ) (m : Message) (audits : A.State)
      → deliver B A h q id m audits ≡ ok none
      → is_some (find_by_event_id A id audits) ≡ true
  unfolding deliver
  deliver-duplicate h q id m audits e = ground arith

  pub deliver-stored :
      (h : Handling B A) (q : Queue) (id : ℕ) (m : Message) (audits audits' : A.State)
      → deliver B A h q id m audits ≡ ok (some audits')
      → (is_some (find_by_event_id A id audits) ≡ false)
        × (m.content.payload.simulate_failure ≡ false)
        × (create_audit A (audit_of B A q id m) (h.others audits) ≡ ok audits')
  unfolding deliver
  deliver-stored h q id m audits audits' e = ground arith

  deliver-Failed :
      (h : Handling B A) (q : Queue) (m : Message) (audits : A.State) (message : String)
      → deliver B A h q (event_id_of h.fresh m) m audits ≡ err message
      → Failed h q m audits message
  unfolding deliver create_audit
  deliver-Failed h q m audits message e =
      let id = event_id_of h.fresh m in
      elim (Option-cases h.find_error) [
        | inr (x, f) ↦ lookup_failed (ground arith)
        | inl f ↦ elim (Bool-cases (is_some (find_by_event_id A id audits))) [
          | inl old ↦ absurd (ground arith)
          | inr new ↦ elim (Bool-cases m.content.payload.simulate_failure) [
            | inl fails ↦ delivery_failed new fails
            | inr works ↦ elim (Option-cases h.create_error) [
              | inr (x, c) ↦ write_failed new (ground arith)
              | inl c ↦ record_exists new (ground arith)
            ]
          ]
        ]
      ]

  record_failure-FailureNoted :
      (h : Handling B A) (q : Queue) (m : Message) (message : String) (s : Consumer B A)
      → FailureNoted h q m message s.audits
          (record_failure B A h
            (failed_audit B A q (event_id_of h.fresh m) (current_retry m + 1) message m)
            s).audits
  unfolding create_audit
  record_failure-FailureNoted h q m message s = elim (Option-cases h.failed_create_error) [
    | inr (e, x) ↦ not_noted (inr (e, x)) (rw x refl)
    | inl x ↦ elim (Bool-cases (is_some (find_by_event_id A (event_id_of h.fresh m) s.audits))) [
      | inl y ↦ not_noted (inl y) (rw (x, y) refl)
      | inr y ↦ noted (rw (x, y) refl)
    ]
  ]

  died-Outcome :
      (h : Handling B A) (q : Queue) (m : Message) (rest : List Message) (s : Consumer B A)
      (message : String)
      → Failed h q m s.audits message
      → queue_of B A s q ≡ m ∷ rest
      → ltb s.max_retries (current_retry m + 1) ≡ true
      → Outcome h q m rest s (
          on_error B A h q
            (event_id_of h.fresh m)
            m
            message
            (record (count_consumed B A s) { audits = h.others s.audits }))
  unfolding on_error send_to_dlq ack
  died-Outcome h q m rest s message failure w x =
      let d = dead_letter B A q (event_id_of h.fresh m) (current_retry m + 1) message m in
      let dead = B.send_to_dlq s.broker d in
      rw x (
        died message failure (ground arith)
          (record_failure-FailureNoted h q m message (
            send_to_dlq B A d
              (count_failure B A (record (count_consumed B A s) { audits = h.others s.audits }))))
          (λ j.
            B.ready-ack dead q m rest (B.ready-send_to_dlq s.broker d q ∙ w) j
            ∙ ground (arith, B.ready-send_to_dlq s.broker d j))
          (B.dead_letters-ack dead q ∙ B.dead_letters-send_to_dlq s.broker d))

  -- A message that is published while the head of a queue is handled, and then the head's end.
  pub publish-ack :
      (broker : B.State) (q : Queue) (m again : Message) (rest : List Message)
      → B.ready broker q ≡ m ∷ rest
      → (j : Queue)
      → B.ready (B.ack (B.publish broker is_bound again) q) j ≡ (
          if is_bound j again.routing_key
          then (if same_queue q j then rest else B.ready broker j) ++ (again ∷ [])
          else (if same_queue q j then rest else B.ready broker j))
  publish-ack broker q m again rest w j =
      let st = B.publish broker is_bound again in
      let at_q = B.ready-publish broker is_bound again q in
      let at_j = B.ready-publish broker is_bound again j in
      elim (Bool-cases (is_bound q again.routing_key)) [
        | inl x ↦
            let head : B.ready st q ≡ m ∷ (rest ++ (again ∷ [])) = at_q ∙ rw (x, w) refl in
            let done = B.ready-ack st q m (rest ++ (again ∷ [])) head j in
            elim (Bool-cases (same_queue q j)) [
              | inl y ↦
                  let x' : is_bound j again.routing_key ≡ true = rw (← same_queue-eq q j y) x in
                  rw (x', y) (done ∙ rw y refl)
              | inr y ↦ rw y (done ∙ rw y at_j)
            ]
        | inr x ↦
            let head : B.ready st q ≡ m ∷ rest = at_q ∙ rw x w in
            let done = B.ready-ack st q m rest head j in
            elim (Bool-cases (same_queue q j)) [
              | inl y ↦
                  let x' : is_bound j again.routing_key ≡ false = rw (← same_queue-eq q j y) x in
                  rw (x', y) (done ∙ rw y refl)
              | inr y ↦ rw y (done ∙ rw y at_j)
            ]
      ]

  retried-Outcome :
      (h : Handling B A) (q : Queue) (m : Message) (rest : List Message) (s : Consumer B A)
      (message : String)
      → Failed h q m s.audits message
      → queue_of B A s q ≡ m ∷ rest
      → ltb s.max_retries (current_retry m + 1) ≡ false
      → Outcome h q m rest s (
          on_error B A h q
            (event_id_of h.fresh m)
            m
            message
            (record (count_consumed B A s) { audits = h.others s.audits }))
  unfolding on_error retry_message ack
  retried-Outcome h q m rest s message failure w x =
      let again = retry_of B A (event_id_of h.fresh m) (current_retry m + 1) m in
      rw x (
        retried message failure (ground arith) refl (publish-ack s.broker q m again rest w)
          (B.dead_letters-ack _ q ∙ B.dead_letters-publish s.broker is_bound again))

  settled-Outcome :
      (h : Handling B A) (q : Queue) (m : Message) (rest : List Message) (s : Consumer B A)
      (r : Result String (Option A.State))
      → queue_of B A s q ≡ m ∷ rest
      → deliver B A h q (event_id_of h.fresh m) m s.audits ≡ r
      → Outcome h q m rest s (settle B A h q (event_id_of h.fresh m) m (count_consumed B A s) r)
  unfolding ack
  settled-Outcome h q m rest s (ok none) w d =
      duplicate (deliver-duplicate h q _ m s.audits d) refl
        (queue_of-ack q m rest (count_consumed B A s) w) (B.dead_letters-ack s.broker q)
  settled-Outcome h q m rest s (ok (some audits)) w d =
      let (new, works, stored) = deliver-stored h q _ m s.audits audits d in
      went_out new works stored (queue_of-ack q m rest (count_consumed B A s) w)
        (B.dead_letters-ack s.broker q)
  settled-Outcome h q m rest s (err message) w d =
      let failure = deliver-Failed h q m s.audits message d in
      elim (Bool-cases (ltb s.max_retries (current_retry m + 1))) [
        | inl x ↦ died-Outcome h q m rest s message failure w x
        | inr x ↦ retried-Outcome h q m rest s message failure w x
      ]

  -- The handler takes the message at the head out of its queue, whatever the database and the delivery
  -- do, and one of four things has happened. The event had an audit record already, and neither the
  -- records nor the dead letters change. It had none, the delivery went well, and its record is written.
  -- Or something failed: the lookup, or, for an event without a record, the delivery or the write of
  -- the record. Then the message is published again with one retry more to the queues that are bound
  -- to its key, as long as there are retries left; otherwise it stands in the dead letter queue, and
  -- the failure is recorded, unless the event has a record by then or that write fails as well.
  -- Nothing else changes in the queues.
  pub handle-Outcome :
      (h : Handling B A) (q : Queue) (m : Message) (rest : List Message) (s : Consumer B A)
      → queue_of B A s q ≡ m ∷ rest
      → Outcome h q m rest s (handle B A h q m s)
  unfolding handle
  handle-Outcome h q m rest s w = settled-Outcome h q m rest s _ w refl
