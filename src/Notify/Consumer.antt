-- ===== src/Notify/Consumer.antt =====
-- `NotificationConsumer`: the handler of `consumeQueue`, `retryMessage`, `sendToDLQ`, and
-- `processIncomingEvent` of the Redis channel. Log lines and the average of the latency are left out.
use vault_core.Prelude.{
  ltb, if◌then◌else◌, is_some, ℕ, ◌+◌, String, Bool, true, false, Option, none, some, List,
}
use vault_core.Result.{Result, ok, err, ◌>>=◌, ◌>>◌}
use vault_core.Table.{Table}
use vault_core.Notify.Message.{
  NotificationType, email, sms, payment_completed, Payload, Content, Message, event_id_of,
  transaction_id_of, current_retry, resolve_recipient,
}
use vault_core.Notify.Broker.{Queue, email_queue, sms_queue, is_bound, DeadLetter, Broker}
use vault_core.Notify.Audit.{sent, failed, NotificationAudit, find_by_event_id, create_audit}

pub record ConsumerMetrics : Type 0 where
  pub messages_consumed : ℕ
  pub successful_deliveries : ℕ
  pub failed_deliveries : ℕ
  pub dlq_count : ℕ
  pub total_latency_ms : ℕ
  pub last_processing_latency_ms : ℕ

abbrev pub type_of : Queue → NotificationType
type_of email_queue = email
type_of sms_queue = sms

module _ (B : Broker) (A : Table NotificationAudit) where
  pub record Consumer : Type 0 where
    pub max_retries : ℕ
    pub broker : B.State
    pub audits : A.State
    pub metrics : ConsumerMetrics

  -- What one call meets: the id for an event without one, the errors of the database, the latency,
  -- and what other handlers write while the delivery is awaited.
  pub record Handling : Type 0 where
    pub fresh : ℕ
    pub find_error : Option String
    pub create_error : Option String
    pub failed_create_error : Option String
    pub latency_ms : ℕ
    pub others : A.State → A.State

  abbrev pub queue_of : Consumer → Queue → List Message
  queue_of s q = B.ready s.broker q

  abbrev pub count_consumed : Consumer → Consumer
  count_consumed s = record s {
    metrics = record s.metrics { messages_consumed = s.metrics.messages_consumed + 1 };
  }

  abbrev pub count_success : ℕ → Consumer → Consumer
  count_success ms s = record s {
    metrics = record s.metrics {
      successful_deliveries = s.metrics.successful_deliveries + 1;
      last_processing_latency_ms = ms;
      total_latency_ms = s.metrics.total_latency_ms + ms;
    };
  }

  abbrev pub count_failure : Consumer → Consumer
  count_failure s = record s {
    metrics = record s.metrics { failed_deliveries = s.metrics.failed_deliveries + 1 };
  }

  unfoldable pub ack : Queue → Consumer → Consumer
  ack q s = record s { broker = B.ack s.broker q }

  -- The headers that the retry is published with.
  abbrev pub retry_of : ℕ → ℕ → Message → Message
  retry_of id next_retry m = record m {
    headers = record {
      event_id = some id;
      transaction_id = transaction_id_of m;
      retry_attempt = some next_retry;
    };
  }

  -- `retryMessage` publishes to the exchange: its argument `queueName` is not used.
  unfoldable pub retry_message : ℕ → ℕ → Message → Consumer → Consumer
  unfolding is_bound
  retry_message id next_retry m s = record s {
    broker = B.publish s.broker is_bound (retry_of id next_retry m);
  }

  unfoldable pub send_to_dlq : DeadLetter → Consumer → Consumer
  send_to_dlq d s = record s {
    broker = B.send_to_dlq s.broker d;
    metrics = record s.metrics { dlq_count = s.metrics.dlq_count + 1 };
  }

  -- A database call that may fail, and the error's message.
  abbrev pub or_fail : {X : Type 0} → Option String → Result String X → Result String X
  or_fail none r = r
  or_fail (some message) r = err message

  abbrev pub audit_of : Queue → ℕ → Message → NotificationAudit
  audit_of q id m = record {
    event_id = id;
    transaction_id = transaction_id_of m;
    notification_type = type_of q;
    recipient = resolve_recipient (type_of q) m.content.payload;
    status = sent;
    retry_count = current_retry m;
    error_message = none;
  }

  -- `deliverNotification` throws where the payload asks for it.
  abbrev pub delivery_error : Payload → Result String (Unit {0})
  delivery_error p = if p.simulate_failure then err "Simulated delivery failure" else ok tt

  -- `if (existingAudit) return`
  abbrev pub unless : {X : Type 0} → Bool → Result String (Option X) → Result String (Option X)
  unless true rest = ok none
  unless false rest = rest

  -- What the `try` does to the audits: `none` is a duplicate.
  unfoldable pub deliver : Handling → Queue → ℕ → Message → A.State → Result String (Option A.State)
  unfolding find_by_event_id create_audit
  deliver h q id m audits = do
    found ← or_fail h.find_error (ok (find_by_event_id A id audits))
    unless (is_some found) (do
      delivery_error m.content.payload
      audits' ← or_fail h.create_error (create_audit A (audit_of q id m) (h.others audits))
      ok (some audits'))

  -- Where the record of the failure cannot be written, the audits stay.
  abbrev pub store_or_keep : A.State → Result String A.State → A.State
  store_or_keep audits (ok audits') = audits'
  store_or_keep audits (err message) = audits

  abbrev pub dead_letter : Queue → ℕ → ℕ → String → Message → DeadLetter
  dead_letter q id next_retry message m = record {
    original = m;
    error = message;
    event_id = id;
    original_queue = q;
    retry_attempt = next_retry;
  }

  abbrev pub failed_audit : Queue → ℕ → ℕ → String → Message → NotificationAudit
  failed_audit q id next_retry message m = record (audit_of q id m) {
    status = failed;
    retry_count = next_retry;
    error_message = some message;
  }

  abbrev pub record_failure : Handling → NotificationAudit → Consumer → Consumer
  record_failure h a s = record s {
    audits = store_or_keep s.audits (or_fail h.failed_create_error (create_audit A a s.audits));
  }

  -- The `catch`.
  unfoldable pub on_error : Handling → Queue → ℕ → Message → String → Consumer → Consumer
  unfolding send_to_dlq retry_message ack create_audit
  on_error h q id m message s =
      let next_retry = current_retry m + 1 in
      if ltb s.max_retries next_retry
      then ack q (
          record_failure h (failed_audit q id next_retry message m)
            (send_to_dlq (dead_letter q id next_retry message m) (count_failure s)))
      else ack q (retry_message id next_retry m (count_failure s))

  abbrev pub settle :
      Handling → Queue → ℕ → Message → Consumer → Result String (Option A.State) → Consumer
  settle h q id m s (ok none) = ack q s
  settle h q id m s (ok (some audits)) =
      ack q (count_success h.latency_ms (record s { audits = audits }))
  settle h q id m s (err message) =
      on_error h q id m message (record s { audits = h.others s.audits })

  -- The callback of `consume`.
  unfoldable pub handle : Handling → Queue → Message → Consumer → Consumer
  unfolding deliver on_error ack
  handle h q m s =
      let id = event_id_of h.fresh m in
      settle h q id m (count_consumed s) (deliver h q id m s.audits)

  abbrev pub count_incoming : Consumer → Consumer
  count_incoming s = record s {
    metrics = record s.metrics {
      messages_consumed = s.metrics.messages_consumed + 1;
      successful_deliveries = s.metrics.successful_deliveries + 1;
    };
  }

  -- The subscriber logs what is thrown.
  abbrev pub settle_incoming : Handling → Consumer → Result String (Option A.State) → Consumer
  settle_incoming h s (ok none) = s
  settle_incoming h s (ok (some audits)) = count_incoming (record s { audits = audits })
  settle_incoming h s (err message) = record s { audits = h.others s.audits }

  -- An event from Redis has no headers, and its id is `content.eventId || content.id`.
  abbrev pub without_headers : Content → Message
  without_headers c = record {
    routing_key = payment_completed;
    headers = record { event_id = none; transaction_id = none; retry_attempt = some 0 };
    content = c;
  }

  -- `processIncomingEvent`: the same for an event from Redis, always as an email, without a retry.
  unfoldable pub process_incoming_event : Handling → Content → Consumer → Consumer
  unfolding deliver
  process_incoming_event h c s =
      let m = without_headers c in
      settle_incoming h s (deliver h email_queue (event_id_of h.fresh m) m s.audits)
