-- ===== src/Notify/Tests.antt =====
-- The consumer at concrete inputs, over queues that are lists.
use vault_core.Prelude.{
  if◌then◌else◌, Bool-cases, length, ℕ, ◌+◌, ◌≤◌, String, ◌≡◌, refl, inl, inr, Bool, true, false,
  none, some, List, [], ◌∷◌, ◌++◌, arith,
}
use vault_core.Table.Lists.{first_row, list_table}
use vault_core.Notify.Message.{
  sms, payment_completed, Payload, Message, resolve_recipient, completed_text,
  payment_completed_template, format_message,
}
use vault_core.Notify.Broker.{
  Queue, email_queue, sms_queue, is_bound, same_queue, DeadLetter, Broker,
}
use vault_core.Notify.Audit.{
  sent, NotificationAudit, PaymentOutcome, find_by_event_id, create_audit, sync_audits,
}
use vault_core.Notify.Consumer.{
  ack, Consumer, Handling, queue_of, count_consumed, retry_of, retry_message, audit_of, deliver,
  on_error, handle,
}
use vault_core.Notify.Outcome.{same_queue-eq, Outcome, handle-Outcome}
use vault_core.Notify.Drain.{load, here, next, Run-load}
use vault_core.Notify.Channels.{
  second_channel_is_silent, sync_suppresses_delivery, retry_reaches_both_channels,
}

tail : List Message → List Message
tail [] = []
tail (m ∷ rest) = rest

abbrev Queues : Type 0
Queues = (Queue → List Message) × List DeadLetter

abbrev drop_head : Queue → (Queue → List Message) → Queue → List Message
unfolding tail
drop_head q f j = if same_queue q j then tail (f j) else f j

drop_head_lem :
    (f : Queue → List Message) (q : Queue) (m : Message) (rest : List Message)
    → f q ≡ m ∷ rest
    → (j : Queue) → drop_head q f j ≡ (if same_queue q j then rest else f j)
unfolding drop_head tail
drop_head_lem f q m rest h j = elim (Bool-cases (same_queue q j)) [
  | inl x ↦ let e = same_queue-eq q j x in rw (x, ← e, h) refl
  | inr x ↦ rw x refl
]

abbrev list_broker : Broker
list_broker = record {
  State = Queues;
  ready = λ s. s.0;
  dead_letters = λ s. s.1;
  ack = λ s q. (drop_head q s.0, s.1);
  publish = λ s bound m. ((λ j. if bound j m.routing_key then s.0 j ++ (m ∷ []) else s.0 j), s.1);
  send_to_dlq = λ s d. (s.0, s.1 ++ (d ∷ []));
  ready-ack = λ s q m rest h j. drop_head_lem s.0 q m rest h j;
  dead_letters-ack = λ s q. refl;
  ready-publish = λ s bound m j. refl;
  dead_letters-publish = λ s bound m. refl;
  ready-send_to_dlq = λ s d j. refl;
  dead_letters-send_to_dlq = λ s d. refl;
}

abbrev payload : Bool → Payload
payload fails = record {
  recipient = none;
  email = some "ada@example.org";
  phone = none;
  user_email = none;
  phone_number = none;
  amount = some "300";
  currency = none;
  reference_id = none;
  transaction_id = none;
  reason = none;
  subject = none;
  message = none;
  body = none;
  simulate_failure = fails;
}

abbrev message : Bool → Message
message fails = record {
  routing_key = payment_completed;
  headers = record { event_id = some 9; transaction_id = none; retry_attempt = none };
  content = record {
    event_id = none;
    transaction_id = some 4;
    payload_transaction_id = none;
    aggregate_id = none;
    retry_attempt = 0;
    payload = payload fails;
  };
}

-- The exchange put one message in both queues.
abbrev consumer : Bool → Consumer list_broker list_table
consumer fails = record {
  max_retries = 3;
  broker = ((λ q. message fails ∷ []), []);
  audits = ([], tt);
  metrics = record {
    messages_consumed = 0;
    successful_deliveries = 0;
    failed_deliveries = 0;
    dlq_count = 0;
    total_latency_ms = 0;
    last_processing_latency_ms = 0;
  };
}

abbrev calm : Handling list_broker list_table
calm = record {
  fresh = 1000;
  find_error = none;
  create_error = none;
  failed_create_error = none;
  latency_ms = 12;
  others = λ s. s;
}

recipient_test : resolve_recipient sms (record (payload false) { email = none }) ≡ "+15551234567"
unfolding resolve_recipient
recipient_test = refl

format_test : format_message payment_completed (payload false) ≡ record {
  subject = "VaultCore Transfer Completed";
  body = completed_text "300" "USD" "N/A";
  template = payment_completed_template;
}
unfolding format_message
format_test = refl

handle-Outcome_example :
    Outcome list_broker list_table calm email_queue
      (message false)
      []
      (consumer false)
      (handle list_broker list_table calm email_queue (message false) (consumer false))
handle-Outcome_example =
    handle-Outcome list_broker list_table calm email_queue (message false) [] (consumer false) refl

-- One failing message in each queue: after one handling there is one more.
retry_test :
    length (
      queue_of list_broker list_table
        (handle list_broker list_table calm email_queue (message true) (consumer true))
        sms_queue)
    ≡ 2
unfolding handle deliver on_error find_by_event_id first_row retry_message is_bound ack drop_head
retry_test = refl

retry_reaches_both_channels_example :
    queue_of list_broker list_table
      (handle list_broker list_table calm email_queue (message true) (consumer true))
      sms_queue
    ≡ message true ∷ retry_of list_broker list_table 9 1 (message true) ∷ []
unfolding deliver find_by_event_id first_row
retry_reaches_both_channels_example =
    retry_reaches_both_channels list_broker list_table calm email_queue (message true) []
      (consumer true) "Simulated delivery failure" refl refl refl (omega arith) sms_queue

Run-load_example :
    1
      + load list_broker list_table
          (handle list_broker list_table calm email_queue (message true) (consumer true))
    ≤ load list_broker list_table (consumer true)
Run-load_example =
    Run-load list_broker list_table (next calm email_queue (message true) [] here refl)

abbrev audits_after : NotificationAudit
audits_after = audit_of list_broker list_table email_queue 9 (message false)

second_channel_is_silent_example :
    handle list_broker list_table calm sms_queue
      (message false)
      (handle list_broker list_table calm email_queue (message false) (consumer false))
    ≡ ack list_broker list_table sms_queue (
        count_consumed list_broker list_table
          (handle list_broker list_table calm email_queue (message false) (consumer false)))
unfolding deliver find_by_event_id create_audit first_row
second_channel_is_silent_example =
    second_channel_is_silent list_broker list_table calm calm email_queue sms_queue (message false)
      (message false) (consumer false) (list_table.create ([], tt) audits_after).1 refl refl refl

abbrev outcome : PaymentOutcome
outcome = record { id = 9; transaction_id = some 4; payload = payload false }

abbrev all_recipients : String → Bool
all_recipients r = true

abbrev synced : Consumer list_broker list_table
synced = record (consumer false) {
  audits = sync_audits list_table all_recipients ([] ++ outcome ∷ []) ([], tt);
}

unseen : find_by_event_id list_table 9 ([], tt) ≡ none
unfolding find_by_event_id first_row
unseen = refl

sync_suppresses_delivery_example :
    ((row : ℕ × NotificationAudit) × (find_by_event_id list_table 9 synced.audits ≡ some row)
      × (row.1.status ≡ sent))
    × (handle list_broker list_table calm email_queue (message false) synced
        ≡ ack list_broker list_table email_queue (count_consumed list_broker list_table synced))
sync_suppresses_delivery_example =
    sync_suppresses_delivery list_broker list_table calm email_queue (message false)
      (consumer false) all_recipients [] [] outcome "ada@example.org" refl refl unseen refl refl
