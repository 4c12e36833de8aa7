-- ===== src/Gateway/Tests.antt =====
-- Live events at concrete inputs, with one browser.
use vault_core.Prelude.{ℕ, ◌≡◌, refl, true, false, none, some, [], ◌∷◌, ◌++◌, arith}
use vault_core.Gateway.Events.{
  sent_id, dotted_completed, EventPayload, SseEvent, Gateway, broadcast_sse_event, sse_event,
  notification_of, announce, LiveMessage, handle_live_event, connect_stream,
}
use vault_core.Gateway.Window.{handle_all, repeated_id_is_ignored}
use vault_core.Gateway.Resume.{Broadcasts, broadcast_all, resume_sends_missed}

abbrev no_payload : EventPayload
no_payload = record {
  transaction_id = some 4;
  reference_id = none;
  amount = some 300;
  currency = none;
  recipient = none;
  email = some 70;
}

abbrev message : ℕ → LiveMessage
message n = record {
  fresh = 900;
  fails = λ c. false;
  routing_key = dotted_completed;
  content = record {
    payload = none;
    top_level = no_payload;
    event_type = none;
    type_name = none;
    event_id = some (sent_id n);
    id = none;
  };
  headers = record { event_id = none; transaction_id = none; reference_id = none };
}

abbrev quiet : Gateway
quiet = record {
  processed_event_ids = [];
  recent_event_buffer = [];
  sse_clients = record { client_id = 1; received = [] } ∷ [];
  metrics = record { messages_received = 0; events_broadcasted = 0 };
}

-- A completed payment is broadcast twice: itself, and its notification.
payment_test :
    (handle_live_event (message 5) quiet).sse_clients
    ≡ record {
      client_id = 1;
      received =
          sse_event (sent_id 5) dotted_completed (message 5).content (message 5).headers
          ∷ notification_of
              (sse_event (sent_id 5) dotted_completed (message 5).content (message 5).headers)
          ∷ [];
    }
      ∷ []
unfolding handle_live_event announce broadcast_sse_event
payment_test = refl

repeated_id_is_ignored_example :
    handle_live_event
      (message 5)
      (handle_all (message 6 ∷ message 7 ∷ []) (handle_live_event (message 5) quiet))
    ≡ handle_all (message 6 ∷ message 7 ∷ []) (handle_live_event (message 5) quiet)
repeated_id_is_ignored_example =
    repeated_id_is_ignored (message 5) (message 5) (message 6 ∷ message 7 ∷ []) quiet refl refl
      (omega arith)

abbrev event : ℕ → SseEvent
event n = sse_event (sent_id n) dotted_completed (message n).content (message n).headers

abbrev missed : Broadcasts
missed = ((λ c. false), event 6) ∷ ((λ c. true), event 7) ∷ []

resume_sends_missed_example :
    (connect_stream 1
      (some (sent_id 5))
      (broadcast_all missed (broadcast_sse_event (λ c. true) (event 5) quiet))).sse_clients
    ≡ (broadcast_all missed (broadcast_sse_event (λ c. true) (event 5) quiet)).sse_clients
      ++ (record { client_id = 1; received = event 6 ∷ event 7 ∷ [] } ∷ [])
resume_sends_missed_example =
    resume_sends_missed 1 (λ c. true) (event 5) missed quiet refl (omega arith)
