-- ===== src/Gateway/Events.antt =====
-- `handleLiveEvent` of services/gateway/src/services/gatewayEventConsumer.js, and `broadcastSSEEvent`
-- and the start of the event stream of services/gateway/src/app.js. Trace ids, times, texts and log
-- lines are left out.
use vault_core.Prelude.{
  ltb, ◌==◌, if◌then◌else◌, length, ℕ, ◌+◌, String, Bool, true, false, ◌||◌, Option, none, some,
  List, [], ◌∷◌, ◌++◌,
}

-- An id of the sender, or the `notif-…` that the gateway makes of one.
pub data EventId : Type 0 where
  sent_id : ℕ → EventId
  notif : EventId → EventId

abbrev pub same_id : EventId → EventId → Bool
same_id (sent_id n) (sent_id m) = n == m
same_id (notif a) (notif b) = same_id a b
same_id _ _ = false

-- The names that the code compares, and any other.
pub data EventName : Type 0 where
  dotted_completed upper_completed notification_created : EventName
  other_name : ℕ → EventName

abbrev pub is_dotted_completed : EventName → Bool
is_dotted_completed dotted_completed = true
is_dotted_completed _ = false

abbrev pub is_upper_completed : EventName → Bool
is_upper_completed upper_completed = true
is_upper_completed _ = false

-- The fields that a payload may have.
pub record EventPayload : Type 0 where
  pub transaction_id : Option ℕ
  pub reference_id : Option ℕ
  pub amount : Option ℕ
  pub currency : Option String
  pub recipient : Option ℕ
  pub email : Option ℕ

-- A content has them at its top level too.
pub record LiveContent : Type 0 where
  pub payload : Option EventPayload
  pub top_level : EventPayload
  pub event_type : Option EventName
  pub type_name : Option EventName
  pub event_id : Option EventId
  pub id : Option EventId

pub record LiveHeaders : Type 0 where
  pub event_id : Option EventId
  pub transaction_id : Option ℕ
  pub reference_id : Option ℕ

-- `sseEvent` and `liveNotificationEvent`
pub record SseEvent : Type 0 where
  pub event_id : EventId
  pub name : EventName
  pub transaction_id : Option ℕ
  pub reference_id : Option ℕ
  pub amount : Option ℕ
  pub currency : String
  pub recipient : Option ℕ

-- A browser, with what was written to it.
pub record SseClient : Type 0 where
  pub client_id : ℕ
  pub received : List SseEvent

pub record LiveMetrics : Type 0 where
  pub messages_received : ℕ
  pub events_broadcasted : ℕ

-- `processedEventIds`, a Set in the order of insertion, and the stream's state, oldest first.
pub record Gateway : Type 0 where
  pub processed_event_ids : List EventId
  pub recent_event_buffer : List SseEvent
  pub sse_clients : List SseClient
  pub metrics : LiveMetrics

-- `a || b`
abbrev pub either : {X : Type 0} → Option X → Option X → Option X
either none b = b
either (some a) b = some a

abbrev pub either_or : {X : Type 0} → Option X → X → X
either_or none d = d
either_or (some a) d = a

-- `Set.has`
abbrev pub has_id : EventId → List EventId → Bool
has_id i [] = false
has_id i (j ∷ r) = same_id i j || has_id i r

-- Without the first element.
abbrev pub shift : {X : Type 0} → List X → List X
shift [] = []
shift (x ∷ r) = r

-- `push`, and `shift` where there are more than `limit`.
abbrev pub push_bounded : {X : Type 0} → ℕ → X → List X → List X
push_bounded limit x xs =
    let pushed = xs ++ (x ∷ []) in if ltb limit (length pushed) then shift pushed else pushed

-- A client whose `write` throws is deleted.
abbrev pub write_all : (ℕ → Bool) → SseEvent → List SseClient → List SseClient
write_all fails e [] = []
write_all fails e (c ∷ r) =
    let rest = write_all fails e r in
    if fails c.client_id then rest else (record c { received = c.received ++ (e ∷ []) }) ∷ rest

unfoldable pub broadcast_sse_event : (ℕ → Bool) → SseEvent → Gateway → Gateway
broadcast_sse_event fails e g = record g {
  recent_event_buffer = push_bounded 100 e g.recent_event_buffer;
  sse_clients = write_all fails e g.sse_clients;
}

abbrev pub event_id_of : ℕ → LiveContent → LiveHeaders → EventId
event_id_of fresh c h = either_or (either h.event_id (either c.event_id c.id)) (sent_id fresh)

abbrev pub sse_event : EventId → EventName → LiveContent → LiveHeaders → SseEvent
sse_event id key c h =
    let p = either_or c.payload c.top_level in
    record {
      event_id = id;
      name = key;
      transaction_id = either p.transaction_id (either c.top_level.transaction_id h.transaction_id);
      reference_id = either p.reference_id (either c.top_level.reference_id h.reference_id);
      amount = p.amount;
      currency = either_or p.currency "USD";
      recipient = either p.recipient p.email;
    }

abbrev pub notification_of : SseEvent → SseEvent
notification_of e = record e { event_id = notif e.event_id; name = notification_created }

-- The check, the new id, and the oldest out of more than 1000.
abbrev pub remember : EventId → Gateway → Gateway
remember id g = record g {
  processed_event_ids = push_bounded 1000 id g.processed_event_ids;
  metrics = record g.metrics { messages_received = g.metrics.messages_received + 1 };
}

abbrev pub count_broadcast : Gateway → Gateway
count_broadcast g = record g {
  metrics = record g.metrics { events_broadcasted = g.metrics.events_broadcasted + 1 };
}

-- `routingKey === 'payment.completed' || eventType === 'PAYMENT_COMPLETED'`
abbrev pub announces_payment : EventName → LiveContent → Bool
announces_payment key c =
    is_dotted_completed key || is_upper_completed (either_or (either c.event_type c.type_name) key)

-- The broadcasts of one event.
unfoldable pub announce : (ℕ → Bool) → Bool → SseEvent → Gateway → Gateway
unfolding broadcast_sse_event
announce fails twice e g =
    let once = count_broadcast (broadcast_sse_event fails e g) in
    if twice then count_broadcast (broadcast_sse_event fails (notification_of e) once) else once

-- One message: the id for an event without one, the clients that fail, its name, content and headers.
pub record LiveMessage : Type 0 where
  pub fresh : ℕ
  pub fails : ℕ → Bool
  pub routing_key : EventName
  pub content : LiveContent
  pub headers : LiveHeaders

abbrev pub id_of : LiveMessage → EventId
id_of m = event_id_of m.fresh m.content m.headers

unfoldable pub handle_live_event : LiveMessage → Gateway → Gateway
unfolding announce
handle_live_event m g =
    if has_id (id_of m) g.processed_event_ids
    then g
    else announce m.fails (announces_payment m.routing_key m.content)
        (sse_event (id_of m) m.routing_key m.content m.headers) (remember (id_of m) g)

-- The events behind the first one with this id; none where the buffer has it not.
abbrev pub events_after : EventId → List SseEvent → List SseEvent
events_after id [] = []
events_after id (e ∷ r) = let rest = events_after id r in if same_id e.event_id id then r else rest

-- A client that connects, with its `Last-Event-ID`.
unfoldable pub connect_stream : ℕ → Option EventId → Gateway → Gateway
connect_stream client none g = record g {
  sse_clients = g.sse_clients ++ (record { client_id = client; received = [] } ∷ []);
}
connect_stream client (some last) g = record g {
  sse_clients =
      g.sse_clients
      ++ (record { client_id = client; received = events_after last g.recent_event_buffer } ∷ []);
}
