-- ===== src/Notify/Broker.antt =====
-- RabbitMQ, as the consumer uses it: a parameter. The queues that wait, in order; the exchange puts a
-- message in every queue whose bindings match its key.
use vault_core.Prelude.{if◌then◌else◌, ℕ, String, ◌≡◌, Bool, true, false, List, [], ◌∷◌, ◌++◌}
use vault_core.Notify.Message.{
  RoutingKey, payment_completed, payment_failed, notification_sms, notification_email, Message,
}

pub data Queue : Type 0 where
  email_queue sms_queue : Queue

-- The bindings of `setupTopology`.
unfoldable pub is_bound : Queue → RoutingKey → Bool
is_bound email_queue payment_completed = true
is_bound email_queue payment_failed = true
is_bound email_queue notification_email = true
is_bound sms_queue payment_completed = true
is_bound sms_queue notification_sms = true
is_bound _ _ = false

abbrev pub same_queue : Queue → Queue → Bool
same_queue email_queue email_queue = true
same_queue sms_queue sms_queue = true
same_queue _ _ = false

-- What is sent to the dead letter queue: the message, its error and the metadata.
pub record DeadLetter : Type 0 where
  pub original : Message
  pub error : String
  pub event_id : ℕ
  pub original_queue : Queue
  pub retry_attempt : ℕ

pub record Broker : Type 1 where
  pub State : Type 0
  pub ready : State → Queue → List Message
  pub dead_letters : State → List DeadLetter
  -- The message that was delivered from a queue is acknowledged and leaves it.
  pub ack : State → Queue → State
  -- `publish` to the exchange, given the bindings; `sendToQueue` of the dead letter queue.
  pub publish : State → (Queue → RoutingKey → Bool) → Message → State
  pub send_to_dlq : State → DeadLetter → State
  pub ready-ack :
      (s : State) (q : Queue) (m : Message) (rest : List Message)
      → ready s q ≡ m ∷ rest
      → (j : Queue) → ready (ack s q) j ≡ (if same_queue q j then rest else ready s j)
  pub dead_letters-ack : (s : State) (q : Queue) → dead_letters (ack s q) ≡ dead_letters s
  pub ready-publish :
      (s : State) (bound : Queue → RoutingKey → Bool) (m : Message) (j : Queue)
      → ready (publish s bound m) j
        ≡ (if bound j m.routing_key then ready s j ++ (m ∷ []) else ready s j)
  pub dead_letters-publish :
      (s : State) (bound : Queue → RoutingKey → Bool) (m : Message)
      → dead_letters (publish s bound m) ≡ dead_letters s
  pub ready-send_to_dlq :
      (s : State) (d : DeadLetter) (j : Queue) → ready (send_to_dlq s d) j ≡ ready s j
  pub dead_letters-send_to_dlq :
      (s : State) (d : DeadLetter) → dead_letters (send_to_dlq s d) ≡ dead_letters s ++ (d ∷ [])
