-- ===== src/Notify/Message.antt =====
-- Messages, and the texts that `NotificationService` makes of them. A field that is absent or falsy is
-- `none`.
use vault_core.Prelude.{ℕ, String, Bool, Option, none, some}

pub data NotificationType : Type 0 where
  email sms : NotificationType

-- The keys that the code tests for; the two in capitals are no keys of the exchange's bindings.
pub data RoutingKey : Type 0 where
  payment_completed capital_payment_completed : RoutingKey
  payment_failed capital_payment_failed : RoutingKey
  payment_reversed notification_sms notification_email : RoutingKey
  other_key : String → RoutingKey

-- `content.payload || content`
pub record Payload : Type 0 where
  pub recipient : Option String
  pub email : Option String
  pub phone : Option String
  pub user_email : Option String
  pub phone_number : Option String
  pub amount : Option String
  pub currency : Option String
  pub reference_id : Option String
  pub transaction_id : Option String
  pub reason : Option String
  pub subject : Option String
  pub message : Option String
  pub body : Option String
  pub simulate_failure : Bool

-- `JSON.parse` of the message's content, or what is left of it when that fails.
pub record Content : Type 0 where
  pub event_id : Option ℕ
  pub transaction_id : Option ℕ
  pub payload_transaction_id : Option ℕ
  pub aggregate_id : Option ℕ
  pub retry_attempt : ℕ
  pub payload : Payload

pub record Headers : Type 0 where
  pub event_id : Option ℕ
  pub transaction_id : Option ℕ
  -- A header that is not a number is `none`.
  pub retry_attempt : Option ℕ

pub record Message : Type 0 where
  pub routing_key : RoutingKey
  pub headers : Headers
  pub content : Content

infixr 30 ◌or◌
-- `a || b`
abbrev pub ◌or◌ : {A : Type 0} → Option A → Option A → Option A
none or b = b
some a or b = some a

abbrev pub or_value : {A : Type 0} → Option A → A → A
or_value none a = a
or_value (some a) _ = a

-- `evt-${Date.now()}` is the id `fresh`.
abbrev pub event_id_of : ℕ → Message → ℕ
event_id_of fresh m = or_value (m.headers.event_id or m.content.event_id) fresh

abbrev pub transaction_id_of : Message → Option ℕ
transaction_id_of m =
    m.headers.transaction_id or m.content.transaction_id or m.content.payload_transaction_id
    or m.content.aggregate_id

abbrev pub current_retry : Message → ℕ
current_retry m = or_value m.headers.retry_attempt m.content.retry_attempt

abbrev phone_or_default : NotificationType → Payload → String
phone_or_default sms p = or_value p.phone_number "+15551234567"
phone_or_default email p = "customer@vaultcore.io"

unfoldable pub resolve_recipient : NotificationType → Payload → String
resolve_recipient type p =
    or_value (p.recipient or p.email or p.phone or p.user_email) (phone_or_default type p)

-- The body's text, by its template.
pub data Body : Type 0 where
  completed_text : String → String → String → Body
  failed_text : String → String → String → String → Body
  reversed_text : String → String → String → Body
  sms_text : String → String → String → Body
  generic_text : String → Body
  own_text : String → Body

pub data Template : Type 0 where
  payment_completed_template payment_failed_template payment_reversed_template : Template
  sms_alert_template generic_notification_template : Template

pub record MessageTemplate : Type 0 where
  pub subject : String
  pub body : Body
  pub template : Template

abbrev amount_of : Payload → String
amount_of p = or_value p.amount "0.00"

abbrev currency_of : Payload → String
currency_of p = or_value p.currency "USD"

abbrev reference_of : Payload → String
reference_of p = or_value (p.reference_id or p.transaction_id) "N/A"

abbrev completed_message : Payload → MessageTemplate
completed_message p = record {
  subject = "VaultCore Transfer Completed";
  body = completed_text (amount_of p) (currency_of p) (reference_of p);
  template = payment_completed_template;
}

abbrev failed_message : Payload → MessageTemplate
failed_message p = record {
  subject = "VaultCore Transfer Failed";
  body =
      failed_text (amount_of p) (currency_of p) (reference_of p)
        (or_value p.reason "Insufficient funds or verification error");
  template = payment_failed_template;
}

abbrev generic_message : Payload → MessageTemplate
generic_message p = record {
  subject = or_value p.subject "VaultCore Account Notification";
  body = elim (p.message or p.body) [
    | none ↦ generic_text (reference_of p)
    | some text ↦ own_text text
  ];
  template = generic_notification_template;
}

-- The source switches on the routing key alone; the event type is not read.
unfoldable pub format_message : RoutingKey → Payload → MessageTemplate
format_message payment_completed p = completed_message p
format_message capital_payment_completed p = completed_message p
format_message payment_failed p = failed_message p
format_message capital_payment_failed p = failed_message p
format_message payment_reversed p = record {
  subject = "VaultCore Transfer Reversed";
  body = reversed_text (amount_of p) (currency_of p) (reference_of p);
  template = payment_reversed_template;
}
format_message notification_sms p = record {
  subject = "VaultCore SMS Alert";
  body = elim p.message [
    | none ↦ sms_text (reference_of p) (amount_of p) (currency_of p)
    | some text ↦ own_text text
  ];
  template = sms_alert_template;
}
format_message notification_email p = generic_message p
format_message (other_key k) p = generic_message p
