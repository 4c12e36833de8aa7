-- ===== src/Notify/Audit.antt =====
-- `NotificationRepository`: the audit records, whose event id is unique, and the synchronisation with
-- the outbox that a look at the history begins with.
use vault_core.Prelude.{
  ◌==◌, if◌then◌else◌, is_some, ℕ, String, Bool, not, ◌&&◌, Option, none, some, List, [], ◌∷◌,
}
use vault_core.Result.{Result, ok, err}
use vault_core.Table.{Table}
use vault_core.Notify.Message.{NotificationType, email, Payload, ◌or◌}

pub data AuditStatus : Type 0 where
  pending sent failed delivered : AuditStatus

pub record NotificationAudit : Type 0 where
  pub event_id : ℕ
  pub transaction_id : Option ℕ
  pub notification_type : NotificationType
  pub recipient : String
  pub status : AuditStatus
  pub retry_count : ℕ
  pub error_message : Option String

-- An outbox event of a payment, as the history reads it.
pub record PaymentOutcome : Type 0 where
  pub id : ℕ
  pub transaction_id : Option ℕ
  pub payload : Payload

module _ (A : Table NotificationAudit) where
  unfoldable pub find_by_event_id : ℕ → A.State → Option (ℕ × NotificationAudit)
  find_by_event_id id s = A.find_first s (λ a. a.event_id == id)

  -- `notificationAudit.create`, which throws where the event id is taken.
  unfoldable pub create_audit : NotificationAudit → A.State → Result String A.State
  create_audit a s =
      if is_some (find_by_event_id a.event_id s)
      then err "Unique constraint failed"
      else ok (A.create s a).1

  abbrev pub synced_audit : PaymentOutcome → String → NotificationAudit
  synced_audit e recipient = record {
    event_id = e.id;
    transaction_id = e.transaction_id;
    notification_type = email;
    recipient = recipient;
    status = sent;
    retry_count = 0;
    error_message = none;
  }

  -- One event: `wanted` is the test of the filter's recipient, without regard to case.
  unfoldable pub sync_event : (String → Bool) → PaymentOutcome → A.State → A.State
  unfolding find_by_event_id
  sync_event wanted e s = elim (e.payload.recipient or e.payload.email or e.payload.user_email) [
    | none ↦ s
    | some recipient ↦
        if wanted recipient && not (is_some (find_by_event_id e.id s))
        then (A.create s (synced_audit e recipient)).1
        else s
  ]

  -- The loop over the latest thirty events, at the start of `getPaginatedHistory`.
  unfoldable pub sync_audits : (String → Bool) → List PaymentOutcome → A.State → A.State
  unfolding sync_event
  sync_audits wanted [] s = s
  sync_audits wanted (e ∷ rest) s = sync_audits wanted rest (sync_event wanted e s)
