-- ===== src/Outbox/Model.antt =====
-- The outbox table, its updates (repositories/outboxRepository.js), and the worker's state.
use vault_core.Prelude.{ℕ, String, ◌≡◌, Bool, Option, none, some, List, [], ◌∷◌}
use vault_core.Table.{Table}
use vault_core.Table.Rows.{lookup, Distinct}

pub data OutboxStatus : Type 0 where
  pending published failed : OutboxStatus

-- A row of `OutboxEvent`: the columns that the worker reads or writes.
pub record OutboxEvent : Type 0 where
  pub status : OutboxStatus
  pub retry_count : ℕ
  pub error : Option String
  pub updated_at : ℕ
  pub processed_at : Option ℕ

-- The fetched rows stand in the table and are pending.
abbrev pub ArePending : List (ℕ × OutboxEvent) → List (ℕ × OutboxEvent) → Type 0
ArePending [] table = Unit
ArePending ((id, e) ∷ rest) table =
    (lookup id table ≡ some e) × (e.status ≡ pending) × ArePending rest table

-- `findMany({ where: { status: 'PENDING' }, take, orderBy: { createdAt: 'asc' } })`: the order and
-- the limit do not matter below.
pub record OutboxTable : Type 1 where
  pub events : Table OutboxEvent
  pub find_pending : events.State → ℕ → List (ℕ × OutboxEvent)
  pub find_pending-ArePending :
      (s : events.State) (limit : ℕ) → ArePending (find_pending s limit) (events.rows s)
  pub find_pending-Distinct : (s : events.State) (limit : ℕ) → Distinct (find_pending s limit)

pub record WorkerMetrics : Type 0 where
  pub pending_outbox_events : ℕ
  pub published_events : ℕ
  pub failed_events : ℕ
  pub retry_count : ℕ
  pub queue_publish_latency_ms : ℕ
  pub last_processed_at : Option ℕ
  pub total_cycles : ℕ

-- `outboxEvent.update({ where: { id }, data })`, which stamps `updatedAt`.
abbrev pub mark_event_published : ℕ → OutboxEvent → OutboxEvent
mark_event_published now e = record e {
  status = published;
  processed_at = some now;
  error = none;
  updated_at = now;
}

abbrev pub increment_retry : ℕ → String → ℕ → OutboxEvent → OutboxEvent
increment_retry now message count e = record e {
  retry_count = count;
  error = some message;
  updated_at = now;
}

abbrev pub mark_event_failed : ℕ → String → ℕ → OutboxEvent → OutboxEvent
mark_event_failed now message count e = record e {
  status = failed;
  retry_count = count;
  error = some message;
  processed_at = some now;
  updated_at = now;
}

module _ (O : OutboxTable) where
  -- The worker: its options, its flags, its metrics, and the table as the database has it.
  pub record Worker : Type 0 where
    pub max_retries : ℕ
    pub batch_size : ℕ
    pub has_timer : Bool
    pub is_running : Bool
    pub is_stopped : Bool
    pub is_processing : Bool
    pub metrics : WorkerMetrics
    pub table : O.events.State

  abbrev pub rows_of : Worker → List (ℕ × OutboxEvent)
  rows_of w = O.events.rows w.table

  -- An update by id, which throws where the row is gone.
  unfoldable pub update_event : ℕ → (OutboxEvent → OutboxEvent) → Worker → Option Worker
  update_event id change w = elim (O.events.find_unique w.table id) [
    | none ↦ none
    | some e ↦ some (record w { table = O.events.update w.table id (change e) })
  ]
