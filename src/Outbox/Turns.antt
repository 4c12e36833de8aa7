-- ===== src/Outbox/Turns.antt =====
-- One event's turn: every path of `processEvent` is a move of Outbox.Delivery.
use vault_core.Prelude.{
  Bool-cases, Option-cases, ℕ, String, ◌≡◌, refl, inl, inr, true, false, not, ◌||◌, Option, none,
  some, arith,
}
use vault_core.Table.Rows.{lookup}
use vault_core.Outbox.Model.{
  pending, OutboxEvent, OutboxTable, mark_event_published, Worker, rows_of, update_event,
}
use vault_core.Outbox.Worker.{
  PublishResult, sent, not_sent, Cycle, is_due, is_published, try_update, count_published,
  after_mark, mark_published, after_publish, process_event,
}
use vault_core.Outbox.Delivery.{
  delivered, Turn, idle-Turn, update_event-Turn, on_publish_error-Turn,
}

module _ (O : OutboxTable) where
  after_mark-Turn :
      (c : Cycle) (id : ℕ) (e : OutboxEvent) (latency : ℕ) (w w₁ : Worker O)
      (refused : Option String) (message : String)
      → lookup id (rows_of O w) ≡ some e
      → w₁.table ≡ w.table
      → w₁.max_retries ≡ w.max_retries
      → e.status ≡ pending
      → is_due c.now e ≡ true
      → c.publish id ≡ sent latency
      → Turn O c id e w
          (after_mark O
            (try_update O refused id (mark_event_published c.now) w₁)
            c
            id
            e
            message
            w₁).1
  after_mark-Turn c id e latency w w₁ (some error) message h t o p d s =
      on_publish_error-Turn O c id e message w w₁ h t o p d
  after_mark-Turn c id e latency w w₁ none message h t o p d s =
      elim (Option-cases (update_event O id (mark_event_published c.now) w₁)) [
        | inl y ↦ rw y (on_publish_error-Turn O c id e message w w₁ h t o p d)
        | inr (w', y) ↦ rw y (update_event-Turn O c id e w w₁ w' _ h t o y (delivered p d s))
      ]

  mark_published-Turn :
      (c : Cycle) (id : ℕ) (e : OutboxEvent) (latency : ℕ) (w w₁ : Worker O)
      → lookup id (rows_of O w) ≡ some e
      → w₁.table ≡ w.table
      → w₁.max_retries ≡ w.max_retries
      → e.status ≡ pending
      → is_due c.now e ≡ true
      → c.publish id ≡ sent latency
      → Turn O c id e w (mark_published O c id e w₁).1
  unfolding mark_published
  mark_published-Turn c id e latency w w₁ h t o p d s =
      after_mark-Turn c id e latency w w₁ (c.mark_published_error id) _ h t o p d s

  after_publish-Turn :
      (c : Cycle) (id : ℕ) (e : OutboxEvent) (w : Worker O) (r : PublishResult)
      → c.publish id ≡ r
      → lookup id (rows_of O w) ≡ some e
      → e.status ≡ pending
      → is_due c.now e ≡ true
      → Turn O c id e w (after_publish O r c id e w).1
  after_publish-Turn c id e w (sent latency) s h p d =
      mark_published-Turn c id e latency w (count_published O c latency w) h refl refl p d s
  after_publish-Turn c id e w (not_sent message) s h p d =
      on_publish_error-Turn O c id e message w w h refl refl p d

  pub process_event-Turn :
      (c : Cycle) (id : ℕ) (e : OutboxEvent) (w : Worker O)
      → lookup id (rows_of O w) ≡ some e
      → e.status ≡ pending
      → Turn O c id e w (process_event O c id e w).1
  unfolding process_event
  process_event-Turn c id e w h p = elim (Bool-cases (is_due c.now e)) [
    | inr early ↦
        let skip : (is_published e.status || not (is_due c.now e)) ≡ true = ground arith in
        rw skip (idle-Turn O c id e w w h refl refl)
    | inl due ↦
        let go : (is_published e.status || not (is_due c.now e)) ≡ false = ground arith in
        rw go (after_publish-Turn c id e w (c.publish id) refl h p due)
  ]
