-- ===== src/Outbox/Delivery.antt =====
-- What a cycle does to the rows of the outbox.
use vault_core.Prelude.{
  leb, ◌==◌, if◌then◌else◌, Bool-cases, Option-cases, ℕ, ◌+◌, ◌≤◌, ◌<◌, String, ◌≡◌, refl, ◌∙◌, inl,
  inr, Bool, true, false, Option, none, some, arith,
}
use vault_core.Table.Rows.{lookup, lookup-replace}
use vault_core.Outbox.Model.{
  pending, OutboxEvent, OutboxTable, mark_event_published, increment_retry, mark_event_failed,
  Worker, rows_of, update_event,
}
use vault_core.Outbox.Worker.{
  sent, Cycle, is_due, settled, count_failed_if, count_retry, try_update, on_publish_error,
}

-- What may happen to one row in one cycle.
pub data Moves (max_retries : ℕ) (c : Cycle) (id : ℕ) (e : OutboxEvent) : OutboxEvent → Type 0 where
  stays : Moves max_retries c id e e
  delivered :
      {latency : ℕ}
      → e.status ≡ pending
      → is_due c.now e ≡ true
      → c.publish id ≡ sent latency
      → Moves max_retries c id e (mark_event_published c.now e)
  waits :
      {message : String}
      → e.status ≡ pending
      → is_due c.now e ≡ true
      → e.retry_count + 1 < max_retries
      → Moves max_retries c id e (increment_retry c.now message (e.retry_count + 1) e)
  gives_up :
      {message : String}
      → e.status ≡ pending
      → is_due c.now e ≡ true
      → max_retries ≤ e.retry_count + 1
      → Moves max_retries c id e (mark_event_failed c.now message (e.retry_count + 1) e)

module _ (O : OutboxTable) where
  row : Worker O → ℕ → Option OutboxEvent
  row w id = lookup id (rows_of O w)

  -- What an update does, where the row is there.
  update_event-row :
      (id : ℕ) (change : OutboxEvent → OutboxEvent) (w w' : Worker O) (e : OutboxEvent)
      → lookup id (rows_of O w) ≡ some e
      → update_event O id change w ≡ some w'
      → (j : ℕ)
      → lookup j (rows_of O w') ≡ (if id == j then some (change e) else lookup j (rows_of O w))
  unfolding update_event
  update_event-row id change w w' e h u j = ground (
    arith,
    h,
    O.events.find_unique_lem w.table id,
    O.events.rows-update w.table id (change e),
    lookup-replace id j (change e) e (rows_of O w),
  )

  update_event-options :
      (id : ℕ) (change : OutboxEvent → OutboxEvent) (w w' : Worker O)
      → update_event O id change w ≡ some w'
      → w'.max_retries ≡ w.max_retries
  unfolding update_event
  update_event-options id change w w' u = ground arith

  -- One event's turn: its own row moves, the others stay, and the option stays.
  pub record Turn (c : Cycle) (id : ℕ) (e : OutboxEvent) (w w' : Worker O) : Type 0 where
    pub others : (j : ℕ) → (id == j) ≡ false → lookup j (rows_of O w') ≡ lookup j (rows_of O w)
    pub moved :
        (e' : OutboxEvent) × (lookup id (rows_of O w') ≡ some e') × Moves w.max_retries c id e e'
    pub options : w'.max_retries ≡ w.max_retries

  pub idle-Turn :
      (c : Cycle) (id : ℕ) (e : OutboxEvent) (w w' : Worker O)
      → lookup id (rows_of O w) ≡ some e
      → w'.table ≡ w.table
      → w'.max_retries ≡ w.max_retries
      → Turn c id e w w'
  idle-Turn c id e w w' h t o = record {
    others = λ j ne. rw t refl;
    moved = (e, rw t h, stays);
    options = o;
  }

  pub update_event-Turn :
      (c : Cycle) (id : ℕ) (e : OutboxEvent) (w w₁ w' : Worker O)
      (change : OutboxEvent → OutboxEvent)
      → lookup id (rows_of O w) ≡ some e
      → w₁.table ≡ w.table
      → w₁.max_retries ≡ w.max_retries
      → update_event O id change w₁ ≡ some w'
      → Moves w.max_retries c id e (change e)
      → Turn c id e w w'
  update_event-Turn c id e w w₁ w' change h t o u m =
      let h₁ : lookup id (rows_of O w₁) ≡ some e = rw t h in
      record {
        others = λ j ne. update_event-row id change w₁ w' e h₁ u j ∙ ground (arith, ne, t);
        moved = (change e, update_event-row id change w₁ w' e h₁ u id ∙ ground arith, m);
        options = update_event-options id change w₁ w' u ∙ o;
      }

  -- An update that the database may refuse.
  try_update-Turn :
      (c : Cycle) (id : ℕ) (e : OutboxEvent) (w w₁ : Worker O) (refused : Option String)
      (change : OutboxEvent → OutboxEvent)
      → lookup id (rows_of O w) ≡ some e
      → w₁.table ≡ w.table
      → w₁.max_retries ≡ w.max_retries
      → Moves w.max_retries c id e (change e)
      → Turn c id e w (settled O (try_update O refused id change w₁) w₁).1
  try_update-Turn c id e w w₁ (some message) change h t o m = idle-Turn c id e w w₁ h t o
  try_update-Turn c id e w w₁ none change h t o m =
      elim (Option-cases (update_event O id change w₁)) [
        | inl x ↦ rw x (idle-Turn c id e w w₁ h t o)
        | inr (w', x) ↦ rw x (update_event-Turn c id e w w₁ w' change h t o x m)
      ]

  count_failed_if-Turn :
      (c : Cycle) (id : ℕ) (e : OutboxEvent) (w : Worker O) (r : Bool × Worker O)
      → Turn c id e w r.1
      → Turn c id e w (count_failed_if O r).1
  count_failed_if-Turn c id e w (true, w') t = record {
    others = t.others;
    moved = t.moved;
    options = t.options;
  }
  count_failed_if-Turn c id e w (false, w') t = t

  pub on_publish_error-Turn :
      (c : Cycle) (id : ℕ) (e : OutboxEvent) (message : String) (w w₁ : Worker O)
      → lookup id (rows_of O w) ≡ some e
      → w₁.table ≡ w.table
      → w₁.max_retries ≡ w.max_retries
      → e.status ≡ pending
      → is_due c.now e ≡ true
      → Turn c id e w (on_publish_error O c id e message w₁).1
  unfolding on_publish_error
  on_publish_error-Turn c id e message w w₁ h t o p d =
      elim (Bool-cases (leb w₁.max_retries (e.retry_count + 1))) [
        | inl x ↦ rw x (
            count_failed_if-Turn c id e w _ (
              try_update-Turn c id e w (count_retry O w₁) (c.record_failure_error id) _ h t o
                (gives_up {message = message} p d (ground (arith, o, x)))))
        | inr x ↦ rw x (
            try_update-Turn c id e w (count_retry O w₁) (c.record_failure_error id) _ h t o
              (waits {message = message} p d (ground (arith, o, x))))
      ]
