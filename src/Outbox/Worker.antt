-- ===== src/Outbox/Worker.antt =====
-- `OutboxWorker`: `calculateBackoffMs`, `processBatch`, `start`, the timer's tick and `stop`. What the
-- broker and the database answer within one cycle is an argument, as is a `stop` that comes between
-- two events. Log lines and the fields of the message that is published are left out.
use vault_core.Prelude.{
  leb, ◌==◌, if◌then◌else◌, length, ℕ, ◌+◌, ◌-◌, ◌*◌, ◌^◌, min, String, Bool, true, false, not,
  ◌&&◌, ◌||◌, Option, none, some, List, [], ◌∷◌,
}
use vault_core.Outbox.Model.{
  OutboxStatus, published, OutboxEvent, OutboxTable, mark_event_published, increment_retry,
  mark_event_failed, Worker, update_event,
}

-- `publisher.publish`: the latency, or the message of the error.
pub data PublishResult : Type 0 where
  sent : ℕ → PublishResult
  not_sent : String → PublishResult

-- What one cycle meets: the time, the broker's answer for an event, the database's errors, and
-- whether `stop` was called before an event's turn.
pub record Cycle : Type 0 where
  pub now : ℕ
  pub fetch_error : Option String
  pub publish : ℕ → PublishResult
  pub mark_published_error : ℕ → Option String
  pub record_failure_error : ℕ → Option String
  pub is_stopped_before : ℕ → Bool

unfoldable pub calculate_backoff_ms : ℕ → ℕ
calculate_backoff_ms retry_count = min (1000 * 2 ^ retry_count) 30000

-- The backoff check: a first attempt is due at once.
unfoldable pub is_due : ℕ → OutboxEvent → Bool
unfolding calculate_backoff_ms
is_due now e =
    e.retry_count == 0 || leb (calculate_backoff_ms (e.retry_count - 1)) (now - e.updated_at)

-- `event.status === 'PUBLISHED'`
abbrev pub is_published : OutboxStatus → Bool
is_published published = true
is_published _ = false

module _ (O : OutboxTable) where
  -- Does the batch go on, or has an error reached the outer `catch`?
  abbrev pub settled : Option (Worker O) → Worker O → Bool × Worker O
  settled none w = (false, w)
  settled (some w') w = (true, w')

  abbrev pub count_failed : Worker O → Worker O
  count_failed w = record w {
    metrics = record w.metrics { failed_events = w.metrics.failed_events + 1 };
  }

  abbrev pub count_failed_if : Bool × Worker O → Bool × Worker O
  count_failed_if (true, w) = (true, count_failed w)
  count_failed_if (false, w) = (false, w)

  abbrev pub count_retry : Worker O → Worker O
  count_retry w = record w {
    metrics = record w.metrics { retry_count = w.metrics.retry_count + 1 };
  }

  -- The database's answer to an update: an error, or the update by id.
  abbrev pub try_update :
      Option String → ℕ → (OutboxEvent → OutboxEvent) → Worker O → Option (Worker O)
  try_update (some message) id change w = none
  try_update none id change w = update_event O id change w

  -- `catch (publishError)`
  unfoldable pub on_publish_error : Cycle → ℕ → OutboxEvent → String → Worker O → Bool × Worker O
  on_publish_error c id e message w =
      let next_retry = e.retry_count + 1 in
      let w' = count_retry w in
      if leb w.max_retries next_retry
      then count_failed_if (
          settled
            (try_update (c.record_failure_error id) id (mark_event_failed c.now message next_retry)
              w')
            w')
      else settled
          (try_update (c.record_failure_error id) id (increment_retry c.now message next_retry) w')
          w'

  abbrev pub count_published : Cycle → ℕ → Worker O → Worker O
  count_published c latency w = record w {
    metrics = record w.metrics {
      queue_publish_latency_ms = latency;
      published_events = w.metrics.published_events + 1;
      last_processed_at = some c.now;
    };
  }

  -- The text of Prisma's error for a missing row is not the source's.
  abbrev pub error_text : Option String → String
  error_text none = "Record to update not found"
  error_text (some message) = message

  abbrev pub after_mark :
      Option (Worker O) → Cycle → ℕ → OutboxEvent → String → Worker O → Bool × Worker O
  after_mark (some w') c id e message w = (true, w')
  after_mark none c id e message w = on_publish_error c id e message w

  -- `markEventPublished`, whose error is caught as one of publishing.
  unfoldable pub mark_published : Cycle → ℕ → OutboxEvent → Worker O → Bool × Worker O
  unfolding on_publish_error
  mark_published c id e w =
      after_mark (try_update (c.mark_published_error id) id (mark_event_published c.now) w) c id e
        (error_text (c.mark_published_error id)) w

  abbrev pub after_publish : PublishResult → Cycle → ℕ → OutboxEvent → Worker O → Bool × Worker O
  after_publish (sent latency) c id e w = mark_published c id e (count_published c latency w)
  after_publish (not_sent message) c id e w = on_publish_error c id e message w

  -- One event's turn.
  unfoldable pub process_event : Cycle → ℕ → OutboxEvent → Worker O → Bool × Worker O
  unfolding is_due mark_published on_publish_error
  process_event c id e w =
      if is_published e.status || not (is_due c.now e)
      then (true, w)
      else after_publish (c.publish id) c id e w

  abbrev pub stop_before : Cycle → ℕ → Worker O → Worker O
  stop_before c id w =
      if c.is_stopped_before id
      then record w { is_running = false; is_stopped = true; has_timer = false }
      else w

  unfoldable pub process_events : Cycle → List (ℕ × OutboxEvent) → Worker O → Worker O
  unfolding process_event
  process_events c [] w = w
  process_events c ((id, e) ∷ rest) w =
      let w₀ = stop_before c id w in
      elim w₀.is_stopped [
        | true ↦ w₀
        | false ↦
            let (goes_on, w') = process_event c id e w₀ in
            elim goes_on [ true ↦ process_events c rest w' | false ↦ w' ]
      ]

  abbrev pub count_pending : ℕ → Worker O → Worker O
  count_pending n w = record w { metrics = record w.metrics { pending_outbox_events = n } }

  abbrev pub begin_cycle : Worker O → Worker O
  begin_cycle w = record w {
    is_processing = true;
    metrics = record w.metrics { total_cycles = w.metrics.total_cycles + 1 };
  }

  -- The body of the `try`; its errors stop at the outer `catch`.
  abbrev pub run_cycle : Cycle → Option String → Worker O → Worker O
  run_cycle c (some message) w = w
  run_cycle c none w =
      let pending_events = O.find_pending w.table w.batch_size in
      process_events c pending_events (count_pending (length pending_events) w)

  unfoldable pub process_batch : Cycle → Worker O → Worker O
  unfolding process_events
  process_batch c w =
      if w.is_processing
      then w
      else record (run_cycle c c.fetch_error (begin_cycle w)) { is_processing = false }

  -- The first batch starts at once and is not awaited: the timer is set while it waits.
  unfoldable pub start : Cycle → Worker O → Worker O
  unfolding process_batch
  start c w =
      if w.is_running
      then w
      else process_batch c (record w { is_running = true; is_stopped = false; has_timer = true })

  unfoldable pub tick : Cycle → Worker O → Worker O
  unfolding process_batch
  tick c w = if w.has_timer && w.is_running && not w.is_processing then process_batch c w else w

  unfoldable pub stop : Worker O → Worker O
  stop w = record w { is_running = false; is_stopped = true; has_timer = false }
