-- ===== src/Outbox/Tests.antt =====
-- The outbox worker at concrete inputs, on a list of rows.
use vault_core.Prelude.{
  ◌==◌, if◌then◌else◌, Bool-cases, ℕ, ◌≡◌, refl, inl, inr, Bool, true, false, none, some, List, [],
  ◌∷◌, arith,
}
use vault_core.Table.Rows.{lookup, replace, Distinct}
use vault_core.Table.Lists.{list_table}
use vault_core.Outbox.Model.{
  OutboxStatus, pending, OutboxEvent, ArePending, OutboxTable, mark_event_published,
  mark_event_failed, Worker, rows_of, update_event,
}
use vault_core.Outbox.Worker.{
  sent, not_sent, Cycle, calculate_backoff_ms, is_due, on_publish_error, mark_published,
  process_event, process_events, process_batch, tick,
}
use vault_core.Outbox.Delivery.{Moves}
use vault_core.Outbox.Batch.{process_batch-Moves}
use vault_core.Outbox.Runs.{Progress, run_cycles, run_cycles-Progress}

abbrev is_pending : OutboxStatus → Bool
is_pending pending = true
is_pending _ = false

unfoldable pending_rows : List (ℕ × OutboxEvent) → List (ℕ × OutboxEvent)
pending_rows [] = []
pending_rows ((id, e) ∷ rest) =
    if is_pending e.status then (id, e) ∷ pending_rows rest else pending_rows rest

lookup-pending_rows :
    (j : ℕ) (r : List (ℕ × OutboxEvent)) → lookup j r ≡ none → lookup j (pending_rows r) ≡ none
unfolding lookup pending_rows
lookup-pending_rows j [] h = refl
lookup-pending_rows j ((id, e) ∷ rest) h = ground (arith, lookup-pending_rows j rest)

pending_rows-Distinct : (r : List (ℕ × OutboxEvent)) → Distinct r → Distinct (pending_rows r)
unfolding pending_rows
pending_rows-Distinct [] d = tt
pending_rows-Distinct ((id, e) ∷ rest) (n, d) = elim (Bool-cases (is_pending e.status)) [
  | inl x ↦ rw x (lookup-pending_rows id rest n, pending_rows-Distinct rest d)
  | inr x ↦ rw x (pending_rows-Distinct rest d)
]

other_row :
    (j id : ℕ) (f e : OutboxEvent) (r : List (ℕ × OutboxEvent))
    → lookup id r ≡ none
    → lookup j r ≡ some f
    → lookup j ((id, e) ∷ r) ≡ some f
unfolding lookup
other_row j id f e r n h = elim (Bool-cases (j == id)) [
  | inl same ↦ let eq : j ≡ id = ground arith in absurd (cc (eq, n, h))
  | inr other ↦ rw other h
]

-- Another row in front of the table.
ArePending-cons :
    (fetched r : List (ℕ × OutboxEvent)) (id : ℕ) (e : OutboxEvent)
    → lookup id r ≡ none
    → ArePending fetched r
    → ArePending fetched ((id, e) ∷ r)
unfolding lookup
ArePending-cons [] r id e n q = tt
ArePending-cons ((j, f) ∷ fetched) r id e n (h, p, q) =
    (other_row j id f e r n h, p, ArePending-cons fetched r id e n q)

pending_rows-ArePending : (r : List (ℕ × OutboxEvent)) → Distinct r → ArePending (pending_rows r) r
unfolding pending_rows lookup
pending_rows-ArePending [] d = tt
pending_rows-ArePending ((id, e) ∷ rest) (n, d) =
    let later = ArePending-cons (pending_rows rest) rest id e n (pending_rows-ArePending rest d) in
    elim (Bool-cases (is_pending e.status)) [
      | inl x ↦ rw x (ground arith, ground arith, later)
      | inr x ↦ rw x later
    ]

abbrev list_outbox : OutboxTable
list_outbox = record {
  events = list_table;
  find_pending = λ s limit. pending_rows s.0;
  find_pending-ArePending = λ s limit. pending_rows-ArePending s.0 s.1;
  find_pending-Distinct = λ s limit. pending_rows-Distinct s.0 s.1;
}

abbrev fresh_event : OutboxEvent
fresh_event = record {
  status = pending;
  retry_count = 0;
  error = none;
  updated_at = 0;
  processed_at = none;
}

abbrev tired_event : OutboxEvent
tired_event = record {
  status = pending;
  retry_count = 4;
  error = some "down";
  updated_at = 1000;
  processed_at = none;
}

two_rows-Distinct : Distinct ((1, fresh_event) ∷ (2, tired_event) ∷ [])
unfolding lookup
two_rows-Distinct = (refl, (refl, tt))

abbrev worker : Worker list_outbox
worker = record {
  max_retries = 5;
  batch_size = 50;
  has_timer = true;
  is_running = true;
  is_stopped = false;
  is_processing = false;
  metrics = record {
    pending_outbox_events = 0;
    published_events = 0;
    failed_events = 0;
    retry_count = 0;
    queue_publish_latency_ms = 0;
    last_processed_at = none;
    total_cycles = 0;
  };
  table = ((1, fresh_event) ∷ (2, tired_event) ∷ [], two_rows-Distinct);
}

-- The broker takes the first event and refuses the second.
abbrev cycle : ℕ → Cycle
cycle now = record {
  now = now;
  fetch_error = none;
  publish = λ id. if id == 1 then sent 12 else not_sent "down";
  mark_published_error = λ id. none;
  record_failure_error = λ id. none;
  is_stopped_before = λ id. false;
}

cycle_test :
    rows_of list_outbox (tick list_outbox (cycle 20000) worker)
    ≡ (1, mark_event_published 20000 fresh_event)
      ∷ (2, mark_event_failed 20000 "down" 5 tired_event)
      ∷ []
unfolding tick process_batch process_events process_event is_due calculate_backoff_ms mark_published
    on_publish_error update_event pending_rows lookup replace
cycle_test = refl

too_early_test :
    rows_of list_outbox (tick list_outbox (cycle 8999) worker)
    ≡ (1, mark_event_published 8999 fresh_event) ∷ (2, tired_event) ∷ []
unfolding tick process_batch process_events process_event is_due calculate_backoff_ms mark_published
    on_publish_error update_event pending_rows lookup replace
too_early_test = refl

process_batch-Moves_example :
    (e' : OutboxEvent) × (lookup 2
        (rows_of list_outbox (process_batch list_outbox (cycle 20000) worker))
      ≡ some e')
    × Moves 5 (cycle 20000) 2 tired_event e'
unfolding lookup
process_batch-Moves_example =
    process_batch-Moves list_outbox (cycle 20000) worker 2 tired_event refl

run_cycles-Progress_example :
    (e' : OutboxEvent) × (lookup 2
        (rows_of list_outbox (run_cycles list_outbox (cycle 5 ∷ cycle 20000 ∷ []) worker))
      ≡ some e')
    × Progress 5 (cycle 5 ∷ cycle 20000 ∷ []) 2 tired_event e'
unfolding lookup
run_cycles-Progress_example =
    run_cycles-Progress list_outbox (cycle 5 ∷ cycle 20000 ∷ []) worker 2 tired_event refl
      (record { left = λ h. omega arith; limit = omega arith })
