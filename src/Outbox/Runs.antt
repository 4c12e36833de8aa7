-- ===== src/Outbox/Runs.antt =====
-- Many cycles, and the backoff between the attempts at one event.
use mathlib.Core.Path.{subst}
use native.Mathlib.Omega.{pow_step}
use vault_core.Prelude.{
  ◌==◌, Bool-cases, ℕ, zero, suc, ◌+◌, ◌-◌, ◌*◌, ◌^◌, ◌≤◌, ◌<◌, ◌≡◌, refl, sym, ap, ◌∙◌, ◌≢◌, ◌⊎◌,
  inl, inr, true, false, some, List, [], ◌∷◌, arith,
}
use vault_core.Table.Rows.{lookup}
use vault_core.Outbox.Model.{pending, published, OutboxEvent, OutboxTable, Worker, rows_of}
use vault_core.Outbox.Worker.{sent, Cycle, calculate_backoff_ms, is_due, process_batch}
use vault_core.Outbox.Batch.{process_batch-Moves, process_batch-options}
use vault_core.Outbox.Delivery.{Moves, stays, delivered, waits, gives_up}

-- A pending event has retries left, and none has more than the limit.
pub record IsBounded (max_retries : ℕ) (e : OutboxEvent) : Type 0 where
  pub left : e.status ≡ pending → e.retry_count < max_retries
  pub limit : e.retry_count ≤ max_retries

-- The broker took the event in one of these cycles.
pub data WasSent (id : ℕ) : List Cycle → Type 0 where
  now_sent :
      {c : Cycle} {rest : List Cycle} (latency : ℕ)
      → c.publish id ≡ sent latency
      → WasSent id (c ∷ rest)
  later_sent : {c : Cycle} {rest : List Cycle} → WasSent id rest → WasSent id (c ∷ rest)

-- What any number of cycles may do to a row.
pub record Progress (max_retries : ℕ) (cycles : List Cycle) (id : ℕ) (e e' : OutboxEvent)
    : Type 0 where
  pub bounded : IsBounded max_retries e'
  pub settled_stays : e.status ≢ pending → e' ≡ e
  pub published_was_sent : e'.status ≡ published → (e.status ≡ published) ⊎ WasSent id cycles

Moves-IsBounded :
    (k : ℕ) (c : Cycle) (id : ℕ) (e e' : OutboxEvent)
    → Moves k c id e e'
    → IsBounded k e
    → IsBounded k e'
Moves-IsBounded k c id e _ stays b = b
Moves-IsBounded k c id e _ (delivered p d s) b = record {
  left = λ h. absurd (ground arith);
  limit = b.limit;
}
Moves-IsBounded k c id e _ (waits p d lt) b = record { left = λ h. lt; limit = omega arith }
Moves-IsBounded k c id e _ (gives_up p d le) b =
    let lt = b.left p in record { left = λ h. absurd (ground arith); limit = omega arith }

Moves-settled :
    (k : ℕ) (c : Cycle) (id : ℕ) (e e' : OutboxEvent)
    → Moves k c id e e'
    → e.status ≢ pending
    → e' ≡ e
Moves-settled k c id e _ stays n = refl
Moves-settled k c id e _ (delivered p d s) n = absurd (n p)
Moves-settled k c id e _ (waits p d lt) n = absurd (n p)
Moves-settled k c id e _ (gives_up p d le) n = absurd (n p)

Moves-published :
    (k : ℕ) (c : Cycle) (id : ℕ) (e e' : OutboxEvent) (rest : List Cycle)
    → Moves k c id e e'
    → e'.status ≡ published
    → (e.status ≡ published) ⊎ WasSent id (c ∷ rest)
Moves-published k c id e _ rest stays h = inl h
Moves-published k c id e _ rest (delivered {latency} p d s) h = inr (now_sent latency s)
Moves-published k c id e _ rest (waits p d lt) h = absurd (ground arith)
Moves-published k c id e _ rest (gives_up p d le) h = absurd (ground arith)

Moves-Progress :
    (k : ℕ) (c : Cycle) (rest : List Cycle) (id : ℕ) (e e' e'' : OutboxEvent)
    → Moves k c id e e'
    → Progress k rest id e' e''
    → Progress k (c ∷ rest) id e e''
Moves-Progress k c rest id e e' e'' m p = record {
  bounded = p.bounded;
  settled_stays =
      λ n. let same = Moves-settled k c id e e' m n in p.settled_stays (rw same n) ∙ same;
  published_was_sent = λ h. elim (p.published_was_sent h) [
    | inl was ↦ Moves-published k c id e e' rest m was
    | inr later ↦ inr (later_sent later)
  ];
}

-- The worker's batches one after the other.
abbrev pub run_cycles : (O : OutboxTable) → List Cycle → Worker O → Worker O
run_cycles O [] w = w
run_cycles O (c ∷ cs) w = run_cycles O cs (process_batch O c w)

-- Over any number of cycles, an event that begins with no more retries than the limit, and below the
-- limit while it is pending, never has more retries than the limit and is not pending once it has
-- reached it; if it is published or failed, it never changes again; and it becomes published only
-- where the broker took it in one of the cycles.
pub run_cycles-Progress :
    (O : OutboxTable) (cycles : List Cycle) (w : Worker O) (id : ℕ) (e : OutboxEvent)
    → lookup id (rows_of O w) ≡ some e
    → IsBounded w.max_retries e
    → (e' : OutboxEvent) × (lookup id (rows_of O (run_cycles O cycles w)) ≡ some e')
      × Progress w.max_retries cycles id e e'
run_cycles-Progress O [] w id e h b =
    (e, h, record { bounded = b; settled_stays = λ n. refl; published_was_sent = λ p. inl p })
run_cycles-Progress O (c ∷ cs) w id e h b =
    let (e', h', m) = process_batch-Moves O c w id e h in
    let o = process_batch-options O c w in
    let b' = Moves-IsBounded w.max_retries c id e e' m b in
    let (e'', h'', p) =
      run_cycles-Progress O cs (process_batch O c w) id e' h'
        (subst (λ k. IsBounded k e') (sym o) b') in
    (
      e'',
      h'',
      Moves-Progress w.max_retries c cs id e e' e'' m (subst (λ k. Progress k cs id e' e'') o p),
    )

power_pos : (n : ℕ) → 1 ≤ 2 ^ n
power_pos zero = omega arith
power_pos (suc n) = omega (arith, power_pos n, pow_step 2 n)

pow_next : (n : ℕ) → 2 ^ (n + 1) ≡ 2 * 2 ^ n
pow_next n = let same : n + 1 ≡ suc n = omega arith in ap (λ k. 2 ^ k) same ∙ pow_step 2 n

-- The wait between two attempts is at least one second and at most thirty, never shrinks with the
-- count of retries, and so every event is due thirty seconds after its last update, and none with a
-- retry within one second of it.
pub backoff_bounds :
    (now : ℕ) (e : OutboxEvent)
    → (1000 ≤ calculate_backoff_ms e.retry_count)
      × (calculate_backoff_ms e.retry_count ≤ 30000)
      × (calculate_backoff_ms e.retry_count ≤ calculate_backoff_ms (e.retry_count + 1))
      × (is_due now e ≡ false → now < e.updated_at + 30000)
      × (is_due now e ≡ true → e.retry_count ≡ 0 ⊎ e.updated_at + 1000 ≤ now)
unfolding calculate_backoff_ms is_due
backoff_bounds now e =
    let a = power_pos e.retry_count in
    let b = power_pos (e.retry_count - 1) in
    (
      omega (arith, a),
      omega (arith, a),
      omega (arith, a, pow_next e.retry_count),
      λ h. ground (arith, a, b),
      λ h. elim (Bool-cases (e.retry_count == 0)) [
        | inl x ↦ inl (ground arith)
        | inr x ↦ inr (ground (arith, a, b))
      ],
    )
