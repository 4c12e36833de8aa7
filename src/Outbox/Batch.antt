-- ===== src/Outbox/Batch.antt =====
-- A whole cycle, in the moves of Outbox.Delivery.
use mathlib.Core.Path.{subst}
use vault_core.Prelude.{
  ◌==◌, Bool-cases, Option-cases, length, ℕ, String, ◌≡◌, refl, sym, ◌∙◌, inl, inr, false, Option,
  none, some, List, [], ◌∷◌, arith,
}
use vault_core.Table.Rows.{lookup, Distinct}
use vault_core.Outbox.Model.{OutboxEvent, ArePending, OutboxTable, Worker, rows_of}
use vault_core.Outbox.Worker.{
  Cycle, process_event, stop_before, process_events, count_pending, begin_cycle, run_cycle,
  process_batch,
}
use vault_core.Outbox.Delivery.{Moves, stays, Turn}
use vault_core.Outbox.Turns.{process_event-Turn}

module _ (O : OutboxTable) where
  -- After a cycle over the fetched rows: each row is there still and made a move, and a row that was
  -- not fetched is as it was.
  record Swept (c : Cycle) (fetched : List (ℕ × OutboxEvent)) (w w' : Worker O) : Type 0 where
    kept : (j : ℕ) → lookup j fetched ≡ none → lookup j (rows_of O w') ≡ lookup j (rows_of O w)
    moved :
        (j : ℕ) (e : OutboxEvent)
        → lookup j fetched ≡ some e
        → (e' : OutboxEvent) × (lookup j (rows_of O w') ≡ some e') × Moves w.max_retries c j e e'
    options : w'.max_retries ≡ w.max_retries

  -- The fetched rows are still pending after another row's turn.
  Turn-ArePending :
      (c : Cycle) (id : ℕ) (e : OutboxEvent) (w w' : Worker O) (rest : List (ℕ × OutboxEvent))
      → Turn O c id e w w'
      → lookup id rest ≡ none
      → ArePending rest (rows_of O w)
      → ArePending rest (rows_of O w')
  unfolding lookup
  Turn-ArePending c id e w w' [] t n q = tt
  Turn-ArePending c id e w w' ((j, f) ∷ rest) t n (h, p, q) =
      let ne : (id == j) ≡ false = ground arith in
      (t.others j ne ∙ h, p, Turn-ArePending c id e w w' rest t (ground (arith, ne)) q)

  ArePending-lookup :
      (fetched table : List (ℕ × OutboxEvent)) (j : ℕ) (e : OutboxEvent)
      → ArePending fetched table
      → lookup j fetched ≡ some e
      → lookup j table ≡ some e
  unfolding lookup
  ArePending-lookup [] table j e q h = absurd (ground arith)
  ArePending-lookup ((id, f) ∷ rest) table j e (here, p, q) h = elim (Bool-cases (j == id)) [
    | inl same ↦ let eq : j ≡ id = ground arith in rw eq (here ∙ ground (arith, same))
    | inr other ↦ ArePending-lookup rest table j e q (ground arith)
  ]

  idle-Swept :
      (c : Cycle) (fetched : List (ℕ × OutboxEvent)) (w w' : Worker O)
      → ArePending fetched (rows_of O w)
      → w'.table ≡ w.table
      → w'.max_retries ≡ w.max_retries
      → Swept c fetched w w'
  idle-Swept c fetched w w' q t o = record {
    options = o;
    kept = λ j n. rw t refl;
    moved = λ j e h. (e, rw t (ArePending-lookup fetched (rows_of O w) j e q h), stays);
  }

  Turn-Swept :
      (c : Cycle) (id : ℕ) (e : OutboxEvent) (w w₀ w' w'' : Worker O)
      (rest : List (ℕ × OutboxEvent))
      → w₀.table ≡ w.table
      → w₀.max_retries ≡ w.max_retries
      → lookup id rest ≡ none
      → Turn O c id e w₀ w'
      → Swept c rest w' w''
      → Swept c ((id, e) ∷ rest) w w''
  unfolding lookup
  Turn-Swept c id e w w₀ w' w'' rest t o n turn swept = record {
    options = swept.options ∙ turn.options ∙ o;
    kept = λ j h.
        let ne : (id == j) ≡ false = ground arith in
        swept.kept j (ground arith) ∙ turn.others j ne ∙ rw t refl;
    moved = λ j f h. elim (Bool-cases (j == id)) [
      | inl same ↦
          let eq : j ≡ id = ground arith in
          let it : f ≡ e = ground arith in
          let (e', here, m) = turn.moved in
          rw (eq, it) (e', swept.kept id n ∙ here, subst (λ k. Moves k c id e e') o m)
      | inr other ↦
          let (e', here, m) = swept.moved j f (ground arith) in
          (e', here, subst (λ k. Moves k c j f e') (turn.options ∙ o) m)
    ];
  }

  stop_before-table : (c : Cycle) (id : ℕ) (w : Worker O) → (stop_before O c id w).table ≡ w.table
  stop_before-table c id w = elim (Bool-cases (c.is_stopped_before id)) [
    | inl x ↦ rw x refl
    | inr x ↦ rw x refl
  ]

  stop_before-options :
      (c : Cycle) (id : ℕ) (w : Worker O) → (stop_before O c id w).max_retries ≡ w.max_retries
  stop_before-options c id w = elim (Bool-cases (c.is_stopped_before id)) [
    | inl x ↦ rw x refl
    | inr x ↦ rw x refl
  ]

  process_events-Swept :
      (c : Cycle) (fetched : List (ℕ × OutboxEvent)) (w : Worker O)
      → Distinct fetched
      → ArePending fetched (rows_of O w)
      → Swept c fetched w (process_events O c fetched w)
  unfolding process_events lookup
  process_events-Swept c [] w d q = record {
    options = refl;
    kept = λ j n. refl;
    moved = λ j e h. absurd (ground arith);
  }
  process_events-Swept c ((id, e) ∷ rest) w (n, d) (h, p, q) =
      let w₀ = stop_before O c id w in
      let t = stop_before-table c id w in
      let o = stop_before-options c id w in
      let turn =
        process_event-Turn O c id e w₀ (subst (λ x. lookup id (O.events.rows x) ≡ some e) (sym t) h)
          p in
      let w' = (process_event O c id e w₀).1 in
      let later =
        Turn-ArePending c id e w₀ w' rest turn n
          (subst (λ x. ArePending rest (O.events.rows x)) (sym t) q) in
      elim (Bool-cases w₀.is_stopped) [
        | inl x ↦ rw (x, process_events) (idle-Swept c ((id, e) ∷ rest) w w₀ (h, p, q) t o)
        | inr x ↦ elim (Bool-cases (process_event O c id e w₀).0) [
          | inl y ↦
              rw (x, y, process_events)
                (Turn-Swept c id e w w₀ w' _ rest t o n turn
                  (process_events-Swept c rest w' d later))
          | inr y ↦
              rw (x, y, process_events)
                (Turn-Swept c id e w w₀ w' _ rest t o n turn
                  (idle-Swept c rest w' w' later refl refl))
        ]
      ]

  run_cycle-Moves :
      (c : Cycle) (w : Worker O) (refused : Option String) (id : ℕ) (e : OutboxEvent)
      → lookup id (rows_of O w) ≡ some e
      → (e' : OutboxEvent) × (lookup id (rows_of O (run_cycle O c refused (begin_cycle O w)))
          ≡ some e')
        × Moves w.max_retries c id e e'
  run_cycle-Moves c w (some message) id e h = (e, h, stays)
  run_cycle-Moves c w none id e h =
      let fetched = O.find_pending w.table w.batch_size in
      let swept =
        process_events-Swept c fetched (count_pending O (length fetched) (begin_cycle O w))
          (O.find_pending-Distinct w.table w.batch_size)
          (O.find_pending-ArePending w.table w.batch_size) in
      elim (Option-cases (lookup id fetched)) [
        | inl x ↦ (e, swept.kept id x ∙ h, stays)
        | inr (f, x) ↦
            let found =
              ArePending-lookup fetched (rows_of O w) id f
                (O.find_pending-ArePending w.table w.batch_size) x in
            swept.moved id e (x ∙ sym found ∙ h)
      ]

  -- In one cycle, whatever the broker and the database answer and whenever the worker is stopped,
  -- each row of the outbox either stays as it is or makes one move that its state allows: a pending
  -- and due event is published, only after the broker took it; or its retry is counted, below the
  -- limit; or it fails at the limit.
  pub process_batch-Moves :
      (c : Cycle) (w : Worker O) (id : ℕ) (e : OutboxEvent)
      → lookup id (rows_of O w) ≡ some e
      → (e' : OutboxEvent) × (lookup id (rows_of O (process_batch O c w)) ≡ some e')
        × Moves w.max_retries c id e e'
  unfolding process_batch
  process_batch-Moves c w id e h = elim (Bool-cases w.is_processing) [
    | inl x ↦ rw x (e, h, stays)
    | inr x ↦ rw x (run_cycle-Moves c w c.fetch_error id e h)
  ]

  run_cycle-options :
      (c : Cycle) (w : Worker O) (refused : Option String)
      → (run_cycle O c refused (begin_cycle O w)).max_retries ≡ w.max_retries
  run_cycle-options c w (some message) = refl
  run_cycle-options c w none =
      let fetched = O.find_pending w.table w.batch_size in
      (process_events-Swept c fetched (count_pending O (length fetched) (begin_cycle O w))
        (O.find_pending-Distinct w.table w.batch_size)
        (O.find_pending-ArePending w.table w.batch_size)).options

  pub process_batch-options :
      (c : Cycle) (w : Worker O) → (process_batch O c w).max_retries ≡ w.max_retries
  unfolding process_batch
  process_batch-options c w = elim (Bool-cases w.is_processing) [
    | inl x ↦ rw x refl
    | inr x ↦ rw x (run_cycle-options c w c.fetch_error)
  ]
