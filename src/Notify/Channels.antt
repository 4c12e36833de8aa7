-- ===== src/Notify/Channels.antt =====
-- One event on two channels: the queues of email and SMS share the keys, and the audit records share
-- the event ids.
use mathlib.Core.Path.{subst}
use vault_core.Prelude.{
  ltb, ◌==◌, Bool-cases, Option-cases, is_some, ℕ, ◌+◌, ◌<◌, String, ◌≡◌, refl, sym, ap, ◌∙◌, ◌⊎◌,
  inl, inr, Bool, true, false, not, ◌&&◌, none, some, List, [], ◌∷◌, ◌++◌, arith,
}
use vault_core.Result.{ok, err}
use vault_core.Table.{Table}
use vault_core.Table.Rows.{lookup, lookup-cons}
use vault_core.Notify.Message.{
  RoutingKey, payment_completed, Message, ◌or◌, event_id_of, current_retry,
}
use vault_core.Notify.Broker.{Queue, email_queue, sms_queue, is_bound, Broker}
use vault_core.Notify.Audit.{
  sent, NotificationAudit, PaymentOutcome, find_by_event_id, create_audit, synced_audit, sync_event,
  sync_audits,
}
use vault_core.Notify.Consumer.{
  Consumer, Handling, queue_of, count_consumed, ack, retry_of, retry_message, audit_of, deliver,
  on_error, handle,
}
use vault_core.Notify.Outcome.{left_in, deliver-stored, publish-ack}

completed-is_bound : (j : Queue) (k : RoutingKey) → k ≡ payment_completed → is_bound j k ≡ true
unfolding is_bound
completed-is_bound email_queue k h = rw h refl
completed-is_bound sms_queue k h = rw h refl

module _ (B : Broker) (A : Table NotificationAudit) where
  -- Has the event an audit record?
  abbrev pub is_audited : ℕ → A.State → Bool
  is_audited id s = is_some (find_by_event_id A id s)

  create-is_audited :
      (a : NotificationAudit) (s : A.State) → is_audited a.event_id (A.create s a).1 ≡ true
  unfolding find_by_event_id
  create-is_audited a s =
      let (id, s') = A.create s a in
      let p = λ (x : NotificationAudit). x.event_id == a.event_id in
      elim (Option-cases (A.find_first s' p)) [
        | inr (x, e) ↦ rw e refl
        | inl e ↦
            let miss = A.find_first_complete s' p id a e (
              ap (lookup id) (A.rows-create s a)
              ∙ ground (arith, lookup-cons id id a (A.rows s))) in
            absurd (ground (arith, miss))
      ]

  create_audit-is_audited :
      (a : NotificationAudit) (s s' : A.State)
      → create_audit A a s ≡ ok s'
      → is_audited a.event_id s' ≡ true
  unfolding create_audit
  create_audit-is_audited a s s' h = elim (Bool-cases (is_audited a.event_id s)) [
    | inl x ↦ absurd (ground arith)
    | inr x ↦
        let same : (A.create s a).1 ≡ s' = ground arith in
        subst (λ t. is_audited a.event_id t ≡ true) same (create-is_audited a s)
  ]

  -- A record that is there stays there.
  create-keeps_audited :
      (id : ℕ) (a : NotificationAudit) (s : A.State)
      → is_audited id s ≡ true
      → is_audited id (A.create s a).1 ≡ true
  unfolding find_by_event_id
  create-keeps_audited id a s h =
      let (k, s') = A.create s a in
      let p = λ (x : NotificationAudit). x.event_id == id in
      elim (Option-cases (A.find_first s p)) [
        | inl e ↦ absurd (ground (arith, e))
        | inr ((i, v), e) ↦
            let (row, hit) = A.find_first_sound s p i v e in
            let later : lookup i (A.rows s') ≡ some v =
              ap (lookup i) (A.rows-create s a)
              ∙ ground (arith, lookup-cons k i a (A.rows s), A.create_fresh s a, row) in
            elim (Option-cases (A.find_first s' p)) [
              | inr (x, f) ↦ rw f refl
              | inl f ↦ absurd (ground (arith, A.find_first_complete s' p i v f later, hit))
            ]
      ]

  sync_event-keeps_audited :
      (wanted : String → Bool) (e : PaymentOutcome) (id : ℕ) (s : A.State)
      → is_audited id s ≡ true
      → is_audited id (sync_event A wanted e s) ≡ true
  unfolding sync_event
  sync_event-keeps_audited wanted e id s h =
      elim (Option-cases (e.payload.recipient or e.payload.email or e.payload.user_email)) [
        | inl x ↦ rw (x, sync_event) h
        | inr (r, x) ↦ elim (Bool-cases (wanted r && not (is_audited e.id s))) [
          | inl y ↦ rw (x, y, sync_event) (create-keeps_audited id _ s h)
          | inr y ↦ rw (x, y, sync_event) h
        ]
      ]

  sync_event-is_audited :
      (wanted : String → Bool) (e : PaymentOutcome) (r : String) (s : A.State)
      → (e.payload.recipient or e.payload.email or e.payload.user_email) ≡ some r
      → wanted r ≡ true
      → is_audited e.id (sync_event A wanted e s) ≡ true
  unfolding sync_event
  sync_event-is_audited wanted e r s x w = elim (Bool-cases (is_audited e.id s)) [
    | inl y ↦
        let no : (wanted r && not (is_audited e.id s)) ≡ false = ground arith in
        rw (x, no, sync_event) y
    | inr y ↦
        let go : (wanted r && not (is_audited e.id s)) ≡ true = ground arith in
        rw (x, go, sync_event) (create-is_audited (synced_audit A e r) s)
  ]

  sync_audits-keeps_audited :
      (wanted : String → Bool) (events : List PaymentOutcome) (id : ℕ) (s : A.State)
      → is_audited id s ≡ true
      → is_audited id (sync_audits A wanted events s) ≡ true
  unfolding sync_audits
  sync_audits-keeps_audited wanted [] id s h = h
  sync_audits-keeps_audited wanted (e ∷ rest) id s h =
      sync_audits-keeps_audited wanted rest id (sync_event A wanted e s)
        (sync_event-keeps_audited wanted e id s h)

  sync_audits-is_audited :
      (wanted : String → Bool) (before after : List PaymentOutcome) (e : PaymentOutcome)
      (r : String) (s : A.State)
      → (e.payload.recipient or e.payload.email or e.payload.user_email) ≡ some r
      → wanted r ≡ true
      → is_audited e.id (sync_audits A wanted (before ++ e ∷ after) s) ≡ true
  unfolding sync_audits
  sync_audits-is_audited wanted [] after e r s x w =
      sync_audits-keeps_audited wanted after e.id _ (sync_event-is_audited wanted e r s x w)
  sync_audits-is_audited wanted (f ∷ before) after e r s x w =
      sync_audits-is_audited wanted before after e r (sync_event A wanted f s) x w

  -- Every record of the event is SENT.
  abbrev AllSent : ℕ → A.State → Type 0
  AllSent id s =
      (i : ℕ) (a : NotificationAudit)
      → lookup i (A.rows s) ≡ some a
      → (a.event_id == id) ≡ true
      → a.status ≡ sent

  create-AllSent :
      (id : ℕ) (a : NotificationAudit) (s : A.State)
      → a.status ≡ sent
      → AllSent id s
      → AllSent id (A.create s a).1
  create-AllSent id a s is_sent all i b row hit =
      let k = (A.create s a).0 in
      let at = ap (lookup i) (A.rows-create s a) in
      elim (Bool-cases (k == i)) [
        | inl new ↦ ground (arith, at, lookup-cons k i a (A.rows s), row)
        | inr old ↦ all i b (ground (arith, at, lookup-cons k i a (A.rows s), row)) hit
      ]

  sync_event-cases :
      (wanted : String → Bool) (e : PaymentOutcome) (s : A.State)
      → (sync_event A wanted e s ≡ s)
        ⊎ ((r : String) × (sync_event A wanted e s ≡ (A.create s (synced_audit A e r)).1))
  unfolding sync_event
  sync_event-cases wanted e s =
      elim (Option-cases (e.payload.recipient or e.payload.email or e.payload.user_email)) [
        | inl x ↦ inl (rw (x, sync_event) refl)
        | inr (r, x) ↦ elim (Bool-cases (wanted r && not (is_audited e.id s))) [
          | inl y ↦ inr (r, rw (x, y, sync_event) refl)
          | inr y ↦ inl (rw (x, y, sync_event) refl)
        ]
      ]

  sync_audits-AllSent :
      (wanted : String → Bool) (events : List PaymentOutcome) (id : ℕ) (s : A.State)
      → AllSent id s
      → AllSent id (sync_audits A wanted events s)
  unfolding sync_audits
  sync_audits-AllSent wanted [] id s all = all
  sync_audits-AllSent wanted (e ∷ rest) id s all =
      sync_audits-AllSent wanted rest id (sync_event A wanted e s)
        (elim (sync_event-cases wanted e s) [
          | inl same ↦ subst (AllSent id) (sym same) all
          | inr (r, made) ↦
              subst (AllSent id) (sym made) (create-AllSent id (synced_audit A e r) s refl all)
        ])

  -- An event without a record before, and with one now, has a SENT record.
  sent_record :
      (wanted : String → Bool) (events : List PaymentOutcome) (id : ℕ) (s : A.State)
      → find_by_event_id A id s ≡ none
      → is_audited id (sync_audits A wanted events s) ≡ true
      → (row : ℕ × NotificationAudit) × (find_by_event_id A id (sync_audits A wanted events s)
          ≡ some row)
        × (row.1.status ≡ sent)
  unfolding find_by_event_id
  sent_record wanted events id s before now =
      let s' = sync_audits A wanted events s in
      let p = λ (a : NotificationAudit). a.event_id == id in
      let all =
        sync_audits-AllSent wanted events id s
          (λ i a row hit. absurd (ground (arith, A.find_first_complete s p i a before row, hit))) in
      elim (Option-cases (A.find_first s' p)) [
        | inl x ↦ absurd (ground (arith, x, now))
        | inr ((i, a), x) ↦
            let (row, hit) = A.find_first_sound s' p i a x in ((i, a), x, all i a row hit)
      ]

  -- A message whose event has a record is acknowledged, and that is all.
  audited-ack :
      (h : Handling B A) (q : Queue) (m : Message) (s : Consumer B A)
      → h.find_error ≡ none
      → is_audited (event_id_of h.fresh m) s.audits ≡ true
      → handle B A h q m s ≡ ack B A q (count_consumed B A s)
  unfolding handle deliver
  audited-ack h q m s e x = rw (e, x) refl

  handle-stored :
      (h : Handling B A) (q : Queue) (m : Message) (s : Consumer B A) (audits : A.State)
      → deliver B A h q (event_id_of h.fresh m) m s.audits ≡ ok (some audits)
      → (handle B A h q m s).audits ≡ audits
  unfolding handle ack
  handle-stored h q m s audits d = rw d refl

  -- Once the handler of one queue has delivered an event and ended, a handler of the other queue (or
  -- of the same) that begins then, on a message of that event, and whose lookup of the record does not
  -- fail, counts and acknowledges its message and does nothing else: the record of the event does not
  -- tell the channels apart.
  pub second_channel_is_silent :
      (h h' : Handling B A) (q j : Queue) (m m' : Message) (s : Consumer B A) (audits : A.State)
      → deliver B A h q (event_id_of h.fresh m) m s.audits ≡ ok (some audits)
      → event_id_of h'.fresh m' ≡ event_id_of h.fresh m
      → h'.find_error ≡ none
      → handle B A h' j m' (handle B A h q m s)
        ≡ ack B A j (count_consumed B A (handle B A h q m s))
  unfolding handle
  second_channel_is_silent h h' q j m m' s audits d same e =
      let (new, works, stored) = deliver-stored B A h q _ m s.audits audits d in
      let there =
        create_audit-is_audited (audit_of B A q (event_id_of h.fresh m) m) (h.others s.audits)
          audits stored in
      audited-ack h' j m' (handle B A h q m s) e (rw (same, handle-stored h q m s audits d) there)

  -- A look at the history gives a latest payment event that has no record yet, and whose recipient
  -- the filter wants, a record that says SENT, and so keeps it from going out: on a message of that
  -- event, in either queue, the consumer, if its lookup of the record does not fail, counts and
  -- acknowledges the message and does nothing else.
  pub sync_suppresses_delivery :
      (h : Handling B A) (q : Queue) (m : Message) (s : Consumer B A) (wanted : String → Bool)
      (before after : List PaymentOutcome) (e : PaymentOutcome) (r : String)
      → (e.payload.recipient or e.payload.email or e.payload.user_email) ≡ some r
      → wanted r ≡ true
      → find_by_event_id A e.id s.audits ≡ none
      → event_id_of h.fresh m ≡ e.id
      → h.find_error ≡ none
      → ((row : ℕ × NotificationAudit) × (find_by_event_id A e.id
              (sync_audits A wanted (before ++ e ∷ after) s.audits)
            ≡ some row)
          × (row.1.status ≡ sent))
        × (handle B A h q m
              (record s { audits = sync_audits A wanted (before ++ e ∷ after) s.audits })
            ≡ ack B A q (
                count_consumed B A
                  (record s { audits = sync_audits A wanted (before ++ e ∷ after) s.audits })))
  sync_suppresses_delivery h q m s wanted before after e r x w unseen same f =
      let there = sync_audits-is_audited wanted before after e r s.audits x w in
      (
        sent_record wanted (before ++ e ∷ after) e.id s.audits unseen there,
        audited-ack h q m _ f (rw same there),
      )

  -- A retry goes to both channels: where a message with the key of a completed payment fails and has
  -- retries left, it leaves its queue, and each of the two queues gets a copy with one retry more.
  pub retry_reaches_both_channels :
      (h : Handling B A) (q : Queue) (m : Message) (rest : List Message) (s : Consumer B A)
      (message : String)
      → queue_of B A s q ≡ m ∷ rest
      → m.routing_key ≡ payment_completed
      → deliver B A h q (event_id_of h.fresh m) m s.audits ≡ err message
      → current_retry m < s.max_retries
      → (j : Queue)
      → queue_of B A (handle B A h q m s) j
        ≡ left_in B A q rest s j
          ++ (retry_of B A (event_id_of h.fresh m) (current_retry m + 1) m ∷ [])
  unfolding handle on_error retry_message ack
  retry_reaches_both_channels h q m rest s message w key d lt j =
      let again = retry_of B A (event_id_of h.fresh m) (current_retry m + 1) m in
      let left : ltb s.max_retries (current_retry m + 1) ≡ false = ground arith in
      rw (d, left)
        (publish-ack B A s.broker q m again rest w j
          ∙ rw (completed-is_bound j m.routing_key key) refl)
