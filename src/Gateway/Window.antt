-- ===== src/Gateway/Window.antt =====
-- Deduplication: how long an id is remembered.
use vault_core.Prelude.{
  ltb, Bool-cases, length, length-append, ℕ, ◌+◌, ◌≤◌, ◌≡◌, refl, ap, inl, inr, Bool, true, false,
  List, [], ◌∷◌, ◌++◌, arith,
}
use vault_core.Gateway.Events.{
  EventId, sent_id, notif, same_id, SseEvent, Gateway, has_id, push_bounded, broadcast_sse_event,
  sse_event, remember, announces_payment, announce, LiveMessage, id_of, handle_live_event,
}

pub same_id_refl : (a : EventId) → same_id a a ≡ true
same_id_refl (sent_id n) = ground arith
same_id_refl (notif a) = same_id_refl a

-- The id is there, with at most `k` ids after it.
abbrev pub IsRecent : EventId → ℕ → List EventId → Type 0
IsRecent i k ids = (older newer : List EventId) × (ids ≡ older ++ (i ∷ newer)) × (length newer ≤ k)

pub append_behind :
    {X : Type 0} (older newer : List X) (i j : X)
    → (older ++ (i ∷ newer)) ++ (j ∷ []) ≡ older ++ (i ∷ (newer ++ (j ∷ [])))
append_behind [] newer i j = refl
append_behind (o ∷ older) newer i j = ap (λ r. o ∷ r) (append_behind older newer i j)

pushed-IsRecent :
    (i j : EventId) (k : ℕ) (older newer : List EventId)
    → length newer ≤ k
    → k ≤ 998
    → IsRecent i (k + 1) (push_bounded 1000 j (older ++ (i ∷ newer)))
pushed-IsRecent i j k [] newer few small =
    let size = length-append newer (j ∷ []) in
    let fits : ltb 1000 (length (i ∷ (newer ++ (j ∷ [])))) ≡ false = ground (arith, size) in
    rw fits ([], newer ++ (j ∷ []), refl, omega (arith, size))
pushed-IsRecent i j k (o ∷ older) newer few small =
    let size = length-append newer (j ∷ []) in
    let more : length (newer ++ (j ∷ [])) ≤ k + 1 = omega (arith, size) in
    let step = append_behind older newer i j in
    elim (Bool-cases (ltb 1000 (length (o ∷ ((older ++ (i ∷ newer)) ++ (j ∷ [])))))) [
      | inl full ↦ rw full (older, newer ++ (j ∷ []), step, more)
      | inr fits ↦ rw fits (o ∷ older, newer ++ (j ∷ []), ap (λ r. o ∷ r) step, more)
    ]

push-IsRecent :
    (i j : EventId) (k : ℕ) (ids : List EventId)
    → IsRecent i k ids
    → k ≤ 998
    → IsRecent i (k + 1) (push_bounded 1000 j ids)
push-IsRecent i j k ids (older, newer, e, few) small =
    rw e (pushed-IsRecent i j k older newer few small)

announce-processed :
    (fails : ℕ → Bool) (twice : Bool) (e : SseEvent) (g : Gateway)
    → (announce fails twice e g).processed_event_ids ≡ g.processed_event_ids
unfolding announce broadcast_sse_event
announce-processed fails true e g = refl
announce-processed fails false e g = refl

handle-IsRecent :
    (i : EventId) (k : ℕ) (m : LiveMessage) (g : Gateway)
    → IsRecent i k g.processed_event_ids
    → k ≤ 998
    → IsRecent i (k + 1) (handle_live_event m g).processed_event_ids
unfolding handle_live_event
handle-IsRecent i k m g (older, newer, e, few) small =
    elim (Bool-cases (has_id (id_of m) g.processed_event_ids)) [
      | inl dup ↦ rw (dup, handle_live_event) (older, newer, e, omega arith)
      | inr new ↦
          rw
            (
              new,
              handle_live_event,
              announce-processed m.fails (announces_payment m.routing_key m.content)
                  (sse_event (id_of m) m.routing_key m.content m.headers) (remember (id_of m) g),
            )
            (push-IsRecent i (id_of m) k g.processed_event_ids (older, newer, e, few) small)
    ]

-- The messages, one after another.
abbrev pub handle_all : List LiveMessage → Gateway → Gateway
handle_all [] g = g
handle_all (m ∷ r) g = handle_all r (handle_live_event m g)

handle_all-IsRecent :
    (i : EventId) (k : ℕ) (ms : List LiveMessage) (g : Gateway)
    → IsRecent i k g.processed_event_ids
    → k + length ms ≤ 999
    → IsRecent i 999 (handle_all ms g).processed_event_ids
handle_all-IsRecent i k [] g (older, newer, e, few) small = (older, newer, e, omega arith)
handle_all-IsRecent i k (m ∷ r) g h small =
    handle_all-IsRecent i (k + 1) r (handle_live_event m g)
      (handle-IsRecent i k m g h (omega arith)) (omega arith)

has_id-behind : (i : EventId) (older newer : List EventId) → has_id i (older ++ (i ∷ newer)) ≡ true
has_id-behind i [] newer = rw (same_id_refl i) refl
has_id-behind i (o ∷ older) newer = ground (arith, has_id-behind i older newer)

last-IsRecent : (i : EventId) (ids : List EventId) → IsRecent i 0 (push_bounded 1000 i ids)
last-IsRecent i [] = ([], [], refl, omega arith)
last-IsRecent i (o ∷ ids) = elim (Bool-cases (ltb 1000 (length ((o ∷ ids) ++ (i ∷ []))))) [
  | inl full ↦ rw full (ids, [], refl, omega arith)
  | inr fits ↦ rw fits (o ∷ ids, [], refl, omega arith)
]

new-IsRecent :
    (m : LiveMessage) (g : Gateway)
    → has_id (id_of m) g.processed_event_ids ≡ false
    → IsRecent (id_of m) 0 (handle_live_event m g).processed_event_ids
unfolding handle_live_event
new-IsRecent m g new =
    rw
      (
        new,
        handle_live_event,
        announce-processed m.fails (announces_payment m.routing_key m.content)
            (sse_event (id_of m) m.routing_key m.content m.headers) (remember (id_of m) g),
      )
      (last-IsRecent (id_of m) g.processed_event_ids)

-- A message whose id was new is the last one with that id that does anything, as long as at most 999
-- messages come in between: a message that repeats the id changes neither the clients, nor the buffer,
-- nor the counters.
pub repeated_id_is_ignored :
    (m again : LiveMessage) (between : List LiveMessage) (g : Gateway)
    → has_id (id_of m) g.processed_event_ids ≡ false
    → id_of again ≡ id_of m
    → length between ≤ 999
    → handle_live_event again (handle_all between (handle_live_event m g))
      ≡ handle_all between (handle_live_event m g)
unfolding handle_live_event
repeated_id_is_ignored m again between g new same few =
    let after = handle_all between (handle_live_event m g) in
    let (older, newer, e, n) =
      handle_all-IsRecent (id_of m) 0 between (handle_live_event m g) (new-IsRecent m g new)
        (omega arith) in
    let seen : has_id (id_of again) after.processed_event_ids ≡ true =
      rw (same, e) (has_id-behind (id_of m) older newer) in
    rw (seen, handle_live_event) refl
