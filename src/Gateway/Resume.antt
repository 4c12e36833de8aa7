-- ===== src/Gateway/Resume.antt =====
-- A browser that comes back with the id of the last event that it has seen.
use vault_core.Prelude.{
  ltb, Bool-cases, length, length-append, ℕ, ◌+◌, ◌≤◌, ◌≡◌, refl, ap, inl, inr, Bool, true, false,
  ◌||◌, some, List, [], ◌∷◌, ◌++◌, arith,
}
use vault_core.Gateway.Events.{
  EventId, same_id, SseEvent, Gateway, push_bounded, broadcast_sse_event, events_after,
  connect_stream,
}
use vault_core.Gateway.Window.{same_id_refl, append_behind}

-- Each event with the clients whose connection fails at it.
abbrev pub Broadcasts : Type 0
Broadcasts = List ((ℕ → Bool) × SseEvent)

abbrev pub broadcast_all : Broadcasts → Gateway → Gateway
broadcast_all [] g = g
broadcast_all ((fails, e) ∷ r) g = broadcast_all r (broadcast_sse_event fails e g)

abbrev pub events_of : Broadcasts → List SseEvent
events_of [] = []
events_of ((fails, e) ∷ r) = e ∷ events_of r

abbrev pub has_event : EventId → List SseEvent → Bool
has_event id [] = false
has_event id (e ∷ r) = same_id e.event_id id || has_event id r

-- The buffer ends with the event of this id, the first one with it, and then these.
abbrev EndsWith : EventId → List SseEvent → List SseEvent → Type 0
EndsWith id later buffer =
    (older : List SseEvent) × (e : SseEvent) × (buffer ≡ older ++ (e ∷ later))
    × (e.event_id ≡ id)
    × (has_event id older ≡ false)

pushed-EndsWith :
    (id : EventId) (older later : List SseEvent) (e y : SseEvent)
    → e.event_id ≡ id
    → has_event id older ≡ false
    → length later ≤ 98
    → EndsWith id (later ++ (y ∷ [])) (push_bounded 100 y (older ++ (e ∷ later)))
pushed-EndsWith id [] later e y same new few =
    let size = length-append later (y ∷ []) in
    let fits : ltb 100 (length (e ∷ (later ++ (y ∷ [])))) ≡ false = ground (arith, size) in
    rw fits ([], e, refl, same, refl)
pushed-EndsWith id (o ∷ older) later e y same new few =
    let step = append_behind older later e y in
    elim (Bool-cases (ltb 100 (length (o ∷ ((older ++ (e ∷ later)) ++ (y ∷ [])))))) [
      | inl full ↦ rw full (older, e, step, same, ground (arith, new))
      | inr fits ↦ rw fits (o ∷ older, e, ap (λ r. o ∷ r) step, same, new)
    ]

broadcast-EndsWith :
    (id : EventId) (later : List SseEvent) (fails : ℕ → Bool) (y : SseEvent) (g : Gateway)
    → EndsWith id later g.recent_event_buffer
    → length later ≤ 98
    → EndsWith id (later ++ (y ∷ [])) (broadcast_sse_event fails y g).recent_event_buffer
unfolding broadcast_sse_event
broadcast-EndsWith id later fails y g (older, e, h, same, new) few =
    rw h (pushed-EndsWith id older later e y same new few)

append_one : {X : Type 0} (xs ys : List X) (y : X) → (xs ++ (y ∷ [])) ++ ys ≡ xs ++ (y ∷ ys)
append_one [] ys y = refl
append_one (x ∷ xs) ys y = ap (λ r. x ∷ r) (append_one xs ys y)

append_nil : {X : Type 0} (xs : List X) → xs ++ [] ≡ xs
append_nil [] = refl
append_nil (x ∷ xs) = ap (λ r. x ∷ r) (append_nil xs)

broadcast_all-EndsWith :
    (id : EventId) (later : List SseEvent) (bs : Broadcasts) (g : Gateway)
    → EndsWith id later g.recent_event_buffer
    → length later + length bs ≤ 99
    → EndsWith id (later ++ events_of bs) (broadcast_all bs g).recent_event_buffer
broadcast_all-EndsWith id later [] g (older, e, h, same, new) few =
    (older, e, rw (append_nil later) h, same, new)
broadcast_all-EndsWith id later ((fails, y) ∷ r) g h few = rw (← append_one later (events_of r) y) (
    broadcast_all-EndsWith id (later ++ (y ∷ [])) r (broadcast_sse_event fails y g)
      (broadcast-EndsWith id later fails y g h (omega arith))
      (omega (arith, length-append later (y ∷ []))))

events_after_lem :
    (id : EventId) (older later : List SseEvent) (e : SseEvent)
    → e.event_id ≡ id
    → has_event id older ≡ false
    → events_after id (older ++ (e ∷ later)) ≡ later
events_after_lem id [] later e same new =
    let here : same_id e.event_id id ≡ true = rw same (same_id_refl id) in rw here refl
events_after_lem id (o ∷ older) later e same new = elim (Bool-cases (same_id o.event_id id)) [
  | inl x ↦ absurd (ground arith)
  | inr x ↦ rw x (events_after_lem id older later e same (ground arith))
]

pushed_last-EndsWith :
    (e : SseEvent) (buffer : List SseEvent)
    → has_event e.event_id buffer ≡ false
    → EndsWith e.event_id [] (push_bounded 100 e buffer)
pushed_last-EndsWith e [] new = ([], e, refl, refl, refl)
pushed_last-EndsWith e (o ∷ buffer) new =
    elim (Bool-cases (ltb 100 (length ((o ∷ buffer) ++ (e ∷ []))))) [
      | inl full ↦ rw full (buffer, e, refl, refl, ground (arith, new))
      | inr fits ↦ rw fits (o ∷ buffer, e, refl, refl, new)
    ]

first-EndsWith :
    (fails : ℕ → Bool) (e : SseEvent) (g : Gateway)
    → has_event e.event_id g.recent_event_buffer ≡ false
    → EndsWith e.event_id [] (broadcast_sse_event fails e g).recent_event_buffer
unfolding broadcast_sse_event
first-EndsWith fails e g new = pushed_last-EndsWith e g.recent_event_buffer new

-- A browser whose last event had an id that was new then, and that comes back after at most 99 further
-- broadcasts, is sent exactly these, in their order, before it joins the clients again.
pub resume_sends_missed :
    (client : ℕ) (fails : ℕ → Bool) (e : SseEvent) (bs : Broadcasts) (g : Gateway)
    → has_event e.event_id g.recent_event_buffer ≡ false
    → length bs ≤ 99
    → let g' = broadcast_all bs (broadcast_sse_event fails e g) in
      (connect_stream client (some e.event_id) g').sse_clients
      ≡ g'.sse_clients ++ (record { client_id = client; received = events_of bs } ∷ [])
unfolding connect_stream
resume_sends_missed client fails e bs g new few =
    let g' = broadcast_all bs (broadcast_sse_event fails e g) in
    let (older, x, h, same, first) =
      broadcast_all-EndsWith e.event_id [] bs (broadcast_sse_event fails e g)
        (first-EndsWith fails e g new) (omega arith) in
    let missed : events_after e.event_id g'.recent_event_buffer ≡ events_of bs =
      rw h (events_after_lem e.event_id older (events_of bs) x same first) in
    rw (missed, connect_stream) refl
