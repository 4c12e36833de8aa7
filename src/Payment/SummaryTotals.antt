-- ===== src/Payment/SummaryTotals.antt =====
-- The totals of the financial summary against its months.
use vault_core.Prelude.{
  ltb, ◌==◌, Bool-cases, ℕ, ◌+◌, ◌≡◌, refl, ◌∙◌, inl, inr, Bool, true, false, Option, List, [], ◌∷◌,
  arith,
}
use vault_core.Ledger.Model.{TransactionStatus, pending, processing, completed, failed, reversed}
use vault_core.Payment.Transfer.{UserContext}
use vault_core.Payment.Queries.{TransactionView, matches_where, select_where}
use vault_core.Payment.Summary.{
  Month, Totals, is_sender, is_receiver, new_month, or_zero, add_to_month, change_month,
  add_completed, add_by_status, add_all, insert_month, sort_months, nothing_yet, only,
  get_financial_summary,
}

abbrev pub sum_of : (Month → ℕ) → List Month → ℕ
sum_of g [] = 0
sum_of g (m ∷ r) = g m + sum_of g r

sum_of-change_month :
    (g : Month → ℕ) (k d : ℕ) (f : Month → Month) (ms : List Month)
    → ((m : Month) → g (f m) ≡ g m + d)
    → g (new_month k) ≡ 0
    → sum_of g (change_month k f ms) ≡ sum_of g ms + d
sum_of-change_month g k d f [] adds zero_new = omega (arith, adds (new_month k), zero_new)
sum_of-change_month g k d f (m ∷ r) adds zero_new = elim (Bool-cases (m.month == k)) [
  | inl x ↦ rw x (omega (arith, adds m))
  | inr x ↦ rw x (omega (arith, sum_of-change_month g k d f r adds zero_new))
]

sum_of-insert_month :
    (g : Month → ℕ) (m : Month) (ms : List Month) → sum_of g (insert_month m ms) ≡ g m + sum_of g ms
sum_of-insert_month g m [] = refl
sum_of-insert_month g m (x ∷ r) = elim (Bool-cases (ltb m.month x.month)) [
  | inl y ↦ rw y (omega (arith, sum_of-insert_month g m r))
  | inr y ↦ rw y refl
]

sum_of-sort_months : (g : Month → ℕ) (ms : List Month) → sum_of g (sort_months ms) ≡ sum_of g ms
sum_of-sort_months g [] = refl
sum_of-sort_months g (m ∷ r) =
    omega (arith, sum_of-insert_month g m (sort_months r), sum_of-sort_months g r)

-- What a COMPLETED transaction with both sides, and with neither, contributes.
abbrev pub both_sides : Bool → Bool → ℕ → ℕ
both_sides true true a = a
both_sides _ _ a = 0

abbrev pub no_side : Bool → Bool → ℕ → ℕ
no_side false false a = a
no_side _ _ a = 0

abbrev pub if_completed : TransactionStatus → ℕ → ℕ
if_completed completed a = a
if_completed _ a = 0

abbrev pub internal_amount : UserContext → Option ℕ → List TransactionView → ℕ
internal_amount user account [] = 0
internal_amount user account (t ∷ r) =
    if_completed t.status
      (both_sides (is_sender user account t) (is_receiver user account t) t.amount)
    + internal_amount user account r

abbrev pub outside_amount : UserContext → Option ℕ → List TransactionView → ℕ
outside_amount user account [] = 0
outside_amount user account (t ∷ r) =
    if_completed t.status (no_side (is_sender user account t) (is_receiver user account t) t.amount)
    + outside_amount user account r

record Balanced (twice never : ℕ) (s : Totals) : Type 0 where
  sent_adds : sum_of (λ m. m.sent) s.months ≡ s.sent
  received_adds : sum_of (λ m. m.received) s.months ≡ s.received
  counts_add : sum_of (λ m. m.count) s.months ≡ s.successful
  volume : s.sent + s.received + never ≡ sum_of (λ m. m.total) s.months + twice

completed-Balanced :
    (sends receives : Bool) (t : TransactionView) (twice never : ℕ) (s : Totals)
    → Balanced twice never s
    → Balanced
        (twice + both_sides sends receives t.amount)
        (never + no_side sends receives t.amount)
        (add_completed sends receives t s)
completed-Balanced sends receives t twice never s h =
    let f = add_to_month sends receives t.amount in
    let sent =
      sum_of-change_month (λ m. m.sent) t.month (or_zero sends t.amount) f s.months (λ m. refl)
        refl in
    let received =
      sum_of-change_month (λ m. m.received) t.month (or_zero receives t.amount) f s.months
        (λ m. refl) refl in
    let count = sum_of-change_month (λ m. m.count) t.month 1 f s.months (λ m. refl) refl in
    let total = sum_of-change_month (λ m. m.total) t.month t.amount f s.months (λ m. refl) refl in
    record {
      sent_adds = ground (arith, sent, h.sent_adds);
      received_adds = ground (arith, received, h.received_adds);
      counts_add = ground (arith, count, h.counts_add);
      volume = ground (arith, total, h.volume);
    }

kept-Balanced :
    (twice never failures : ℕ) (s : Totals)
    → Balanced twice never s
    → Balanced (twice + 0) (never + 0) (record s { failures = failures })
kept-Balanced twice never failures s h = record {
  sent_adds = h.sent_adds;
  received_adds = h.received_adds;
  counts_add = h.counts_add;
  volume = omega (arith, h.volume);
}

status-Balanced :
    (status : TransactionStatus) (sends receives : Bool) (t : TransactionView) (twice never : ℕ)
    (s : Totals)
    → Balanced twice never s
    → Balanced
        (twice + if_completed status (both_sides sends receives t.amount))
        (never + if_completed status (no_side sends receives t.amount))
        (add_by_status status sends receives t s)
status-Balanced completed sends receives t twice never s h =
    completed-Balanced sends receives t twice never s h
status-Balanced failed sends receives t twice never s h =
    kept-Balanced twice never (s.failures + 1) s h
status-Balanced pending sends receives t twice never s h = kept-Balanced twice never s.failures s h
status-Balanced processing sends receives t twice never s h =
    kept-Balanced twice never s.failures s h
status-Balanced reversed sends receives t twice never s h = kept-Balanced twice never s.failures s h

add_all-Balanced :
    (user : UserContext) (account : Option ℕ) (rows : List TransactionView) (twice never : ℕ)
    (s : Totals)
    → Balanced twice never s
    → Balanced
        (twice + internal_amount user account rows)
        (never + outside_amount user account rows)
        (add_all user account rows s)
unfolding add_all
add_all-Balanced user account [] twice never s h = kept-Balanced twice never s.failures s h
add_all-Balanced user account (t ∷ r) twice never s h =
    let sends = is_sender user account t in
    let receives = is_receiver user account t in
    let k =
      add_all-Balanced user account r _ _ _
        (status-Balanced t.status sends receives t twice never s h) in
    record {
      sent_adds = k.sent_adds;
      received_adds = k.received_adds;
      counts_add = k.counts_add;
      volume = omega (arith, k.volume);
    }

-- The transactions that a summary is about.
abbrev pub selected :
    UserContext → Option ℕ → Option ℕ → Option ℕ → List TransactionView → List TransactionView
selected user start_date end_date account rows =
    select_where (matches_where (λ r s. true) user (only start_date end_date account)) rows

-- The months of a summary add up to its totals: what was sent, what was received and how many payments
-- succeeded. The total volume is not the sum of the months' totals: it counts a payment between the
-- user's own accounts twice, the month counts it once, and a payment with neither side is in the
-- months alone.
pub months_add_up :
    (user : UserContext) (start_date end_date account : Option ℕ) (rows : List TransactionView)
    → let s = get_financial_summary user start_date end_date account rows in
      let all = selected user start_date end_date account rows in
      (sum_of (λ m. m.sent) s.monthly_volume ≡ s.total_sent)
      × (sum_of (λ m. m.received) s.monthly_volume ≡ s.total_received)
      × (sum_of (λ m. m.count) s.monthly_volume ≡ s.total_successful)
      × (s.total_volume + outside_amount user account all
          ≡ sum_of (λ m. m.total) s.monthly_volume + internal_amount user account all)
unfolding get_financial_summary
months_add_up user start_date end_date account rows =
    let all = selected user start_date end_date account rows in
    let s = add_all user account all nothing_yet in
    let h =
      add_all-Balanced user account all 0 0 nothing_yet
        (record { sent_adds = refl; received_adds = refl; counts_add = refl; volume = refl }) in
    (
      sum_of-sort_months (λ m. m.sent) s.months ∙ h.sent_adds,
      sum_of-sort_months (λ m. m.received) s.months ∙ h.received_adds,
      sum_of-sort_months (λ m. m.count) s.months ∙ h.counts_add,
      omega (arith, sum_of-sort_months (λ m. m.total) s.months, h.volume),
    )
