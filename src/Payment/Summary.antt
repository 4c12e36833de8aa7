-- ===== src/Payment/Summary.antt =====
-- `getFinancialSummary` of services/payment-service/src/repositories/paymentRepository.js. Amounts are
-- in cents, so that no rounding remains; a month is a number in the order of its text.
use vault_core.Prelude.{
  ltb, ◌==◌, if◌then◌else◌, length, ℕ, ◌+◌, Bool, true, false, Option, none, some, List, [], ◌∷◌,
}
use vault_core.Ledger.Service.{is_staff}
use vault_core.Ledger.Model.{TransactionStatus, completed, failed}
use vault_core.Payment.Transfer.{UserContext}
use vault_core.Payment.Queries.{TransactionView, Filters, at_side, matches_where, select_where}

pub record Month : Type 0 where
  pub month : ℕ
  pub sent : ℕ
  pub received : ℕ
  pub total : ℕ
  pub count : ℕ

-- The running totals.
pub record Totals : Type 0 where
  pub sent : ℕ
  pub received : ℕ
  pub successful : ℕ
  pub failures : ℕ
  pub months : List Month

pub record Summary : Type 0 where
  pub total_sent : ℕ
  pub total_received : ℕ
  pub total_volume : ℕ
  pub total_successful : ℕ
  pub total_failed : ℕ
  pub total_transactions : ℕ
  pub last_transaction_at : Option ℕ
  pub monthly_volume : List Month

abbrev pub staff_sends : Option ℕ → TransactionView → Bool
staff_sends none t = true
staff_sends (some n) t = at_side t.source_account (λ a. a.account_number == n)

abbrev pub staff_receives : Option ℕ → TransactionView → Bool
staff_receives none t = false
staff_receives (some n) t = at_side t.target_account (λ a. a.account_number == n)

abbrev pub is_sender : UserContext → Option ℕ → TransactionView → Bool
is_sender user account t =
    if is_staff user.role
    then staff_sends account t
    else at_side t.source_account (λ a. a.user_id == user.user_id)

abbrev pub is_receiver : UserContext → Option ℕ → TransactionView → Bool
is_receiver user account t =
    if is_staff user.role
    then staff_receives account t
    else at_side t.target_account (λ a. a.user_id == user.user_id)

-- The three branches.
abbrev pub add_amount : Bool → Bool → ℕ → Totals → Totals
add_amount true false a s = record s { sent = s.sent + a }
add_amount false true a s = record s { received = s.received + a }
add_amount true true a s = record s { sent = s.sent + a; received = s.received + a }
add_amount false false a s = s

abbrev pub new_month : ℕ → Month
new_month m = record { month = m; sent = 0; received = 0; total = 0; count = 0 }

abbrev pub or_zero : Bool → ℕ → ℕ
or_zero true a = a
or_zero false a = 0

abbrev pub add_to_month : Bool → Bool → ℕ → Month → Month
add_to_month sends receives a m = record m {
  count = m.count + 1;
  sent = m.sent + or_zero sends a;
  received = m.received + or_zero receives a;
  total = m.total + a;
}

-- The entry of a month in the map, a new one where it has none.
abbrev pub change_month : ℕ → (Month → Month) → List Month → List Month
change_month k f [] = f (new_month k) ∷ []
change_month k f (m ∷ r) =
    let rest = change_month k f r in if m.month == k then f m ∷ r else m ∷ rest

abbrev pub add_completed : Bool → Bool → TransactionView → Totals → Totals
add_completed sends receives t s = add_amount sends receives t.amount (record s {
  successful = s.successful + 1;
  months = change_month t.month (add_to_month sends receives t.amount) s.months;
})

abbrev pub add_by_status : TransactionStatus → Bool → Bool → TransactionView → Totals → Totals
add_by_status completed sends receives t s = add_completed sends receives t s
add_by_status failed sends receives t s = record s { failures = s.failures + 1 }
add_by_status _ sends receives t s = s

unfoldable pub add_all : UserContext → Option ℕ → List TransactionView → Totals → Totals
add_all user account [] s = s
add_all user account (t ∷ r) s =
    add_all user account r
      (add_by_status t.status (is_sender user account t) (is_receiver user account t) t s)

-- Newest month first.
abbrev pub insert_month : Month → List Month → List Month
insert_month m [] = m ∷ []
insert_month m (x ∷ r) =
    let rest = insert_month m r in if ltb m.month x.month then x ∷ rest else m ∷ x ∷ r

abbrev pub sort_months : List Month → List Month
sort_months [] = []
sort_months (m ∷ r) = insert_month m (sort_months r)

abbrev pub first_created : List TransactionView → Option ℕ
first_created [] = none
first_created (t ∷ r) = some t.created_at

abbrev pub nothing_yet : Totals
nothing_yet = record { sent = 0; received = 0; successful = 0; failures = 0; months = [] }

abbrev pub only : Option ℕ → Option ℕ → Option ℕ → Filters
only start_date end_date account_number = record {
  status = none;
  category = none;
  start_date = start_date;
  end_date = end_date;
  min_amount = none;
  max_amount = none;
  reference_id = none;
  account_number = account_number;
  user_id = none;
}

-- `rows` are all transactions, newest first.
unfoldable pub get_financial_summary :
    UserContext → Option ℕ → Option ℕ → Option ℕ → List TransactionView → Summary
unfolding matches_where add_all
get_financial_summary user start_date end_date account rows =
    let all =
      select_where (matches_where (λ r s. true) user (only start_date end_date account)) rows in
    let s = add_all user account all nothing_yet in
    record {
      total_sent = s.sent;
      total_received = s.received;
      total_volume = s.sent + s.received;
      total_successful = s.successful;
      total_failed = s.failures;
      total_transactions = length all;
      last_transaction_at = first_created all;
      monthly_volume = sort_months s.months;
    }
