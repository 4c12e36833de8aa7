-- ===== src/Payment/QueryTests.antt =====
-- The summary and the lookup of a customer with two accounts.
use vault_core.Prelude.{ℕ, ◌+◌, ◌≡◌, refl, true, false, Option, none, some, List, [], ◌∷◌}
use vault_core.Result.{ok}
use vault_core.Ledger.Model.{TransactionStatus, completed, failed, transfer}
use vault_core.Ledger.Service.{customer}
use vault_core.Payment.Transfer.{UserContext}
use vault_core.Payment.Queries.{
  Side, TransactionView, Filters, matches_where, get_payment_by_reference, where_is_scoped,
}
use vault_core.Payment.Summary.{Summary, add_all, only, get_financial_summary}
use vault_core.Payment.SummaryTotals.{
  sum_of, internal_amount, outside_amount, selected, months_add_up,
}

abbrev side : ℕ → ℕ → Side
side n user = record { account_number = n; user_id = user; is_deleted = false }

abbrev view : ℕ → Option Side → Option Side → TransactionStatus → TransactionView
view n from to status = record {
  reference_id = some n;
  source_account = from;
  target_account = to;
  amount = 300;
  status = status;
  category = transfer;
  created_at = 100 + n;
  month = n;
}

-- A payment to another customer, one between the own accounts, one that failed, and one of others.
abbrev rows : List TransactionView
rows =
    view 9 (some (side 1001 11)) (some (side 1002 12)) completed
    ∷ view 8 (some (side 1001 11)) (some (side 1003 11)) completed
    ∷ view 8 (some (side 1001 11)) (some (side 1002 12)) failed
    ∷ view 7 (some (side 1002 12)) (some (side 1004 13)) completed
    ∷ []

abbrev customer_11 : UserContext
customer_11 = record { user_id = 11; role = customer }

abbrev summary : Summary
summary = get_financial_summary customer_11 none none none rows

summary_test :
    (summary.total_sent ≡ 600)
    × (summary.total_received ≡ 300)
    × (summary.total_volume ≡ 900)
    × (summary.total_failed ≡ 1)
    × (summary.total_transactions ≡ 3)
unfolding get_financial_summary matches_where add_all
summary_test = (refl, refl, refl, refl, refl)

months_add_up_example :
    (sum_of (λ m. m.sent) summary.monthly_volume ≡ summary.total_sent)
    × (sum_of (λ m. m.received) summary.monthly_volume ≡ summary.total_received)
    × (sum_of (λ m. m.count) summary.monthly_volume ≡ summary.total_successful)
    × (summary.total_volume
          + outside_amount customer_11 none (selected customer_11 none none none rows)
        ≡ sum_of (λ m. m.total) summary.monthly_volume
          + internal_amount customer_11 none (selected customer_11 none none none rows))
months_add_up_example = months_add_up customer_11 none none none rows

abbrev of_user_12 : Filters
of_user_12 = record (only none none none) { user_id = some 12 }

passes :
    matches_where
      (λ r s. true)
      customer_11
      of_user_12
      (view 9 (some (side 1001 11)) (some (side 1002 12)) completed)
    ≡ true
unfolding matches_where
passes = refl

where_is_scoped_example :
    get_payment_by_reference 9
      (some (view 9 (some (side 1001 11)) (some (side 1002 12)) completed))
      customer_11
    ≡ ok (view 9 (some (side 1001 11)) (some (side 1002 12)) completed)
where_is_scoped_example =
    where_is_scoped (λ r s. true) customer_11 of_user_12
      (view 9 (some (side 1001 11)) (some (side 1002 12)) completed) 9 passes
