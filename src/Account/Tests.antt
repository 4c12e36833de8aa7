-- ===== src/Account/Tests.antt =====
-- The account service on the book of Ledger.Tests, with a Redis that is two functions.
use vault_core.Prelude.{
  ◌==◌, if◌then◌else◌, ℕ, ◌+◌, ◌≡◌, refl, true, false, Option, none, some, List, [], ◌∷◌, arith,
}
use vault_core.Result.{ok}
use vault_core.Table.Rows.{lookup}
use vault_core.Table.{Table}
use vault_core.Table.Lists.{first_row, Rows, list_table}
use vault_core.Ledger.Model.{Account}
use vault_core.Ledger.Reads.{find_account}
use vault_core.Ledger.Tests.{lists, account, one_row-Distinct, pending_book, request, moved}
use vault_core.Ledger.Service.{customer, teller}
use vault_core.Account.Users.{User, find_by_id}
use vault_core.Account.Redis.{BalanceData, Details, balance_key, details_key, has_key, AccountRedis}
use vault_core.Account.Cache.{AccountCache, invalidate_accounts}
use vault_core.Account.Service.{
  NewAccount, CreateEnv, balance_payload, balance_reply, is_taken, create_account, load_details,
  get_account_details, get_account_balance,
}
use vault_core.Account.Reads.{direct_details, direct_balance}
use vault_core.Account.Create.{first_free, opened, create_account_lem}
use vault_core.Account.Histories.{
  World, read_balance, post_transfer, Reach, here, next, IsCurrent, Reach-reads,
}
use vault_core.Account.Stale
use vault_core.Account.Stale.{nothing, balance_from_details, late_store_is_stale}
use vault_core.Account.Listing.{total_pages, get_user_accounts, pages_until, pages_are_complete}

abbrev KeyFns : Type 0
KeyFns = (ℕ → Option BalanceData) × (ℕ → Option Details)

abbrev put : {X : Type 0} → (ℕ → Option X) → ℕ → X → ℕ → Option X
put f n x m = if n == m then some x else f m

abbrev two_functions : AccountRedis
two_functions = record {
  State = KeyFns;
  balance = λ s. s.0;
  details = λ s. s.1;
  attempt = λ s. (true, s);
  set_balance = λ s n b ttl. (put s.0 n b, s.1);
  set_details = λ s n d ttl. (s.0, put s.1 n d);
  del = λ s ks. (
    0,
    (
      λ m. if has_key (balance_key m) ks then none else s.0 m,
      λ m. if has_key (details_key m) ks then none else s.1 m,
    ),
  );
  balance-attempt = λ s n. refl;
  details-attempt = λ s n. refl;
  balance-set_balance = λ s n b ttl m. refl;
  details-set_balance = λ s n b ttl m. refl;
  details-set_details = λ s n d ttl m. refl;
  balance-set_details = λ s n d ttl m. refl;
  balance-del = λ s ks n. refl;
  details-del = λ s ks n. refl;
}

abbrev nothing_cached : AccountCache two_functions
nothing_cached = record {
  store = (λ n. none, λ n. none);
  metrics = record {
    hits = 0;
    misses = 0;
    invalidations = 0;
    sets = 0;
    write_latency_total_ms = 0;
  };
}

abbrev alice : User
alice = record {
  email = 70;
  password_hash = "hash";
  first_name = "Alice";
  last_name = "A";
  role = customer;
  is_active = true;
  is_deleted = false;
}

abbrev users : Rows User
users = ((11, alice) ∷ [], one_row-Distinct 11 alice)

abbrev user_table : Table User
user_table = list_table

found_alice : find_by_id user_table 11 users ≡ some alice
unfolding find_by_id lookup
found_alice = refl

-- The first two numbers are taken.
abbrev counting : CreateEnv
counting = record { numbers = λ k. 1000 + k; create_error = λ k. none }

abbrev in_euro : NewAccount
in_euro = record { currency = some "EUR"; initial_deposit = none }

third_is_free :
    first_free two_functions lists user_table counting.numbers 4 1 pending_book ≡ some 1003
unfolding first_free is_taken first_row
third_is_free = refl

create_account_lem_example :
    create_account two_functions lists user_table counting 11 in_euro users pending_book
    ≡ opened two_functions lists user_table 11 in_euro
        (first_free two_functions lists user_table counting.numbers 4 1 pending_book)
        pending_book
create_account_lem_example =
    create_account_lem two_functions lists user_table counting 11 in_euro users pending_book alice
      found_alice (λ k. refl)

abbrev W : Type 0
W = World two_functions lists user_table

abbrev start : W
start = record { db = pending_book; cache = nothing_cached }

start-IsCurrent : IsCurrent two_functions lists user_table start
unfolding lookup
start-IsCurrent = record {
  numbers = record { same_id = λ i j a b p q n. ground arith };
  coherent = record {
    details_row = λ n d h. absurd (ground arith);
    balance_row = λ n b h. absurd (ground arith);
  };
}

-- The balance is read by its owner.
abbrev seen : W
seen = record start {
  cache =
      (get_account_balance two_functions lists user_table 3 1001 11 customer pending_book
        nothing_cached).1;
}

-- A transfer to account 1002.
abbrev sent_on : W
sent_on = record {
  db = moved;
  cache = invalidate_accounts two_functions (1001 ∷ 1002 ∷ []) seen.cache;
}

start-Reach : Reach two_functions lists user_table start sent_on
start-Reach =
    next (next here (read_balance 3 1001 11 customer refl)) (post_transfer (request 1002) refl refl)

Reach-reads_example :
    ((get_account_details two_functions lists user_table 3 1001 11 customer moved sent_on.cache).0
      ≡ direct_details two_functions lists user_table 1001 11 customer moved)
    × ((get_account_balance two_functions lists user_table 3 1001 11 customer moved sent_on.cache).0
        ≡ direct_balance two_functions lists user_table 1001 11 customer moved)
Reach-reads_example =
    Reach-reads two_functions lists user_table start sent_on 3 1001 11 customer start-Reach
      start-IsCurrent

abbrev old_details : Details
old_details = (1, account 1001 11 1000)

-- The details are cached, and the balance has expired.
abbrev half_expired : AccountCache two_functions
half_expired = record nothing_cached { store = (λ n. none, put (λ n. none) 1001 old_details) }

balance_from_details_example :
    ((get_account_balance two_functions lists user_table 3 1001 11 customer moved half_expired).0
      ≡ ok (balance_reply (balance_payload old_details.1)))
    × (two_functions.balance
          (get_account_balance two_functions lists user_table 3 1001 11 customer moved
            half_expired).1.store
          1001
        ≡ some (balance_payload old_details.1))
balance_from_details_example =
    balance_from_details two_functions lists user_table 3 1001 11 customer old_details moved
      half_expired (λ st. refl) refl refl refl

found_before : find_account lists 1001 pending_book ≡ some old_details
unfolding find_account first_row
found_before = refl

abbrev stale_cache : AccountCache two_functions
stale_cache =
    (load_details two_functions lists user_table 3 1001 11 customer pending_book
      (invalidate_accounts two_functions (1001 ∷ 1002 ∷ []) nothing_cached)).1

late_store_is_stale_example :
    (get_account_details two_functions lists user_table 3 1001 9 teller moved
      (get_account_balance two_functions lists user_table 3 1002 9 teller moved stale_cache).1).0
    ≡ ok old_details
late_store_is_stale_example =
    late_store_is_stale two_functions lists user_table 3 1001 11 9 customer teller old_details
      pending_book moved (1001 ∷ 1002 ∷ []) nothing_cached
      (get_account_balance two_functions lists user_table 3 1002 9 teller moved stale_cache).1
      (λ st. refl) found_before refl refl (Stale.read_balance 3 1002 9 teller moved nothing)

abbrev five : List Account
five = account 1 11 10 ∷ account 2 11 20 ∷ account 3 11 30 ∷ account 4 11 40 ∷ account 5 11 50 ∷ []

-- Five accounts in pages of two are three pages.
three_pages : (get_user_accounts customer 1 2 [] five).total_pages ≡ 3
unfolding get_user_accounts total_pages
three_pages = refl

pages_are_complete_example :
    pages_until (get_user_accounts customer 1 2 [] five).total_pages customer 2 [] five ≡ five
pages_are_complete_example = pages_are_complete customer 1 2 [] five (omega arith)
