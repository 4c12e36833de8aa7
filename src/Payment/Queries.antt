-- ===== src/Payment/Queries.antt =====
-- Which payments a user may see: `getPaymentByReference` of
-- services/payment-service/src/services/paymentService.js, and `buildTransactionWhereClause` of
-- repositories/paymentRepository.js, as the test that Prisma makes of a row. The search in the text of
-- a reference id is a parameter.
use vault_core.Prelude.{
  leb, ◌==◌, if◌then◌else◌, ℕ, ◌≡◌, Bool, true, false, not, ◌&&◌, ◌||◌, Option, none, some, List,
  [], ◌∷◌, arith,
}
use vault_core.Result.{Result, ok, ◌>>=◌, ◌>>◌, or_throw, throw_if}
use vault_core.Ledger.Model.{
  TransactionStatus, pending, processing, completed, failed, reversed, Category, deposit,
  withdrawal, transfer,
}
use vault_core.Ledger.Service.{is_staff}
use vault_core.Payment.Transfer.{UserContext}

-- The account of one side, as it is selected.
pub record Side : Type 0 where
  pub account_number : ℕ
  pub user_id : ℕ
  pub is_deleted : Bool

-- A transaction with its two sides; `month` is that of `createdAt`.
pub record TransactionView : Type 0 where
  pub reference_id : Option ℕ
  pub source_account : Option Side
  pub target_account : Option Side
  pub amount : ℕ
  pub status : TransactionStatus
  pub category : Category
  pub created_at : ℕ
  pub month : ℕ

pub record Filters : Type 0 where
  pub status : Option TransactionStatus
  pub category : Option Category
  pub start_date : Option ℕ
  pub end_date : Option ℕ
  pub min_amount : Option ℕ
  pub max_amount : Option ℕ
  pub reference_id : Option ℕ
  pub account_number : Option ℕ
  pub user_id : Option ℕ

abbrev pub same_status : TransactionStatus → TransactionStatus → Bool
same_status pending pending = true
same_status processing processing = true
same_status completed completed = true
same_status failed failed = true
same_status reversed reversed = true
same_status _ _ = false

abbrev pub same_category : Category → Category → Bool
same_category deposit deposit = true
same_category withdrawal withdrawal = true
same_category transfer transfer = true
same_category _ _ = false

-- A test that an absent filter does not make.
abbrev pub when_given : {X : Type 0} → Option X → (X → Bool) → Bool
when_given none p = true
when_given (some x) p = p x

-- A test of an optional row: `{ sourceAccount: { … } }`, `tx.sourceAccount?.… === …`.
abbrev pub at_side : Option Side → (Side → Bool) → Bool
at_side none p = false
at_side (some a) p = p a

abbrev pub either_side : TransactionView → (Side → Bool) → Bool
either_side t p = at_side t.source_account p || at_side t.target_account p

-- `{ userId, deletedAt: null }`
abbrev pub owned_by : ℕ → Side → Bool
owned_by user a = a.user_id == user && not a.is_deleted

abbrev pub in_scope : UserContext → Filters → TransactionView → Bool
in_scope user f t =
    if not (is_staff user.role)
    then either_side t (owned_by user.user_id)
    else when_given f.user_id (λ u. either_side t (owned_by u))

-- `contains` is the search for one reference id in another.
unfoldable pub matches_where :
    (ℕ → Option ℕ → Bool) → UserContext → Filters → TransactionView → Bool
matches_where contains user f t =
    in_scope user f t
    && (when_given f.account_number (λ n. either_side t (λ a. a.account_number == n))
        && (when_given f.status (λ s. same_status t.status s)
            && (when_given f.category (λ c. same_category t.category c)
                && (when_given f.min_amount (λ n. leb n t.amount)
                    && (when_given f.max_amount (λ n. leb t.amount n)
                        && (when_given f.start_date (λ d. leb d t.created_at)
                            && (when_given f.end_date (λ d. leb t.created_at d)
                                && when_given f.reference_id (λ r. contains r t.reference_id))))))))

-- The rows that pass.
abbrev pub select_where : {X : Type 0} → (X → Bool) → List X → List X
select_where p [] = []
select_where p (x ∷ r) = let rest = select_where p r in if p x then x ∷ rest else rest

pub data LookupError : Type 0 where
  payment_not_found : ℕ → LookupError
  not_a_party : LookupError

-- `isSender || isReceiver`
abbrev pub is_party : ℕ → TransactionView → Bool
is_party user t = either_side t (λ a. a.user_id == user)

-- `found` is the row that `findByReferenceId` gives.
unfoldable pub get_payment_by_reference :
    ℕ → Option TransactionView → UserContext → Result LookupError TransactionView
get_payment_by_reference reference found user = do
  t ← or_throw found (payment_not_found reference)
  throw_if (not (is_party user.user_id t) && not (is_staff user.role)) not_a_party
  ok t

owned-party :
    (user : ℕ) (a : Option Side)
    → at_side a (owned_by user) ≡ true
    → at_side a (λ s. s.user_id == user) ≡ true
owned-party user none h = h
owned-party user (some a) h = ground arith

-- A customer sees only payments of his own, whatever filters he sends: a row that passes the where
-- clause of the history, the search or the summary is one that `getPaymentByReference` gives to him
-- too.
pub where_is_scoped :
    (contains : ℕ → Option ℕ → Bool) (user : UserContext) (f : Filters) (t : TransactionView)
    (reference : ℕ)
    → matches_where contains user f t ≡ true
    → get_payment_by_reference reference (some t) user ≡ ok t
unfolding matches_where get_payment_by_reference
where_is_scoped contains user f t reference h =
    ground
      (arith, owned-party user.user_id t.source_account, owned-party user.user_id t.target_account)
