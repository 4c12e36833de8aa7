-- ===== src/Payment/Tests.antt =====
-- The ledger client on the book of Ledger.Tests, where account 1001 transfers 300 to account 1002.
use vault_core.Prelude.{◌==◌, if◌then◌else◌, Bool-cases, ℕ, ◌≡◌, refl, inl, inr, false}
use vault_core.Ledger.Tests.{lists, pending_book, request}
use vault_core.Payment.Client.{Delivery, replied, reply_lost, not_delivered, record_double_entry}
use vault_core.Payment.Network.{is_lost, OnceOrNever, record_double_entry-OnceOrNever}

-- The first reply is lost, the others arrive.
abbrev lossy : ℕ → Delivery
lossy n = if n == 0 then reply_lost "timed out" else replied

-- The first two requests do not arrive.
abbrev late : ℕ → Delivery
late n = if n == 2 then replied else not_delivered "refused"

late_is_safe : (n : ℕ) → is_lost (late n) ≡ false
late_is_safe n = elim (Bool-cases (n == 2)) [ inl x ↦ rw x refl | inr x ↦ rw x refl ]

record_double_entry-OnceOrNever_example :
    OnceOrNever lists
      (request 1002)
      pending_book
      (record_double_entry lists (request 1002) late pending_book)
record_double_entry-OnceOrNever_example =
    record_double_entry-OnceOrNever lists (request 1002) late pending_book late_is_safe
