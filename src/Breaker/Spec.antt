-- ===== src/Breaker/Spec.antt =====
-- The abstract machine that a breaker implements: a count of failures while closed, the opening time
-- while open, a count of successes while half-open.
use vault_core.Prelude.{leb, if◌then◌else◌, ℕ, ◌+◌, ◌≡◌, Option, arith}
use vault_core.Breaker.Config.{
  CircuitState, closed, open_state, half_open, Config, Thrown, is_failure,
}
use vault_core.Breaker.State.{Breaker, transition_to}
use vault_core.Breaker.Execute.{opened_or_zero, check_open, Outcome, returned, threw, execute}
use vault_core.Breaker.Counters.{IsValid}

pub data Phase : Type 0 where
  counting : ℕ → Phase
  waiting_since : ℕ → Phase
  probing : ℕ → Phase

unfoldable pub view_state : CircuitState → Breaker → Phase
view_state closed b = counting b.consecutive_failures
view_state open_state b = waiting_since (opened_or_zero b.opened_at)
view_state half_open b = probing b.half_open_success_count

unfoldable pub view : Breaker → Phase
unfolding view_state
view b = view_state b.state b

-- How an action ended, as far as the machine cares.
pub data Verdict : Type 0 where
  success failure client_error : Verdict

unfoldable pub verdict : {A : Type 0} → Outcome A → Verdict
verdict (returned a) = success
verdict (threw e) = if is_failure e then failure else client_error

-- The machine's move when an action settles.
unfoldable pub settled : Config → ℕ → Verdict → Phase → Phase
settled c now success (counting n) = counting 0
settled c now success (probing n) =
    if leb c.success_threshold (n + 1) then counting 0 else probing (n + 1)
settled c now failure (counting n) =
    if leb c.failure_threshold (n + 1) then waiting_since now else counting (n + 1)
settled c now failure (probing n) = waiting_since now
settled c now _ p = p

-- A whole call: a waiting machine lets it pass only when the timeout is over, as the first probe.
unfoldable pub call : Config → ℕ → ℕ → Verdict → Phase → Phase
unfolding settled
call c now later v (waiting_since t) =
    if leb (t + c.open_timeout_ms) now then settled c later v (probing 0) else waiting_since t
call c now later v p = settled c later v p

-- A call of a breaker with valid counters is a call of the abstract machine.
pub view-execute :
    {A : Type 0} (now later : ℕ) (fallback : Option (Thrown → Outcome A)) (action : Outcome A)
    (b : Breaker)
    → IsValid b
    → view (execute now later fallback action b).1
      ≡ call b.config now later (verdict action) (view b)
unfolding execute check_open transition_to view view_state call settled verdict
view-execute now later fallback (returned a) b v = ground arith
view-execute now later fallback (threw e) b v = ground arith
