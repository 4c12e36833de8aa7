-- ===== src/Breaker/Admin.antt =====
-- `getStatus`, `reset` and `forceState` of `CircuitBreaker`.

use vault_core.Prelude.{
  leb, if◌then◌else◌, length, ℕ, zero, suc, ◌+◌, ◌-◌, String, ◌≡◌, ◌↔◌, Option, none, some, List,
  [], ◌∷◌, arith,
}
use vault_core.Breaker.Config.{CircuitState, closed, open_state}
use vault_core.Breaker.State.{
  same_state, manual_reset, administrative, Transition, Stats, Breaker, transition_to,
}
use vault_core.Breaker.Execute.{ceil_seconds, proceed, check_open, begin}

unfoldable pub reset : ℕ → Breaker → Breaker
reset now b =
    let b' = transition_to now closed manual_reset b in
    record b' {
      consecutive_failures = 0;
      half_open_success_count = 0;
      opened_at = none;
      last_failure_reason = none;
    }

-- The argument `none` is a value that is not in `CIRCUIT_STATES`.
unfoldable pub force_state : ℕ → Option CircuitState → String → Breaker → Breaker
force_state now none reason b = b
force_state now (some target) reason b = transition_to now target (administrative reason) b

-- `openTimeoutMs - timeSinceOpen`, stopped at 0; no time has passed where `openedAt` is falsy.
abbrev open_time_left : ℕ → Option ℕ → ℕ → ℕ
open_time_left timeout none now = timeout
open_time_left timeout (some zero) now = timeout
open_time_left timeout (some (suc t)) now = suc t + timeout - now

-- `secondsUntilHalfOpen` of `getStatus`
unfoldable pub seconds_until_half_open : ℕ → Breaker → ℕ
seconds_until_half_open now b =
    if same_state b.state open_state
    then ceil_seconds (open_time_left b.config.open_timeout_ms b.opened_at now)
    else 0

-- `transitionHistory.slice(-5)`
pub last_five : List Transition → List Transition
last_five [] = []
last_five (t ∷ ts) = if leb (length ts) 4 then t ∷ ts else last_five ts

-- `this.openedAt ? new Date(this.openedAt) : null`
abbrev truthy : Option ℕ → Option ℕ
truthy none = none
truthy (some zero) = none
truthy (some (suc t)) = some (suc t)

pub record Status : Type 0 where
  pub service_name : String
  pub state : CircuitState
  pub failure_threshold : ℕ
  pub success_threshold : ℕ
  pub open_timeout_ms : ℕ
  pub consecutive_failures : ℕ
  pub half_open_success_count : ℕ
  pub opened_at : Option ℕ
  pub seconds_until_half_open : ℕ
  pub last_failure_reason : Option String
  pub last_failure_time : Option ℕ
  pub last_success_time : Option ℕ
  pub stats : Stats
  pub recent_transitions : List Transition

unfoldable pub get_status : ℕ → Breaker → Status
unfolding seconds_until_half_open
get_status now b = record {
  service_name = b.name;
  state = b.state;
  failure_threshold = b.config.failure_threshold;
  success_threshold = b.config.success_threshold;
  open_timeout_ms = b.config.open_timeout_ms;
  consecutive_failures = b.consecutive_failures;
  half_open_success_count = b.half_open_success_count;
  opened_at = truthy b.opened_at;
  seconds_until_half_open = seconds_until_half_open now b;
  last_failure_reason = b.last_failure_reason;
  last_failure_time = b.last_failure_time;
  last_success_time = b.last_success_time;
  stats = b.stats;
  recent_transitions = last_five b.transition_history;
}

-- Of an open breaker with an opening time after the epoch, the reported status counts down to 0
-- exactly when the next call passes.
pub get_status-begin :
    (now t : ℕ) (b : Breaker)
    → b.state ≡ open_state
    → b.opened_at ≡ some (suc t)
    → ((get_status now b).seconds_until_half_open ≡ 0) ↔ ((begin now b).0 ≡ proceed)
unfolding get_status begin check_open
get_status-begin now t b s o = (λ h. ground arith, λ h. ground arith)
