-- ===== src/Breaker/State.antt =====
-- The fields of a `CircuitBreaker`, its constructor and `_transitionTo`.
use vault_core.Prelude.{
  ℕ, ◌+◌, String, Bool, true, false, Option, none, some, List, [], ◌∷◌, ◌++◌, length, ltb,
  if◌then◌else◌,
}
use text.Mathlib.Text.{◌==◌ as str_eq}
use vault_core.Breaker.Config.{
  CircuitState, closed, open_state, half_open, Config, Options, configure,
}

abbrev pub same_state : CircuitState → CircuitState → Bool
same_state closed closed = true
same_state open_state open_state = true
same_state half_open half_open = true
same_state _ _ = false

-- The templates that the code gives as a reason.
pub data Reason : Type 0 where
  open_timeout_expired : ℕ → Reason
  successes_reached : ℕ → Reason
  failed_probe : String → Reason
  failures_reached : ℕ → Reason
  manual_reset : Reason
  administrative : String → Reason
  -- Those of the gateway's proxies.
  proxy_timeout_expired : ℕ → Reason
  proxy_successes_met : ℕ → Reason
  proxy_probe_error : String → Reason
  proxy_threshold_reached : ℕ → String → Reason

pub record Transition : Type 0 where
  pub source : CircuitState
  pub target : CircuitState
  pub timestamp : ℕ
  pub reason : Reason

pub record Stats : Type 0 where
  pub total_requests : ℕ
  pub successful_requests : ℕ
  pub failed_requests : ℕ
  pub fail_fast_count : ℕ
  pub recovery_count : ℕ
  pub state_transitions : ℕ

-- `options.name || 'default-service'`
abbrev name_or_default : Option String → String
name_or_default none = "default-service"
name_or_default (some name) = if str_eq name "" then "default-service" else name

pub record Breaker : Type 0 where
  pub name : String
  pub config : Config
  pub state : CircuitState
  pub consecutive_failures : ℕ
  pub half_open_success_count : ℕ
  pub opened_at : Option ℕ
  pub last_failure_time : Option ℕ
  pub last_failure_reason : Option String
  pub last_success_time : Option ℕ
  pub stats : Stats
  pub transition_history : List Transition

unfoldable pub new_breaker : Options → Breaker
unfolding configure
new_breaker o = record {
  name = name_or_default o.name;
  config = configure o;
  state = closed;
  consecutive_failures = 0;
  half_open_success_count = 0;
  opened_at = none;
  last_failure_time = none;
  last_failure_reason = none;
  last_success_time = none;
  stats = record {
    total_requests = 0;
    successful_requests = 0;
    failed_requests = 0;
    fail_fast_count = 0;
    recovery_count = 0;
    state_transitions = 0;
  };
  transition_history = [];
}

-- `transitionHistory.shift()`
unfoldable pub shift : List Transition → List Transition
shift [] = []
shift (t ∷ ts) = ts

-- Push, then drop the oldest record beyond 50.
unfoldable pub remember : List Transition → Transition → List Transition
unfolding shift
remember ts t = let pushed = ts ++ t ∷ [] in if ltb 50 (length pushed) then shift pushed else pushed

-- The counters that a change to the new state resets.
unfoldable pub enter : ℕ → CircuitState → Breaker → Breaker
enter now open_state b = record b { opened_at = some now; half_open_success_count = 0 }
enter now half_open b = record b { half_open_success_count = 0 }
enter now closed b = record b {
  consecutive_failures = 0;
  half_open_success_count = 0;
  opened_at = none;
}

-- `_transitionTo`: nothing is done where the state does not change.
unfoldable pub transition_to : ℕ → CircuitState → Reason → Breaker → Breaker
unfolding enter
transition_to now target reason b =
    if same_state b.state target
    then b
    else enter now target (record b {
      state = target;
      stats = record b.stats { state_transitions = b.stats.state_transitions + 1 };
      transition_history =
          remember b.transition_history
            (record { source = b.state; target = target; timestamp = now; reason = reason });
    })
