-- ===== src/Breaker/Execute.antt =====
-- `execute`: the part before the action is awaited (`begin`), the two ways in which the action
-- settles (`on_success`, `on_failure`), and the whole call. Between the parts other calls of the
-- same breaker may run; `Breaker.Steps` lets them.
use vault_core.Prelude.{ℕ, ◌+◌, ◌-◌, ◌/◌, max, String, Option, none, some, leb, if◌then◌else◌}
use vault_core.Breaker.Config.{
  CircuitState, closed, open_state, half_open, Thrown, circuit_open, is_failure, message,
}
use vault_core.Breaker.State.{
  Breaker, transition_to, open_timeout_expired, successes_reached, failed_probe, failures_reached,
}

-- `Math.ceil(ms / 1000)` of a number that is not negative.
abbrev pub ceil_seconds : ℕ → ℕ
ceil_seconds ms = (ms + 999) / 1000

-- `this.openedAt || 0`
abbrev pub opened_or_zero : Option ℕ → ℕ
opened_or_zero none = 0
opened_or_zero (some t) = t

-- May the action run, or does the call fail fast with this error?
pub data Gate : Type 0 where
  proceed : Gate
  fail_fast : Thrown → Gate

-- `openedAt + openTimeoutMs`: the test `now - openedAt >= openTimeoutMs` compares `now` with it.
abbrev pub half_open_at : Breaker → ℕ
half_open_at b = opened_or_zero b.opened_at + b.config.open_timeout_ms

-- `Math.max(1, Math.ceil((openTimeoutMs - timeSinceOpen) / 1000))`, for a time before that.
unfoldable pub retry_after_sec : ℕ → Breaker → ℕ
retry_after_sec now b = max 1 (ceil_seconds (half_open_at b - now))

unfoldable pub check_open : ℕ → Breaker → Gate × Breaker
unfolding retry_after_sec
check_open now b =
    if leb (half_open_at b) now
    then (proceed, transition_to now half_open (open_timeout_expired b.config.open_timeout_ms) b)
    else (
      fail_fast (circuit_open b.name (retry_after_sec now b) b.last_failure_reason),
      record b { stats = record b.stats { fail_fast_count = b.stats.fail_fast_count + 1 } },
    )

abbrev gate_by_state : CircuitState → ℕ → Breaker → Gate × Breaker
gate_by_state open_state now b = check_open now b
gate_by_state _ now b = (proceed, b)

unfoldable pub begin : ℕ → Breaker → Gate × Breaker
begin now b =
    gate_by_state b.state now
      (record b { stats = record b.stats { total_requests = b.stats.total_requests + 1 } })

-- The state's part of a success.
unfoldable pub count_success : CircuitState → ℕ → Breaker → Breaker
count_success half_open now b =
    let b' = record b { half_open_success_count = b.half_open_success_count + 1 } in
    if leb b.config.success_threshold (b.half_open_success_count + 1)
    then transition_to now closed (successes_reached b.config.success_threshold)
        (record b' { stats = record b.stats { recovery_count = b.stats.recovery_count + 1 } })
    else b'
count_success closed now b = record b { consecutive_failures = 0 }
count_success open_state now b = b

unfoldable pub on_success : ℕ → Breaker → Breaker
unfolding count_success
on_success now b = count_success b.state now (record b {
  stats = record b.stats { successful_requests = b.stats.successful_requests + 1 };
  last_success_time = some now;
})

-- The state's part of a failure.
unfoldable pub count_failure : CircuitState → ℕ → String → Breaker → Breaker
count_failure half_open now text b = transition_to now open_state (failed_probe text) b
count_failure closed now text b =
    let b' = record b { consecutive_failures = b.consecutive_failures + 1 } in
    if leb b.config.failure_threshold (b.consecutive_failures + 1)
    then transition_to now open_state (failures_reached b.config.failure_threshold) b'
    else b'
count_failure open_state now text b = b

unfoldable pub record_failure : ℕ → String → Breaker → Breaker
unfolding count_failure
record_failure now text b = count_failure b.state now text (record b {
  stats = record b.stats { failed_requests = b.stats.failed_requests + 1 };
  last_failure_time = some now;
  last_failure_reason = some text;
})

unfoldable pub on_failure : ℕ → Thrown → Breaker → Breaker
unfolding record_failure
on_failure now e b = if is_failure e then record_failure now (message e) b else b

-- A settled promise.
pub data Outcome (A : Type 0) : Type 0 where
  returned : A → Outcome A
  threw : Thrown → Outcome A

-- `typeof fallback === 'function'`
abbrev pub fall_back : {A : Type 0} → Option (Thrown → Outcome A) → Thrown → Outcome A
fall_back none e = threw e
fall_back (some f) e = f e

-- How the action's result ends the call; a client error is rethrown past the fallback.
unfoldable pub settle :
    {A : Type 0} → ℕ → Option (Thrown → Outcome A) → Outcome A → Breaker → Outcome A × Breaker
unfolding on_success on_failure
settle now fallback (returned a) b = (returned a, on_success now b)
settle now fallback (threw e) b =
    (if is_failure e then fall_back fallback e else threw e, on_failure now e b)

abbrev pass_gate :
    {A : Type 0}
    → ℕ
    → Option (Thrown → Outcome A)
    → Outcome A
    → Gate × Breaker
    → Outcome A × Breaker
pass_gate later fallback action (proceed, b) = settle later fallback action b
pass_gate later fallback action (fail_fast e, b) = (fall_back fallback e, b)

-- One call that no other interrupts: it starts at `now`, and an action that runs settles at `later`.
unfoldable pub execute :
    {A : Type 0} → ℕ → ℕ → Option (Thrown → Outcome A) → Outcome A → Breaker → Outcome A × Breaker
unfolding begin settle
execute now later fallback action b = pass_gate later fallback action (begin now b)
