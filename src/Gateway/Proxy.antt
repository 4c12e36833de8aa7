-- ===== src/Gateway/Proxy.antt =====
-- `createMicroserviceProxy` of services/gateway/src/middleware/proxyFactory.js: its gate, its error
-- handler with the retry, and its `finish` listener, on the fields of a circuit breaker. The network
-- is an argument. Headers and the body are left out, and so is the retry of a 503, which hands the
-- same response to the proxy library twice.
use vault_core.Prelude.{
  ltb, leb, if◌then◌else◌, ℕ, ◌+◌, String, Bool, true, false, ◌&&◌, Option, none, some,
}
use vault_core.Breaker.Config.{CircuitState, closed, open_state, half_open}
use vault_core.Breaker.State.{
  Breaker, transition_to, proxy_timeout_expired, proxy_successes_met, proxy_probe_error,
  proxy_threshold_reached,
}
use vault_core.Breaker.Execute.{half_open_at, retry_after_sec}

-- `err.code`
pub data ErrorCode : Type 0 where
  conn_reset conn_refused timed_out socket_timed_out not_found other_code : ErrorCode

-- What the service does with one forwarded request: a status, or an error with its code, with whether
-- its message speaks of a timeout, and with the message.
pub data Attempt : Type 0 where
  responded : ℕ → Attempt
  errored : ErrorCode → Bool → String → Attempt

-- `retryableErrors.includes(err.code)`
abbrev pub is_retryable : ErrorCode → Bool
is_retryable conn_reset = true
is_retryable conn_refused = true
is_retryable timed_out = true
is_retryable socket_timed_out = true
is_retryable _ = false

-- 504 for a timeout, 502 otherwise.
abbrev pub error_reply : ErrorCode → Bool → ℕ
error_reply timed_out speaks = 504
error_reply socket_timed_out speaks = 504
error_reply _ speaks = if speaks then 504 else 502

unfoldable pub admit_by_state : CircuitState → ℕ → Breaker → Option ℕ × Breaker
admit_by_state open_state now b =
    if ltb now (half_open_at b)
    then (
      some (retry_after_sec now b),
      record b { stats = record b.stats { fail_fast_count = b.stats.fail_fast_count + 1 } },
    )
    else (none, transition_to now half_open (proxy_timeout_expired b.config.open_timeout_ms) b)
admit_by_state _ now b = (none, b)

-- The gate: the seconds of `Retry-After` where the breaker is open.
unfoldable pub admit : ℕ → Breaker → Option ℕ × Breaker
unfolding admit_by_state
admit now b = admit_by_state b.state now b

unfoldable pub finish_by_state : CircuitState → ℕ → Breaker → Breaker
finish_by_state half_open now b =
    let b' = record b { half_open_success_count = b.half_open_success_count + 1 } in
    if leb b.config.success_threshold (b.half_open_success_count + 1)
    then transition_to now closed (proxy_successes_met b.config.success_threshold)
        (record b' { stats = record b.stats { recovery_count = b.stats.recovery_count + 1 } })
    else b'
finish_by_state closed now b = record b { consecutive_failures = 0 }
finish_by_state open_state now b = b

-- `res.statusCode >= 200 && res.statusCode < 500`
abbrev pub is_served : ℕ → Bool
is_served status = leb 200 status && ltb status 500

unfoldable pub on_served : ℕ → Breaker → Breaker
unfolding finish_by_state
on_served now b = finish_by_state b.state now (record b {
  stats = record b.stats { successful_requests = b.stats.successful_requests + 1 };
  last_success_time = some now;
})

-- `res.on('finish')`
unfoldable pub on_finish : ℕ → ℕ → Breaker → Breaker
unfolding on_served
on_finish status now b = if is_served status then on_served now b else b

unfoldable pub error_by_state : CircuitState → ℕ → String → Breaker → Breaker
error_by_state half_open now text b = transition_to now open_state (proxy_probe_error text) b
error_by_state closed now text b =
    let b' = record b { consecutive_failures = b.consecutive_failures + 1 } in
    if leb b.config.failure_threshold (b.consecutive_failures + 1)
    then transition_to now open_state (proxy_threshold_reached b.config.failure_threshold text) b'
    else b'
error_by_state open_state now text b = b

-- The breaker's part of the `error` handler.
unfoldable pub on_proxy_error : ℕ → String → Breaker → Breaker
unfolding error_by_state
on_proxy_error now text b = error_by_state b.state now text (record b {
  stats = record b.stats { failed_requests = b.stats.failed_requests + 1 };
  last_failure_time = some now;
  last_failure_reason = some text;
})

-- The last attempt: its reply, and then `finish`.
unfoldable pub last_attempt : ℕ → Attempt → Breaker → ℕ × Breaker
unfolding on_finish on_proxy_error
last_attempt now (responded status) b = (status, on_finish status now b)
last_attempt now (errored code speaks text) b =
    (error_reply code speaks, on_finish (error_reply code speaks) now (on_proxy_error now text b))

-- The first attempt, with one retry of a GET.
unfoldable pub forward : Bool → ℕ → Attempt → Attempt → Breaker → ℕ × Breaker
unfolding last_attempt
forward is_get now (responded status) second b = last_attempt now (responded status) b
forward is_get now (errored code speaks text) second b =
    if is_get && is_retryable code
    then last_attempt now second (on_proxy_error now text b)
    else last_attempt now (errored code speaks text) b

abbrev pub after_gate : Bool → ℕ → Attempt → Attempt → Option ℕ × Breaker → ℕ × Breaker
after_gate is_get later first second (some retry_after, b) = (503, b)
after_gate is_get later first second (none, b) = forward is_get later first second b

-- A request that reaches the gate at `now` and is settled at `later`: its status.
unfoldable pub proxy_request : Bool → ℕ → ℕ → Attempt → Attempt → Breaker → ℕ × Breaker
unfolding admit forward
proxy_request is_get now later first second b = after_gate is_get later first second (admit now b)
