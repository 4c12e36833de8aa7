-- ===== src/Breaker/Config.antt =====
-- The constructor's options of `CircuitBreaker`, the errors that reach it, and `isFailure`.
use Prim.Native.String.{◌++◌ as append}
use vault_core.Prelude.{
  ℕ, String, Bool, true, not, ◌&&◌, Option, none, some, ltb, leb, ◌==◌, or_default,
}

-- `CIRCUIT_STATES`
pub data CircuitState : Type 0 where
  closed open_state half_open : CircuitState

-- `CIRCUIT_BREAKER_CONFIG`
abbrev pub default_failure_threshold : ℕ
default_failure_threshold = 5

abbrev pub default_success_threshold : ℕ
default_success_threshold = 3

abbrev pub default_open_timeout_ms : ℕ
default_open_timeout_ms = 30000

-- The options that the constructor reads; an absent one is `undefined`.
pub record Options : Type 0 where
  pub name : Option String
  pub failure_threshold : Option ℕ
  pub success_threshold : Option ℕ
  pub open_timeout_ms : Option ℕ

pub record Config : Type 0 where
  pub failure_threshold : ℕ
  pub success_threshold : ℕ
  pub open_timeout_ms : ℕ

unfoldable pub configure : Options → Config
configure o = record {
  failure_threshold = or_default o.failure_threshold default_failure_threshold;
  success_threshold = or_default o.success_threshold default_success_threshold;
  open_timeout_ms = or_default o.open_timeout_ms default_open_timeout_ms;
}

-- What an action, a fallback or the breaker throws: an error with an optional `statusCode`, or a
-- `CircuitBreakerOpenError` with its `serviceName`, `retryAfterSec` and `lastError`.
pub data Thrown : Type 0 where
  error : Option ℕ → String → Thrown
  circuit_open : String → ℕ → Option String → Thrown

-- `err.statusCode`: a `CircuitBreakerOpenError` carries 503.
unfoldable pub status_code : Thrown → Option ℕ
status_code (error code text) = code
status_code (circuit_open name retry last) = some 503

-- The default `isFailure`: client errors do not count, except 408 and 429.
is_client_error : ℕ → Bool
is_client_error code = leb 400 code && ltb code 500 && not (code == 408) && not (code == 429)

is_failure_code : Option ℕ → Bool
unfolding is_client_error
is_failure_code none = true
is_failure_code (some code) = not (is_client_error code)

unfoldable pub is_failure : Thrown → Bool
unfolding is_failure_code status_code
is_failure e = is_failure_code (status_code e)

-- `error.message`
unfoldable pub message : Thrown → String
message (error code text) = text
message (circuit_open name retry last) =
    append "Circuit breaker for [" (append name "] is OPEN. Request failed fast.")
