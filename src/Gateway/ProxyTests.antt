-- ===== src/Gateway/ProxyTests.antt =====
-- A proxy with a new breaker.
use vault_core.Prelude.{◌≡◌, refl, true, false, none, some}
use vault_core.Breaker.Config.{Options, configure}
use vault_core.Breaker.State.{Breaker, new_breaker}
use vault_core.Breaker.Spec.{counting, view_state, view}
use vault_core.Gateway.Proxy.{
  conn_refused, Attempt, errored, admit_by_state, admit, on_finish, error_by_state, on_proxy_error,
  last_attempt, forward, proxy_request,
}

abbrev defaults : Options
defaults = record {
  name = some "auth-service";
  failure_threshold = none;
  open_timeout_ms = none;
  success_threshold = none;
}

abbrev fresh : Breaker
fresh = new_breaker defaults

abbrev refused : Attempt
refused = errored conn_refused false "connect ECONNREFUSED"

-- A GET that is refused twice counts as two failures and answers 502.
refused_test :
    ((proxy_request true 0 10 refused refused fresh).0 ≡ 502)
    × (view (proxy_request true 0 10 refused refused fresh).1 ≡ counting 2)
unfolding proxy_request admit admit_by_state forward last_attempt on_finish on_proxy_error
    error_by_state new_breaker configure view view_state
refused_test = (refl, refl)
