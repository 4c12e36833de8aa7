-- ===== src/Breaker/Tests.antt =====
-- Runs of a breaker at concrete values, and the theorems at concrete values.
use vault_core.Prelude.{ℕ, ◌+◌, ◌≡◌, refl, none, some, [], ◌∷◌, arith}
use vault_core.Breaker.Config.{
  closed, open_state, half_open, Options, Config, error, is_failure, message,
}
use vault_core.Breaker.State.{Breaker, new_breaker, remember, transition_to}
use vault_core.Breaker.Execute.{check_open, begin, Outcome, returned, threw, execute}
use vault_core.Breaker.Registry.{Registry}
use vault_core.Breaker.Steps.{start, initial, here, next, IsSound, Reach-IsSound}
use vault_core.Breaker.Spec.{view, verdict, call, view-execute}
use vault_core.Breaker.Runs.{Call, run}

abbrev options : Options
options = record {
  name = some "ledger-service";
  failure_threshold = some 2;
  success_threshold = some 2;
  open_timeout_ms = none;
}

abbrev config : Config
config = record { failure_threshold = 2; success_threshold = 2; open_timeout_ms = 30000 }

abbrev down : Outcome (Unit {0})
down = threw (error (some 503) "unavailable")

abbrev failing : ℕ → Call
failing t = record { now = t; later = t + 5; action = down }

abbrev passing : ℕ → Call
passing t = record { now = t; later = t + 5; action = returned tt }

abbrev fresh : Breaker
fresh = record {
  name = "ledger-service";
  config = config;
  state = closed;
  consecutive_failures = 0;
  half_open_success_count = 0;
  opened_at = none;
  last_failure_time = none;
  last_failure_reason = none;
  last_success_time = none;
  stats = record {
    total_requests = 0;
    successful_requests = 0;
    failed_requests = 0;
    fail_fast_count = 0;
    recovery_count = 0;
    state_transitions = 0;
  };
  transition_history = [];
}

abbrev opened : Breaker
opened = record fresh { state = open_state; opened_at = some 1000 }

abbrev probed : Breaker
probed = record fresh { state = half_open; half_open_success_count = 1 }

new_breaker_defaults : new_breaker options ≡ fresh
unfolding new_breaker
new_breaker_defaults = refl

run_round_trip :
    (run (failing 10 ∷ failing 20 ∷ passing 40000 ∷ passing 40010 ∷ []) fresh).stats ≡ record {
      total_requests = 4;
      successful_requests = 2;
      failed_requests = 2;
      fail_fast_count = 0;
      recovery_count = 1;
      state_transitions = 3;
    }
unfolding run execute check_open transition_to remember is_failure message
run_round_trip = refl

Reach-IsSound_example :
    IsSound
      (record (initial options) { breaker = (begin 7 (new_breaker options)).1; in_flight = 1 })
unfolding begin new_breaker
Reach-IsSound_example = Reach-IsSound options _ (next here (start 7 refl))

view-execute_example :
    view (execute 50000 50005 none down opened).1
    ≡ call config 50000 50005 (verdict down) (view opened)
view-execute_example = view-execute 50000 50005 none down opened (ground arith)

abbrev registry : Registry
registry = ("ledger-service", opened) ∷ ("rabbitmq-publisher", probed) ∷ []
