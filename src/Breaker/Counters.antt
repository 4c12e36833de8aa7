-- ===== src/Breaker/Counters.antt =====
-- Lemmas on the counters of a breaker, method by method.

use vault_core.Prelude.{is_some, ℕ, ◌<◌, String, ◌≡◌, true, Option, none, arith}
use vault_core.Breaker.Config.{
  CircuitState, closed, open_state, half_open, Options, configure, Thrown,
}
use vault_core.Breaker.State.{Breaker, new_breaker, transition_to}
use vault_core.Breaker.Execute.{
  check_open, begin, on_success, on_failure, Outcome, returned, threw, settle,
}
use vault_core.Breaker.Admin.{reset, force_state}

-- What the counters say in each state.
abbrev pub AgreesWith : CircuitState → Breaker → Type 0
AgreesWith closed b =
    (b.consecutive_failures < b.config.failure_threshold)
    × (b.half_open_success_count ≡ 0)
    × (b.opened_at ≡ none)
AgreesWith open_state b = (b.half_open_success_count ≡ 0) × (is_some b.opened_at ≡ true)
AgreesWith half_open b = b.half_open_success_count < b.config.success_threshold

pub record IsValid (b : Breaker) : Type 0 where
  pub failures_needed : 0 < b.config.failure_threshold
  pub successes_needed : 0 < b.config.success_threshold
  pub agrees : AgreesWith b.state b

pub new_breaker-IsValid : (o : Options) → IsValid (new_breaker o)
unfolding new_breaker configure
new_breaker-IsValid o = ground arith

pub begin-IsValid : (now : ℕ) (b : Breaker) → IsValid b → IsValid (begin now b).1
unfolding begin check_open transition_to
begin-IsValid now b v = ground arith

pub on_success-IsValid : (now : ℕ) (b : Breaker) → IsValid b → IsValid (on_success now b)
unfolding on_success transition_to
on_success-IsValid now b v = ground arith

pub on_failure-IsValid :
    (now : ℕ) (e : Thrown) (b : Breaker) → IsValid b → IsValid (on_failure now e b)
unfolding on_failure transition_to
on_failure-IsValid now e b v = ground arith

pub reset-IsValid : (now : ℕ) (b : Breaker) → IsValid b → IsValid (reset now b)
unfolding reset transition_to
reset-IsValid now b v = ground arith

pub force_state-IsValid :
    (now : ℕ) (target : Option CircuitState) (reason : String) (b : Breaker)
    → IsValid b
    → IsValid (force_state now target reason b)
unfolding force_state transition_to
force_state-IsValid now target reason b v = ground arith

pub settle-IsValid :
    {A : Type 0} (now : ℕ) (fallback : Option (Thrown → Outcome A)) (action : Outcome A)
    (b : Breaker)
    → IsValid b
    → IsValid (settle now fallback action b).1
unfolding settle
settle-IsValid now fallback (returned a) b v = on_success-IsValid now b v
settle-IsValid now fallback (threw e) b v = on_failure-IsValid now e b v
