-- ===== src/Breaker/Runs.antt =====
-- What a caller sees of a breaker: failing fast, tripping, recovering, and ignoring client errors.
use vault_core.Prelude.{
  leb, if◌then◌else◌, length, All, ℕ, ◌+◌, ◌-◌, ◌*◌, ◌≤◌, ◌<◌, ◌≡◌, true, Option, none, some, List,
  [], ◌∷◌, arith,
}
use vault_core.Breaker.Config.{closed, open_state, half_open, Thrown, circuit_open, is_failure}
use vault_core.Breaker.State.{Breaker, transition_to}
use vault_core.Breaker.Execute.{
  half_open_at, retry_after_sec, check_open, Outcome, returned, threw, fall_back, execute,
}

-- A call without a fallback, and how its action ends.
pub record Call : Type 0 where
  pub now : ℕ
  pub later : ℕ
  pub action : Outcome (Unit {0})

-- Calls one after the other.
unfoldable pub run : List Call → Breaker → Breaker
run [] b = b
run (c ∷ cs) b = run cs (execute c.now c.later none c.action b).1

abbrev pub Fails : Outcome (Unit {0}) → Type 0
Fails (returned a) = ⊥
Fails (threw e) = is_failure e ≡ true

abbrev pub Succeeds : Outcome (Unit {0}) → Type 0
Succeeds (returned a) = Unit
Succeeds (threw e) = ⊥

-- While the timeout runs, an open breaker answers with the fallback or throws, whatever the action
-- would do; it counts the fast failure and nothing else, and the announced delay is the least whole
-- number of seconds, one at least, after which a call passes.
pub execute_fast_fail :
    {A : Type 0} (now later : ℕ) (fallback : Option (Thrown → Outcome A)) (action : Outcome A)
    (b : Breaker)
    → b.state ≡ open_state
    → now < half_open_at b
    → let (r, b') = execute now later fallback action b in
      (r ≡ fall_back fallback (circuit_open b.name (retry_after_sec now b) b.last_failure_reason))
      × (b' ≡ record b {
        stats = record b.stats {
          total_requests = b.stats.total_requests + 1;
          fail_fast_count = b.stats.fail_fast_count + 1;
        };
      })
      × (half_open_at b ≤ now + 1000 * retry_after_sec now b)
      × (now + 1000 * (retry_after_sec now b - 1) < half_open_at b)
unfolding execute check_open
execute_fast_fail now later fallback action b o early =
    (ground arith, ground arith, ground arith, ground arith)

module _ (c : Call) (b : Breaker) where
  fail_below :
      b.state ≡ closed
      → Fails c.action
      → b.consecutive_failures + 1 < b.config.failure_threshold
      → let b' = (execute c.now c.later none c.action b).1 in
        (b'.config ≡ b.config)
        × (b'.state ≡ closed)
        × (b'.consecutive_failures ≡ b.consecutive_failures + 1)
  unfolding execute transition_to
  fail_below s f l = ground arith

  fail_last :
      b.state ≡ closed
      → Fails c.action
      → b.consecutive_failures + 1 ≡ b.config.failure_threshold
      → let b' = (execute c.now c.later none c.action b).1 in
        (b'.state ≡ open_state) × (b'.opened_at ≡ some c.later)
  unfolding execute transition_to
  fail_last s f l = ground arith

-- A closed breaker that sees nothing but failures, up to its threshold in a row with those counted
-- before, is open exactly when the threshold is reached, and else still closed.
pub run_failures :
    (cs : List Call) (b : Breaker)
    → b.state ≡ closed
    → b.consecutive_failures < b.config.failure_threshold
    → All (λ c. Fails c.action) cs
    → b.consecutive_failures + length cs ≤ b.config.failure_threshold
    → (run cs b).state ≡ (
        if leb b.config.failure_threshold (b.consecutive_failures + length cs)
        then open_state
        else closed)
unfolding run
run_failures [] b s lt f h = ground arith
run_failures (c ∷ []) b s lt f h = ground (arith, fail_below c b s f.0, fail_last c b s f.0)
run_failures (c ∷ d ∷ cs) b s lt f h =
    let p = fail_below c b s f.0 (omega arith) in
    let b' = (execute c.now c.later none c.action b).1 in
    ground (
      arith,
      p,
      run_failures (d ∷ cs) b' p.1 (rw (p.0, p.2) (omega arith)) f.1 (rw (p.0, p.2) (omega arith)),
    )

module _ (c : Call) (b : Breaker) where
  probe_below :
      b.state ≡ half_open
      → Succeeds c.action
      → b.half_open_success_count + 1 < b.config.success_threshold
      → let b' = (execute c.now c.later none c.action b).1 in
        (b'.config ≡ b.config)
        × (b'.state ≡ half_open)
        × (b'.half_open_success_count ≡ b.half_open_success_count + 1)
        × (b'.stats.recovery_count ≡ b.stats.recovery_count)
  unfolding execute transition_to
  probe_below s f l = ground arith

  probe_last :
      b.state ≡ half_open
      → Succeeds c.action
      → b.half_open_success_count + 1 ≡ b.config.success_threshold
      → let b' = (execute c.now c.later none c.action b).1 in
        (b'.state ≡ closed)
        × (b'.consecutive_failures ≡ 0)
        × (b'.opened_at ≡ none)
        × (b'.stats.recovery_count ≡ b.stats.recovery_count + 1)
  unfolding execute transition_to
  probe_last s f l = ground arith

  -- The first call after the timeout is the first probe.
  first_below :
      b.state ≡ open_state
      → half_open_at b ≤ c.now
      → Succeeds c.action
      → 1 < b.config.success_threshold
      → let b' = (execute c.now c.later none c.action b).1 in
        (b'.config ≡ b.config)
        × (b'.state ≡ half_open)
        × (b'.half_open_success_count ≡ 1)
        × (b'.stats.recovery_count ≡ b.stats.recovery_count)
  unfolding execute check_open transition_to
  first_below s h f l = ground arith

  first_last :
      b.state ≡ open_state
      → half_open_at b ≤ c.now
      → Succeeds c.action
      → 1 ≡ b.config.success_threshold
      → let b' = (execute c.now c.later none c.action b).1 in
        (b'.state ≡ closed)
        × (b'.consecutive_failures ≡ 0)
        × (b'.opened_at ≡ none)
        × (b'.stats.recovery_count ≡ b.stats.recovery_count + 1)
  unfolding execute check_open transition_to
  first_last s h f l = ground arith

run_probes :
    (cs : List Call) (b : Breaker)
    → b.state ≡ half_open
    → b.half_open_success_count < b.config.success_threshold
    → All (λ c. Succeeds c.action) cs
    → b.half_open_success_count + length cs ≤ b.config.success_threshold
    → let over = leb b.config.success_threshold (b.half_open_success_count + length cs) in
      ((run cs b).state ≡ (if over then closed else half_open))
      × ((run cs b).stats.recovery_count
          ≡ (if over then b.stats.recovery_count + 1 else b.stats.recovery_count))
unfolding run
run_probes [] b s lt f h = ground arith
run_probes (c ∷ []) b s lt f h = ground (arith, probe_below c b s f.0, probe_last c b s f.0)
run_probes (c ∷ d ∷ cs) b s lt f h =
    let p = probe_below c b s f.0 (omega arith) in
    let b' = (execute c.now c.later none c.action b).1 in
    ground (
      arith,
      p,
      run_probes (d ∷ cs) b' p.1 (rw (p.0, p.2) (omega arith)) f.1 (rw (p.0, p.2) (omega arith)),
    )

-- From the end of the timeout, an open breaker that sees nothing but successes, up to its threshold,
-- is closed with one more recovery exactly when the threshold is reached, and else half-open.
pub run_recovers :
    (c : Call) (cs : List Call) (b : Breaker)
    → b.state ≡ open_state
    → half_open_at b ≤ c.now
    → Succeeds c.action
    → All (λ d. Succeeds d.action) cs
    → 1 + length cs ≤ b.config.success_threshold
    → let over = leb b.config.success_threshold (1 + length cs) in
      ((run (c ∷ cs) b).state ≡ (if over then closed else half_open))
      × ((run (c ∷ cs) b).stats.recovery_count
          ≡ (if over then b.stats.recovery_count + 1 else b.stats.recovery_count))
unfolding run
run_recovers c [] b s t f fs h = ground (arith, first_below c b s t f, first_last c b s t f)
run_recovers c (d ∷ cs) b s t f fs h =
    let p = first_below c b s t f (omega arith) in
    let b' = (execute c.now c.later none c.action b).1 in
    ground (
      arith,
      p,
      run_probes (d ∷ cs) b' p.1 (rw (p.0, p.2) (omega arith)) fs (rw (p.0, p.2) (omega arith)),
    )

-- A failed probe opens a half-open breaker again, from the time of the failure.
pub reopen_after_probe :
    (c : Call) (b : Breaker)
    → b.state ≡ half_open
    → Fails c.action
    → let b' = (execute c.now c.later none c.action b).1 in
      (b'.state ≡ open_state) × (b'.opened_at ≡ some c.later) × (b'.half_open_success_count ≡ 0)
unfolding execute transition_to
reopen_after_probe c b s f = ground arith
