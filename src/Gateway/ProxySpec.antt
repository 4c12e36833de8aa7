-- ===== src/Gateway/ProxySpec.antt =====
-- The proxies against the abstract breaker.
use vault_core.Prelude.{ltb, if◌then◌else◌, ℕ, ◌+◌, ◌≡◌, Bool, ◌&&◌}
use vault_core.Breaker.Config.{Config}
use vault_core.Breaker.State.{Breaker}
use vault_core.Breaker.Counters.{IsValid}
use vault_core.Breaker.Spec.{
  Phase, counting, waiting_since, probing, view, Verdict, success, failure, client_error, settled,
}
use vault_core.Gateway.Proxy.{Attempt, responded, errored, is_retryable, is_served}

-- A response below 500 is a success, one from 500 on is nothing at all.
abbrev pub verdict_of_status : ℕ → Verdict
verdict_of_status status = if is_served status then success else client_error

abbrev pub verdict_of : Attempt → Verdict
verdict_of (responded status) = verdict_of_status status
verdict_of (errored code speaks text) = failure

-- The moves of one request that was admitted.
abbrev pub forwarded : Config → Bool → ℕ → Attempt → Attempt → Phase → Phase
forwarded c is_get later (responded status) second p = settled c later (verdict_of_status status) p
forwarded c is_get later (errored code speaks text) second p =
    let once = settled c later failure p in
    if is_get && is_retryable code then settled c later (verdict_of second) once else once

-- A whole request.
abbrev pub proxied : Config → Bool → ℕ → ℕ → Attempt → Attempt → Phase → Phase
proxied c is_get now later first second (waiting_since t) =
    if ltb now (t + c.open_timeout_ms)
    then waiting_since t
    else forwarded c is_get later first second (probing 0)
proxied c is_get now later first second (counting n) =
    forwarded c is_get later first second (counting n)
proxied c is_get now later first second (probing n) =
    forwarded c is_get later first second (probing n)

-- What a move of the proxies keeps, beside the phase that it reaches.
abbrev Moves : Phase → Breaker → Breaker → Type 0
Moves p b b' =
    (view b' ≡ p)
    × IsValid b'
    × (b'.config ≡ b.config)
    × (b'.stats.total_requests ≡ b.stats.total_requests)
