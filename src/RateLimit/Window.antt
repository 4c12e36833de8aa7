-- ===== src/RateLimit/Window.antt =====
-- SLIDING_WINDOW_LUA and `RateLimiterService.checkRateLimit`. Redis runs a script as one step. Its
-- sorted sets are a parameter: the scores of a key in ascending order, and the two commands that
-- change them. A member ends in a random text, so that `ZADD` adds one; a set lives longer than its
-- window, so that its expiry removes nothing that counts.
use vault_core.Prelude.{
  ltb, leb, ◌==◌, if◌then◌else◌, length, ℕ, ◌+◌, ◌-◌, ◌*◌, ◌/◌, max, ◌≡◌, Bool, true, false, List,
  [], ◌∷◌,
}

unfoldable pub insert_score : ℕ → List ℕ → List ℕ
insert_score t [] = t ∷ []
insert_score t (x ∷ xs) = if leb t x then t ∷ x ∷ xs else x ∷ insert_score t xs

unfoldable pub keep_above : ℕ → List ℕ → List ℕ
keep_above bound [] = []
keep_above bound (x ∷ xs) = if leb x bound then keep_above bound xs else x ∷ keep_above bound xs

pub record SortedSets : Type 1 where
  pub State : Type 0
  pub scores : State → ℕ → List ℕ
  -- `ZREMRANGEBYSCORE key 0 bound` and `ZADD key score member`
  pub zremrangebyscore : State → ℕ → ℕ → State
  pub zadd : State → ℕ → ℕ → State
  pub del : State → ℕ → State
  pub scores-zremrangebyscore :
      (s : State) (k bound j : ℕ)
      → scores (zremrangebyscore s k bound) j
        ≡ (if k == j then keep_above bound (scores s k) else scores s j)
  pub scores-zadd :
      (s : State) (k t j : ℕ)
      → scores (zadd s k t) j ≡ (if k == j then insert_score t (scores s k) else scores s j)
  pub scores-del : (s : State) (k j : ℕ) → scores (del s k) j ≡ (if k == j then [] else scores s j)

-- The script's answer.
pub record Answer : Type 0 where
  pub allowed : Bool
  pub remaining : ℕ
  pub reset_time : ℕ
  pub retry_after : ℕ

pub record LimiterMetrics : Type 0 where
  pub allowed_requests : ℕ
  pub blocked_requests : ℕ
  pub total_checks : ℕ
  pub total_latency_ms : ℕ
  pub last_check_latency_ms : ℕ

-- `math.ceil(ms / 1000)`
abbrev ceil_seconds : ℕ → ℕ
ceil_seconds ms = (ms + 999) / 1000

-- `tonumber(oldest[2]) or nowMs`
abbrev oldest_or : ℕ → List ℕ → ℕ
oldest_or now [] = now
oldest_or now (t ∷ ts) = t

module _ (Z : SortedSets) where
  -- Up to `nowMs - windowMs`, which is negative before the first window has passed.
  unfoldable pub remove_expired : ℕ → ℕ → ℕ → Z.State → Z.State
  remove_expired key window_ms now_ms s =
      if leb window_ms now_ms then Z.zremrangebyscore s key (now_ms - window_ms) else s

  unfoldable pub sliding_window : ℕ → ℕ → ℕ → ℕ → Z.State → Answer × Z.State
  unfolding remove_expired
  sliding_window key window_ms limit now_ms s =
      let s' = remove_expired key window_ms now_ms s in
      let current_count = length (Z.scores s' key) in
      let oldest = oldest_or now_ms (Z.scores s' key) in
      if ltb current_count limit
      then (
        record {
          allowed = true;
          remaining = limit - current_count - 1;
          reset_time = ceil_seconds (now_ms + window_ms);
          retry_after = 0;
        },
        Z.zadd s' key now_ms,
      )
      else (
        record {
          allowed = false;
          remaining = 0;
          reset_time = ceil_seconds (oldest + window_ms);
          retry_after = max 1 (ceil_seconds (oldest + window_ms - now_ms));
        },
        s',
      )

  pub record Limiter : Type 0 where
    pub sets : Z.State
    pub metrics : LimiterMetrics

  abbrev count_check : Bool → ℕ → LimiterMetrics → LimiterMetrics
  count_check is_allowed latency_ms m = record {
    allowed_requests = if is_allowed then m.allowed_requests + 1 else m.allowed_requests;
    blocked_requests = if is_allowed then m.blocked_requests else m.blocked_requests + 1;
    total_checks = m.total_checks + 1;
    total_latency_ms = m.total_latency_ms + latency_ms;
    last_check_latency_ms = latency_ms;
  }

  -- `is_up`: does the script reach Redis? If not, the request is allowed (fail-open).
  unfoldable pub check_rate_limit : Bool → ℕ → ℕ → ℕ → ℕ → ℕ → Limiter → Answer × Limiter
  unfolding sliding_window
  check_rate_limit is_up latency_ms key limit window_seconds now_ms l =
      if is_up
      then (let (answer, s) = sliding_window key (window_seconds * 1000) limit now_ms l.sets in
          (answer, record { sets = s; metrics = count_check answer.allowed latency_ms l.metrics }))
      else (
        record {
          allowed = true;
          remaining = 1;
          reset_time = ceil_seconds (now_ms + window_seconds * 1000);
          retry_after = 0;
        },
        l,
      )

  unfoldable pub reset : Bool → ℕ → Limiter → Bool × Limiter
  reset is_up key l = if is_up then (true, record l { sets = Z.del l.sets key }) else (false, l)
