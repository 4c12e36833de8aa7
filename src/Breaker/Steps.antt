-- ===== src/Breaker/Steps.antt =====
-- Interleaved calls of one breaker: a call starts, its action settles later, and other calls,
-- settlements and administrative methods come between.
use vault_core.Prelude.{if◌then◌else◌, ℕ, ◌+◌, ◌-◌, ◌<◌, String, ◌≡◌, Option, none, some, arith}
use vault_core.Breaker.Config.{CircuitState, closed, Options, Thrown, is_failure}
use vault_core.Breaker.State.{manual_reset, administrative, Breaker, new_breaker, transition_to}
use vault_core.Breaker.Execute.{Gate, proceed, fail_fast, check_open, begin, on_success, on_failure}
use vault_core.Breaker.Admin.{reset, force_state}
use vault_core.Breaker.Counters.{
  IsValid, new_breaker-IsValid, begin-IsValid, on_success-IsValid, on_failure-IsValid,
  reset-IsValid, force_state-IsValid,
}
use vault_core.Breaker.History.{
  HasHistory, transition_to-HasHistory, begin-HasHistory, on_success-HasHistory,
  on_failure-HasHistory,
}

-- A breaker, the number of actions that are awaited, and the number that ended in a client error.
pub record System : Type 0 where
  pub breaker : Breaker
  pub in_flight : ℕ
  pub client_errors : ℕ

abbrev pub initial : Options → System
initial o = record { breaker = new_breaker o; in_flight = 0; client_errors = 0 }

abbrev started : Gate → ℕ
started proceed = 1
started (fail_fast e) = 0

abbrev uncounted : Thrown → ℕ
uncounted e = if is_failure e then 0 else 1

pub data Step (s t : System) : Type 0 where
  start :
      (now : ℕ)
      → t ≡ record s {
        breaker = (begin now s.breaker).1;
        in_flight = s.in_flight + started (begin now s.breaker).0;
      }
      → Step s t
  succeed :
      (now : ℕ)
      → 0 < s.in_flight
      → t ≡ record s { breaker = on_success now s.breaker; in_flight = s.in_flight - 1 }
      → Step s t
  fail :
      (now : ℕ) (e : Thrown)
      → 0 < s.in_flight
      → t ≡ record s {
        breaker = on_failure now e s.breaker;
        in_flight = s.in_flight - 1;
        client_errors = s.client_errors + uncounted e;
      }
      → Step s t
  manual : (now : ℕ) → t ≡ record s { breaker = reset now s.breaker } → Step s t
  force :
      (now : ℕ) (target : Option CircuitState) (reason : String)
      → t ≡ record s { breaker = force_state now target reason s.breaker }
      → Step s t

pub data Reach (s : System) : System → Type 0 where
  here : Reach s s
  next : {t u : System} → Reach s t → Step t u → Reach s u

reset-HasHistory : (now : ℕ) (b : Breaker) → HasHistory b → HasHistory (reset now b)
unfolding reset
reset-HasHistory now b h =
    let k = transition_to-HasHistory now closed manual_reset b h in
    record { bounded = k.bounded; counted = k.counted; linked = k.linked }

force_state-HasHistory :
    (now : ℕ) (target : Option CircuitState) (reason : String) (b : Breaker)
    → HasHistory b
    → HasHistory (force_state now target reason b)
unfolding force_state
force_state-HasHistory now none reason b h = h
force_state-HasHistory now (some target) reason b h =
    transition_to-HasHistory now target (administrative reason) b h

pub record IsSound (s : System) : Type 0 where
  pub counters : IsValid s.breaker
  pub history : HasHistory s.breaker

Step-IsSound : {s t : System} → Step s t → IsSound s → IsSound t
Step-IsSound {s} (start now e) h = rw e (record {
  counters = begin-IsValid now s.breaker h.counters;
  history = begin-HasHistory now s.breaker h.history;
})
Step-IsSound {s} (succeed now p e) h = rw e (record {
  counters = on_success-IsValid now s.breaker h.counters;
  history = on_success-HasHistory now s.breaker h.history;
})
Step-IsSound {s} (fail now x p e) h = rw e (record {
  counters = on_failure-IsValid now x s.breaker h.counters;
  history = on_failure-HasHistory now x s.breaker h.history;
})
Step-IsSound {s} (manual now e) h = rw e (record {
  counters = reset-IsValid now s.breaker h.counters;
  history = reset-HasHistory now s.breaker h.history;
})
Step-IsSound {s} (force now target reason e) h = rw e (record {
  counters = force_state-IsValid now target reason s.breaker h.counters;
  history = force_state-HasHistory now target reason s.breaker h.history;
})

new_breaker-HasHistory : (o : Options) → HasHistory (new_breaker o)
unfolding new_breaker
new_breaker-HasHistory o = record { bounded = omega arith; counted = omega arith; linked = tt }

-- However calls interleave from a new breaker, the counters fit the state (closed: fewer failures in
-- a row than the threshold and no opening time; open: an opening time; half-open: fewer successes
-- than needed), and the history has at most 50 linked records that end in the present state.
pub Reach-IsSound : (o : Options) (s : System) → Reach (initial o) s → IsSound s
Reach-IsSound o _ here = record {
  counters = new_breaker-IsValid o;
  history = new_breaker-HasHistory o;
}
Reach-IsSound o s (next {t} r st) = Step-IsSound st (Reach-IsSound o t r)

-- Every request is counted once more when it ends, or is still awaited.
abbrev pub IsBalanced : System → Type 0
IsBalanced s =
    s.breaker.stats.total_requests
    ≡ s.breaker.stats.successful_requests + s.breaker.stats.failed_requests
      + s.breaker.stats.fail_fast_count + s.client_errors + s.in_flight

Step-IsBalanced : {s t : System} → Step s t → IsBalanced s → IsBalanced t
unfolding begin check_open on_success on_failure reset force_state transition_to
Step-IsBalanced (start now e) h = ground arith
Step-IsBalanced (succeed now p e) h = ground arith
Step-IsBalanced (fail now x p e) h = ground arith
Step-IsBalanced (manual now e) h = ground arith
Step-IsBalanced (force now target reason e) h = ground arith

-- However calls interleave from a new breaker, the total of requests is the sum of the successes,
-- the failures, the fast failures, the client errors and the actions still awaited.
pub Reach-IsBalanced : (o : Options) (s : System) → Reach (initial o) s → IsBalanced s
unfolding new_breaker
Reach-IsBalanced o _ here = omega arith
Reach-IsBalanced o s (next {t} r st) = Step-IsBalanced st (Reach-IsBalanced o t r)
