-- ===== src/Breaker/History.antt =====
-- Lemmas on the transition history of a breaker.
use vault_core.Prelude.{
  ltb, Bool-cases, length, length-append, ℕ, ◌+◌, ◌-◌, ◌≤◌, ◌≡◌, refl, inl, inr, false, List, [],
  ◌∷◌, ◌++◌, arith,
}
use vault_core.Breaker.Config.{CircuitState, closed, open_state, half_open, Thrown}
use vault_core.Breaker.State.{
  same_state, Reason, Transition, Breaker, shift, remember, enter, transition_to,
}
use vault_core.Breaker.Execute.{check_open, begin, on_success, on_failure}

abbrev pub starts_at : List Transition → CircuitState → CircuitState
starts_at [] s = s
starts_at (t ∷ ts) s = t.source

-- A list of changes, none of them idle, that ends in the state `s`.
abbrev pub LeadsTo : List Transition → CircuitState → Type 0
LeadsTo [] s = Unit
LeadsTo (t ∷ ts) s =
    (same_state t.source t.target ≡ false) × (t.target ≡ starts_at ts s) × LeadsTo ts s

pub record HasHistory (b : Breaker) : Type 0 where
  pub bounded : length b.transition_history ≤ 50
  pub counted : length b.transition_history ≤ b.stats.state_transitions
  pub linked : LeadsTo b.transition_history b.state

LeadsTo-append :
    (ts : List Transition) (t : Transition)
    → LeadsTo ts t.source
    → same_state t.source t.target ≡ false
    → LeadsTo (ts ++ t ∷ []) t.target
LeadsTo-append [] t h ne = (ne, refl, tt)
LeadsTo-append (u ∷ []) t h ne = (h.0, h.1, LeadsTo-append [] t tt ne)
LeadsTo-append (u ∷ v ∷ ts) t h ne = (h.0, h.1, LeadsTo-append (v ∷ ts) t h.2 ne)

LeadsTo-shift : (ts : List Transition) (s : CircuitState) → LeadsTo ts s → LeadsTo (shift ts) s
unfolding shift
LeadsTo-shift [] s h = tt
LeadsTo-shift (t ∷ ts) s h = h.2

length-shift : (ts : List Transition) → length (shift ts) ≡ length ts - 1
unfolding shift
length-shift [] = omega arith
length-shift (t ∷ ts) = omega arith

pub LeadsTo-remember :
    (ts : List Transition) (t : Transition)
    → LeadsTo ts t.source
    → same_state t.source t.target ≡ false
    → LeadsTo (remember ts t) t.target
unfolding remember
LeadsTo-remember ts t h ne = elim (Bool-cases (ltb 50 (length (ts ++ t ∷ [])))) [
  | inl over ↦ rw over (LeadsTo-shift (ts ++ t ∷ []) t.target (LeadsTo-append ts t h ne))
  | inr fits ↦ rw fits (LeadsTo-append ts t h ne)
]

pub length-remember :
    (ts : List Transition) (t : Transition)
    → length ts ≤ 50
    → (length (remember ts t) ≤ 50) × (length (remember ts t) ≤ length ts + 1)
unfolding remember
length-remember ts t h = ground (arith, length-append ts (t ∷ []), length-shift (ts ++ t ∷ []))

-- Entering a state keeps the history, its counter and the state.
enter-HasHistory :
    (now : ℕ) (target : CircuitState) (b : Breaker) → HasHistory b → HasHistory (enter now target b)
unfolding enter
enter-HasHistory now closed b h = record {
  bounded = h.bounded;
  counted = h.counted;
  linked = h.linked;
}
enter-HasHistory now open_state b h = record {
  bounded = h.bounded;
  counted = h.counted;
  linked = h.linked;
}
enter-HasHistory now half_open b h = record {
  bounded = h.bounded;
  counted = h.counted;
  linked = h.linked;
}

pub transition_to-HasHistory :
    (now : ℕ) (target : CircuitState) (reason : Reason) (b : Breaker)
    → HasHistory b
    → HasHistory (transition_to now target reason b)
unfolding transition_to
transition_to-HasHistory now target reason b h = elim (Bool-cases (same_state b.state target)) [
  | inl same ↦ rw same h
  | inr new ↦ rw new (
      enter-HasHistory now target _ (record {
        bounded = (length-remember b.transition_history _ h.bounded).0;
        counted = omega (
          arith,
          h.counted,
          (length-remember b.transition_history
              (record { source = b.state; target = target; timestamp = now; reason = reason })
              h.bounded).1,
        );
        linked = LeadsTo-remember b.transition_history _ h.linked new;
      }))
]

pub begin-HasHistory : (now : ℕ) (b : Breaker) → HasHistory b → HasHistory (begin now b).1
unfolding begin check_open
begin-HasHistory now b h = grind (arith, transition_to-HasHistory)

pub on_success-HasHistory : (now : ℕ) (b : Breaker) → HasHistory b → HasHistory (on_success now b)
unfolding on_success
on_success-HasHistory now b h = grind (arith, transition_to-HasHistory)

pub on_failure-HasHistory :
    (now : ℕ) (e : Thrown) (b : Breaker) → HasHistory b → HasHistory (on_failure now e b)
unfolding on_failure
on_failure-HasHistory now e b h = grind (arith, transition_to-HasHistory)
