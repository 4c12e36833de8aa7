-- ===== src/Breaker/Registry.antt =====
-- `CircuitBreakerRegistry` of shared/src/resilience/circuitBreaker.js: breakers by name, in the order
-- of insertion, as a JavaScript `Map` keeps them.
use text.Mathlib.Text.{◌==◌ as str_eq}
use text.Mathlib.TextEquality.{eq_iff}
use vault_core.Prelude.{
  if◌then◌else◌, Option-cases, ℕ, String, ◌≡◌, refl, inl, inr, false, Option, none, some, List, [],
  ◌∷◌, ◌++◌, arith,
}
use vault_core.Breaker.Config.{closed, Options}
use vault_core.Breaker.State.{Breaker, new_breaker, transition_to}
use vault_core.Breaker.Execute.{proceed, begin}
use vault_core.Breaker.Admin.{reset, Status, get_status}

abbrev pub Registry : Type 0
Registry = List (String × Breaker)

-- `this.breakers.get(name)`
unfoldable pub find_breaker : String → Registry → Option Breaker
find_breaker name [] = none
find_breaker name ((k, b) ∷ r) = if str_eq k name then some b else find_breaker name r

-- `new CircuitBreaker({ name, ...options })`: a name among the options wins.
abbrev named : String → Options → Options
named name o = elim o.name [ none ↦ record o { name = some name } | some other ↦ o ]

abbrev found_or_created : String → Options → Registry → Option Breaker → Breaker × Registry
found_or_created name o r (some b) = (b, r)
found_or_created name o r none =
    (new_breaker (named name o), r ++ (name, new_breaker (named name o)) ∷ [])

unfoldable pub get_or_create : String → Options → Registry → Breaker × Registry
get_or_create name o r = found_or_created name o r (find_breaker name r)

-- `getAllStatus`
unfoldable pub get_all_status : ℕ → Registry → List (String × Status)
get_all_status now [] = []
get_all_status now ((k, b) ∷ r) = (k, get_status now b) ∷ get_all_status now r

unfoldable pub reset_all : ℕ → Registry → Registry
reset_all now [] = []
reset_all now ((k, b) ∷ r) = (k, reset now b) ∷ reset_all now r

find_breaker-append_self :
    (name : String) (b : Breaker) (r : Registry)
    → find_breaker name r ≡ none
    → find_breaker name (r ++ (name, b) ∷ []) ≡ some b
unfolding find_breaker
find_breaker-append_self name b [] h = ground (arith, eq_iff name name)
find_breaker-append_self name b ((k, c) ∷ r) h = ground (arith, find_breaker-append_self name b r)

find_breaker-append_ne :
    (name other : String) (b : Breaker) (r : Registry)
    → str_eq name other ≡ false
    → find_breaker other (r ++ (name, b) ∷ []) ≡ find_breaker other r
unfolding find_breaker
find_breaker-append_ne name other b [] h = ground arith
find_breaker-append_ne name other b ((k, c) ∷ r) h =
    ground (arith, find_breaker-append_ne name other b r)

-- The breaker that `getOrCreate` returns is the one that is registered from then on: the same name
-- gives it back whatever the options, and every other name keeps its breaker, or has none.
get_or_create_registers :
    (name : String) (o p : Options) (r : Registry)
    → let (b, r') = get_or_create name o r in
      (get_or_create name p r' ≡ (b, r'))
      × ((other : String)
          → str_eq name other ≡ false
          → find_breaker other r' ≡ find_breaker other r)
unfolding get_or_create
get_or_create_registers name o p r = elim (Option-cases (find_breaker name r)) [
  | inl new ↦ (
    ground (arith, find_breaker-append_self name (new_breaker (named name o)) r new),
    λ other ne. ground (arith, find_breaker-append_ne name other (new_breaker (named name o)) r ne),
  )
  | inr (b, old) ↦ (ground arith, λ other ne. ground arith)
]

abbrev reset_found : ℕ → Option Breaker → Option Breaker
reset_found now none = none
reset_found now (some b) = some (reset now b)

find_breaker-reset_all :
    (now : ℕ) (name : String) (r : Registry)
    → find_breaker name (reset_all now r) ≡ reset_found now (find_breaker name r)
unfolding find_breaker reset_all
find_breaker-reset_all now name [] = refl
find_breaker-reset_all now name ((k, b) ∷ r) = ground (arith, find_breaker-reset_all now name r)

reset_closes :
    (now : ℕ) (b : Breaker)
    → ((reset now b).state ≡ closed) × ((reset now b).consecutive_failures ≡ 0)
unfolding reset transition_to
reset_closes now b = ground arith

-- After `resetAll` every breaker that was registered is closed with no failure counted, and its next
-- call passes at any time.
reset_all_closes :
    (now later : ℕ) (name : String) (r : Registry) {b : Breaker}
    → find_breaker name r ≡ some b
    → (c : Breaker) × (find_breaker name (reset_all now r) ≡ some c)
      × (c.state ≡ closed)
      × (c.consecutive_failures ≡ 0)
      × ((begin later c).0 ≡ proceed)
unfolding begin
reset_all_closes now later name r {b} h = (
  reset now b,
  rw (find_breaker-reset_all now name r, h),
  (reset_closes now b).0,
  (reset_closes now b).1,
  ground (arith, reset_closes now b),
)
