-- ===== src/Tests/SchedulingRuns.antt =====
-- Runs of orcastork/scheduling and orcastork/capabilities/availability.py on a flow of three
-- operators and two capabilities.
use orcastork.Base.Dict.{get}
use orcastork.Base.{
  leb, ltb, ◌+◌, pair_eq, all, any, if◌then◌else◌, ◌||◌, string_eq, Bool, List, [], arith, contains,
  nat_beq, refl, true, ◌&&◌, ◌↔◌, ◌∷◌, ◌≡◌, nat_eq,
}
use orcastork.DataPoint.{Class}
use orcastork.Classes.{Classes}
use orcastork.Scheduling.{is_ready, reachable_pending}
use orcastork.Scheduling.Futures.{Turn, play, allowed}
use orcastork.Scheduling.Plans.{reachable_pending_sound}
use orcastork.Availability.{Registered, compute_available, may_activate}
use orcastork.Availability.Activation.{may_attempt, record_failure, fail_at, may_attempt-budget}
use orcastork.Availability.Monotone.{Included, available-exact}

-- The types 1 (abstract), 2 and 3 (leaves under 1) and 4; operator 10 makes type 1 of nothing, 11 makes
-- type 4 of type 1, 12 waits for the type 9, which nobody makes; capability 21 builds on 20.
abbrev needs : Class → List Class
needs t =
    if nat_beq t 11
    then 1 ∷ []
    else if nat_beq t 12
    then 9 ∷ []
    else if nat_beq t 20
    then 4 ∷ []
    else []

abbrev makes : Class → List Class
makes t = if nat_beq t 10 then 1 ∷ [] else if nat_beq t 11 then 4 ∷ [] else []

abbrev builds_on : Class → List Class
builds_on t = if nat_beq t 21 then 20 ∷ [] else []

abbrev below : Class → Class → Bool
below t u = nat_beq t u || ((nat_beq t 2 || nat_beq t 3) && nat_beq u 1)

abbrev pub flow : Classes
flow = record {
  issubclass = below;
  name = λ _. "C";
  registry = 2 ∷ 3 ∷ 4 ∷ [];
  is_abstract = λ t. nat_beq t 1;
  depends_on = needs;
  uses = λ _. [];
  produces = makes;
  requires = builds_on;
  operator_id = λ _. "op";
  capability_id = λ _. "cap";
}

abbrev pending : List Class
pending = 10 ∷ 11 ∷ 12 ∷ []

abbrev turns : List Turn
turns = record { operator = 10; emitted = 3 ∷ [] } ∷ []

reachable_pending_sound_example :
    (steps : List Turn) × (allowed flow [] pending steps [] ≡ true)
    × (all
          (λ operator. is_ready flow operator (play steps []) [])
          (reachable_pending flow [] pending [])
        ≡ true)
reachable_pending_sound_example = reachable_pending_sound flow [] pending []

abbrev registered : Registered
registered = ("layer", 21) ∷ ("base", 20) ∷ []

available-exact_example :
    (contains "layer" (compute_available flow registered ("base" ∷ "layer" ∷ []) (4 ∷ [])) ≡ true)
    ↔ ((capability : Class) × (contains ("layer", capability) registered ≡ true)
        × (may_activate flow registered
              ("base" ∷ "layer" ∷ [])
              (4 ∷ [])
              ("layer", capability)
              (compute_available flow registered ("base" ∷ "layer" ∷ []) (4 ∷ []))
            ≡ true))
available-exact_example = available-exact flow registered ("base" ∷ "layer" ∷ []) (4 ∷ []) "layer"

widened : Included ("base" ∷ []) ("base" ∷ "layer" ∷ [])
unfolding contains
widened t h = ground arith

-- The layer is found after its base, by a second pass.
layer_after_base :
    compute_available flow registered ("base" ∷ "layer" ∷ []) (4 ∷ []) ≡ "layer" ∷ "base" ∷ []
unfolding compute_available contains all any get
layer_after_base = refl

-- Two failures of three that are allowed: another attempt after the second one's cool-off.
may_attempt-budget_example :
    may_attempt "base" 9
      (record_failure 3 (λ n. n + 2) "base" 5 (fail_at 3 (λ n. n + 2) "base" (1 ∷ []) [])).1
    ≡ (ltb 2 3 && leb 8 9)
unfolding get
may_attempt-budget_example = may_attempt-budget 3 (λ n. n + 2) "base" (1 ∷ []) 5 9 [] refl
