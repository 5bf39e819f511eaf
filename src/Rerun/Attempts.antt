-- ===== src/Rerun/Attempts.antt =====
-- How often a retried operation runs, on any script of its outcomes.
use orcastork.Base.{
  Bool, Exec, List, Result, [], aggregator_dead_lettered, arith, false, if◌then◌else◌, ok,
  other_error, pure, raise, refl, suc, true, zero, ℕ, ◌+◌, ◌∷◌, ◌≡◌, ◌≤◌,
}
use orcastork.Rerun.{Retry, attempts, run_with_retry}

-- The outcomes to come, and how many attempts were made.
abbrev pub Script : Type 0
Script = List (Result (Unit {0})) × ℕ

abbrev play : Exec Script Unit
play ([], n) = (raise other_error, ([], suc n))
play (outcome ∷ outcomes, n) = (outcome, (outcomes, suc n))

abbrev pub scripted : Retry Script
scripted = record {
  operation = play;
  on_attempt = λ _ _. pure tt;
  sleep = λ _. pure tt;
  delays = λ n. n;
}

abbrev pub succeeds : ℕ → List (Result (Unit {0})) → Bool
succeeds more [] = false
succeeds more (ok _ ∷ outcomes) = true
succeeds zero (raise e ∷ outcomes) = false
succeeds (suc more) (raise e ∷ outcomes) = succeeds more outcomes

-- How many attempts that takes.
abbrev pub used : ℕ → List (Result (Unit {0})) → ℕ
used zero outcomes = 1
used (suc more) [] = suc (used more [])
used (suc more) (ok _ ∷ outcomes) = 1
used (suc more) (raise e ∷ outcomes) = suc (used more outcomes)

attempts-run :
    (attempt more : ℕ) (outcomes : List (Result (Unit {0}))) (n : ℕ)
    → ((attempts scripted attempt more (outcomes, n)).0
        ≡ (if succeeds more outcomes then ok tt else raise aggregator_dead_lettered))
      × ((attempts scripted attempt more (outcomes, n)).1.1 ≡ n + used more outcomes)
unfolding attempts
attempts-run attempt zero [] n = (refl, omega arith)
attempts-run attempt zero (ok x ∷ outcomes) n = (refl, omega arith)
attempts-run attempt zero (raise e ∷ outcomes) n = (refl, omega arith)
attempts-run attempt (suc more) [] n =
    let (a, b) = attempts-run (attempt + 1) more [] (suc n) in (a, omega (arith, b))
attempts-run attempt (suc more) (ok x ∷ outcomes) n = (refl, omega arith)
attempts-run attempt (suc more) (raise e ∷ outcomes) n =
    let (a, b) = attempts-run (attempt + 1) more outcomes (suc n) in (a, omega (arith, b))

used-bound : (more : ℕ) (outcomes : List (Result (Unit {0}))) → used more outcomes ≤ suc more
used-bound zero outcomes = omega arith
used-bound (suc more) [] = omega (arith, used-bound more [])
used-bound (suc more) (ok x ∷ outcomes) = omega arith
used-bound (suc more) (raise e ∷ outcomes) = omega (arith, used-bound more outcomes)

-- On any script of outcomes, with a hook and a sleep that return: the retry returns exactly if one of
-- the allowed attempts succeeds, and raises the dead letter otherwise; it stops at the first success,
-- and makes `more + 1` attempts at most.
pub run_with_retry-outcome :
    (more : ℕ) (outcomes : List (Result (Unit {0})))
    → ((run_with_retry scripted more (outcomes, 0)).0
        ≡ (if succeeds more outcomes then ok tt else raise aggregator_dead_lettered))
      × ((run_with_retry scripted more (outcomes, 0)).1.1 ≡ used more outcomes)
      × (used more outcomes ≤ suc more)
run_with_retry-outcome more outcomes =
    let (a, b) = attempts-run 0 more outcomes 0 in (a, omega (arith, b), used-bound more outcomes)
