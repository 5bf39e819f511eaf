-- ===== src/Availability/Activation.antt =====
-- The failures of an activator: when an activation may be attempted again. The jittered schedule of
-- cool-offs is an argument.
use orcastork.Base.Dict.{get-put_self, Dict, get, put}
use orcastork.Base.{
  Bool-cases, ap, inl, inr, refl, ◌∙◌, Bool, Exec, List, Option, String, [], arith, false,
  if◌then◌else◌, leb, length, ltb, none, not, ok, some, true, ℕ, ◌&&◌, ◌+◌, ◌-◌, ◌∷◌, ◌≡◌,
  string_eq,
}

pub record ActivationFailure : Type 0 where
  pub attempts : ℕ
  -- absent once the failure is terminal
  pub next_attempt_at : Option ℕ

abbrev pub Failures : Type 0
Failures = Dict String ActivationFailure

abbrev eligible : ℕ → Option ℕ → Bool
eligible now none = false
eligible now (some next_attempt_at) = leb next_attempt_at now

abbrev attemptable : ℕ → Option ActivationFailure → Bool
attemptable now none = true
attemptable now (some failure) = eligible now failure.next_attempt_at

-- `_may_attempt`
unfoldable pub may_attempt : String → ℕ → Failures → Bool
may_attempt capability_id now failures = attemptable now (get capability_id failures)

abbrev attempts_so_far : Option ActivationFailure → ℕ
attempts_so_far none = 0
attempts_so_far (some failure) = failure.attempts

-- `_record_failure`, but for the telemetry, the log and the terminal callback; it says whether the
-- failure is terminal
unfoldable pub record_failure : ℕ → (ℕ → ℕ) → String → ℕ → Exec Failures Bool
record_failure max_attempts cool_off capability_id now failures =
    let attempts = attempts_so_far (get capability_id failures) + 1 in
    if leb max_attempts attempts
    then (
      ok true,
      put capability_id (record { attempts = attempts; next_attempt_at = none }) failures,
    )
    else (
      ok false,
      put capability_id
          (record { attempts = attempts; next_attempt_at = some (now + cool_off (attempts - 1)) })
          failures,
    )

-- Failures of one capability, one after the other.
abbrev pub fail_at : ℕ → (ℕ → ℕ) → String → List ℕ → Failures → Failures
fail_at max_attempts cool_off capability_id [] failures = failures
fail_at max_attempts cool_off capability_id (now ∷ times) failures =
    fail_at max_attempts cool_off capability_id times
      (record_failure max_attempts cool_off capability_id now failures).1

less : (n : ℕ) → n + 1 - 1 ≡ n
less n = omega arith

module _ (max_attempts : ℕ) (cool_off : ℕ → ℕ) (capability_id : String) where
  abbrev counted : Failures → ℕ
  counted failures = attempts_so_far (get capability_id failures)

  terminal :
      (now : ℕ) (failures : Failures)
      → leb max_attempts (counted failures + 1) ≡ true
      → get capability_id (record_failure max_attempts cool_off capability_id now failures).1
        ≡ some (record { attempts = counted failures + 1; next_attempt_at = none })
  unfolding record_failure
  terminal now failures h = rw (h) (
      get-put_self capability_id
        (record { attempts = counted failures + 1; next_attempt_at = none }) failures)

  cooling :
      (now : ℕ) (failures : Failures)
      → leb max_attempts (counted failures + 1) ≡ false
      → get capability_id (record_failure max_attempts cool_off capability_id now failures).1
        ≡ some (record {
          attempts = counted failures + 1;
          next_attempt_at = some (now + cool_off (counted failures));
        })
  unfolding record_failure
  cooling now failures h =
      rw (h, less (counted failures))
        (get-put_self capability_id
          (record {
            attempts = counted failures + 1;
            next_attempt_at = some (now + cool_off (counted failures));
          })
          failures)

  record_failure-counted :
      (now : ℕ) (failures : Failures)
      → counted (record_failure max_attempts cool_off capability_id now failures).1
        ≡ counted failures + 1
  record_failure-counted now failures =
      elim (Bool-cases (leb max_attempts (counted failures + 1))) [
        | inl spent ↦ rw (terminal now failures spent) refl
        | inr left ↦ rw (cooling now failures left) refl
      ]

  fail_at-counted :
      (times : List ℕ) (failures : Failures)
      → counted (fail_at max_attempts cool_off capability_id times failures)
        ≡ counted failures + length times
  fail_at-counted [] failures = omega arith
  fail_at-counted (now ∷ times) failures = omega (
    arith,
    fail_at-counted times (record_failure max_attempts cool_off capability_id now failures).1,
    record_failure-counted now failures,
  )

  last_failure :
      (now later : ℕ) (failures : Failures)
      → may_attempt capability_id later
          (record_failure max_attempts cool_off capability_id now failures).1
        ≡ (not (leb max_attempts (counted failures + 1))
            && leb (now + cool_off (counted failures)) later)
  unfolding may_attempt
  last_failure now later failures = elim (Bool-cases (leb max_attempts (counted failures + 1))) [
    | inl spent ↦ rw (terminal now failures spent, spent) refl
    | inr left ↦ rw (cooling now failures left, left) refl
  ]

  spent_by :
      (k n later now : ℕ)
      → n ≡ k
      → (not (leb max_attempts (n + 1)) && leb (now + cool_off n) later)
        ≡ (ltb (k + 1) max_attempts && leb (now + cool_off k) later)
  spent_by k n later now e = rw (e) (ground arith)

  -- After some failures of a capability that had none, and one more, it may be attempted again exactly
  -- if they are fewer than `max_attempts` and the last one's cool-off has elapsed: so never again once
  -- the budget is spent.
  pub may_attempt-budget :
      (times : List ℕ) (now later : ℕ) (failures : Failures)
      → get capability_id failures ≡ none
      → may_attempt capability_id later
          (record_failure max_attempts cool_off capability_id now
            (fail_at max_attempts cool_off capability_id times failures)).1
        ≡ (ltb (length times + 1) max_attempts && leb (now + cool_off (length times)) later)
  may_attempt-budget times now later failures h =
      let n = counted (fail_at max_attempts cool_off capability_id times failures) in
      last_failure now later (fail_at max_attempts cool_off capability_id times failures)
      ∙ spent_by (length times) n later now
          (omega (arith, fail_at-counted times failures, ap attempts_so_far h))
