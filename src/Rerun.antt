-- ===== src/Rerun.antt =====
-- orcastork/scheduling/debounce.py and orcastork/scheduling/watermark.py, the gate of
-- orcastork/adapters/memory/gate.py and the loop of orcastork/aggregation/retry.py: when something runs
-- again, and on which changes. `now` is what the injected clock reads.
pub mod Deltas
pub mod Windows
pub mod Attempts
use orcastork.Base.Dict.{Dict, delete, get, has, put}
use orcastork.Base.{
  Bool, Error, Exec, List, Option, Result, String, [], aggregator_dead_lettered, contains, continue,
  false, filter, if◌then◌else◌, leb, ltb, none, not, ok, pure, raise, some, suc, throw, true, zero,
  ℕ, ◌&&◌, ◌+◌, ◌>>=◌, ◌>>◌, string_eq,
}
use orcastork.DataPoint.{DataPoint}
use orcastork.Store.{ChangeSet}

abbrev pub rerun_eligible : Bool → Bool → Bool
rerun_eligible rerun_on_new_data has_relevant_new_data = rerun_on_new_data && has_relevant_new_data

-- `is_aggregator` and `interim_refresh` are the operator class's
abbrev pub window_defers_to_finalize : Bool → Bool → Bool → Bool
window_defers_to_finalize is_aggregator interim_refresh completion_satisfied =
    completion_satisfied && is_aggregator && interim_refresh

pub record DebounceController : Type 0 where
  pub default_window : ℕ
  pub due : Dict String ℕ

abbrev pub effective : ℕ → Option ℕ → ℕ
effective default_window none = default_window
effective default_window (some window) = window

unfoldable pub schedule : String → Option ℕ → ℕ → DebounceController → DebounceController
schedule operator_id window now d = record d {
  due = put operator_id (now + effective d.default_window window) d.due;
}

unfoldable pub is_scheduled : String → DebounceController → Bool
is_scheduled operator_id d = has operator_id d.due

unfoldable pub due_at : String → DebounceController → Option ℕ
due_at operator_id d = get operator_id d.due

abbrev reached : ℕ → Option ℕ → Bool
reached now none = false
reached now (some due) = leb due now

unfoldable pub is_due : String → ℕ → DebounceController → Bool
is_due operator_id now d = reached now (get operator_id d.due)

unfoldable pub clear : String → DebounceController → DebounceController
clear operator_id d = record d { due = delete operator_id d.due }

-- `InMemoryCooldownGate.try_acquire`, on the expiry times
abbrev cooling : ℕ → Option ℕ → Bool
cooling now none = false
cooling now (some expires_at) = ltb now expires_at

unfoldable pub try_acquire : String → ℕ → ℕ → Exec (Dict String ℕ) Bool
try_acquire key cooldown now expires_at =
    if cooling now (get key expires_at)
    then (ok false, expires_at)
    else (ok true, put key (now + cooldown) expires_at)

pub record InvocationDelta : Type 0 where
  pub added : List DataPoint
  pub updated : List DataPoint
  pub newly_available_caps : List String
  pub is_first_invocation : Bool

unfoldable pub compute_delta :
    ChangeSet → List DataPoint → List String → List String → Bool → InvocationDelta
compute_delta change_set current_set previous_caps available_caps is_first_invocation =
    let newly_available = filter (λ cap. not (contains cap previous_caps)) available_caps in
    if is_first_invocation
    then record {
      added = current_set;
      updated = [];
      newly_available_caps = newly_available;
      is_first_invocation = true;
    }
    else record {
      added = change_set.added;
      updated = change_set.updated;
      newly_available_caps = newly_available;
      is_first_invocation = false;
    }

-- `DataPointReader`: what the orchestrator's mirror and the store both offer
pub record DataPointReader (W : Type 0) : Type 0 where
  pub snapshot : String → Exec W (List DataPoint)
  pub change_set_since : String → ℕ → Exec W ChangeSet

module _ {W : Type 0} (store : DataPointReader W) where
  abbrev delta_since : String → Option ℕ → List String → List String → Exec W InvocationDelta
  delta_since session_id none available_caps previous_caps = do
    current ← store.snapshot session_id
    pure (
        compute_delta (record { added = []; updated = [] }) current previous_caps available_caps
          true)
  delta_since session_id (some watermark) available_caps previous_caps = do
    change ← store.change_set_since session_id watermark
    pure (compute_delta change [] previous_caps available_caps false)

  unfoldable pub operator_delta :
      String → Option ℕ → List String → List String → Exec W InvocationDelta
  unfolding compute_delta
  operator_delta session_id watermark available_caps previous_caps =
      delta_since session_id watermark available_caps previous_caps

-- `run_with_retry`: the operation, the hook and the sleep act on the same state; the schedule of delays
-- is an argument, since its jitter is drawn by `random`.
pub record Retry (S : Type 0) : Type 0 where
  pub operation : Exec S Unit
  pub on_attempt : ℕ → Option Error → Exec S Unit
  pub sleep : ℕ → Exec S Unit
  pub delays : ℕ → ℕ

module _ {S : Type 0} (r : Retry S) where
  abbrev pub error_of : Result (Unit {0}) → Option Error
  error_of (ok _) = none
  error_of (raise e) = some e

  abbrev pub settle : Result (Unit {0}) → Exec S Unit → Exec S Unit
  settle (ok _) again = pure tt
  settle (raise e) again = again

  -- One turn of the loop, the operation's own error caught; `again` is the rest.
  abbrev pub turn : ℕ → Exec S Unit → Exec S Unit
  turn attempt again s =
      let (result, s') = r.operation s in
      (r.on_attempt (attempt + 1) (error_of result) >> settle result again) s'

  -- `left` is how many attempts may follow this one
  unfoldable pub attempts : ℕ → ℕ → Exec S Unit
  attempts attempt zero = turn attempt (throw aggregator_dead_lettered)
  attempts attempt (suc left) =
      turn attempt (r.sleep (r.delays attempt) >> attempts (attempt + 1) left)

-- `max_attempts` is one at least, as `RetryPolicy` demands
abbrev pub run_with_retry : {S : Type 0} → Retry S → ℕ → Exec S Unit
run_with_retry r more = attempts r 0 more
