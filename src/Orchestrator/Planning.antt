-- ===== src/Orchestrator/Planning.antt =====
-- The plan of one pass of the gathering loop, `_plan` of orcastork/orchestrator/orchestrator.py: which
-- operators to launch now, and how long to wait for the next one.
use orcastork.Base.Dict.{Dict, get, has, keys, values}
use orcastork.Base.{
  Bool, List, Option, String, [], any, if◌then◌else◌, is_empty, map, none, not, ok, pure, some, ℕ,
  ◌++◌, ◌-◌, ◌||◌, is_some, string_eq, ◌>>=◌, ◌∷◌, true, false, ltb,
}
use orcastork.DataPoint.{Class, DataPoint}
use orcastork.Rerun.{
  InvocationDelta, operator_delta, is_scheduled, is_due, due_at, schedule, rerun_eligible,
  window_defers_to_finalize, DebounceController,
}
use orcastork.Rerun.Deltas.{mirror_reader}
use orcastork.Scheduling.{is_ready}
use orcastork.Graph.{is_tripped}
use orcastork.Orchestrator.State.{
  Flow, Method, Session, Settings, RerunOn, added_only, added_or_updated, on_mirror,
}

-- `_Runnable`
pub record Runnable : Type 0 where
  pub operator : Class
  pub delta : InvocationDelta
  pub is_rerun : Bool
  pub is_retry : Bool

-- `_GatherPlan`
pub record GatherPlan : Type 0 where
  pub runnable : List Runnable
  pub not_yet_run : List Class
  pub next_due_in : Option ℕ
  pub present_types : List Class
  pub available_types : List Class

-- The locals that the loop of `_plan` builds up.
pub record Scan : Type 0 where
  pub runnable : List Runnable
  pub not_yet_run : List Class
  pub soonest_due : Option ℕ

abbrev pub joined : Option (Option ℕ) → Option ℕ
joined none = none
joined (some watermark) = watermark

abbrev pub or_none : Option (List String) → List String
or_none none = []
or_none (some caps) = caps

-- `due if soonest_due is None else min(soonest_due, due)`, where there is one
abbrev pub sooner : Option ℕ → Option ℕ → Option ℕ
sooner none soonest = soonest
sooner (some due) none = some due
sooner (some due) (some soonest) = if ltb due soonest then some due else some soonest

abbrev pub new_data : RerunOn → InvocationDelta → List DataPoint
new_data added_only delta = delta.added
new_data added_or_updated delta = delta.added ++ delta.updated

abbrev pub wait_until : ℕ → Option ℕ → Option ℕ
wait_until now none = none
wait_until now (some soonest_due) = some (soonest_due - now)

-- `CapabilityView`: the available instances, by their classes
abbrev pub CapabilityView : Type 0
CapabilityView = Dict String Class

module _ (f : Flow) (self : Settings) where
  abbrev pub id_of : Class → String
  id_of = f.classes.operator_id

  -- `self._watermarks.get(operator.operator_id)`
  abbrev pub watermark_of : String → Session → Option ℕ
  watermark_of operator_id s = joined (get operator_id s.watermarks)

  -- `ran`
  abbrev pub has_run : Class → Session → Bool
  has_run operator s = has (id_of operator) s.runs || is_some (watermark_of (id_of operator) s)

  unfoldable pub has_relevant_new_data : Class → InvocationDelta → Bool
  has_relevant_new_data operator delta =
      if not (is_empty delta.newly_available_caps)
      then true
      else any
          (λ d.
            any (λ trigger. f.classes.issubclass d.cls trigger)
              (f.classes.depends_on operator ++ f.classes.uses operator))
          (new_data (f.policy operator).rerun_on delta)

  module _ (capabilities : CapabilityView) where
    unfoldable pub delta_for : Class → Method InvocationDelta
    delta_for operator s =
        on_mirror
          (operator_delta mirror_reader self.session_id (watermark_of (id_of operator) s)
            (keys capabilities) (or_none (get (id_of operator) s.prev_caps)))
          s

    -- `runnable.append(_Runnable(operator, delta, …))`
    abbrev pub launch : Class → Bool → Bool → Scan → Method Scan
    launch operator is_rerun is_retry scan = do
      delta ← delta_for operator
      pure (record scan {
        runnable =
            scan.runnable
            ++ record {
              operator = operator;
              delta = delta;
              is_rerun = is_rerun;
              is_retry = is_retry;
            }
              ∷ [];
      })

    abbrev pub wait_for : Option ℕ → Scan → Scan
    wait_for due scan = record scan { soonest_due = sooner due scan.soonest_due }

    -- `if not debounce.is_scheduled(…): debounce.schedule(…)`
    abbrev pub arm : Class → Session → DebounceController
    arm operator s =
        if is_scheduled (id_of operator) s.debounce
        then s.debounce
        else schedule (id_of operator) (f.policy operator).debounce s.now s.debounce

    abbrev pub armed : Class → Session → Session
    armed operator s = record s { debounce = arm operator s }

    module _ (completion_satisfied : Bool) where
      abbrev pub defers : Class → Bool
      defers operator =
          window_defers_to_finalize (f.is_aggregator operator) (f.interim_refresh operator)
            completion_satisfied

      -- What becomes of a rerun whose window is armed.
      abbrev pub within_window : Class → InvocationDelta → Scan → Method Scan
      within_window operator delta scan s =
          if is_due (id_of operator) s.now s.debounce
          then (
            ok (record scan {
              runnable =
                  scan.runnable
                  ++ record {
                    operator = operator;
                    delta = delta;
                    is_rerun = true;
                    is_retry = false;
                  }
                    ∷ [];
            }),
            s,
          )
          else if defers operator
          then (ok scan, s)
          else (ok (wait_for (due_at (id_of operator) s.debounce) scan), s)

      abbrev pub consider : Class → Scan → InvocationDelta → Method Scan
      consider operator scan delta s =
          if rerun_eligible (f.policy operator).rerun_on_new_data
            (has_relevant_new_data operator delta)
          then within_window operator delta scan (armed operator s)
          else (ok scan, s)

      abbrev pub rerun : Class → Scan → Method Scan
      rerun operator scan = do delta ← delta_for operator; consider operator scan delta

      module _ (present_types : List Class) where
        abbrev pub ready : Class → Bool
        ready operator = is_ready f.classes operator present_types (values capabilities)

        -- The body of the loop once the operator is known to be ready.
        abbrev pub plan_ready : Class → Scan → Method Scan
        plan_ready operator scan s =
            if is_scheduled (id_of operator) s.retries
            then (if is_due (id_of operator) s.now s.retries
                then launch operator false true scan s
                else (ok (wait_for (due_at (id_of operator) s.retries) scan), s))
            else if not (has_run operator s)
            then launch operator false false scan s
            else if (f.policy operator).rerun_on_new_data
            then rerun operator scan s
            else (ok scan, s)

        abbrev pub noted : Class → Scan → Session → Scan
        noted operator scan s =
            if has_run operator s
            then scan
            else record scan { not_yet_run = scan.not_yet_run ++ operator ∷ [] }

        unfoldable pub plan_one : Class → Scan → Method Scan
        unfolding delta_for has_relevant_new_data
        plan_one operator scan s =
            if has (id_of operator) s.running || is_tripped (id_of operator) s.breaker
            then (ok scan, s)
            else if ready operator
            then plan_ready operator (noted operator scan s) s
            else (ok (noted operator scan s), s)

        unfoldable pub plan_all : List Class → Scan → Method Scan
        unfolding plan_one
        plan_all [] scan = pure scan
        plan_all (operator ∷ operators) scan = do
          next ← plan_one operator scan
          plan_all operators next

    abbrev pub no_scan : Scan
    no_scan = record { runnable = []; not_yet_run = []; soonest_due = none }

    abbrev pub as_plan : List DataPoint → Scan → Method GatherPlan
    as_plan view scan s = (
      ok (record {
        runnable = scan.runnable;
        not_yet_run = scan.not_yet_run;
        next_due_in = wait_until s.now scan.soonest_due;
        present_types = map (λ d. d.cls) view;
        available_types = values capabilities;
      }),
      s,
    )

    -- `_plan`
    unfoldable pub plan : List DataPoint → Bool → Method GatherPlan
    unfolding plan_all
    plan view completion_satisfied s =
        (do
          scan ← plan_all completion_satisfied (map (λ d. d.cls) view) s.gathering no_scan
          as_plan view scan)
          s
