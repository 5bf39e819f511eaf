-- ===== src/Orchestrator/Completions.antt =====
-- How the gathering loop of orcastork/orchestrator/orchestrator.py takes in a batch of signals: emissions
-- are merged, and each finished run is counted, audited, retried or settled.
use orcastork.Base.Dict.{get, put, delete}
use orcastork.Base.{
  raise, Bool, Error, List, Option, String, [], if◌then◌else◌, key_error, leb, none, ok, pure, some,
  ℕ, ◌+◌, ◌-◌, ◌>>=◌, ◌>>◌, ◌∷◌, ◌||◌, string_eq, true, false,
}
use orcastork.DataPoint.{Class}
use orcastork.Store
use orcastork.Mirror.{call}
use orcastork.Audit
use orcastork.Audit.Models.{
  AuditLogEntry, OperatorOutcome, operator_invoked, operator, succeeded, failed,
}
use orcastork.Graph.{record_run, is_tripped}
use orcastork.Rerun.{schedule}
use orcastork.Orchestrator.State.{
  Flow, Method, RetryPolicy, Running, Session, Settings, on_audit, on_mirror,
}
use orcastork.Orchestrator.Merging.{Emitted, count_one, merge_emissions, or_zero}

-- `_Completed`
pub record Completed : Type 0 where
  pub operator_id : String
  pub error : Option Error
  pub run_seconds : ℕ

pub data Signal : Type 0 where
  emitted : Emitted → Signal
  completed : Completed → Signal

abbrev pub emissions : List Signal → List Emitted
emissions [] = []
emissions (emitted e ∷ signals) = e ∷ emissions signals
emissions (completed c ∷ signals) = emissions signals

module _ (f : Flow) (self : Settings) where
  abbrev pub error_text : Option Error → Option String
  error_text none = none
  error_text (some e) = some (f.str_error e)

  abbrev pub run_entry :
      String → ℕ → OperatorOutcome → ℕ → ℕ → Option ℕ → Option String → ℕ → AuditLogEntry
  run_entry operator_id epoch outcome run_count attempt run_seconds error now = record {
    session_id = self.session_id;
    namespace_id = some self.namespace_id;
    epoch = epoch;
    timestamp = now;
    operator_id = some operator_id;
    kind = operator_invoked;
    info = operator (record {
      outcome = outcome;
      run_count = run_count;
      attempt = attempt;
      run_seconds = run_seconds;
      error = error;
    });
  }

  -- `_audit_operator_run`
  unfoldable pub audit_operator_run :
      String → ℕ → OperatorOutcome → ℕ → ℕ → Option ℕ → Option String → Method Unit
  audit_operator_run operator_id epoch outcome run_count attempt run_seconds error s =
      on_audit
        (Audit.append
          (run_entry operator_id epoch outcome run_count attempt run_seconds error s.now))
        s

  -- `_advance_watermark`
  unfoldable pub advance_watermark : String → ℕ → ℕ → Method Unit
  advance_watermark operator_id revision epoch = do
    on_mirror (call (Store.set_watermark operator_id revision epoch))
    λ s. (ok tt, record s { watermarks = put operator_id (some revision) s.watermarks })

  abbrev pub attempts_of : String → Session → ℕ
  attempts_of operator_id s = or_zero (get operator_id s.failed_attempts)

  -- Whether `_maybe_schedule_retry` finds the failure terminal.
  abbrev pub is_terminal : Option RetryPolicy → ℕ → Bool → Bool
  is_terminal none attempts tripped = true
  is_terminal (some policy) attempts tripped = leb policy.max_attempts attempts || tripped

  abbrev pub delay_of : Option RetryPolicy → String → ℕ → ℕ
  delay_of none operator_id attempts = 0
  delay_of (some policy) operator_id attempts = f.backoff_delay policy operator_id (attempts - 1)

  abbrev pub schedule_retry : String → Option Class → Method Bool
  schedule_retry operator_id none s = (raise key_error, s)
  schedule_retry operator_id (some op) s =
      if is_terminal (f.policy op).retry (attempts_of operator_id s)
        (is_tripped operator_id s.breaker)
      then (ok false, s)
      else (
        ok true,
        record s {
          retries =
              schedule operator_id
                (some (delay_of (f.policy op).retry operator_id (attempts_of operator_id s))) s.now
                s.retries;
        },
      )

  -- `_maybe_schedule_retry`, called once `failed_attempts` holds the operator's count
  unfoldable pub maybe_schedule_retry : String → Method Bool
  maybe_schedule_retry operator_id =
      schedule_retry operator_id (get operator_id self.operators_by_id)

  abbrev pub forget_attempts : String → Method Unit
  forget_attempts operator_id s =
      (ok tt, record s { failed_attempts = delete operator_id s.failed_attempts })

  abbrev pub note_attempt : String → Method Unit
  note_attempt operator_id s = (
    ok tt,
    record s {
      failed_attempts = put operator_id (attempts_of operator_id s + 1) s.failed_attempts;
    },
  )

  abbrev pub unless : Bool → Method Unit → Method Unit
  unless true op = pure tt
  unless false op = op

  -- The branches of `_record_completion` on the run's error: whether a retry is scheduled.
  unfoldable pub settle_attempt : String → Option Error → Method Bool
  unfolding maybe_schedule_retry
  settle_attempt operator_id none = do forget_attempts operator_id; pure false
  settle_attempt operator_id (some e) = do
    note_attempt operator_id
    retrying ← maybe_schedule_retry operator_id
    unless retrying (forget_attempts operator_id)
    pure retrying

  abbrev pub pop_running : String → Option Running → Method Running
  pop_running operator_id none s = (raise key_error, s)
  pop_running operator_id (some r) s = (ok r, record s { running = delete operator_id s.running })

  abbrev pub count_run : String → Method Unit
  count_run operator_id s = (
    ok tt,
    record s { runs = count_one operator_id s.runs; breaker = record_run operator_id s.breaker },
  )

  abbrev pub outcome_of : Option Error → OperatorOutcome
  outcome_of none = succeeded
  outcome_of (some e) = failed

  unfoldable pub record_completion : Completed → ℕ → Method Unit
  unfolding settle_attempt audit_operator_run advance_watermark
  record_completion signal epoch s =
      (do
        run ← pop_running signal.operator_id (get signal.operator_id s.running)
        count_run signal.operator_id
        retrying ← settle_attempt signal.operator_id signal.error
        λ t.
            audit_operator_run signal.operator_id epoch (outcome_of signal.error)
              (or_zero (get signal.operator_id t.runs)) (attempts_of signal.operator_id s + 1)
              (some signal.run_seconds) (error_text signal.error) t
        unless retrying (advance_watermark signal.operator_id run.observed_revision epoch))
        s

  unfoldable pub record_completions : List Signal → ℕ → Method Unit
  unfolding record_completion
  record_completions [] epoch = pure tt
  record_completions (emitted e ∷ signals) epoch = record_completions signals epoch
  record_completions (completed c ∷ signals) epoch = do
    record_completion c epoch
    record_completions signals epoch

  -- `_consume_batch`
  unfoldable pub consume_batch : List Signal → ℕ → Method Unit
  unfolding merge_emissions record_completions
  consume_batch signals epoch = do
    merge_emissions f self (emissions signals) epoch
    record_completions signals epoch
