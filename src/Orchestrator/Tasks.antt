-- ===== src/Orchestrator/Tasks.antt =====
-- The task of one operator, `_run_one` of orcastork/orchestrator/orchestrator.py, by the signals that it puts
-- on the queue. What the operator's body yields, when, and how it ends, is the flow's.
use mathlib.Core.List.{map}
use orcastork.Base.{
  Bool, Error, List, Option, String, [], all, false, if◌then◌else◌, is_empty, is_some, leb, none,
  not, other_error, some, true, ℕ, ◌&&◌, ◌+◌, ◌++◌, ◌-◌, ◌∷◌, ◌≡◌,
}
use orcastork.DataPoint.{Emission, finalize}
use orcastork.Orchestrator.Merging.{Emitted}
use orcastork.Orchestrator.Completions.{Completed, Signal, completed, emissions, emitted}

-- One emission and when it is yielded.
pub record Yield : Type 0 where
  pub emission : Emission
  pub at : ℕ

-- How a body ends: it returns, it raises, or its task is cancelled from outside.
pub data Ending : Type 0 where
  returned : Ending
  raised : Error → Ending
  cancelled : Ending

-- A run of an operator: the error of its constructor, if it has one; what its body would yield; how, and when,
-- that would end; and when it starts.
pub record OperatorRun : Type 0 where
  pub unconstructed : Option Error
  pub yields : List Yield
  pub ending : Ending
  pub started : ℕ
  pub ended : ℕ

-- `TimeoutError` of `asyncio.wait_for`
abbrev pub timed_out : Error
timed_out = other_error

-- `validates` is the validation of a finalized data point: its error, or none; `timeout` is the operator's
-- `_timeout_for`.
module _ (validates : Emission → Option Error) (timeout : ℕ) (operator_id : String) where
  abbrev pub finalized : Yield → Emitted
  finalized y = record {
    operator_id = some operator_id;
    data_point = finalize y.emission operator_id y.at;
  }

  abbrev pub deadline : OperatorRun → ℕ
  deadline run = run.started + timeout

  abbrev pub streamed : Option Error → Yield → List Signal × Ending → List Signal × Ending
  streamed (some e) y rest = ([], raised e)
  streamed none y (signals, ending) = (emitted (finalized y) ∷ signals, ending)

  -- `wait_for(drain(instance), timeout)`, on what is left to yield
  unfoldable pub drain : OperatorRun → List Yield → List Signal × Ending
  unfolding finalize
  drain run [] = if leb run.ended (deadline run) then ([], run.ending) else ([], raised timed_out)
  drain run (y ∷ yields) =
      let rest = drain run yields in
      if leb y.at (deadline run)
      then streamed (validates y.emission) y rest
      else ([], raised timed_out)

  -- The body of the `try`.
  abbrev pub attempted : Option Error → List Signal × Ending → List Signal × Ending
  attempted (some e) rest = ([], raised e)
  attempted none rest = rest

  abbrev pub completion_of : OperatorRun → Option Error → Completed
  completion_of run error = record {
    operator_id = operator_id;
    error = error;
    run_seconds = run.ended - run.started;
  }

  abbrev pub completion : OperatorRun → Option Error → List Signal
  completion run error = completed (completion_of run error) ∷ []

  -- `except Exception`, which CancelledError is not, and what follows it.
  abbrev pub reported : OperatorRun → Ending → List Signal
  reported run returned = completion run none
  reported run (raised e) = completion run (some e)
  reported run cancelled = []

  -- `_run_one`
  unfoldable pub run_one : OperatorRun → List Signal
  unfolding drain
  run_one run =
      let (signals, ending) = attempted run.unconstructed (drain run run.yields) in
      signals ++ reported run ending

  -- The completions among the signals.
  abbrev pub completions : List Signal → List Completed
  completions [] = []
  completions (emitted e ∷ signals) = completions signals
  completions (completed c ∷ signals) = c ∷ completions signals

  -- An emission that is valid and comes in time.
  abbrev pub is_accepted : OperatorRun → Yield → Bool
  is_accepted run y = leb y.at (deadline run) && not (is_some (validates y.emission))

  -- What goes on after the emissions `after` may follow only if these are none, or stop the run.
  abbrev pub stops_at : OperatorRun → List Yield → Bool
  stops_at run [] = true
  stops_at run (y ∷ _) = not (is_accepted run y)

  -- The body came to its own end: it was constructed, all its emissions are accepted, and it is in time.
  abbrev pub runs_out : OperatorRun → Bool
  runs_out run =
      not (is_some run.unconstructed)
      && (all (is_accepted run) run.yields && leb run.ended (deadline run))

  abbrev pub is_cancelled : Ending → Bool
  is_cancelled returned = false
  is_cancelled (raised e) = false
  is_cancelled cancelled = true

  abbrev pub is_returned : Ending → Bool
  is_returned returned = true
  is_returned (raised e) = false
  is_returned cancelled = false

  -- The emissions of the signals are those of `before`, and the completion is one or none.
  abbrev Streams : OperatorRun → List Yield → List Signal × Ending → Type 0
  Streams run yields (signals, ending) =
      (before : List Yield) × (after : List Yield) × (yields ≡ before ++ after)
      × (signals ≡ map (λ y. emitted (finalized y)) before)
      × (all (is_accepted run) before ≡ true)
      × (stops_at run after ≡ true)
      × (is_cancelled ending ≡ (
          all (is_accepted run) yields
          && (leb run.ended (deadline run) && is_cancelled run.ending)))
      × (is_returned ending ≡ (
          all (is_accepted run) yields && (leb run.ended (deadline run) && is_returned run.ending)))

  -- The one completion of an operator, with or without an error; and none.
  abbrev pub Reports : OperatorRun → Bool → Bool → List Completed → Type 0
  Reports run no_report succeeded cs =
      if no_report
      then cs ≡ []
      else (error : Option Error) × (cs ≡ completion_of run error ∷ [])
        × (is_some error ≡ not succeeded)

  -- What the signals of a run say of it: `before` is what it emitted, and `after` what it did not.
  abbrev pub IsIsolated : OperatorRun → List Signal → Type 0
  IsIsolated run signals =
      (before : List Yield) × (after : List Yield) × (run.yields ≡ before ++ after)
      × (emissions signals ≡ map finalized before)
      × (all (is_accepted run) before ≡ true)
      × ((if is_some run.unconstructed then is_empty before else stops_at run after) ≡ true)
      × Reports run (runs_out run && is_cancelled run.ending)
          (runs_out run && is_returned run.ending) (completions signals)
