-- ===== src/Tests/LoopRuns.antt =====
-- Runs of the loop of orcastork/orchestrator/orchestrator.py.
use orcastork.Base.{
  Option, Error, invalid_data_point, nat_beq, if◌then◌else◌, other_error, ok, all, contains, true,
  ◌+◌, string_eq, refl, some, [], none, List, Exec, inl, ◌∷◌, ℕ, ◌≡◌,
}
use orcastork.DataPoint.{Emission, Class, DataPoint}
use orcastork.DataPoint.Hashing.{str}
use orcastork.Orchestrator.Completions.{emitted, completed}
use orcastork.Orchestrator.Tasks.{
  OperatorRun, returned, cancelled, timed_out, completion_of, finalized, run_one,
}
use orcastork.Base.Dict.{get, keys}
use orcastork.Classes.{Classes}
use orcastork.Catalog.{Catalog}
use orcastork.Availability.Refresh.{Activation, Activator, refresh}
use orcastork.Availability.Layers.{is_layered, refresh-layered}
use orcastork.Rerun.{InvocationDelta}
use orcastork.Orchestrator.Planning.{CapabilityView}
use orcastork.Orchestrator.Aggregating.{Reach}
use orcastork.Orchestrator.Gathering.{Trace}
use orcastork.Orchestrator.Running.{run}
use orcastork.Orchestrator.Leaving.{IsLeft, run-IsLeft}
use orcastork.Tests.OrchestratorRuns.{tested, of_fetch, parsers, self, session}
use orcastork.Tests.MirrorRuns.{seen}
use native.Mathlib.Omega.{arith}
use orcastork.Lock
use orcastork.Orchestrator.State.{Session}
use orcastork.Orchestrator.Waiting.{InboxWait, wait_for_inbox}
use orcastork.Orchestrator.Leases.{IsLeased, wakes_at, wait_for_inbox-IsLeased}
use orcastork.Orchestrator.Races.{finish, parks_at}

-- The lock was renewed at 5, and it is 7.
abbrev pub owner : Session
owner = record session {
  lock = record Lock.fresh {
    epoch_counter = 3;
    lease = some (record { epoch = 3; expires_at = 35 });
  };
}

-- An entry comes at 65, and the idle window ends at 67.
wait_for_inbox-IsLeased_example :
    (wait : InboxWait) × (t : Session) × (wait_for_inbox self (some 65) 200 3 100 5 (some 67) owner
      ≡ (ok (some wait), t))
    × IsLeased self 3 wait.last_renew t
    × (t.now ≡ finish 100 (some 67) (wakes_at self 3 100 (some 67) (some 65) owner) 7)
    × (wait.parked
        ≡ parks_at 100 (some 67) (wakes_at self 3 100 (some 67) (some 65) owner) (some 67))
wait_for_inbox-IsLeased_example =
    wait_for_inbox-IsLeased self 3 100 (some 67) (some 65) 200 5 owner (omega arith) (omega arith)
      (refl, omega arith, omega arith) (omega arith) refl (omega arith)

-- "fetch" runs once, and emits a point; meanwhile an entry is delivered.
abbrev trace : Trace
trace = record {
  wakes =
      record {
        elapsed = 2;
        delivered = ("e", "b") ∷ [];
        signals =
            emitted (of_fetch (seen "a" 9))
            ∷ completed (record { operator_id = "fetch"; error = none; run_seconds = 2 })
            ∷ [];
      }
      ∷ [];
  queued = [];
  cancelled = [];
  closing = ("c", "b") ∷ [];
  late = [];
}

-- The entry that came while the first run of the loop finalized re-drives it; another one comes after the
-- second check.
abbrev again : Trace
again = record { wakes = []; queued = []; cancelled = []; closing = []; late = ("d", "b") ∷ [] }

abbrev pub perform : Class → List DataPoint → CapabilityView → InvocationDelta → ℕ → Exec Reach Unit
perform aggregator view capabilities delta epoch reach = (ok tt, reach)

abbrev started : Session
started = record session { gathering = 10 ∷ []; running = [] }

run-IsLeft_example :
    IsLeft tested self parsers perform
      (trace ∷ again ∷ [])
      1
      (run tested self parsers perform (inl none) (trace ∷ again ∷ []) started)
unfolding Lock.is_live
run-IsLeft_example =
    run-IsLeft tested self parsers perform (inl none) (trace ∷ again ∷ []) started refl

-- "layer" requires "base", which is activated already, and the activation of "flaky" fails.
abbrev layered : Classes
layered = record (tested.classes) {
  requires = λ t. if nat_beq t 21 then 20 ∷ [] else [];
  depends_on = λ _. [];
  issubclass = nat_beq;
}

abbrev activation : Activation Unit
activation = record {
  registered = ("layer", 21) ∷ ("base", 20) ∷ ("flaky", 22) ∷ [];
  namespace_id = "n";
  max_attempts = 3;
  cool_off = λ _ n. n + 1;
  construct = λ _. none;
  activate = λ now t _ _. if nat_beq t 22 then some other_error else none;
  on_terminal_failure = λ _ _ s. (ok tt, s);
}

abbrev catalog : Catalog
catalog = record {
  permitted = ("n", "layer" ∷ "base" ∷ "flaky" ∷ []) ∷ [];
  stored = [];
  preferred = [];
  operators = [];
}

abbrev refreshed : Activator
refreshed =
    (refresh layered activation [] catalog 5
      (record { activated = ("base", 20) ∷ []; failures = [] }, tt)).1.0

refresh-layered_example :
    (is_layered layered activation.registered refreshed.activated ≡ true)
    × (all (λ i. contains i (keys refreshed.activated)) ("base" ∷ []) ≡ true)
unfolding refresh all contains get
refresh-layered_example =
    refresh-layered layered activation [] catalog 5
      (record { activated = ("base", 20) ∷ []; failures = [] }, tt) refl

-- The second of three emissions is not valid.
abbrev emission : ℕ → Emission
emission t = record { leaf_type = t; type = "url"; value = str "a" }

abbrev validates : Emission → Option Error
validates e = if nat_beq e.leaf_type 2 then some invalid_data_point else none

abbrev operator_run : OperatorRun
operator_run = record {
  unconstructed = none;
  yields =
      record { emission = emission 1; at = 5 }
      ∷ record { emission = emission 2; at = 6 }
      ∷ record { emission = emission 1; at = 7 }
      ∷ [];
  ending = returned;
  started = 4;
  ended = 8;
}

-- The invalid emission fails the run; a shorter timeout stops it before; and a run that is cancelled
-- before the timeout leaves no completion.
invalid_reported :
    run_one validates 10 "fetch" operator_run
    ≡ emitted (finalized validates 10 "fetch" (record { emission = emission 1; at = 5 }))
      ∷ completed (completion_of validates 10 "fetch" operator_run (some invalid_data_point))
      ∷ []
unfolding run_one
invalid_reported = refl

timeout_reported :
    run_one validates 0 "fetch" operator_run
    ≡ completed (completion_of validates 0 "fetch" operator_run (some timed_out)) ∷ []
unfolding run_one
timeout_reported = refl

cancelled_silent :
    run_one validates 10 "fetch" (record operator_run { yields = []; ending = cancelled }) ≡ []
unfolding run_one
cancelled_silent = refl
