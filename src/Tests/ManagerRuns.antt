-- ===== src/Tests/ManagerRuns.antt =====
-- Runs of orcastork/manager/manager.py.
use orcastork.Lock
use orcastork.Mirror
use orcastork.Mirror.Reads
use orcastork.Store
use orcastork.Audit
use orcastork.Archive
use orcastork.Catalog
use orcastork.Base.{List, [], ℕ, false, none, inl, ◌∷◌}
use orcastork.DataPoint.{Class}
use orcastork.Inbox
use orcastork.Orchestrator.State.{Session, Settings}
use orcastork.Orchestrator.Gathering.{Trace}
use orcastork.Orchestrator.Running.{OrchestratorResult, completed}
use orcastork.Manager.{Spawn, spawn_and_drain}
use orcastork.Tests.OrchestratorRuns.{tested, self, session, parsers, message}
use orcastork.Tests.LoopRuns.{perform}

abbrev consumes : Class → List Class
consumes _ = []

-- A flow without operators, and a session with an entry in its inbox.
abbrev small : Settings
small = record self { operators = [] }

-- An entry comes between the first run's check of its inbox and the release of its lock.
abbrev leaving_one : Trace
leaving_one = record {
  wakes = [];
  queued = [];
  cancelled = [];
  closing = [];
  late = ("x", "b") ∷ [];
}

abbrev trace : Trace
trace = record { wakes = []; queued = []; cancelled = []; closing = []; late = [] }

abbrev waiting : Session
waiting = record session { inbox = record Inbox.fresh { messages = message "e" "b" false 0 ∷ [] } }

abbrev spawned : Trace → Spawn
spawned t = record { overtaken = false; provided = inl none; traces = t ∷ []; stragglers = [] }

abbrev result : ℕ → OrchestratorResult
result epoch = record { status = completed; epoch = epoch; operator_runs = []; dead_letters = [] }

abbrev after : Session
after =
    (spawn_and_drain tested small parsers consumes perform
      (spawned leaving_one ∷ spawned trace ∷ []) [] false waiting).1
