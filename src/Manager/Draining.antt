-- ===== src/Manager/Draining.antt =====
-- The loop of `_spawn_and_drain` in orcastork/manager/manager.py.
use orcastork.Base.{Exec, List, [], length, lock_held, ok, raise, some, true, ℕ, ◌<◌, ◌∷◌, ◌≡◌, ◌⊎◌}
use orcastork.DataPoint.{Class, DataPoint}
use orcastork.Inbox
use orcastork.Inbox.{Message, Parsers}
use orcastork.Rerun.{InvocationDelta}
use orcastork.Orchestrator.State.{Flow, Session, Settings}
use orcastork.Orchestrator.Planning.{CapabilityView}
use orcastork.Orchestrator.Aggregating.{Reach}
use orcastork.Orchestrator.Running.{OrchestratorResult}
use orcastork.Manager.{Spawn, Respawning, is_completed}
use orcastork.Manager.Handover.{IsMarked, respawn_with}

-- Nothing is left: no message, no row in the archive's buffer; and the session is marked complete.
abbrev pub IsDrained : Session → Type 0
IsDrained s = (s.inbox.messages ≡ []) × (s.archive.buffer ≡ []) × (s.lock.complete ≡ true)

module _ (f : Flow) (self : Settings) (p : Parsers) (consumes : Class → List Class)
    (perform : Class
      → List DataPoint
      → CapabilityView
      → InvocationDelta
      → ℕ
      → Exec Reach Unit) where
  -- One of the respawns raised LockHeldError, and left the session like this.
  abbrev pub StoodDown : List Spawn → Session → Type 0
  StoodDown [] t = ⊥
  StoodDown (given ∷ spawns) t =
      ((s : Session) × (respawn_with f self p consumes perform given s ≡ (raise lock_held, t)))
      ⊎ StoodDown spawns t

  abbrev pub HandsBack : List Spawn → Session → Type 0
  HandsBack spawns t = IsDrained t ⊎ StoodDown spawns t

  -- What the rest of the loop does with fewer spawns than it may make.
  abbrev Drains : ℕ → Respawning f self p consumes perform → Type 0
  Drains left next =
      (spawns : List Spawn) (result : OrchestratorResult) (s : Session) (final : OrchestratorResult)
      (t : Session)
      → length spawns < left
      → IsMarked result s
      → next spawns result s ≡ (ok (some final), t)
      → is_completed final.status ≡ true
      → HandsBack spawns t
