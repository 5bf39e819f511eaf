-- ===== src/Manager.antt =====
-- orcastork/manager/manager.py: the supervisor of one session, which starts, resumes, re-opens and feeds
-- it. What the other processes do comes with each spawn (`Spawn`).
pub mod Handover
pub mod Draining
use orcastork.Mirror.{Mirror}
use orcastork.Graph.{build_graph}
use orcastork.Graph.Cycles.{validate_acyclic_or_bounded}
use orcastork.Base.{continue, contains, nat_eq}
use orcastork.Base.{
  Bool, Error, Exec, List, Option, Result, String, [], filter, if◌then◌else◌, lock_held, nat_beq,
  none, not, ok, pure, raise, scheduling_gate_blocked, some, ℕ, suc, zero, ◌+◌, ◌>>=◌, ◌>>◌, ◌∷◌,
  ◌||◌, ◌⊎◌, ◌&&◌, true, false,
}
use orcastork.DataPoint.{Class, DataPoint}
use orcastork.Inbox
use orcastork.Inbox.{Parsers}
use orcastork.Lock
use orcastork.Rerun.{InvocationDelta}
use orcastork.Orchestrator.State.{Flow, Method, Session, Settings, ValueCipher, on_inbox, on_lock}
use orcastork.Orchestrator.Planning.{CapabilityView}
use orcastork.Orchestrator.Setup.{clear_contributions, prune_to_consumed_closure}
use orcastork.Orchestrator.Gathering.{Trace, deliver_each}
use orcastork.Orchestrator.Aggregating.{Reach}
use orcastork.Orchestrator.Running.{
  OrchestratorResult, SessionStatus, completed, superseded, parked, run,
}

-- What goes with one spawn: whether another process acquires the lock before it does; what the provider of
-- ciphers gives; the run's traces; and the entries that others append once it has released the lock, before
-- its inbox is probed.
pub record Spawn : Type 0 where
  pub overtaken : Bool
  pub provided : Option ValueCipher ⊎ Error
  pub traces : List Trace
  pub stragglers : List (String × String)

-- The redrive of a deferred recheck.
pub data Redrive : Type 0 where
  resuming reopening_or_resuming : Redrive

-- A call's outcome: `none` if the spawns or a trace end before it does.
abbrev pub Outcome : Type 0 → Type 0
Outcome A = Method (Option A)

abbrev pub max_backstop_respawns : ℕ
max_backstop_respawns = 8

abbrev pub is_lock_held : Error → Bool
is_lock_held lock_held = true
is_lock_held _ = false

abbrev pub is_completed : SessionStatus → Bool
is_completed completed = true
is_completed superseded = false
is_completed parked = false

abbrev pub unscheduled :
    Option (Option OrchestratorResult) → Option (Option OrchestratorResult × Option Redrive)
unscheduled none = none
unscheduled (some returned) = some (returned, none)

module _ (f : Flow) (self : Settings) (p : Parsers) (consumes : Class → List Class)
    (perform : Class
      → List DataPoint
      → CapabilityView
      → InvocationDelta
      → ℕ
      → Exec Reach Unit) where
  abbrev pub is_gathering : Class → Bool
  is_gathering operator = not (f.is_aggregator operator) || f.interim_refresh operator

  abbrev pub new_mirror : Mirror
  new_mirror = record {
    session_id = self.session_id;
    entries = [];
    revision = 0;
    rehydrated_at = 0;
    baselines = [];
    hydrated = false;
  }

  -- `Orchestrator(…)`: the fields that a new orchestrator starts with.
  abbrev pub new_orchestrator : Bool → Session → Session
  new_orchestrator fresh_deadline s = prune_to_consumed_closure f self consumes (record s {
    coalesced_audits = [];
    reobserved_audits = [];
    undeclared_emissions = [];
    fresh_deadline = fresh_deadline;
    dead_letters = [];
    gathering = filter is_gathering self.operators;
    aggregators = filter f.is_aggregator self.operators;
    runs = [];
    failed_attempts = [];
    prev_caps = [];
    watermarks = [];
    activated_seen = [];
  })

  abbrev pub overtake : Bool → Method Unit
  overtake false s = (ok tt, s)
  overtake true s = let (r, t) = on_lock (Lock.acquire s.now self.lease_ttl) s in (ok tt, t)

  -- The check at the end of the constructor.
  abbrev pub validated : Session → Result (Unit {0})
  validated s =
      validate_acyclic_or_bounded (λ node. contains node self.operators)
        (λ operator. (f.policy operator).max_cycles)
        (build_graph f.classes s.gathering self.capabilities)

  abbrev pub run_if : Result (Unit {0}) → Spawn → List DataPoint → Outcome OrchestratorResult
  run_if (raise e) given seed s = (raise e, s)
  run_if (ok _) given seed s =
      run f (record self { seed = seed }) p perform given.provided given.traces s

  -- `_spawn`
  unfoldable pub spawn : Spawn → List DataPoint → Bool → Outcome OrchestratorResult
  unfolding run prune_to_consumed_closure build_graph validate_acyclic_or_bounded
  spawn given seed fresh_deadline = do
    overtake given.overtaken
    λ s.
        run_if (validated (new_orchestrator fresh_deadline s)) given seed
          (new_orchestrator fresh_deadline s)

  abbrev pub own_aggregators : List Class
  own_aggregators = filter f.is_aggregator self.operators

  -- `_respawn_to_drain`
  unfoldable pub respawn_to_drain : Spawn → Outcome OrchestratorResult
  unfolding spawn clear_contributions
  respawn_to_drain given = do
    on_lock Lock.clear_complete
    clear_contributions f self own_aggregators
    spawn given [] true

  abbrev pub Respawning : Type 0
  Respawning = List Spawn → OrchestratorResult → Outcome OrchestratorResult

  -- `except LockHeldError: return result`, around a respawn; `next` is the rest of the loop
  abbrev pub after_respawn :
      OrchestratorResult
      → (OrchestratorResult → Outcome OrchestratorResult)
      → Result (Option OrchestratorResult)
      → Outcome OrchestratorResult
  after_respawn result next (ok none) s = (ok none, s)
  after_respawn result next (ok (some again)) s = next again s
  after_respawn result next (raise e) s =
      if is_lock_held e then (ok (some result), s) else (raise e, s)

  abbrev pub respawned : List Spawn → OrchestratorResult → Respawning → Outcome OrchestratorResult
  respawned [] result next s = (ok none, s)
  respawned (given ∷ spawns) result next s =
      let (r, t) =
        (do outcome ← respawn_to_drain given; deliver_each given.stragglers; pure outcome) s in
      after_respawn result (next spawns) r t

  abbrev pub probe : List Spawn → OrchestratorResult → Respawning → Outcome OrchestratorResult
  probe spawns result next s =
      if not (is_completed result.status)
      then (ok (some result), s)
      else (do
        pending ← on_inbox Inbox.pending_count
        λ t. if nat_beq pending 0 then (ok (some result), t) else respawned spawns result next t)
          s

  -- The loop `for _ in range(max_backstop_respawns)`, on what is left of it.
  unfoldable pub drain_stragglers : ℕ → List Spawn → OrchestratorResult → Outcome OrchestratorResult
  unfolding respawn_to_drain deliver_each
  drain_stragglers zero spawns result s = (ok (some result), s)
  drain_stragglers (suc left) spawns result s = probe spawns result (drain_stragglers left) s

  abbrev pub drain_after : List Spawn → Option OrchestratorResult → Outcome OrchestratorResult
  drain_after spawns none s = (ok none, s)
  drain_after spawns (some result) s = drain_stragglers max_backstop_respawns spawns result s

  -- `_spawn_and_drain`
  unfoldable pub spawn_and_drain : List Spawn → List DataPoint → Bool → Outcome OrchestratorResult
  unfolding spawn drain_stragglers deliver_each
  spawn_and_drain [] seed fresh_deadline s = (ok none, s)
  spawn_and_drain (given ∷ spawns) seed fresh_deadline s =
      (do
        outcome ← spawn given seed fresh_deadline
        deliver_each given.stragglers
        drain_after spawns outcome)
        s

  -- What a call returns: `none` beyond the traces, and otherwise a result or Python's `None`.
  abbrev pub Call : Type 0
  Call = Outcome (Option OrchestratorResult)

  abbrev pub stand_down : Call
  stand_down s = (ok (some none), s)

  abbrev pub returned : Option OrchestratorResult → Call
  returned none s = (ok none, s)
  returned (some result) s = (ok (some (some result)), s)

  -- `except LockHeldError: return None`
  abbrev pub taken : Result (Option OrchestratorResult) → Call
  taken (ok outcome) s = returned outcome s
  taken (raise e) s = if is_lock_held e then (ok (some none), s) else (raise e, s)

  abbrev pub unless_overtaken : Outcome OrchestratorResult → Call
  unless_overtaken m s = let (r, t) = m s in taken r t

  -- `start_session`; `gate` is the gate's answer, and there is none without a gate
  abbrev pub admits : Option Bool → Bool
  admits none = true
  admits (some admitted) = admitted

  unfoldable pub start_session :
      Option Bool → List Spawn → List DataPoint → Outcome OrchestratorResult
  unfolding spawn_and_drain
  start_session gate spawns seed s =
      if admits gate
      then spawn_and_drain spawns seed false s
      else (raise scheduling_gate_blocked, s)

  unfoldable pub is_orphaned : Session → Bool
  unfolding Lock.is_live
  is_orphaned s =
      not s.lock.complete
      && (not (nat_beq s.lock.epoch_counter 0) && not (Lock.is_live s.now s.lock))

  -- `resume`, with its guard: one call at a time
  unfoldable pub resume : List Spawn → Call
  unfolding spawn_and_drain Lock.is_live
  resume spawns s =
      if s.lock.complete
      then stand_down s
      else if nat_beq s.lock.epoch_counter 0
      then stand_down s
      else if Lock.is_live s.now s.lock
      then stand_down s
      else unless_overtaken (spawn_and_drain spawns [] false) s

  unfoldable pub reopen : List Spawn → Call
  unfolding spawn_and_drain clear_contributions Lock.is_live
  reopen spawns s =
      if not s.lock.complete
      then stand_down s
      else if Lock.is_live s.now s.lock
      then stand_down s
      else (do
        on_lock Lock.clear_complete
        clear_contributions f self own_aggregators
        unless_overtaken (spawn_and_drain spawns [] true))
          s

  -- `_reopen_or_resume`
  unfoldable pub reopen_or_resume : List Spawn → Call
  unfolding reopen resume
  reopen_or_resume spawns s = if s.lock.complete then reopen spawns s else resume spawns s

  -- The redrive of the recheck that a delivery to a live owner schedules.
  abbrev pub redrive_of : Bool → Redrive
  redrive_of true = reopening_or_resuming
  redrive_of false = resuming

  -- What `deliver` returns, and the recheck that it schedules.
  abbrev pub Delivery : Type 0
  Delivery = Outcome (Option OrchestratorResult × Option Redrive)

  abbrev pub without_recheck : Call → Delivery
  without_recheck call = do outcome ← call; pure (unscheduled outcome)

  abbrev pub when_complete : Bool → List Spawn → Call
  when_complete true spawns = reopen spawns
  when_complete false spawns = stand_down

  abbrev pub delivered_to : Bool → List Spawn → Delivery
  delivered_to reopen_if_complete spawns s =
      if s.lock.complete
      then without_recheck (when_complete reopen_if_complete spawns) s
      else if Lock.is_live s.now s.lock
      then (ok (some (none, some (redrive_of reopen_if_complete))), s)
      else without_recheck (resume spawns) s

  -- `deliver` of an entry with its id and payload
  unfoldable pub deliver : String → String → Bool → List Spawn → Delivery
  unfolding reopen resume Lock.is_live
  deliver entry_id payload reopen_if_complete spawns = do
    _ ← on_inbox (Inbox.append_serialized entry_id payload)
    delivered_to reopen_if_complete spawns

  -- The recheck, once its time has come; an error of its redrive is logged.
  abbrev pub redriven : Redrive → List Spawn → Call
  redriven resuming spawns = resume spawns
  redriven reopening_or_resuming spawns = reopen_or_resume spawns

  abbrev pub settled : Result (Option (Option OrchestratorResult)) → Option (Unit {0})
  settled (ok none) = none
  settled (ok (some _)) = some tt
  settled (raise e) = some tt

  unfoldable pub recheck : Redrive → ℕ → List Spawn → Outcome Unit
  unfolding reopen_or_resume resume
  recheck redrive redelivery_recheck_seconds spawns s =
      let (r, t) =
        redriven redrive spawns (record s { now = s.now + redelivery_recheck_seconds }) in
      (ok (settled r), t)
