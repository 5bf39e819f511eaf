-- ===== src/Orchestrator/Running.antt =====
-- `_run` of orcastork/orchestrator/orchestrator.py: the lock is acquired, the session is gathered and
-- aggregated until the inbox is empty, marked complete, and the lock is released however it ends.
use orcastork.Base.{
  Bool, Error, Exec, List, Option, Result, String, [], contains, false, if◌then◌else◌, ltb, none,
  ok, pure, raise, some, true, ℕ, ◌>>=◌, ◌>>◌, ◌∷◌, ◌⊎◌, nat_eq, string_eq,
}
use orcastork.Base.Dict.{Dict, put}
use orcastork.DataPoint.{Class, DataPoint}
use orcastork.Inbox
use orcastork.Inbox.{Parsers}
use orcastork.Lock
use orcastork.Mirror
use orcastork.Graph.{build_graph}
use orcastork.Graph.Cycles.{find_cycles}
use orcastork.Rerun.{InvocationDelta}
use orcastork.Orchestrator.State.{
  DeadLetter, Flow, Method, Session, Settings, ValueCipher, on_inbox, on_lock, on_mirror,
}
use orcastork.Orchestrator.Merging.{append_coalesced_audits, merge}
use orcastork.Orchestrator.Planning.{CapabilityView}
use orcastork.Orchestrator.Draining.{is_stale}
use orcastork.Orchestrator.Setup.{
  audit_session_parked, detect_flow_drift, exclude_unpermitted_operators, flush_write_behind,
  prepare_redrive, cipher_or_none,
}
use orcastork.Orchestrator.Gathering.{Trace, deliver_each, gather, leave}
use orcastork.Orchestrator.Aggregating.{Reach, aggregate}

-- `SessionStatus`
pub data SessionStatus : Type 0 where
  completed superseded parked : SessionStatus

-- `OrchestratorResult`
pub record OrchestratorResult : Type 0 where
  pub status : SessionStatus
  pub epoch : ℕ
  pub operator_runs : Dict String ℕ
  pub dead_letters : List DeadLetter

module _ (f : Flow) (self : Settings) where
  abbrev pub cap_node : Class → Option ℕ → Dict String ℕ → Dict String ℕ
  cap_node node none caps = caps
  cap_node node (some cap) caps = put (f.classes.operator_id node) cap caps

  -- `issubclass(node, Operator)` holds of the gathering operators, and not of the capabilities.
  abbrev pub cap_cycle : List Class → List Class → Dict String ℕ → Dict String ℕ
  cap_cycle operators [] caps = caps
  cap_cycle operators (node ∷ nodes) caps =
      cap_cycle operators nodes
        (if contains node operators then cap_node node (f.policy node).max_cycles caps else caps)

  abbrev pub cap_cycles : List Class → List (List Class) → Dict String ℕ → Dict String ℕ
  cap_cycles operators [] caps = caps
  cap_cycles operators (cycle ∷ cycles) caps =
      cap_cycles operators cycles (cap_cycle operators cycle caps)

  -- `_build_circuit_breaker`
  unfoldable pub build_circuit_breaker : Method Unit
  unfolding build_graph find_cycles
  build_circuit_breaker s = (
    ok tt,
    record s {
      breaker = record {
        caps =
            cap_cycles s.gathering
              (find_cycles (build_graph f.classes s.gathering self.capabilities)) [];
        counts = [];
      };
    },
  )

  module _ (p : Parsers)
      (perform : Class
        → List DataPoint
        → CapabilityView
        → InvocationDelta
        → ℕ
        → Exec Reach Unit) where
    abbrev pub seed_merged : List DataPoint → ℕ → Method Unit
    seed_merged [] epoch = pure tt
    seed_merged (d ∷ ds) epoch = merge f self (d ∷ ds) none epoch

    abbrev pub set_flushed : Bool → Method Unit
    set_flushed flushed s = (ok tt, record s { flushed = flushed })

    -- What follows a `_gather` that parked.
    abbrev pub park : ℕ → Method (Option SessionStatus)
    park epoch = do
      append_coalesced_audits f self epoch
      audit_session_parked f self epoch
      pure (some parked)

    -- What follows the check of the inbox; `again` is the next turn of the loop.
    abbrev pub conclude : ℕ → Method (Option SessionStatus) → ℕ → Method (Option SessionStatus)
    conclude epoch again pending s =
        if ltb 0 pending
        then (do prepare_redrive f self; again) s
        else (do on_lock (Lock.mark_complete epoch); pure (some completed)) s

    abbrev pub check_inbox :
        Trace → ℕ → Method (Option SessionStatus) → Method (Option SessionStatus)
    check_inbox trace epoch again = do
      pending ← on_inbox Inbox.pending_count
      deliver_each trace.late
      conclude epoch again pending

    -- What follows a `_gather` that went quiescent.
    abbrev pub finalize : Trace → ℕ → Method (Option SessionStatus) → Method (Option SessionStatus)
    finalize trace epoch again = do
      aggregate f self perform epoch
      append_coalesced_audits f self epoch
      flush_write_behind f self
      set_flushed true
      deliver_each trace.closing
      check_inbox trace epoch again

    abbrev pub after_gather :
        Trace → ℕ → Method (Option SessionStatus) → Option Bool → Method (Option SessionStatus)
    after_gather trace epoch again none = pure none
    after_gather trace epoch again (some true) = park epoch
    after_gather trace epoch again (some false) = finalize trace epoch again

    -- `while True`, along one trace for each call of `_gather`
    unfoldable pub run_loop : List Trace → ℕ → Method (Option SessionStatus)
    unfolding gather aggregate deliver_each append_coalesced_audits prepare_redrive
        flush_write_behind audit_session_parked
    run_loop [] epoch = pure none
    run_loop (trace ∷ traces) epoch = do
      parks ← gather f self p trace epoch
      after_gather trace epoch (run_loop traces epoch) parks

    abbrev pub new_activator : Method Unit
    new_activator s = (ok tt, record s { activator = record { activated = []; failures = [] } })

    -- The body of the `try`.
    unfoldable pub run_session : List Trace → ℕ → Method (Option SessionStatus)
    unfolding run_loop exclude_unpermitted_operators detect_flow_drift build_circuit_breaker merge
        Mirror.rehydrate
    run_session traces epoch = do
      exclude_unpermitted_operators f self
      detect_flow_drift f self epoch
      new_activator
      on_mirror Mirror.rehydrate
      seed_merged self.seed epoch
      build_circuit_breaker
      run_loop traces epoch

    -- `except StaleEpochError`
    abbrev pub supersede : Result (Option SessionStatus) → Result (Option SessionStatus)
    supersede (ok status) = ok status
    supersede (raise e) = if is_stale e then ok (some superseded) else raise e

    abbrev pub backstop : Method Unit
    backstop s = if s.flushed then (ok tt, s) else flush_write_behind f self s

    -- The `finally`: the flush, and the release whether it raises or not.
    unfoldable pub clean_up : ℕ → Method Unit
    unfolding flush_write_behind
    clean_up epoch s =
        let (flush, t) = backstop s in
        let (release, u) = on_lock (Lock.release epoch) t in (leave flush release, u)

    abbrev pub as_result : SessionStatus → ℕ → Session → OrchestratorResult
    as_result status epoch s = record {
      status = status;
      epoch = epoch;
      operator_runs = s.runs;
      dead_letters = s.dead_letters;
    }

    -- The `finally` on the way out; a trace that ends within the `try` does not leave it.
    abbrev pub exit : ℕ → Result (Option SessionStatus) → Method (Option OrchestratorResult)
    exit epoch (ok none) s = (ok none, s)
    exit epoch (ok (some status)) s =
        let (c, t) = clean_up epoch s in (leave (ok (some (as_result status epoch s))) c, t)
    exit epoch (raise e) s = let (c, t) = clean_up epoch s in (leave (raise e) c, t)

    abbrev pub guarded : List Trace → ℕ → Method (Option OrchestratorResult)
    guarded traces epoch s =
        let (r, t) = run_session traces epoch (record s { flushed = false }) in
        exit epoch (supersede r) t

    abbrev pub with_cipher : Option ValueCipher ⊎ Error → Method Unit
    with_cipher provided s = (ok tt, record s { audit_cipher = cipher_or_none f self provided })

    -- `_run`; `provided` is what the provider of ciphers gives for the namespace
    unfoldable pub run :
        Option ValueCipher ⊎ Error → List Trace → Method (Option OrchestratorResult)
    unfolding run_session clean_up
    run provided traces s =
        (do
          epoch ← on_lock (Lock.acquire s.now self.lease_ttl)
          with_cipher provided
          guarded traces epoch)
          s
