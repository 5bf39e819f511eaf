-- ===== src/Orchestrator/Aggregating.antt =====
-- The aggregation phase of orcastork/orchestrator/orchestrator.py: each ready aggregator that has not
-- contributed yet runs under bounded retries, and is marked or dead-lettered.
use orcastork.Base.{
  Bool, Error, Exec, List, Option, Result, String, [], aggregator_dead_lettered, false, filter,
  if◌then◌else◌, map, none, not, ok, pure, raise, some, true, ℕ, ◌++◌, ◌+◌, ◌-◌, ◌>>=◌, ◌>>◌, ◌∷◌,
}
use Prim.Native.String.{◌++◌ as text_append}
use orcastork.Base.Dict.{Dict, keys, values}
use orcastork.DataPoint.{Class, DataPoint}
use orcastork.DataPoint.Hashing.{text_leb}
use orcastork.Classes.{any_subclass}
use orcastork.Store.{SessionState}
use orcastork.Mirror.Reads
use orcastork.Lock
use orcastork.Durable
use orcastork.Durable.{DurableState}
use orcastork.Audit.Models.{dead_lettered, skipped}
use orcastork.Rerun.{InvocationDelta, Retry, operator_delta, run_with_retry}
use orcastork.Rerun.Deltas.{mirror_reader}
use orcastork.Scheduling.{is_ready}
use orcastork.Orchestrator.State.{Flow, Method, Session, Settings, on_durable, on_lock, on_mirror}
use orcastork.Orchestrator.Merging.{count_one}
use orcastork.Orchestrator.Planning.{CapabilityView}
use orcastork.Orchestrator.Completions.{audit_operator_run, error_text, outcome_of}
use orcastork.Orchestrator.Draining.{is_stale}
use orcastork.Orchestrator.Setup.{refresh_capabilities}

-- What the body of an aggregator may change: the durable store, through its helpers; the effect marks of
-- the store; and the clock, as it takes its time.
pub record Reach : Type 0 where
  pub durable : DurableState
  pub sessions : Dict String SessionState
  pub now : ℕ

-- `sorted(names)` and `", ".join(names)`
unfoldable pub insert_name : String → List String → List String
insert_name a [] = a ∷ []
insert_name a (b ∷ names) =
    let rest = insert_name a names in if text_leb a b then a ∷ b ∷ names else b ∷ rest

unfoldable pub sorted_names : List String → List String
unfolding insert_name
sorted_names [] = []
sorted_names (a ∷ names) = insert_name a (sorted_names names)

unfoldable pub join_names : List String → String
join_names [] = ""
join_names (a ∷ []) = a
join_names (a ∷ b ∷ names) = text_append a (text_append ", " (join_names (b ∷ names)))

abbrev pub is_dead_letter : Error → Bool
is_dead_letter aggregator_dead_lettered = true
is_dead_letter _ = false

-- The failure that `_aggregate` raises again: a fencing signal, or the first one.
abbrev pub fenced_or : Error → List Error → Error
fenced_or first [] = first
fenced_or first (e ∷ failures) = if is_stale e then e else fenced_or first failures

abbrev pub raise_failures : List Error → Result (Unit {0})
raise_failures [] = ok tt
raise_failures (e ∷ failures) = raise (fenced_or e (e ∷ failures))

-- The body of an aggregator, which is the flow's, on one attempt.
module _ (f : Flow) (self : Settings)
    (perform : Class
      → List DataPoint
      → CapabilityView
      → InvocationDelta
      → ℕ
      → Exec Reach Unit) where
  abbrev pub id_of : Class → String
  id_of = f.classes.operator_id

  -- `attempt` of `_run_aggregator`, with `last_run_seconds` beside the session
  abbrev pub attempt :
      Class → List DataPoint → CapabilityView → InvocationDelta → ℕ → Exec (Session × ℕ) Unit
  attempt aggregator view capabilities delta epoch (s, _) =
      let (r, reach) =
        perform aggregator view capabilities delta epoch
          (record { durable = s.durable; sessions = s.world.sessions; now = s.now }) in
      (
        r,
        (
          record s {
            durable = reach.durable;
            world = record s.world { sessions = reach.sessions };
            now = reach.now;
          },
          reach.now - s.now,
        ),
      )

  abbrev pub on_session : Method Unit → Exec (Session × ℕ) Unit
  on_session op (s, seconds) = let (r, t) = op s in (r, (t, seconds))

  abbrev pub renew : ℕ → Method Unit
  renew epoch s = on_lock (Lock.renew s.now self.lease_ttl epoch) s

  -- `after_attempt`
  abbrev pub after_attempt : Class → ℕ → ℕ → Option Error → Exec (Session × ℕ) Unit
  after_attempt aggregator epoch attempt_number error (s, seconds) =
      on_session
        (do
          audit_operator_run f self (id_of aggregator) epoch (outcome_of f self error) 1
              attempt_number (some seconds) (error_text f self error)
          renew epoch)
        (s, seconds)

  abbrev pub sleep : ℕ → Exec (Session × ℕ) Unit
  sleep delay (s, seconds) = (ok tt, (record s { now = s.now + delay }, seconds))

  abbrev pub retrying :
      Class → List DataPoint → CapabilityView → InvocationDelta → ℕ → Retry (Session × ℕ)
  retrying aggregator view capabilities delta epoch = record {
    operation = attempt aggregator view capabilities delta epoch;
    on_attempt = after_attempt aggregator epoch;
    sleep = sleep;
    delays = f.backoff_delay self.retry_policy (id_of aggregator);
  }

  abbrev pub dead_letter : Class → ℕ → Method Unit
  dead_letter aggregator epoch = do
    λ s. (
      ok tt,
      record s {
        dead_letters =
            s.dead_letters
            ++ record {
              operator_id = id_of aggregator;
              reason = f.str_error aggregator_dead_lettered;
            }
              ∷ [];
      },
    )
    audit_operator_run f self (id_of aggregator) epoch dead_lettered 1
        self.retry_policy.max_attempts none (error_text f self (some aggregator_dead_lettered))

  abbrev pub contributed : Class → ℕ → Method Unit
  contributed aggregator epoch = do
    _ ← on_durable (Durable.mark_contribution self.session_id (id_of aggregator) epoch)
    λ s. (ok tt, record s { runs = count_one (id_of aggregator) s.runs })

  abbrev pub disposed : Class → ℕ → Result (Unit {0}) → Method Unit
  disposed aggregator epoch (ok _) s = contributed aggregator epoch s
  disposed aggregator epoch (raise e) s =
      if is_dead_letter e then dead_letter aggregator epoch s else (raise e, s)

  abbrev pub retried : Class → List DataPoint → CapabilityView → ℕ → InvocationDelta → Method Unit
  retried aggregator view capabilities epoch delta s =
      let (r, t) =
        run_with_retry (retrying aggregator view capabilities delta epoch)
          (self.retry_policy.max_attempts - 1) (s, 0) in
      disposed aggregator epoch r t.0

  -- `_run_aggregator`
  unfoldable pub run_aggregator : Class → List DataPoint → CapabilityView → ℕ → Method Unit
  unfolding audit_operator_run operator_delta orcastork.Rerun.attempts count_one
  run_aggregator aggregator view capabilities epoch = do
    delta ← on_mirror (operator_delta mirror_reader self.session_id none (keys capabilities) [])
    retried aggregator view capabilities epoch delta

  -- `_report_skipped_aggregator`
  unfoldable pub report_skipped_aggregator : Class → ℕ → List Class → List Class → Method Unit
  unfolding sorted_names join_names
  report_skipped_aggregator aggregator epoch present available =
      audit_operator_run f self (id_of aggregator) epoch skipped 0 1 none (
        some (
          text_append "dependencies never materialized: " (
            join_names (
              sorted_names (
                map f.classes.name (
                  filter (λ t. not (any_subclass f.classes present t))
                    (f.classes.depends_on aggregator)))
              ++ sorted_names (
                  map f.classes.name (
                    filter (λ t. not (any_subclass f.classes available t))
                      (f.classes.requires aggregator)))))))

  abbrev pub unless_marked : Class → Bool → List Class
  unless_marked aggregator marked = if marked then [] else aggregator ∷ []

  abbrev pub select_one : Class → ℕ → List Class → List Class → Method (List Class)
  select_one aggregator epoch present available s =
      if is_ready f.classes aggregator present available
      then (do
        marked ← on_durable (Durable.is_contribution_marked self.session_id (id_of aggregator))
        pure (unless_marked aggregator marked))
          s
      else (do report_skipped_aggregator aggregator epoch present available; pure []) s

  -- The loop of `_aggregate`: what is to be launched.
  unfoldable pub select_launchable : List Class → ℕ → List Class → List Class → Method (List Class)
  unfolding report_skipped_aggregator
  select_launchable [] epoch present available = pure []
  select_launchable (aggregator ∷ aggregators) epoch present available = do
    chosen ← select_one aggregator epoch present available
    rest ← select_launchable aggregators epoch present available
    pure (chosen ++ rest)

  abbrev pub collected : Result (Unit {0}) → List Error → List Error
  collected (ok _) failures = failures
  collected (raise e) failures = e ∷ failures

  -- `asyncio.gather(…, return_exceptions=True)`, one aggregator after the other: the failures
  unfoldable pub run_each : List Class → List DataPoint → CapabilityView → ℕ → Method (List Error)
  unfolding run_aggregator
  run_each [] view capabilities epoch s = (ok [], s)
  run_each (aggregator ∷ aggregators) view capabilities epoch s =
      let (r, t) = run_aggregator aggregator view capabilities epoch s in
      (do failures ← run_each aggregators view capabilities epoch; pure (collected r failures)) t

  -- `_aggregate`
  unfoldable pub aggregate : ℕ → Method Unit
  unfolding refresh_capabilities select_launchable run_each
  aggregate epoch = do
    renew epoch
    view ← on_mirror (Reads.snapshot self.session_id)
    capabilities ← refresh_capabilities f self view epoch
    λ s.
        (do
          launchable ←
              select_launchable s.aggregators epoch (map (λ d. d.cls) view) (values capabilities)
          failures ← run_each launchable view capabilities epoch
          λ t. (raise_failures failures, t))
          s
